-- ===== src/Eligibility/Accepted.antt =====
-- The candidates in accepted order, in src/lib.rs: one for each state number under `PreferLater`,
-- sorted by index, and the checks on neighbours.
use kurrent.Base.{
  Bool, List, Map, Option, [], get, if◌then◌else◌, leb, list_eq, ltb, nat_eq, none, option_eq, some,
  string_eq, true, values, ℕ, ◌!=◌, ◌&&◌, ◌+◌, ◌==◌, ◌∷◌,
}
use kurrent.Errors.{
  Result, fail_if, non_monotonic_state, ok, previous_state_mismatch, same_number_conflict, ◌>>=◌,
  ◌>>◌,
}
use kurrent.Types.{SameNumberConflictRule, prefer_later, reject_conflict}
use kurrent.Eligibility.Evidence.{Candidate, daa_of, index_of, mismatch, state_of}

-- `BTreeMap::insert` at a numeric key: the entries stay in key order.
unfoldable pub insert_ordered : ℕ → Candidate → Map ℕ Candidate → Map ℕ Candidate
insert_ordered n c [] = (n, c) ∷ []
insert_ordered n c ((k, d) ∷ rest) =
    let later = insert_ordered n c rest in
    if ltb n k then (n, c) ∷ (k, d) ∷ rest else (if n == k then (n, c) ∷ rest else (k, d) ∷ later)

-- One round of the loop of `dedup_candidates_prefer_later`, with the entry found.
unfoldable pub keep_later :
    Option Candidate → Candidate → Map ℕ Candidate → Result (Map ℕ Candidate)
unfolding insert_ordered
keep_later none c by_state = ok (insert_ordered (state_of c) c by_state)
keep_later (some existing) c by_state = do
  fail_if (index_of existing == index_of c) (same_number_conflict (state_of c))
  ok (
      if ltb (index_of existing) (index_of c)
      then insert_ordered (state_of c) c by_state
      else by_state)

unfoldable pub dedup_from : List Candidate → Map ℕ Candidate → Result (Map ℕ Candidate)
unfolding keep_later
dedup_from [] by_state = ok by_state
dedup_from (c ∷ cs) by_state = keep_later (get (state_of c) by_state) c by_state >>= dedup_from cs

unfoldable pub dedup_candidates_prefer_later : List Candidate → Result (List Candidate)
unfolding dedup_from
dedup_candidates_prefer_later candidates = do
  by_state ← dedup_from candidates []
  ok (values by_state)

-- The `match` on the conflict rule.
unfoldable pub choose : SameNumberConflictRule → List Candidate → Result (List Candidate)
choose reject_conflict candidates = ok candidates
choose prefer_later candidates = dedup_candidates_prefer_later candidates

-- `sort_by_key`, which is stable: an earlier candidate stays in front of one with the same key.
unfoldable pub insert_by_index : Candidate → List Candidate → List Candidate
insert_by_index c [] = c ∷ []
insert_by_index c (d ∷ ds) =
    if leb (index_of c) (index_of d) then c ∷ d ∷ ds else d ∷ insert_by_index c ds

unfoldable pub sort_by_index : List Candidate → List Candidate
unfolding insert_by_index
sort_by_index [] = []
sort_by_index (c ∷ cs) = insert_by_index c (sort_by_index cs)

-- The condition of the `debug_assert!`.
unfoldable pub strictly_ordered : List Candidate → Bool
strictly_ordered [] = true
strictly_ordered (c ∷ []) = true
strictly_ordered (c ∷ d ∷ ds) = ltb (index_of c) (index_of d) && strictly_ordered (d ∷ ds)

-- The body of the `windows(2)` loop.
unfoldable pub check_pair : Candidate → Candidate → Result (Unit {0})
check_pair previous next = do
  fail_if (index_of previous == index_of next)
      (mismatch "candidate accepted-order indices must be unique")
  fail_if (ltb (daa_of next) (daa_of previous))
      (mismatch "candidate DAA scores must not go backwards in accepted order")
  fail_if (state_of next == state_of previous) (same_number_conflict (state_of next))
  fail_if (leb (state_of next) (state_of previous))
      (non_monotonic_state (state_of previous) (state_of next))
  fail_if
      (state_of next == state_of previous + 1
        && next.update.header.previous_state_commitment
          != previous.update.header.new_state_commitment)
      (previous_state_mismatch previous.update.header.new_state_commitment
        next.update.header.previous_state_commitment)

unfoldable pub check_pairs : List Candidate → Result (Unit {0})
unfolding check_pair
check_pairs [] = ok tt
check_pairs (c ∷ []) = ok tt
check_pairs (c ∷ d ∷ ds) = check_pair c d >> check_pairs (d ∷ ds)
