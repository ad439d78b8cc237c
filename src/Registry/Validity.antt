-- ===== src/Registry/Validity.antt =====
-- The invariant of `SettlementRegistry` in src/lib.rs, and that its methods keep it.
use kurrent.Base.{
  Option, Option-cases, String, arith, contains, eq_of_not_bne, false, get, inl, inr, list_eq,
  nat_eq, none, option_eq, pair_eq, some, string_eq, subst, true, ℕ, ◌+◌, ◌∙◌, ◌≡◌, ◌≤◌,
}
use kurrent.Errors.{
  >>=-eq-ok, >>_iff, IsOk, fail_if-eq-ok, fail_if_iff, fail_if_ne_iff, non_monotonic_state, ok,
  ok-injective, ok_or, ok_or_iff, unknown_channel,
}
use kurrent.External.{External, domain_state, template_hash}
use kurrent.Normative.Amounts.{checked_add}
use kurrent.Registry.Checks.{check_settlement, check_successor, check_update, is_stale}
use kurrent.Registry.State.{SettlementRegistry, empty_registry}
use kurrent.Types.{LatestStateHeader, SameNumberConflictRule, SettlementTemplate, StateUpdate}

-- The successor that `accept_update_with_rule` admits in a channel with this latest header.
abbrev pub IsNext : Option LatestStateHeader → LatestStateHeader → Type 0
IsNext none header = header.state_number ≡ 0
IsNext (some latest) header =
    (header.state_number ≡ latest.state_number + 1)
    × (header.previous_state_commitment ≡ latest.new_state_commitment)

-- The latest header of a channel stands under its own id, its commitment is the one seen at its
-- number, commitments are seen at exactly the numbers up to it, and a settled channel has one.
pub record IsValid (r : SettlementRegistry) : Type 0 where
  pub latest_own :
      (c : String) (h : LatestStateHeader) → get c r.latest_by_channel ≡ some h → h.channel_id ≡ c
  pub latest_seen :
      (c : String) (h : LatestStateHeader)
      → get c r.latest_by_channel ≡ some h
      → get (c, h.state_number) r.seen_commitments ≡ some h.new_state_commitment
  pub seen_latest :
      (c : String) (n : ℕ) (s : String)
      → get (c, n) r.seen_commitments ≡ some s
      → (h : LatestStateHeader) × (get c r.latest_by_channel ≡ some h) × (n ≤ h.state_number)
  pub all_seen :
      (c : String) (n : ℕ) (h : LatestStateHeader)
      → get c r.latest_by_channel ≡ some h
      → n ≤ h.state_number
      → (s : String) × (get (c, n) r.seen_commitments ≡ some s)
  pub settled_latest :
      (c : String)
      → contains c r.settled_channels ≡ true
      → (h : LatestStateHeader) × (get c r.latest_by_channel ≡ some h)

pub empty_registry-IsValid : IsValid empty_registry
unfolding get contains
empty_registry-IsValid = record {
  latest_own = λ c h e. cc;
  latest_seen = λ c h e. cc;
  seen_latest = λ c n s e. cc;
  all_seen = λ c n h e l. cc;
  settled_latest = λ c e. cc;
}

pub check_successor_lem :
    (o : Option LatestStateHeader) (update : StateUpdate)
    → IsOk (check_successor o update)
    → IsNext o update.header
unfolding check_successor
check_successor_lem none update h = eq_of_not_bne _ _ ((fail_if_iff _ _).0 h)
check_successor_lem (some current) update h =
    let (n, e, h) =
      >>=-eq-ok
        (ok_or (checked_add current.state_number 1)
          (non_monotonic_state current.state_number update.header.state_number))
        _ h in
    let (p, q) = (fail_if_ne_iff _ _ _ _).0 h in
    let same : n ≡ current.state_number + 1 = ground arith in
    (p ∙ same, eq_of_not_bne _ _ ((fail_if_iff _ _).0 q))

-- What the checks in front of a change say.
pub record Passed (r : SettlementRegistry) (update : StateUpdate) : Type 0 where
  pub in_domain : update.header.domain_separator ≡ domain_state
  pub open_channel : contains update.header.channel_id r.settled_channels ≡ false
  pub is_next : IsNext (get update.header.channel_id r.latest_by_channel) update.header

pub check_update-Passed :
    (r : SettlementRegistry) (update : StateUpdate) (rule : SameNumberConflictRule)
    → IsOk (check_update r update rule)
    → Passed r update
unfolding check_update
check_update-Passed r update rule h =
    let (d, h) = (fail_if_ne_iff _ _ _ _).0 h in
    let (o, h) = fail_if-eq-ok _ _ _ h in
    let (s, h) = (>>_iff _ _).0 h in
    record { in_domain = d; open_channel = o; is_next = check_successor_lem _ update h }

-- The successor's number is fresh: no commitment was seen at it.
pub Passed-fresh :
    (r : SettlementRegistry) (update : StateUpdate)
    → IsValid r
    → Passed r update
    → get (update.header.channel_id, update.header.state_number) r.seen_commitments ≡ none
Passed-fresh r update valid passed =
    elim (Option-cases
      (get (update.header.channel_id, update.header.state_number) r.seen_commitments)) [
        | inl e ↦ e
        | inr (s, e) ↦
            (let (h, found, below) = valid.seen_latest _ _ s e in
              let next : IsNext (some h) update.header =
                subst (λ o. IsNext o update.header) found passed.is_next in
              absurd (omega (arith, next.0)))
      ]

-- The header that `settle` goes on with is the channel's latest.
pub check_settlement-latest :
    (x : External) (r : SettlementRegistry) (update : StateUpdate) (template : SettlementTemplate)
    (latest : LatestStateHeader)
    → check_settlement x r update template ≡ ok latest
    → (get update.header.channel_id r.latest_by_channel ≡ some latest)
      × (is_stale latest update.header ≡ false)
      × (update.header.settlement_template_hash ≡ template_hash x template)
      × (contains update.header.channel_id r.settled_channels ≡ false)
unfolding check_settlement
check_settlement-latest x r update template latest h =
    let (l, found, h) =
      >>=-eq-ok
        (ok_or (get update.header.channel_id r.latest_by_channel)
          (unknown_channel update.header.channel_id))
        _ h in
    let (p, h) = fail_if-eq-ok _ _ _ h in
    let (q, h) = fail_if-eq-ok _ _ _ h in
    let (s, h) = fail_if-eq-ok _ _ _ h in
    let same : l ≡ latest = ok-injective h in
    (
      subst (λ l. get update.header.channel_id r.latest_by_channel ≡ some l) same
          ((ok_or_iff _ _ _).0 found),
      subst (λ l. is_stale l update.header ≡ false) same p,
      eq_of_not_bne _ _ q,
      s,
    )
