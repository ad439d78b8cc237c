-- ===== src/Eligibility/Dedup.antt =====
-- What `dedup_candidates_prefer_later` in src/lib.rs keeps.
use kurrent.Base.{
  All, Bool-cases, List, Map, [], ap, arith, get, inl, inr, nat_eq, option_eq, some, subst, sym,
  values, ℕ, ◌<◌, ◌==◌, ◌↔◌, ◌∷◌, ◌∙◌, ◌≡◌, ◌≤◌, ◌⊎◌,
}
use kurrent.Eligibility.Accepted.{dedup_candidates_prefer_later, dedup_from}
use kurrent.Eligibility.Evidence.{Candidate, index_of, state_of}
use kurrent.Errors.{>>=-eq-ok, ok, ok-injective}
use kurrent.Eligibility.Kept.{All-In, In, Keyed, Tracks, dedup_from-Tracks}

-- `c` is the candidate of the list that was accepted last for its state number.
abbrev pub Latest : Candidate → List Candidate → Type 0
Latest c cs =
    In c cs × ((d : Candidate) → In d cs → state_of d ≡ state_of c → index_of d ≤ index_of c)

-- The state numbers rise strictly.
abbrev pub Rising : List Candidate → Type 0
Rising [] = Unit
Rising (c ∷ cs) = All (λ d. state_of c < state_of d) cs × Rising cs

values_above :
    (n : ℕ) (m : Map ℕ Candidate)
    → Keyed m
    → All (λ e. n < e.0) m
    → All (λ d. n < state_of d) (values m)
values_above n [] h a = tt
values_above n ((k, d) ∷ m) (e, _, h) (l, a) = (subst (λ j. n < j) e l, values_above n m h a)

-- In a keyed map the values are what can be looked up.
values-In :
    (c : Candidate) (m : Map ℕ Candidate)
    → Keyed m
    → In c (values m) ↔ (get (state_of c) m ≡ some c)
unfolding get
values-In c [] h = ((λ p. absurd p), (λ p. cc))
values-In c ((k, d) ∷ m) (e, a, h) =
    let ih = values-In c m h in
    let later : In c (values m) → k < state_of c =
      All-In (λ f. k < state_of f) c (values m) (values_above k m h a) in
    elim (Bool-cases (k == state_of c)) [
      | inl same ↦ rw same (
        (λ p. elim p [ inl q ↦ ap some q | inr i ↦ (let l = later i in absurd (ground arith)) ]),
        (λ p. inl (cc)),
      )
      | inr other ↦ rw other (
        (λ p. elim p [ inl q ↦ (let s = ap state_of q in absurd (ground arith)) | inr i ↦ ih.0 i ]),
        (λ p. inr (ih.1 p)),
      )
    ]

values-Rising : (m : Map ℕ Candidate) → Keyed m → Rising (values m)
values-Rising [] h = tt
values-Rising ((k, d) ∷ m) (e, a, h) =
    (values_above (state_of d) m h (subst (λ j. All (λ f. j < f.0) m) e a), values-Rising m h)

-- What the map holds at the end.
Tracks-Latest :
    (cs : List Candidate) (c : Candidate) (m : Map ℕ Candidate)
    → Tracks (λ d. ⊥ ⊎ In d cs) m
    → (get (state_of c) m ≡ some c) ↔ Latest c cs
Tracks-Latest cs c m (sound, latest) = (forward, backward)
  where
    listed : (d : Candidate) → ⊥ ⊎ In d cs → In d cs
    listed d p = elim p [ inl e ↦ absurd e | inr i ↦ i ]

    forward : get (state_of c) m ≡ some c → Latest c cs
    forward found = (
      listed c (sound (state_of c) c found).0,
      λ d i same.
          let (e, kept, order) = latest d (inr i) in
          let one : e ≡ c = cc in
          elim order [
            | inl l ↦ (let k = ap index_of one in omega arith)
            | inr s ↦ (let k = ap index_of (s ∙ one) in omega arith)
          ],
    )

    backward : Latest c cs → get (state_of c) m ≡ some c
    backward (i, last) =
        let (e, kept, order) = latest c (inr i) in
        let (p, same) = sound (state_of c) e kept in
        let low = last e (listed e p) same in
        elim order [ inl l ↦ absurd (omega arith) | inr s ↦ kept ∙ ap some (sym s) ]

-- If the selection returns candidates, then these are, of all that were given, exactly those that
-- were accepted last for their state number, one for each number, in rising order of the numbers.
pub dedup_candidates_prefer_later-Latest :
    (candidates chosen : List Candidate)
    → dedup_candidates_prefer_later candidates ≡ ok chosen
    → ((c : Candidate) → In c chosen ↔ Latest c candidates) × Rising chosen
unfolding dedup_candidates_prefer_later get
dedup_candidates_prefer_later-Latest candidates chosen h =
    let (m, p, q) = >>=-eq-ok (dedup_from candidates []) _ h in
    let (tracks, keyed) =
      dedup_from-Tracks (λ d. ⊥) candidates [] m ((λ k c e. cc), (λ d e. absurd e)) tt p in
    subst (λ cs. ((c : Candidate) → In c cs ↔ Latest c candidates) × Rising cs) (ok-injective q)
      (
        (λ c.
            let stored = values-In c m keyed in
            let last = Tracks-Latest candidates c m tracks in
            ((λ i. last.0 (stored.0 i)), (λ l. stored.1 (last.1 l)))),
        values-Rising m keyed,
      )
