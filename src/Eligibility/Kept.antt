-- ===== src/Eligibility/Kept.antt =====
-- The map that `dedup_candidates_prefer_later` of src/lib.rs keeps its candidates in.
use kurrent.Base.{
  All, Bool-cases, List, Map, Option, [], ap, arith, get, inl, inr, ltb, nat_eq, none, option_eq,
  refl, some, subst, sym, ℕ, ◌<◌, ◌==◌, ◌↔◌, ◌∷◌, ◌∙◌, ◌≡◌, ◌≢◌, ◌⊎◌, if◌then◌else◌,
}
use kurrent.Eligibility.Accepted.{dedup_from, insert_ordered, keep_later}
use kurrent.Eligibility.Evidence.{Candidate, index_of, state_of}
use kurrent.Eligibility.Order.{Any}
use kurrent.Errors.{>>=-eq-ok, fail_if-eq-ok, ok, ok-injective}

abbrev pub In : Candidate → List Candidate → Type 0
In c cs = Any (λ d. d ≡ c) cs

-- A map in key order, each entry under its candidate's state number.
abbrev pub Keyed : Map ℕ Candidate → Type 0
Keyed [] = Unit
Keyed ((k, c) ∷ m) = (k ≡ state_of c) × All (λ e. k < e.0) m × Keyed m

get-insert_ordered :
    (n k : ℕ) (c : Candidate) (m : Map ℕ Candidate)
    → get k (insert_ordered n c m) ≡ (if n == k then some c else get k m)
unfolding get insert_ordered
get-insert_ordered n k c [] = refl
get-insert_ordered n k c ((j, d) ∷ m) = ground (arith, get-insert_ordered n k c m)

All-insert_ordered :
    (P : ℕ × Candidate → Type 0) (n : ℕ) (c : Candidate) (m : Map ℕ Candidate)
    → P (n, c)
    → All P m
    → All P (insert_ordered n c m)
unfolding insert_ordered
All-insert_ordered P n c [] p h = (p, tt)
All-insert_ordered P n c ((j, d) ∷ m) p (q, h) = elim (Bool-cases (ltb n j)) [
  | inl low ↦ rw low (p, (q, h))
  | inr high ↦ elim (Bool-cases (n == j)) [
    | inl same ↦ rw (high, same) (p, h)
    | inr other ↦ rw (high, other) (q, All-insert_ordered P n c m p h)
  ]
]

above : (n k : ℕ) (m : Map ℕ Candidate) → n < k → All (λ e. k < e.0) m → All (λ e. n < e.0) m
above n k [] l h = tt
above n k (e ∷ m) l (p, h) = (omega arith, above n k m l h)

insert_ordered-Keyed :
    (c : Candidate) (m : Map ℕ Candidate) → Keyed m → Keyed (insert_ordered (state_of c) c m)
unfolding insert_ordered
insert_ordered-Keyed c [] h = (refl, tt, tt)
insert_ordered-Keyed c ((j, d) ∷ m) (e, a, h) = elim (Bool-cases (ltb (state_of c) j)) [
  | inl low ↦ rw low (refl, (ground arith, above (state_of c) j m (ground arith) a), (e, a, h))
  | inr high ↦ elim (Bool-cases (state_of c == j)) [
    | inl same ↦
        rw (high, same)
          (
            refl,
            subst (λ k. All (λ e. k < e.0) m) (sym ((nat_eq.beq_iff (state_of c) j).0 same)) a,
            h,
          )
    | inr other ↦
        rw (high, other)
          (
            e,
            All-insert_ordered (λ e. j < e.0) (state_of c) c m (ground arith) a,
            insert_ordered-Keyed c m h,
          )
  ]
]

insert_ordered-cases :
    (n k : ℕ) (c : Candidate) (m : Map ℕ Candidate)
    → ((n ≡ k) × (get k (insert_ordered n c m) ≡ some c))
      ⊎ ((n ≢ k) × (get k (insert_ordered n c m) ≡ get k m))
insert_ordered-cases n k c m = ground (arith, get-insert_ordered n k c m)

-- The map holds, of the candidates with the property, the last one for each state number.
abbrev pub Tracks : (Candidate → Type 0) → Map ℕ Candidate → Type 0
Tracks P m =
    ((k : ℕ) (c : Candidate) → get k m ≡ some c → P c × (state_of c ≡ k))
    × ((d : Candidate)
        → P d
        → (e : Candidate) × (get (state_of d) m ≡ some e) × ((index_of d < index_of e) ⊎ (d ≡ e)))

Tracks-insert :
    (P : Candidate → Type 0) (c : Candidate) (m : Map ℕ Candidate)
    → ((e : Candidate) → get (state_of c) m ≡ some e → index_of e < index_of c)
    → Tracks P m
    → Tracks (λ d. P d ⊎ (c ≡ d)) (insert_ordered (state_of c) c m)
Tracks-insert P c m newer (sound, latest) = (
  (λ k x h. elim (insert_ordered-cases (state_of c) k c m) [
    | inl (same, now) ↦ (let e : c ≡ x = cc in (inr e, ap state_of (sym e) ∙ same))
    | inr (other, old) ↦ (let (p, q) = sound k x (sym old ∙ h) in (inl p, q))
  ]),
  (λ d p. elim p [
    | inl q ↦ kept d q
    | inr same ↦
        subst
          (λ d.
            (e : Candidate) × (get (state_of d) (insert_ordered (state_of c) c m) ≡ some e)
            × ((index_of d < index_of e) ⊎ (d ≡ e)))
          same (c, get-insert_ordered_self, inr refl)
  ]),
)
  where
    get-insert_ordered_self : get (state_of c) (insert_ordered (state_of c) c m) ≡ some c
    get-insert_ordered_self = ground (arith, get-insert_ordered (state_of c) (state_of c) c m)

    kept :
        (d : Candidate)
        → P d
        → (e : Candidate) × (get (state_of d) (insert_ordered (state_of c) c m) ≡ some e)
          × ((index_of d < index_of e) ⊎ (d ≡ e))
    kept d q =
        let (e, found, order) = latest d q in
        elim (insert_ordered-cases (state_of c) (state_of d) c m) [
          | inl (same, now) ↦
              (let less = newer e (ap (λ k. get k m) same ∙ found) in
                (c, now, inl (elim order [ inl l ↦ omega arith | inr s ↦ (rw s less) ])))
          | inr (other, old) ↦ (e, old ∙ found, order)
        ]

Tracks-skip :
    (P : Candidate → Type 0) (c e : Candidate) (m : Map ℕ Candidate)
    → get (state_of c) m ≡ some e
    → index_of c < index_of e
    → Tracks P m
    → Tracks (λ d. P d ⊎ (c ≡ d)) m
Tracks-skip P c e m found older (sound, latest) = (
  (λ k x h. let (p, q) = sound k x h in (inl p, q)),
  (λ d p. elim p [
    | inl q ↦ latest d q
    | inr same ↦
        subst
          (λ d.
            (e : Candidate) × (get (state_of d) m ≡ some e) × ((index_of d < index_of e) ⊎ (d ≡ e)))
          same (e, found, inl older)
  ]),
)

-- The two ways in which a round goes on.
keep_later-cases :
    (o : Option Candidate) (c : Candidate) (m n : Map ℕ Candidate)
    → keep_later o c m ≡ ok n
    → ((n ≡ insert_ordered (state_of c) c m)
        × ((e : Candidate) → o ≡ some e → index_of e < index_of c))
      ⊎ ((n ≡ m) × ((e : Candidate) × (o ≡ some e) × (index_of c < index_of e)))
unfolding keep_later
keep_later-cases none c m n h = inl (sym (ok-injective h), (λ e p. cc))
keep_later-cases (some e) c m n h =
    let (apart, k) = fail_if-eq-ok (index_of e == index_of c) _ _ h in
    elim (Bool-cases (ltb (index_of e) (index_of c))) [
      | inl low ↦ inl (
        sym (ok-injective (rw low at k)),
        (λ d p. let same : e ≡ d = cc in subst (λ f. index_of f < index_of c) same (ground arith)),
      )
      | inr high ↦ inr (sym (ok-injective (rw high at k)), (e, refl, ground arith))
    ]

Tracks-iff :
    (P Q : Candidate → Type 0) (m : Map ℕ Candidate)
    → ((d : Candidate) → P d ↔ Q d)
    → Tracks P m
    → Tracks Q m
Tracks-iff P Q m e (sound, latest) =
    ((λ k c h. let (p, s) = sound k c h in ((e c).0 p, s)), (λ d q. latest d ((e d).1 q)))

keep_later-Tracks :
    (P : Candidate → Type 0) (c : Candidate) (m n : Map ℕ Candidate)
    → Tracks P m
    → Keyed m
    → keep_later (get (state_of c) m) c m ≡ ok n
    → Tracks (λ d. P d ⊎ (c ≡ d)) n × Keyed n
keep_later-Tracks P c m n t k h = elim (keep_later-cases (get (state_of c) m) c m n h) [
  | inl (same, newer) ↦
      subst (λ b. Tracks (λ d. P d ⊎ (c ≡ d)) b × Keyed b) (sym same)
        (Tracks-insert P c m newer t, insert_ordered-Keyed c m k)
  | inr (same, (e, found, older)) ↦
      subst (λ b. Tracks (λ d. P d ⊎ (c ≡ d)) b × Keyed b) (sym same)
        (Tracks-skip P c e m found older t, k)
]

or_assoc : {A B C : Type 0} → ((A ⊎ B) ⊎ C) ↔ (A ⊎ (B ⊎ C))
or_assoc = (
  (λ h. elim h [ inl (inl a) ↦ inl a | inl (inr b) ↦ inr (inl b) | inr c ↦ inr (inr c) ]),
  (λ h. elim h [ inl a ↦ inl (inl a) | inr (inl b) ↦ inl (inr b) | inr (inr c) ↦ inr c ]),
)

pub dedup_from-Tracks :
    (P : Candidate → Type 0) (cs : List Candidate) (m n : Map ℕ Candidate)
    → Tracks P m
    → Keyed m
    → dedup_from cs m ≡ ok n
    → Tracks (λ d. P d ⊎ In d cs) n × Keyed n
unfolding dedup_from
dedup_from-Tracks P [] m n t k h =
    subst (λ b. Tracks (λ d. P d ⊎ ⊥) b × Keyed b) (ok-injective h)
      (
        Tracks-iff P (λ d. P d ⊎ ⊥) m
            (λ d. ((λ p. inl p), (λ p. elim p [ inl q ↦ q | inr r ↦ absurd r ]))) t,
        k,
      )
dedup_from-Tracks P (c ∷ cs) m n t k h =
    let (b, p, q) = >>=-eq-ok (keep_later (get (state_of c) m) c m) _ h in
    let (u, l) = keep_later-Tracks P c m b t k p in
    let (v, j) = dedup_from-Tracks (λ d. P d ⊎ (c ≡ d)) cs b n u l q in
    (Tracks-iff (λ d. (P d ⊎ (c ≡ d)) ⊎ In d cs) (λ d. P d ⊎ In d (c ∷ cs)) n (λ d. or_assoc) v, j)

pub All-In :
    (P : Candidate → Type 0) (c : Candidate) (cs : List Candidate) → All P cs → In c cs → P c
All-In P c [] h i = absurd i
All-In P c (d ∷ cs) (p, h) (inl same) = subst P same p
All-In P c (d ∷ cs) (p, h) (inr i) = All-In P c cs h i
