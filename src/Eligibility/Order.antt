-- ===== src/Eligibility/Order.antt =====
-- The accepted order of the candidates in src/lib.rs: sorting by index, and what the checks on
-- neighbours say of all pairs.
use kurrent.Base.{
  All, Bool-cases, List, [], arith, bne_iff, inl, inr, leb, leb→le, list_eq, nat_eq, option_eq,
  refl, string_eq, ◌+◌, ◌<◌, ◌↔◌, ◌∷◌, ◌≡◌, ◌≤◌, ◌⊎◌,
}
use kurrent.Eligibility.Accepted.{check_pair, check_pairs, insert_by_index, sort_by_index}
use kurrent.Eligibility.Evidence.{Candidate, daa_of, index_of, state_of}
use kurrent.Errors.{>>_iff, IsOk}

-- The second candidate was accepted after the first, and holds a higher state.
abbrev pub Later : Candidate → Candidate → Type 0
Later a b = (index_of a < index_of b) × (daa_of a ≤ daa_of b) × (state_of a < state_of b)

-- A direct successor names its predecessor's commitment.
abbrev pub Linked : Candidate → Candidate → Type 0
Linked a b =
    state_of b ≡ state_of a + 1
    → b.update.header.previous_state_commitment ≡ a.update.header.new_state_commitment

-- Neighbours are in order and linked.
abbrev pub Chain : List Candidate → Type 0
Chain [] = Unit
Chain (c ∷ []) = Unit
Chain (c ∷ d ∷ ds) = Later c d × Linked c d × Chain (d ∷ ds)

-- Every pair is in order.
abbrev pub Ordered : List Candidate → Type 0
Ordered [] = Unit
Ordered (c ∷ cs) = All (Later c) cs × Ordered cs

abbrev pub Sorted : List Candidate → Type 0
Sorted [] = Unit
Sorted (c ∷ cs) = All (λ d. index_of c ≤ index_of d) cs × Sorted cs

-- Some candidate of the list has the property.
abbrev pub Any : (Candidate → Type 0) → List Candidate → Type 0
Any P [] = ⊥
Any P (c ∷ cs) = P c ⊎ Any P cs

Later-trans :
    (a b : Candidate) (cs : List Candidate) → Later a b → All (Later b) cs → All (Later a) cs
Later-trans a b [] h t = tt
Later-trans a b (c ∷ cs) h (p, t) = (omega arith, Later-trans a b cs h t)

pub Chain-Ordered : (cs : List Candidate) → Chain cs → Ordered cs
Chain-Ordered [] h = tt
Chain-Ordered (c ∷ []) h = (tt, tt)
Chain-Ordered (c ∷ d ∷ ds) (l, _, h) =
    let (after, rest) = Chain-Ordered (d ∷ ds) h in ((l, Later-trans c d ds l after), (after, rest))

-- Sorting keeps what is said of all candidates, or of some.
All-insert_by_index :
    (P : Candidate → Type 0) (c : Candidate) (ds : List Candidate)
    → P c
    → All P ds
    → All P (insert_by_index c ds)
unfolding insert_by_index
All-insert_by_index P c [] p h = (p, tt)
All-insert_by_index P c (d ∷ ds) p (q, h) = elim (Bool-cases (leb (index_of c) (index_of d))) [
  | inl low ↦ rw low (p, (q, h))
  | inr high ↦ rw high (q, All-insert_by_index P c ds p h)
]

pub All-sort_by_index :
    (P : Candidate → Type 0) (cs : List Candidate) → All P cs → All P (sort_by_index cs)
unfolding sort_by_index
All-sort_by_index P [] h = tt
All-sort_by_index P (c ∷ cs) (p, h) =
    All-insert_by_index P c (sort_by_index cs) p (All-sort_by_index P cs h)

-- A rest that says the same, and two first alternatives that change places.
or_rest : {A B C : Type 0} → B ↔ C → (A ⊎ B) ↔ (A ⊎ C)
or_rest e = (
  (λ h. elim h [ inl p ↦ inl p | inr q ↦ inr (e.0 q) ]),
  (λ h. elim h [ inl p ↦ inl p | inr q ↦ inr (e.1 q) ]),
)

swap_or : {A B C : Type 0} → A ⊎ (B ⊎ C) → B ⊎ (A ⊎ C)
swap_or (inl p) = inr (inl p)
swap_or (inr (inl q)) = inl q
swap_or (inr (inr r)) = inr (inr r)

Any-insert_by_index :
    (P : Candidate → Type 0) (c : Candidate) (ds : List Candidate)
    → Any P (insert_by_index c ds) ↔ (P c ⊎ Any P ds)
unfolding insert_by_index
Any-insert_by_index P c [] = ((λ h. h), (λ h. h))
Any-insert_by_index P c (d ∷ ds) =
    let ih : (P d ⊎ Any P (insert_by_index c ds)) ↔ (P d ⊎ (P c ⊎ Any P ds)) =
      or_rest (Any-insert_by_index P c ds) in
    elim (Bool-cases (leb (index_of c) (index_of d))) [
      | inl low ↦ rw low ((λ h. h), (λ h. h))
      | inr high ↦ rw high ((λ h. swap_or (ih.0 h)), (λ h. ih.1 (swap_or h)))
    ]

pub Any-sort_by_index :
    (P : Candidate → Type 0) (cs : List Candidate) → Any P (sort_by_index cs) ↔ Any P cs
unfolding sort_by_index
Any-sort_by_index P [] = ((λ h. h), (λ h. h))
Any-sort_by_index P (c ∷ cs) =
    let placed = Any-insert_by_index P c (sort_by_index cs) in
    let rest : (P c ⊎ Any P (sort_by_index cs)) ↔ (P c ⊎ Any P cs) =
      or_rest (Any-sort_by_index P cs) in
    ((λ h. rest.0 (placed.0 h)), (λ h. placed.1 (rest.1 h)))

below-All :
    (c d : Candidate) (ds : List Candidate)
    → index_of c ≤ index_of d
    → All (λ e. index_of d ≤ index_of e) ds
    → All (λ e. index_of c ≤ index_of e) ds
below-All c d [] l h = tt
below-All c d (e ∷ ds) l (p, h) = (omega arith, below-All c d ds l h)

insert_by_index-Sorted :
    (c : Candidate) (ds : List Candidate) → Sorted ds → Sorted (insert_by_index c ds)
unfolding insert_by_index
insert_by_index-Sorted c [] h = (tt, tt)
insert_by_index-Sorted c (d ∷ ds) (p, h) = elim (Bool-cases (leb (index_of c) (index_of d))) [
  | inl low ↦ (let l = leb→le _ _ low in rw low ((l, below-All c d ds l p), (p, h)))
  | inr high ↦ rw high (
    All-insert_by_index (λ e. index_of d ≤ index_of e) c ds (ground arith) p,
    insert_by_index-Sorted c ds h,
  )
]

-- The candidates are sorted by accepted-order index.
pub sort_by_index-Sorted : (cs : List Candidate) → Sorted (sort_by_index cs)
unfolding sort_by_index
sort_by_index-Sorted [] = tt
sort_by_index-Sorted (c ∷ cs) =
    insert_by_index-Sorted c (sort_by_index cs) (sort_by_index-Sorted cs)

-- Two neighbours that are sorted pass the checks exactly if they are in order and linked.
check_pair_iff :
    (a b : Candidate) → index_of a ≤ index_of b → IsOk (check_pair a b) ↔ (Later a b × Linked a b)
unfolding check_pair
check_pair_iff a b h =
    ground (
      arith,
      bne_iff b.update.header.previous_state_commitment a.update.header.new_state_commitment,
    )

pub check_pairs_iff : (cs : List Candidate) → Sorted cs → IsOk (check_pairs cs) ↔ Chain cs
unfolding check_pairs
check_pairs_iff [] h = ((λ p. tt), (λ p. refl))
check_pairs_iff (c ∷ []) h = ((λ p. tt), (λ p. refl))
check_pairs_iff (c ∷ d ∷ ds) ((low, _), h) =
    let here = check_pair_iff c d low in
    let rest = check_pairs_iff (d ∷ ds) h in
    (
      (λ p.
          let (q, r) = (>>_iff (check_pair c d) (check_pairs (d ∷ ds))).0 p in
          let (l, k) = here.0 q in (l, k, rest.0 r)),
      (λ (l, k, r). (>>_iff (check_pair c d) (check_pairs (d ∷ ds))).1 (here.1 (l, k), rest.1 r)),
    )
