-- ===== src/Sponsor/Lookup.antt =====
-- The map from transactions to sponsor evidence in src/lib.rs, and the decisions looked up in it.
use kurrent.Base.{
  All, List, Map, String, [], get, get-insert-cases, get-insert_self, ℕ, inl, inr, insert, map,
  option_eq, refl, some, string_eq, subst, sym, ◌∙◌, ◌∷◌, ◌≡◌, ◌⊎◌,
}
use kurrent.Eligibility.Accepted.{choose}
use kurrent.Eligibility.Decide.{SettlementEligibilityDecision}
use kurrent.Eligibility.Dedup.{dedup_candidates_prefer_later-Latest}
use kurrent.Eligibility.Evaluate.{Decisions}
use kurrent.Eligibility.Evidence.{Candidate}
use kurrent.Eligibility.Kept.{In, All-In}
use kurrent.Errors.{ok, ok-injective}
use kurrent.Sponsor.{insert_sponsors}
use kurrent.Types.{
  FeeSponsoredSettlementCandidate, SameNumberConflictRule, SettlementSponsorEvidence, prefer_later,
  reject_conflict,
}

-- The evidence was given with a candidate for the transaction.
abbrev pub Given :
    String → SettlementSponsorEvidence → List FeeSponsoredSettlementCandidate → Type 0
Given txid s [] = ⊥
Given txid s (c ∷ cs) =
    ((c.eligibility.evidence.candidate_txid ≡ txid) × (c.sponsor ≡ s)) ⊎ Given txid s cs

abbrev pub Found : String → Map String SettlementSponsorEvidence → Type 0
Found txid m = (s : SettlementSponsorEvidence) × (get txid m ≡ some s)

-- What is found was there, or was given.
pub insert_sponsors-Given :
    (txid : String) (s : SettlementSponsorEvidence) (cs : List FeeSponsoredSettlementCandidate)
    (m : Map String SettlementSponsorEvidence)
    → get txid (insert_sponsors cs m) ≡ some s
    → (get txid m ≡ some s) ⊎ Given txid s cs
unfolding insert_sponsors
insert_sponsors-Given txid s [] m h = inl h
insert_sponsors-Given txid s (c ∷ cs) m h =
    elim (insert_sponsors-Given txid s cs (insert c.eligibility.evidence.candidate_txid c.sponsor m)
      h) [
        | inr g ↦ inr (inr g)
        | inl f ↦ elim (get-insert-cases c.eligibility.evidence.candidate_txid txid c.sponsor m) [
          | inl (same, now) ↦ inr (inl (same, cc))
          | inr (other, old) ↦ inl (sym old ∙ f)
        ]
      ]

insert_sponsors_keeps :
    (txid : String) (cs : List FeeSponsoredSettlementCandidate)
    (m : Map String SettlementSponsorEvidence)
    → Found txid m
    → Found txid (insert_sponsors cs m)
unfolding insert_sponsors
insert_sponsors_keeps txid [] m h = h
insert_sponsors_keeps txid (c ∷ cs) m (s, h) =
    insert_sponsors_keeps txid cs (insert c.eligibility.evidence.candidate_txid c.sponsor m)
      (elim (get-insert-cases c.eligibility.evidence.candidate_txid txid c.sponsor m) [
        | inl (same, now) ↦ (c.sponsor, now)
        | inr (other, old) ↦ (s, old ∙ h)
      ])

-- The transaction of every candidate is found.
pub insert_sponsors-All :
    (cs : List FeeSponsoredSettlementCandidate) (m : Map String SettlementSponsorEvidence)
    → All
        (λ c. Found c.evidence.candidate_txid (insert_sponsors cs m))
        (map (λ c. c.eligibility) cs)
unfolding insert_sponsors
insert_sponsors-All [] m = tt
insert_sponsors-All (c ∷ cs) m =
    let txid = c.eligibility.evidence.candidate_txid in
    (
      insert_sponsors_keeps txid cs (insert txid c.sponsor m)
          (c.sponsor, get-insert_self txid c.sponsor m),
      insert_sponsors-All cs (insert txid c.sponsor m),
    )

All-of_In :
    (P : Candidate → Type 0) (cs : List Candidate) → ((c : Candidate) → In c cs → P c) → All P cs
All-of_In P [] h = tt
All-of_In P (c ∷ cs) h = (h c (inl refl), All-of_In P cs (λ d i. h d (inr i)))

-- What is chosen was given.
pub All-choose :
    (P : Candidate → Type 0) (rule : SameNumberConflictRule) (cs chosen : List Candidate)
    → choose rule cs ≡ ok chosen
    → All P cs
    → All P chosen
unfolding choose
All-choose P reject_conflict cs chosen h a = subst (All P) (ok-injective h) a
All-choose P prefer_later cs chosen h a =
    let (kept, _) = dedup_candidates_prefer_later-Latest cs chosen h in
    All-of_In P chosen (λ c i. All-In P c cs a ((kept c).0 i).0)

pub Decisions-All :
    (Q : String → Type 0) (window tolerance now : ℕ) (all cs : List Candidate)
    (ds : List SettlementEligibilityDecision)
    → All (λ c. Q c.evidence.candidate_txid) cs
    → Decisions window tolerance now all cs ds
    → All (λ d. Q d.candidate_txid) ds
Decisions-All Q w t now all [] [] a v = tt
Decisions-All Q w t now all [] (d ∷ ds) a v = absurd v
Decisions-All Q w t now all (c ∷ cs) [] a v = absurd v
Decisions-All Q w t now all (c ∷ cs) (d ∷ ds) (p, a) (v, vs) =
    (subst Q (sym v.of_candidate) p, Decisions-All Q w t now all cs ds a vs)
