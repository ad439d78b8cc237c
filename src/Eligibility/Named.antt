-- ===== src/Eligibility/Named.antt =====
-- Which transaction a decision of `evaluate_settlement_eligibility` in src/lib.rs names as the one
-- that displaces.
use kurrent.Base.{Bool, List, [], arith, false, subst, ℕ, ◌∷◌, ◌≡◌}
use kurrent.Eligibility.Decide.{SettlementEligibilityDecision, decide, decide_all}
use kurrent.Eligibility.Evidence.{Candidate}
use kurrent.Errors.{>>=-eq-ok, ok, ok-injective}

-- Two lists of decisions that name the same transactions.
abbrev pub AllNamed :
    List SettlementEligibilityDecision → List SettlementEligibilityDecision → Type 0
AllNamed [] [] = Unit
AllNamed (d ∷ ds) (e ∷ es) = (d.displaced_by ≡ e.displaced_by) × AllNamed ds es
AllNamed _ _ = ⊥

module _ (window tolerance now later : ℕ) where
  -- Who displaces a candidate does not depend on the time.
  decide-displaced_by :
      (first : Bool) (c : Candidate) (rest : List Candidate) (d e : SettlementEligibilityDecision)
      → decide window tolerance now first c rest ≡ ok d
      → decide window tolerance later first c rest ≡ ok e
      → d.displaced_by ≡ e.displaced_by
  unfolding decide
  decide-displaced_by first c rest d e p q = ground arith

  decide_all-cons :
      (at : ℕ) (first : Bool) (c : Candidate) (cs : List Candidate)
      (ds : List SettlementEligibilityDecision)
      → decide_all window tolerance at first (c ∷ cs) ≡ ok ds
      → (d : SettlementEligibilityDecision) × (rest : List SettlementEligibilityDecision) × (d
            ∷ rest
          ≡ ds)
        × (decide window tolerance at first c cs ≡ ok d)
        × (decide_all window tolerance at false cs ≡ ok rest)
  unfolding decide_all
  decide_all-cons at first c cs ds h =
      let (d, p, k) = >>=-eq-ok (decide window tolerance at first c cs) _ h in
      let (rest, q, same) = >>=-eq-ok (decide_all window tolerance at false cs) _ k in
      (d, rest, ok-injective same, p, q)

  pub decide_all-AllNamed :
      (first : Bool) (cs : List Candidate) (ds es : List SettlementEligibilityDecision)
      → decide_all window tolerance now first cs ≡ ok ds
      → decide_all window tolerance later first cs ≡ ok es
      → AllNamed ds es
  unfolding decide_all
  decide_all-AllNamed first [] ds es p q =
      subst (λ v. AllNamed v es) (ok-injective p) (subst (AllNamed []) (ok-injective q) tt)
  decide_all-AllNamed first (c ∷ cs) ds es p q =
      let (d, ds', ds_same, d_here, ds_rest) = decide_all-cons now first c cs ds p in
      let (e, es', es_same, e_here, es_rest) = decide_all-cons later first c cs es q in
      let named : AllNamed (d ∷ ds') (e ∷ es') = (
        decide-displaced_by first c cs d e d_here e_here,
        decide_all-AllNamed false cs ds' es' ds_rest es_rest,
      ) in
      subst (λ v. AllNamed v es) ds_same (subst (AllNamed (d ∷ ds')) es_same named)
