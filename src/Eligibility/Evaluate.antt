-- ===== src/Eligibility/Evaluate.antt =====
-- What `evaluate_settlement_eligibility` in src/lib.rs accepts and decides.
use kurrent.Base.{
  All, All-iff, Bool, List, [], arith, false, subst, sym, refl, true, ℕ, ◌↔◌, ◌∷◌, ◌≡◌, ◌≤◌,
}
use kurrent.Bytes.{IsU64}
use kurrent.Channel.{validate_channel_update}
use kurrent.Eligibility.Accepted.{check_pairs, choose, sort_by_index, strictly_ordered}
use kurrent.Eligibility.Decide.{
  SettlementEligibilityDecision, debug_assert, decide, decide_all, evaluate_settlement_eligibility,
}
use kurrent.Eligibility.Evidence.{
  Candidate, max_response_window_daa, min_response_window_daa, validate_response_window_daa,
  validate_settlement_candidate_evidence,
}
use kurrent.Eligibility.Order.{Chain, Later, Ordered, check_pairs_iff, sort_by_index-Sorted}
use kurrent.Eligibility.Scoped.{IsEvidence, validate_settlement_candidate_evidence_iff}
use kurrent.Eligibility.Search.{deadline}
use kurrent.Eligibility.Verdicts.{Decides, Decides-behind, decide-Decides, decide_fits}
use kurrent.Errors.{
  >>=-eq-ok, >>-eq-ok, >>_iff, Result, err, panic, IsOk, for_each, for_each_iff, ok, ◌>>◌, ◌>>=◌,
}
use kurrent.External.{External}
use kurrent.Types.{
  FundingState, KurrentChannelConfig, SettlementEligibilityPolicy, SettlementTemplate,
  SameNumberConflictRule,
}

abbrev pub InRange : ℕ → Type 0
InRange n = (min_response_window_daa ≤ n) × (n ≤ max_response_window_daa)

-- Each candidate of the list has its decision, with all of `all` in view.
abbrev pub Decisions :
    ℕ → ℕ → ℕ → List Candidate → List Candidate → List SettlementEligibilityDecision → Type 0
Decisions window tolerance current_daa all [] [] = Unit
Decisions window tolerance current_daa all [] (d ∷ ds) = ⊥
Decisions window tolerance current_daa all (c ∷ cs) [] = ⊥
Decisions window tolerance current_daa all (c ∷ cs) (d ∷ ds) =
    Decides window tolerance current_daa all c d × Decisions window tolerance current_daa all cs ds

validate_response_window_daa_iff :
    (n w : ℕ) → (validate_response_window_daa n ≡ ok w) ↔ (InRange n × (n ≡ w))
unfolding validate_response_window_daa
validate_response_window_daa_iff n w = ground arith

-- Two results in sequence, as a list.
cons_iff :
    {A : Type 0} (m : Result A) (k : Result (List A)) (a : A) (bs : List A)
    → ((m >>= λ d. k >>= λ ds. ok (d ∷ ds)) ≡ ok (a ∷ bs)) ↔ ((m ≡ ok a) × (k ≡ ok bs))
cons_iff (ok d) (ok ds) a bs = ((λ h. (cc, cc)), (λ (p, q). cc))
cons_iff (ok d) (err e) a bs = ((λ h. cc), (λ (p, q). cc))
cons_iff (ok d) panic a bs = ((λ h. cc), (λ (p, q). cc))
cons_iff (err e) k a bs = ((λ h. cc), (λ (p, q). cc))
cons_iff panic k a bs = ((λ h. cc), (λ (p, q). cc))

module _ (window tolerance current_daa : ℕ) where
  Decisions-behind :
      (b : Candidate) (all cs : List Candidate) (ds : List SettlementEligibilityDecision)
      → All (Later b) cs
      → Decisions window tolerance current_daa all cs ds
      → Decisions window tolerance current_daa (b ∷ all) cs ds
  Decisions-behind b all [] [] h v = tt
  Decisions-behind b all [] (d ∷ ds) h v = absurd v
  Decisions-behind b all (c ∷ cs) [] h v = absurd v
  Decisions-behind b all (c ∷ cs) (d ∷ ds) (l, h) (v, vs) = (
    Decides-behind window tolerance current_daa b all c d (omega arith) v,
    Decisions-behind b all cs ds h vs,
  )

  pub decide_all-Decisions :
      (first : Bool) (cs : List Candidate) (ds : List SettlementEligibilityDecision)
      → Ordered cs
      → decide_all window tolerance current_daa first cs ≡ ok ds
      → Decisions window tolerance current_daa cs cs ds
  unfolding decide_all
  decide_all-Decisions first [] [] o h = tt
  decide_all-Decisions first [] (d ∷ ds) o h = cc
  decide_all-Decisions first (c ∷ cs) [] (l, o) h =
      let (d, _, p) = >>=-eq-ok (decide window tolerance current_daa first c cs) _ h in
      let (ds, _, q) = >>=-eq-ok (decide_all window tolerance current_daa false cs) _ p in cc
  decide_all-Decisions first (c ∷ cs) (d ∷ ds) (l, o) h =
      let (p, q) =
        (cons_iff (decide window tolerance current_daa first c cs)
            (decide_all window tolerance current_daa false cs) d ds).0
          h in
      (
        Decides-behind window tolerance current_daa c cs c d (omega arith)
            (decide-Decides window tolerance current_daa first c cs d p),
        Decisions-behind c cs cs ds l (decide_all-Decisions false cs ds o q),
      )

  -- All decisions are made exactly if every deadline fits 64 bits.
  pub decide_all_fits :
      (first : Bool) (cs : List Candidate)
      → ((ds : List SettlementEligibilityDecision) × (decide_all window tolerance current_daa first
              cs
            ≡ ok ds))
        ↔ All (λ c. IsU64 (deadline window tolerance c)) cs
  unfolding decide_all
  decide_all_fits first [] = ((λ h. tt), (λ h. ([], refl)))
  decide_all_fits first (c ∷ cs) =
      let here = decide_fits window tolerance current_daa first c cs in
      let rest = decide_all_fits false cs in
      let both =
        cons_iff (decide window tolerance current_daa first c cs)
          (decide_all window tolerance current_daa false cs) in
      (
        (λ (ds, h).
            let (d, p, k) = >>=-eq-ok (decide window tolerance current_daa first c cs) _ h in
            let (es, q, _) = >>=-eq-ok (decide_all window tolerance current_daa false cs) _ k in
            (here.0 (d, p), rest.0 (es, q))),
        (λ (p, q).
            let (d, e) = here.1 p in let (ds, f) = rest.1 q in (d ∷ ds, (both d ds).1 (e, f))),
      )

Chain-strictly_ordered : (cs : List Candidate) → Chain cs → strictly_ordered cs ≡ true
unfolding strictly_ordered
Chain-strictly_ordered [] h = refl
Chain-strictly_ordered (c ∷ []) h = refl
Chain-strictly_ordered (c ∷ d ∷ ds) (l, _, h) = ground (arith, Chain-strictly_ordered (d ∷ ds) h)

-- The candidate's update passes `validate_channel_update`, and its evidence fits it.
abbrev pub Validated :
    External → KurrentChannelConfig → FundingState → SettlementTemplate → Candidate → Type 0
Validated x config funding template c =
    IsOk (validate_channel_update x config funding c.update template)
    × IsEvidence x config funding c

debug_assert-true : (debug : Bool) → debug_assert debug true ≡ ok tt
unfolding debug_assert
debug_assert-true true = refl
debug_assert-true false = refl

module _ (x : External) (debug : Bool) (config : KurrentChannelConfig) (funding : FundingState)
    (template : SettlementTemplate) (policy : SettlementEligibilityPolicy)
    (candidates : List Candidate) (current_daa : ℕ) where
  abbrev window : ℕ
  window = policy.response_window_daa

  abbrev tolerance : ℕ
  tolerance = policy.reorg_tolerance_daa

  abbrev rule : SameNumberConflictRule
  rule = config.challenge_policy.same_number_conflict_rule

  abbrev evaluated : Result (List SettlementEligibilityDecision)
  evaluated =
      evaluate_settlement_eligibility x debug config funding template policy candidates current_daa

  Validated-iff :
      IsOk (
        for_each
          (λ c.
            validate_channel_update x config funding c.update template
            >> validate_settlement_candidate_evidence x config funding c)
          candidates)
      ↔ All (Validated x config funding template) candidates
  Validated-iff =
      let each = for_each_iff (λ c. validate c >> check c) candidates in
      let every = All-iff _ (Validated x config funding template) candidates passes in
      ((λ h. every.0 (each.0 h)), (λ v. each.1 (every.1 v)))
    where
      validate : Candidate → Result (Unit {0})
      validate c = validate_channel_update x config funding c.update template

      check : Candidate → Result (Unit {0})
      check c = validate_settlement_candidate_evidence x config funding c

      passes :
          (c : Candidate) → IsOk (validate c >> check c) ↔ Validated x config funding template c
      passes c =
          let both = >>_iff (validate c) (check c) in
          let fits = validate_settlement_candidate_evidence_iff x config funding c in
          ((λ h. let (p, q) = both.0 h in (p, fits.0 q)), (λ (p, q). both.1 (p, fits.1 q)))

  pub evaluate_forward :
      (ds : List SettlementEligibilityDecision)
      → evaluated ≡ ok ds
      → InRange window
        × All (Validated x config funding template) candidates
        × ((chosen : List Candidate) × (choose rule candidates ≡ ok chosen)
            × Chain (sort_by_index chosen)
            × (decide_all window tolerance current_daa true (sort_by_index chosen) ≡ ok ds))
  unfolding evaluate_settlement_eligibility
  evaluate_forward ds h =
      let (w, p, h1) = >>=-eq-ok (validate_response_window_daa window) _ h in
      let (range, same) = (validate_response_window_daa_iff window w).0 p in
      let (v, h2) = >>-eq-ok _ _ h1 in
      let (chosen, c, h3) = >>=-eq-ok (choose rule candidates) _ h2 in
      let (_, h4) = >>-eq-ok (debug_assert debug (strictly_ordered (sort_by_index chosen))) _ h3 in
      let (pairs, h5) = >>-eq-ok (check_pairs (sort_by_index chosen)) _ h4 in
      (
        range,
        Validated-iff.0 v,
        (
          chosen,
          c,
          (check_pairs_iff _ (sort_by_index-Sorted chosen)).0 pairs,
          subst (λ n. decide_all n tolerance current_daa true (sort_by_index chosen) ≡ ok ds)
              (sym same) h5,
        ),
      )

  pub evaluate_backward :
      (chosen : List Candidate)
      → InRange window
      → All (Validated x config funding template) candidates
      → choose rule candidates ≡ ok chosen
      → Chain (sort_by_index chosen)
      → evaluated ≡ decide_all window tolerance current_daa true (sort_by_index chosen)
  unfolding evaluate_settlement_eligibility
  evaluate_backward chosen range v c chain = rw (
    (validate_response_window_daa_iff window window).1 (range, refl),
    Validated-iff.1 v,
    c,
    Chain-strictly_ordered (sort_by_index chosen) chain,
    debug_assert-true debug,
    (check_pairs_iff _ (sort_by_index-Sorted chosen)).1 chain,
  )
