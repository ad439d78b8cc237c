-- ===== src/Sponsor/Outcomes.antt =====
-- The properties of `evaluate_fee_sponsored_settlement_eligibility` in src/lib.rs.
use kurrent.Base.{
  All, All-weaken, Bool, List, Map, String, [], ap, get, inl, inr, map, option_eq, refl, some,
  string_eq, subst, sym, ℕ, ◌↔◌, ◌∙◌, ◌∷◌, ◌≡◌,
}
use kurrent.Bytes.{IsU64}
use kurrent.Eligibility.Decide.{SettlementEligibilityDecision, evaluate_settlement_eligibility}
use kurrent.Eligibility.Outcomes.{evaluate-Decisions}
use kurrent.Eligibility.Order.{All-sort_by_index}
use kurrent.Eligibility.Accepted.{sort_by_index}
use kurrent.Errors.{
  >>=-eq-ok, >>-eq-ok, IsOk, Result, for_each, for_each_iff, ok, ok-injective, ok_or, ok_or_iff,
}
use kurrent.External.{External, fee_policy_hash, settlement_distribution_hash}
use kurrent.Sponsor.{
  FeeSponsoredSettlementDecision, attach_sponsors, evaluate_fee_sponsored_settlement_eligibility,
  insert_sponsors, sponsored, validate_sponsor_evidence,
}
use kurrent.Sponsor.Accounting.{Balances, validate_sponsor_evidence_iff}
use kurrent.Sponsor.Lookup.{
  All-choose, Decisions-All, Found, Given, insert_sponsors-Given, insert_sponsors-All,
}
use kurrent.Types.{
  FeeSponsoredSettlementCandidate, FundingState, KurrentChannelConfig, SettlementEligibilityPolicy,
  SettlementFeePolicy, SettlementSponsorEvidence, SettlementTemplate,
}

-- The decision `f` is `d` with the fee of an entry of the map.
abbrev Attached :
    Map String SettlementSponsorEvidence
    → String
    → String
    → SettlementEligibilityDecision
    → FeeSponsoredSettlementDecision
    → Type 0
Attached m fee_hash distribution_hash d f =
    (f.eligibility ≡ d)
    × (f.fee_policy_hash ≡ fee_hash)
    × (f.settlement_distribution_hash ≡ distribution_hash)
    × ((s : SettlementSponsorEvidence) × (get d.candidate_txid m ≡ some s)
        × (f.sponsor_fee ≡ s.sponsor_fee))

-- The decision's fee is paid by a sponsor that was given for its transaction.
abbrev pub Paid :
    External
    → SettlementTemplate
    → SettlementFeePolicy
    → List FeeSponsoredSettlementCandidate
    → FeeSponsoredSettlementDecision
    → Type 0
Paid x template fee_policy candidates f =
    (f.fee_policy_hash ≡ fee_policy_hash x fee_policy)
    × (f.settlement_distribution_hash ≡ settlement_distribution_hash x template)
    × ((s : SettlementSponsorEvidence) × Given f.eligibility.candidate_txid s candidates
        × (f.sponsor_fee ≡ s.sponsor_fee)
        × Balances fee_policy.max_sponsor_fee s)

none_get : (s : SettlementSponsorEvidence) (txid : String) → ¬ (get txid [] ≡ some s)
unfolding get
none_get s txid h = cc

module _ (m : Map String SettlementSponsorEvidence) (fee_hash distribution_hash : String) where
  attach_sponsors_total :
      (ds : List SettlementEligibilityDecision)
      → All (λ d. Found d.candidate_txid m) ds
      → (fs : List FeeSponsoredSettlementDecision) × (attach_sponsors m fee_hash distribution_hash
            ds
          ≡ ok fs)
  unfolding attach_sponsors
  attach_sponsors_total [] h = ([], refl)
  attach_sponsors_total (d ∷ ds) ((s, found), h) =
      let (fs, e) = attach_sponsors_total ds h in
      (sponsored fee_hash distribution_hash d s ∷ fs, rw (found, e))

  attach_sponsors-Attached :
      (ds : List SettlementEligibilityDecision) (fs : List FeeSponsoredSettlementDecision)
      → attach_sponsors m fee_hash distribution_hash ds ≡ ok fs
      → (map (λ f. f.eligibility) fs ≡ ds)
        × All (λ f. Attached m fee_hash distribution_hash f.eligibility f) fs
  unfolding attach_sponsors
  attach_sponsors-Attached [] fs h =
      subst
        (λ gs.
          (map (λ f. f.eligibility) gs ≡ [])
          × All (λ f. Attached m fee_hash distribution_hash f.eligibility f) gs)
        (ok-injective h) (refl, tt)
  attach_sponsors-Attached (d ∷ ds) fs h =
      let (s, p, h1) = >>=-eq-ok (ok_or (get d.candidate_txid m) _) _ h in
      let (gs, q, h2) = >>=-eq-ok (attach_sponsors m fee_hash distribution_hash ds) _ h1 in
      let (same, all) = attach_sponsors-Attached ds gs q in
      subst
        (λ es.
          (map (λ f. f.eligibility) es ≡ (d ∷ ds))
          × All (λ f. Attached m fee_hash distribution_hash f.eligibility f) es)
        (ok-injective h2)
        (ap (λ es. d ∷ es) same, ((refl, refl, refl, (s, (ok_or_iff _ _ _).0 p, refl)), all))

module _ (x : External) (debug : Bool) (config : KurrentChannelConfig) (funding : FundingState)
    (template : SettlementTemplate) (policy : SettlementEligibilityPolicy)
    (fee_policy : SettlementFeePolicy) (candidates : List FeeSponsoredSettlementCandidate)
    (current_daa : ℕ) where
  abbrev eligible : Result (List SettlementEligibilityDecision)
  eligible =
      evaluate_settlement_eligibility x debug config funding template policy
        (map (λ c. c.eligibility) candidates) current_daa

  abbrev validate : FeeSponsoredSettlementCandidate → Result (Unit {0})
  validate =
      validate_sponsor_evidence x funding template fee_policy (fee_policy_hash x fee_policy)
        (settlement_distribution_hash x template)

  every_Found :
      (ds : List SettlementEligibilityDecision)
      → eligible ≡ ok ds
      → All (λ d. Found d.candidate_txid (insert_sponsors candidates [])) ds
  every_Found ds h =
      let (chosen, c, v) =
        evaluate-Decisions x debug config funding template policy
          (map (λ c. c.eligibility) candidates) current_daa ds h in
      Decisions-All (λ txid. Found txid (insert_sponsors candidates [])) _ _ _ chosen
        (sort_by_index chosen) ds
        (All-sort_by_index _ chosen (
          All-choose _ _ (map (λ c. c.eligibility) candidates) chosen c
            (insert_sponsors-All candidates [])))
        v

  -- The sponsored evaluation returns decisions exactly if the evaluation of the candidates does and
  -- every sponsor's evidence is accepted: no decision lacks its sponsor.
  pub evaluate_fee_sponsored_ok_iff :
      ((fs : List FeeSponsoredSettlementDecision) × (evaluate_fee_sponsored_settlement_eligibility x
            debug config funding template policy fee_policy candidates current_daa
          ≡ ok fs))
      ↔ (((ds : List SettlementEligibilityDecision) × (evaluate_settlement_eligibility x debug
                config funding template policy
                (map (λ c. c.eligibility) candidates)
                current_daa
              ≡ ok ds))
          × All
              (λ c. IsOk (
                validate_sponsor_evidence x funding template fee_policy
                  (fee_policy_hash x fee_policy)
                  (settlement_distribution_hash x template)
                  c))
              candidates)
  unfolding evaluate_fee_sponsored_settlement_eligibility
  evaluate_fee_sponsored_ok_iff = (
    (λ (fs, h).
        let (ds, p, h1) = >>=-eq-ok eligible _ h in
        let (v, _) = >>-eq-ok (for_each validate candidates) _ h1 in
        ((ds, p), (for_each_iff validate candidates).0 v)),
    (λ ((ds, p), v).
        let (fs, e) =
          attach_sponsors_total (insert_sponsors candidates []) (fee_policy_hash x fee_policy)
            (settlement_distribution_hash x template) ds (every_Found ds p) in
        (fs, rw (p, (for_each_iff validate candidates).1 v, e))),
  )

  Given-Balances :
      (txid : String) (s : SettlementSponsorEvidence) (cs : List FeeSponsoredSettlementCandidate)
      → All (λ c. IsU64 c.sponsor.sponsor_input_total) cs
      → All (λ c. IsOk (validate c)) cs
      → Given txid s cs
      → Balances fee_policy.max_sponsor_fee s
  Given-Balances txid s [] u v g = absurd g
  Given-Balances txid s (c ∷ cs) (u, us) (v, vs) (inr g) = Given-Balances txid s cs us vs g
  Given-Balances txid s (c ∷ cs) (u, us) (v, vs) (inl (_, same)) =
      subst (Balances fee_policy.max_sponsor_fee) same
        ((validate_sponsor_evidence_iff x funding template fee_policy _ _ c u).0 v).balances

  -- If the sponsored evaluation returns decisions and the input totals are of 64 bits, then the
  -- decisions are those of the evaluation, each with the hashes of the fee policy and the
  -- distribution, and with a fee that a sponsor given for its transaction pays: one that is positive,
  -- within the policy's maximum, and what the sponsor's inputs leave after its change.
  pub evaluate_fee_sponsored-Paid :
      (fs : List FeeSponsoredSettlementDecision)
      → All (λ c. IsU64 c.sponsor.sponsor_input_total) candidates
      → evaluate_fee_sponsored_settlement_eligibility x debug config funding template policy
          fee_policy candidates current_daa
        ≡ ok fs
      → (evaluate_settlement_eligibility x debug config funding template policy
            (map (λ c. c.eligibility) candidates)
            current_daa
          ≡ ok (map (λ f. f.eligibility) fs))
        × All (Paid x template fee_policy candidates) fs
  unfolding evaluate_fee_sponsored_settlement_eligibility
  evaluate_fee_sponsored-Paid fs fits h =
      let (ds, p, h1) = >>=-eq-ok eligible _ h in
      let (v, h2) = >>-eq-ok (for_each validate candidates) _ h1 in
      let (same, all) =
        attach_sponsors-Attached (insert_sponsors candidates []) (fee_policy_hash x fee_policy)
          (settlement_distribution_hash x template) ds fs h2 in
      let valid = (for_each_iff validate candidates).0 v in
      (p ∙ ap ok (sym same), All-weaken (λ f. paid valid f) fs all)
    where
      paid :
          All (λ c. IsOk (validate c)) candidates
          → (f : FeeSponsoredSettlementDecision)
          → Attached
              (insert_sponsors candidates [])
              (fee_policy_hash x fee_policy)
              (settlement_distribution_hash x template)
              f.eligibility
              f
          → Paid x template fee_policy candidates f
      paid valid f (_, policy_hash, distribution, (s, found, fee)) =
          let given : Given f.eligibility.candidate_txid s candidates =
            elim (insert_sponsors-Given f.eligibility.candidate_txid s candidates [] found) [
              | inl missing ↦ absurd (none_get s f.eligibility.candidate_txid missing)
              | inr g ↦ g
            ] in
          (
            policy_hash,
            distribution,
            (
              s,
              given,
              fee,
              Given-Balances f.eligibility.candidate_txid s candidates fits valid given,
            ),
          )
