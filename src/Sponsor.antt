-- ===== src/Sponsor.antt =====
-- `validate_sponsor_evidence` and `evaluate_fee_sponsored_settlement_eligibility` of src/lib.rs.
use kurrent.Base.{
  Bool, List, Map, String, [], contains, false, get, insert, leb, list_eq, ltb, map, nat_eq,
  option_eq, some, string_eq, true, ℕ, ◌!=◌, ◌==◌, ◌||◌, ◌∷◌,
}
use kurrent.Eligibility.Decide.{SettlementEligibilityDecision, evaluate_settlement_eligibility}
use kurrent.Eligibility.Evidence.{mismatch}
use kurrent.Errors.{Result, fail_if, for_each, ok, ok_or, ◌>>=◌, ◌>>◌}
use kurrent.External.{External, fee_policy_hash, settlement_distribution_hash, template_hash}
use kurrent.Normative.Amounts.{checked_add}
use kurrent.Types.{
  FeeSponsoredSettlementCandidate, FundingState, KurrentChannelConfig, SettlementEligibilityPolicy,
  SettlementFeePolicy, SettlementSponsorEvidence, SettlementTemplate,
}
pub mod Accounting
pub mod Lookup
pub mod Outcomes
mod Tests

pub record FeeSponsoredSettlementDecision : Type 0 where
  pub eligibility : SettlementEligibilityDecision
  pub sponsor_fee : ℕ
  pub fee_policy_hash : String
  pub settlement_distribution_hash : String

-- `is_empty()` of a list of outpoints.
abbrev pub no_outpoints : List String → Bool
no_outpoints [] = true
no_outpoints (o ∷ os) = false

-- The fee bounds and the balance of the sponsor's amounts.
unfoldable pub check_sponsor_fee : ℕ → SettlementSponsorEvidence → Result (Unit {0})
check_sponsor_fee max_sponsor_fee sponsor = do
  fail_if (sponsor.sponsor_fee == 0) (mismatch "sponsor fee must be non-zero")
  fail_if (ltb max_sponsor_fee sponsor.sponsor_fee)
      (mismatch "sponsor fee exceeds fee policy maximum")
  accounted_total ←
      ok_or (checked_add sponsor.sponsor_change_total sponsor.sponsor_fee)
        (mismatch "sponsor fee accounting overflows u64")
  fail_if (accounted_total != sponsor.sponsor_input_total)
      (mismatch "sponsor input total must equal sponsor change plus sponsor fee")

unfoldable pub validate_sponsor_evidence :
    External
    → FundingState
    → SettlementTemplate
    → SettlementFeePolicy
    → String
    → String
    → FeeSponsoredSettlementCandidate
    → Result (Unit {0})
unfolding check_sponsor_fee
validate_sponsor_evidence x funding template fee_policy fee_hash distribution_hash candidate = do
  let header = candidate.eligibility.update.header
  let sponsor = candidate.sponsor
  fail_if (header.fee_policy_hash != some fee_hash)
      (mismatch "sponsored candidate fee-policy hash does not match policy")
  fail_if (sponsor.candidate_txid != candidate.eligibility.evidence.candidate_txid)
      (mismatch "sponsor evidence candidate txid does not match eligibility evidence")
  fail_if (no_outpoints sponsor.sponsor_input_outpoints)
      (mismatch "sponsor evidence requires at least one external input")
  fail_if (contains funding.funding_outpoint sponsor.sponsor_input_outpoints)
      (mismatch "sponsor input must be external to the channel funding outpoint")
  check_sponsor_fee fee_policy.max_sponsor_fee sponsor
  fail_if
      (sponsor.settlement_template_hash != template_hash x template
        || sponsor.settlement_template_hash != header.settlement_template_hash)
      (mismatch "sponsor settlement-template hash does not match signed state")
  fail_if (sponsor.settlement_distribution_hash != distribution_hash)
      (mismatch "sponsor settlement-distribution hash does not match template outputs")

-- The loop that fills `sponsored_by_txid`.
unfoldable pub insert_sponsors :
    List FeeSponsoredSettlementCandidate
    → Map String SettlementSponsorEvidence
    → Map String SettlementSponsorEvidence
insert_sponsors [] by_txid = by_txid
insert_sponsors (c ∷ cs) by_txid =
    insert_sponsors cs (insert c.eligibility.evidence.candidate_txid c.sponsor by_txid)

abbrev pub sponsored :
    String
    → String
    → SettlementEligibilityDecision
    → SettlementSponsorEvidence
    → FeeSponsoredSettlementDecision
sponsored fee_hash distribution_hash d sponsor = record {
  eligibility = d;
  sponsor_fee = sponsor.sponsor_fee;
  fee_policy_hash = fee_hash;
  settlement_distribution_hash = distribution_hash;
}

-- The final `map` and `collect`.
unfoldable pub attach_sponsors :
    Map String SettlementSponsorEvidence
    → String
    → String
    → List SettlementEligibilityDecision
    → Result (List FeeSponsoredSettlementDecision)
attach_sponsors by_txid fee_hash distribution_hash [] = ok []
attach_sponsors by_txid fee_hash distribution_hash (d ∷ ds) =
    let later = attach_sponsors by_txid fee_hash distribution_hash ds in
    ok_or (get d.candidate_txid by_txid)
      (mismatch "missing sponsor evidence for eligibility decision")
    >>= λ sponsor. later >>= λ rest. ok (sponsored fee_hash distribution_hash d sponsor ∷ rest)

unfoldable pub evaluate_fee_sponsored_settlement_eligibility :
    External
    → Bool
    → KurrentChannelConfig
    → FundingState
    → SettlementTemplate
    → SettlementEligibilityPolicy
    → SettlementFeePolicy
    → List FeeSponsoredSettlementCandidate
    → ℕ
    → Result (List FeeSponsoredSettlementDecision)
unfolding validate_sponsor_evidence insert_sponsors attach_sponsors
evaluate_fee_sponsored_settlement_eligibility x debug config funding template policy fee_policy
      candidates current_daa =
    do
      decisions ←
          evaluate_settlement_eligibility x debug config funding template policy
            (map (λ c. c.eligibility) candidates) current_daa
      let fee_hash = fee_policy_hash x fee_policy
      let distribution_hash = settlement_distribution_hash x template
      for_each (validate_sponsor_evidence x funding template fee_policy fee_hash distribution_hash)
          candidates
      attach_sponsors (insert_sponsors candidates []) fee_hash distribution_hash decisions
