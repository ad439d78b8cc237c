-- ===== src/Driver/Sponsored.antt =====
-- `verify_fee_sponsored_displacement_semantics` of drivers/kaspa-devnet/src/main.rs, in its groups of
-- checks.
use kurrent.Base.{
  Bool, List, Option, String, [], false, if◌then◌else◌, length, ltb, nat_eq, none, show_u64, some,
  string_eq, true, ℕ, ◌!=◌, ◌&&◌, ◌+◌, ◌<>◌, ◌==◌, ◌∷◌,
}
use kurrent.Driver.{Answer, CheckEntry, Host, Transaction, ok, ok_or, require, ◌>>=◌, ◌>>◌}
use kurrent.Driver.Eligibility.{Models, evaluation_answer, same_decision, same_status, status_text}
use kurrent.Driver.Lane.{SeqCommit}
use kurrent.Driver.Markers.{
  check_recorded_lane, checked_u64_sum, marker_events, proof_after_windows, sponsored_markers,
}
use kurrent.Driver.Require.{
  require_eq, require_input_outpoint, require_output_count, require_output_value, require_text,
  required_str, required_typed, required_u64, required_value,
}
use kurrent.Eligibility.Decide.{SettlementEligibilityStatus, displaced, eligible_to_finalise}
use kurrent.External.{External, fee_policy_hash, settlement_distribution_hash, template_hash}
use kurrent.Sponsor.{FeeSponsoredSettlementDecision, evaluate_fee_sponsored_settlement_eligibility}
use kurrent.Types.{
  FundingState, KurrentChannelConfig, SettlementEligibilityPolicy, SettlementFeePolicy,
  SettlementTemplate,
}
pub mod Accounting
pub mod Evidence
pub mod Laws
pub mod Statuses
pub mod Tests
pub mod Verifier

abbrev pub sponsored_entry : CheckEntry
sponsored_entry = record {
  id = "fee_sponsored_displacement_evidence";
  status = "passed";
  details =
      "sponsored marker fee accounting is bound to the signed fee policy, the stale lower marker pays a higher sponsor fee, and lane-proven latest-state semantics still select the higher survivor";
}

-- `==` of sponsored decisions, and of lists of them.
abbrev pub same_sponsored : FeeSponsoredSettlementDecision → FeeSponsoredSettlementDecision → Bool
same_sponsored a b =
    same_decision a.eligibility b.eligibility
    && (a.sponsor_fee == b.sponsor_fee)
    && (a.fee_policy_hash == b.fee_policy_hash)
    && (a.settlement_distribution_hash == b.settlement_distribution_hash)

abbrev pub all_sponsored :
    List FeeSponsoredSettlementDecision → List FeeSponsoredSettlementDecision → Bool
all_sponsored [] [] = true
all_sponsored [] (b ∷ bs) = false
all_sponsored (a ∷ rest) [] = false
all_sponsored (a ∷ rest) (b ∷ bs) = same_sponsored a b && all_sponsored rest bs

-- The first decision on a state number.
unfoldable pub find_sponsored :
    ℕ → List FeeSponsoredSettlementDecision → Option FeeSponsoredSettlementDecision
find_sponsored n [] = none
find_sponsored n (decision ∷ rest) =
    let later = find_sponsored n rest in
    if decision.eligibility.state_number == n then some decision else later

unfoldable pub require_fee_sponsored_decision_status :
    List FeeSponsoredSettlementDecision → ℕ → SettlementEligibilityStatus → Answer (Unit {0})
require_fee_sponsored_decision_status decisions state_number expected = do
  decision ←
      ok_or (find_sponsored state_number decisions)
        ("missing fee-sponsored decision for state " <> show_u64 state_number)
  require (same_status decision.eligibility.status expected) (
      "fee-sponsored state "
      <> show_u64 state_number
      <> ": expected "
      <> status_text expected
      <> ", actual "
      <> status_text decision.eligibility.status)

-- The loop over the sponsor's outpoints, from an index.
unfoldable pub sponsor_inputs : Transaction → String → String → ℕ → List String → Answer (Unit {0})
sponsor_inputs tx channel_funding_outpoint label index [] = ok tt
sponsor_inputs tx channel_funding_outpoint label index (outpoint ∷ rest) = do
  require (outpoint != channel_funding_outpoint)
      (label <> ": sponsor input touches channel funding outpoint")
  require_input_outpoint tx index outpoint (label <> " sponsor input " <> show_u64 index)
  sponsor_inputs tx channel_funding_outpoint label (index + 1) rest

module _ (d : Host) (k : SeqCommit) (x : External) (ms : Models d) where
  unfoldable pub require_sponsor_accounting :
      Transaction → d.Value → String → String → String → Answer (Unit {0})
  require_sponsor_accounting tx report marker channel_funding_outpoint label = do
    outpoints ← required_typed d ms.outpoints report (marker <> "/sponsor/sponsor_input_outpoints")
    require (length outpoints == length tx.inputs) (
        label
        <> ": expected "
        <> show_u64 (length outpoints)
        <> " sponsor inputs, actual "
        <> show_u64 (length tx.inputs))
    sponsor_inputs tx channel_funding_outpoint label 0 outpoints
    require_output_count tx 1 label
    change ← required_u64 d report (marker <> "/sponsor/sponsor_change_total")
    require_output_value tx 0 change label
    input ← required_u64 d report (marker <> "/sponsor/sponsor_input_total")
    fee ← required_u64 d report (marker <> "/sponsor/sponsor_fee")
    accounted ← checked_u64_sum change fee (label <> ": sponsor accounting overflows u64")
    require (accounted == input) (
        label
        <> ": sponsor input total "
        <> show_u64 input
        <> " does not equal change "
        <> show_u64 change
        <> " plus fee "
        <> show_u64 fee)

  -- Both markers' accounting; the stale lower marker pays the higher fee.
  unfoldable pub check_sponsors : d.Value → d.Value → Transaction → Transaction → Answer (Unit {0})
  check_sponsors state report lower_tx higher_tx = do
    outpoint ← required_str d state "/funding/outpoint"
    require_sponsor_accounting lower_tx report "/sponsored_markers/lower" outpoint
        "lower fee-sponsored marker"
    require_sponsor_accounting higher_tx report "/sponsored_markers/higher" outpoint
        "higher fee-sponsored marker"
    lower_fee ← required_u64 d report "/sponsored_markers/lower/sponsor/sponsor_fee"
    higher_fee ← required_u64 d report "/sponsored_markers/higher/sponsor/sponsor_fee"
    require (ltb higher_fee lower_fee)
        "fee independence check requires lower stale marker fee > higher survivor marker fee"

  -- The hashes in the payload of one marker.
  unfoldable pub check_payload_hashes :
      d.Value → String → String → SettlementTemplate → Answer (Unit {0})
  check_payload_hashes report marker fee_hash template = do
    payload ← required_value d report ("/sponsored_markers/" <> marker <> "/payload")
    require_text d payload "/fee_policy_hash" fee_hash (marker <> " marker payload fee-policy hash")
    require_text d payload "/settlement_distribution_hash" (settlement_distribution_hash x template)
        (marker <> " marker payload distribution hash")
    require_text d payload "/settlement_template_hash" (template_hash x template)
        (marker <> " marker payload template hash")

  -- The recorded decisions against a new evaluation under the fee policy.
  unfoldable pub check_sponsored_decisions :
      Bool → d.Value → SettlementEligibilityPolicy → SettlementFeePolicy → ℕ → Answer (Unit {0})
  check_sponsored_decisions debug report policy fee_policy proof_daa = do
    config ← required_typed d ms.config report "/model_validation/config"
    funding ← required_typed d ms.funding report "/model_validation/funding"
    template ← required_typed d ms.template report "/model_validation/settlement_template"
    require_text d report "/settlement_distribution_hash" (settlement_distribution_hash x template)
        "fee-sponsored settlement-distribution hash"
    check_payload_hashes report "lower" (fee_policy_hash x fee_policy) template
    check_payload_hashes report "higher" (fee_policy_hash x fee_policy) template
    candidates ← required_typed d ms.sponsored_candidates report "/model_validation/candidates"
    recorded ← required_typed d ms.sponsored_decisions report "/model_validation/decisions"
    current_daa ← required_u64 d report "/model_validation/current_daa"
    require_eq (show_u64 current_daa) (show_u64 proof_daa) "fee-sponsored current DAA"
    recomputed ← evaluation_answer d k x ms "fee-sponsored" (
        evaluate_fee_sponsored_settlement_eligibility x debug config funding template policy
          fee_policy candidates current_daa)
    require (all_sponsored recomputed recorded)
        "fee-sponsored decisions do not match typed re-evaluation"
    require_fee_sponsored_decision_status recorded 1 displaced
    require_fee_sponsored_decision_status recorded 2 eligible_to_finalise

  -- The recorded blocks and the proof of the tip that they give.
  unfoldable pub check_sponsored_lane : d.Value → String → k.Hash → Answer (Unit {0})
  check_sponsored_lane report lane key = check_recorded_lane d k "fee-sponsored" report lane key

  -- The lane's events, windows, decisions and proof, for the two markers' transactions.
  unfoldable pub check_displacement :
      Bool
      → d.Value
      → String
      → k.Hash
      → SettlementFeePolicy
      → Transaction
      → Transaction
      → Answer (Unit {0})
  check_displacement debug report lane key fee_policy lower_tx higher_tx = do
    events ← marker_events d k sponsored_markers report lane lower_tx.id higher_tx.id
    policy ← required_typed d ms.policy report "/eligibility_policy"
    proof_daa ←
        proof_after_windows d k sponsored_markers report policy.response_window_daa events.0
          events.1
    check_sponsored_decisions debug report policy fee_policy proof_daa
    check_sponsored_lane report lane key
