-- ===== src/Driver/Eligibility.antt =====
-- `verify_settlement_eligibility_semantics` of drivers/kaspa-devnet/src/main.rs, in its groups of
-- checks.
use kurrent.Base.{
  Bool, Eq, List, Option, String, [], arith, eqb, eqb_iff, if◌then◌else◌, list_eq, nat_eq, none,
  option_eq, show_u64, some, string_eq, false, true, ℕ, ◌&&◌, ◌<>◌, ◌==◌, ◌↔◌, ◌∷◌, ◌≡◌,
}
use kurrent.Driver.{
  Answer, CheckEntry, Host, Transaction, err, ok, ok_or, panic, require, ◌>>=◌, ◌>>◌,
}
use kurrent.Driver.Lane.{SeqCommit}
use kurrent.Driver.Markers.{
  check_recorded_lane, candidate_markers, marker_events, proof_after_windows,
  require_marker_payload,
}
use kurrent.Driver.Monitor.{required_bool}
use kurrent.Driver.Require.{
  require_eq, require_not_eq, require_recorded_txid, require_text, required_typed, required_u64,
  tx_subnetwork_id_hex,
}
use kurrent.Eligibility.Decide.{
  SettlementEligibilityDecision, SettlementEligibilityStatus, displaced, eligible_to_finalise,
  evaluate_settlement_eligibility, not_yet_eligible, provisional,
}
use kurrent.Eligibility.Evidence.{Candidate}
use kurrent.Errors.{Result}
use kurrent.External.{External}
use kurrent.Sponsor.{FeeSponsoredSettlementDecision}
use kurrent.Types.{
  FeeSponsoredSettlementCandidate, FundingState, KurrentChannelConfig, SettlementEligibilityPolicy,
  SettlementFeePolicy, SettlementTemplate,
}
pub mod Evidence
pub mod Laws
pub mod Statuses
pub mod Tests
pub mod Verifier

abbrev pub eligibility_entry : CheckEntry
eligibility_entry = record {
  id = "settlement_eligibility_evidence";
  status = "passed";
  details =
      "lane-proven candidate markers decode, lower candidate is displaced within the response window, and the higher candidate is eligible-to-finalise under the local-devnet DAA policy";
}

-- The `serde_json` decoders of the model's types.
pub record Models (d : Host) : Type 0 where
  pub policy : d.Value → Answer SettlementEligibilityPolicy
  pub config : d.Value → Answer KurrentChannelConfig
  pub funding : d.Value → Answer FundingState
  pub template : d.Value → Answer SettlementTemplate
  pub candidates : d.Value → Answer (List Candidate)
  pub decisions : d.Value → Answer (List SettlementEligibilityDecision)
  pub fee_policy : d.Value → Answer SettlementFeePolicy
  pub sponsored_candidates : d.Value → Answer (List FeeSponsoredSettlementCandidate)
  pub sponsored_decisions : d.Value → Answer (List FeeSponsoredSettlementDecision)
  pub outpoints : d.Value → Answer (List String)

-- A number for each status, and `{:?}` of it.
abbrev pub status_number : SettlementEligibilityStatus → ℕ
status_number provisional = 0
status_number displaced = 1
status_number eligible_to_finalise = 2
status_number not_yet_eligible = 3

abbrev pub status_text : SettlementEligibilityStatus → String
status_text provisional = "Provisional"
status_text displaced = "Displaced"
status_text eligible_to_finalise = "EligibleToFinalise"
status_text not_yet_eligible = "NotYetEligible"

-- `==` of statuses and of decisions.
abbrev pub same_status : SettlementEligibilityStatus → SettlementEligibilityStatus → Bool
same_status s t = eqb (status_number s) (status_number t)

abbrev pub same_decision : SettlementEligibilityDecision → SettlementEligibilityDecision → Bool
same_decision a b =
    (a.candidate_txid == b.candidate_txid)
    && (a.state_number == b.state_number)
    && same_status a.status b.status
    && (a.displaced_by == b.displaced_by)
    && (a.accepted_order_index == b.accepted_order_index)
    && (a.accepted_daa_score == b.accepted_daa_score)
    && (a.eligible_after_daa == b.eligible_after_daa)
    && (a.observed_daa_score == b.observed_daa_score)

-- `==` of lists of decisions.
abbrev pub same_decisions :
    List SettlementEligibilityDecision → List SettlementEligibilityDecision → Bool
same_decisions [] [] = true
same_decisions [] (b ∷ bs) = false
same_decisions (a ∷ rest) [] = false
same_decisions (a ∷ rest) (b ∷ bs) = same_decision a b && same_decisions rest bs

-- The first decision on a state number.
unfoldable pub find_decision :
    ℕ → List SettlementEligibilityDecision → Option SettlementEligibilityDecision
find_decision n [] = none
find_decision n (decision ∷ rest) =
    let later = find_decision n rest in if decision.state_number == n then some decision else later

unfoldable pub require_decision_status :
    List SettlementEligibilityDecision → ℕ → SettlementEligibilityStatus → Answer (Unit {0})
require_decision_status decisions state_number expected = do
  decision ←
      ok_or (find_decision state_number decisions)
        ("missing settlement eligibility decision for state " <> show_u64 state_number)
  require (same_status decision.status expected) (
      "settlement eligibility state "
      <> show_u64 state_number
      <> ": expected "
      <> status_text expected
      <> ", actual "
      <> status_text decision.status)

module _ (d : Host) (k : SeqCommit) (x : External) (ms : Models d) where
  -- The marker on another lane, which was ignored.
  unfoldable pub check_wrong_lane_marker : d.Value → String → Transaction → Answer (Unit {0})
  check_wrong_lane_marker report lane tx = do
    require_recorded_txid d report tx "/candidate_markers/wrong_lane/txid"
        "wrong-lane settlement candidate marker"
    require_not_eq (tx_subnetwork_id_hex d x tx) lane "wrong-lane settlement candidate marker lane"
    require_text d report "/candidate_markers/wrong_lane/status" "ignored_wrong_lane"
        "wrong-lane settlement candidate marker status"
    require_marker_payload d x tx report "/candidate_markers/wrong_lane"
        "wrong-lane settlement candidate marker"
    absent ←
        required_bool d k report "/candidate_markers/wrong_lane/absent_from_expected_lane_activity"
    require absent "wrong-lane settlement candidate marker appeared in expected-lane activity"
    require_text d report "/candidate_markers/wrong_lane/accepted_observation/lane_id"
        (tx_subnetwork_id_hex d x tx) "wrong-lane settlement candidate accepted observation lane"

  -- `map_err(|err| format!(…))` on the result of the evaluation.
  unfoldable pub evaluation_answer : {A : Type 0} → String → Result A → Answer A
  evaluation_answer label (Result.ok a) = ok a
  evaluation_answer label (Result.err e) =
      err (label <> " typed re-evaluation failed: " <> d.debug e)
  evaluation_answer label Result.panic = panic

  -- The recorded decisions against a new evaluation, with debug assertions or without.
  unfoldable pub check_decisions :
      Bool → d.Value → SettlementEligibilityPolicy → ℕ → Answer (Unit {0})
  check_decisions debug report policy proof_daa = do
    config ← required_typed d ms.config report "/model_validation/config"
    funding ← required_typed d ms.funding report "/model_validation/funding"
    template ← required_typed d ms.template report "/model_validation/settlement_template"
    candidates ← required_typed d ms.candidates report "/model_validation/candidates"
    recorded ← required_typed d ms.decisions report "/model_validation/decisions"
    current_daa ← required_u64 d report "/model_validation/current_daa"
    require_eq (show_u64 current_daa) (show_u64 proof_daa) "settlement eligibility current DAA"
    recomputed ← evaluation_answer "settlement eligibility" (
        evaluate_settlement_eligibility x debug config funding template policy candidates
          current_daa)
    require (same_decisions recomputed recorded)
        "settlement eligibility decisions do not match typed re-evaluation"
    require_decision_status recorded 1 displaced
    require_decision_status recorded 2 eligible_to_finalise

  -- The recorded blocks and the proof of the tip that they give.
  unfoldable pub check_candidate_lane : d.Value → String → k.Hash → Answer (Unit {0})
  check_candidate_lane report lane key =
      check_recorded_lane d k "settlement eligibility" report lane key

  -- The lane's events, windows, decisions and proof, for the two markers' transactions.
  unfoldable pub check_eligibility :
      Bool → d.Value → String → k.Hash → Transaction → Transaction → Answer (Unit {0})
  check_eligibility debug report lane key lower_tx higher_tx = do
    events ← marker_events d k candidate_markers report lane lower_tx.id higher_tx.id
    policy ← required_typed d ms.policy report "/policy"
    proof_daa ←
        proof_after_windows d k candidate_markers report policy.response_window_daa events.0
          events.1
    check_decisions debug report policy proof_daa
    check_candidate_lane report lane key
