-- ===== src/Driver/Eligibility/Verifier.antt =====
-- The whole of `verify_settlement_eligibility_semantics` of drivers/kaspa-devnet/src/main.rs.
use kurrent.Base.{Bool, String}
use kurrent.Driver.{Host}
use kurrent.Driver.Eligibility.{
  Models, check_eligibility, check_wrong_lane_marker, eligibility_entry,
}
use kurrent.Driver.Lane.{SeqCommit, report_lane}
use kurrent.Driver.Markers.{check_marker}
use kurrent.Driver.Records.{read_json}
use kurrent.Driver.Require.{require_status}
use kurrent.Driver.StateChannel.Verifier.{checked_transaction}
use kurrent.Driver.Verify.{Verify, change, lift, one_check, ◌>>=◌, ◌>>◌}
use kurrent.External.{External}

module _ (d : Host) (k : SeqCommit) (x : External) (ms : Models d) where
  unfoldable pub verify_settlement_eligibility_semantics : Bool → String → Verify (Unit {0})
  verify_settlement_eligibility_semantics debug output_dir = do
    state ← lift (read_json d (d.join output_dir "kurrent-live-state-channel-evidence.json"))
    report ←
        lift (read_json d (d.join output_dir "kurrent-live-settlement-eligibility-evidence.json"))
    lift (require_status d report "settlement eligibility evidence")
    bound ← lift (report_lane d k state report "settlement eligibility" " lane id")
    lower_tx ← checked_transaction d x report "/candidate_markers/lower/raw_tx" (
        check_marker d x report bound.0 "/candidate_markers/lower"
          "lower settlement candidate marker")
    higher_tx ← checked_transaction d x report "/candidate_markers/higher/raw_tx" (
        check_marker d x report bound.0 "/candidate_markers/higher"
          "higher settlement candidate marker")
    wrong_lane_tx ←
        checked_transaction d x report "/candidate_markers/wrong_lane/raw_tx"
          (check_wrong_lane_marker d k x ms report bound.0)
    lift (check_eligibility d k x ms debug report bound.0 bound.1 lower_tx higher_tx)
    change (one_check eligibility_entry)
