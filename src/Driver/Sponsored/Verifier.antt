-- ===== src/Driver/Sponsored/Verifier.antt =====
-- The whole of `verify_fee_sponsored_displacement_semantics` of drivers/kaspa-devnet/src/main.rs.
use kurrent.Base.{Bool, String}
use kurrent.Driver.{Host}
use kurrent.Driver.Eligibility.{Models}
use kurrent.Driver.Lane.{SeqCommit, report_lane}
use kurrent.Driver.Markers.{check_marker}
use kurrent.Driver.Records.{read_json}
use kurrent.Driver.Require.{require_status, require_text, required_typed}
use kurrent.Driver.Sponsored.{check_displacement, check_sponsors, sponsored_entry}
use kurrent.Driver.StateChannel.Verifier.{checked_transaction}
use kurrent.Driver.Verify.{Verify, change, lift, one_check, ◌>>=◌, ◌>>◌}
use kurrent.External.{External, fee_policy_hash}

module _ (d : Host) (k : SeqCommit) (x : External) (ms : Models d) where
  unfoldable pub verify_fee_sponsored_displacement_semantics : Bool → String → Verify (Unit {0})
  verify_fee_sponsored_displacement_semantics debug output_dir = do
    state ← lift (read_json d (d.join output_dir "kurrent-live-state-channel-evidence.json"))
    report ←
        lift
          (read_json d (d.join output_dir "kurrent-live-fee-sponsored-displacement-evidence.json"))
    lift (require_status d report "fee-sponsored displacement evidence")
    bound ← lift (report_lane d k state report "fee-sponsored" " lane id")
    fee_policy ← lift (required_typed d ms.fee_policy report "/fee_policy")
    lift (
        require_text d report "/fee_policy_hash" (fee_policy_hash x fee_policy)
          "fee-sponsored fee-policy hash")
    lower_tx ←
        checked_transaction d x report "/sponsored_markers/lower/raw_tx"
          (check_marker d x report bound.0 "/sponsored_markers/lower" "lower fee-sponsored marker")
    higher_tx ←
        checked_transaction d x report "/sponsored_markers/higher/raw_tx" (
          check_marker d x report bound.0 "/sponsored_markers/higher" "higher fee-sponsored marker")
    lift (check_sponsors d k x ms state report lower_tx higher_tx)
    lift (check_displacement d k x ms debug report bound.0 bound.1 fee_policy lower_tx higher_tx)
    change (one_check sponsored_entry)
