-- ===== src/Driver/StateChannel/Verifier.antt =====
-- The whole of `verify_state_channel_semantics` of drivers/kaspa-devnet/src/main.rs.
use kurrent.Base.{String}
use kurrent.Driver.{Answer, Host, Transaction}
use kurrent.Driver.Records.{decode_transaction, read_json, verify_hex_records}
use kurrent.Driver.Require.{required_str}
use kurrent.Driver.StateChannel.{
  check_rejected_settlement, check_rejected_update, check_settled, check_stale, check_state_funding,
  check_state_hashes, check_state_model, check_state_update, state_channel_entry,
  state_channel_records,
}
use kurrent.Driver.Verify.{Verify, change, lift, one_check, ◌>>=◌, ◌>>◌}
use kurrent.External.{External}

module _ (d : Host) (x : External) where
  -- One transaction: decoded, counted and checked.
  unfoldable pub checked_transaction :
      d.Value → String → (Transaction → Answer (Unit {0})) → Verify Transaction
  checked_transaction report pointer check = do
    tx ← decode_transaction d x report pointer
    lift (check tx)
    lift (kurrent.Driver.ok tx)

  unfoldable pub verify_state_channel_semantics : String → Verify (Unit {0})
  verify_state_channel_semantics output_dir = do
    report ← lift (read_json d (d.join output_dir "kurrent-live-state-channel-evidence.json"))
    lift (check_state_hashes d x report)
    lane ← lift (required_str d report "/lane_binding/expected_lane_id")
    funding_tx ← checked_transaction report "/funding/raw_tx" (check_state_funding d x report lane)
    state_update_tx ←
        checked_transaction report "/state_update/raw_tx" (check_state_update d x report lane)
    native_lane_tx ←
        checked_transaction report "/wrong_lane_rejections/native_state_update/attempted_tx" (
          check_rejected_update d x report lane "/wrong_lane_rejections/native_state_update"
            "native-lane rejected state update")
    wrong_user_lane_tx ←
        checked_transaction report "/wrong_lane_rejections/wrong_user_state_update/attempted_tx" (
          check_rejected_update d x report lane "/wrong_lane_rejections/wrong_user_state_update"
            "wrong-user-lane rejected state update")
    native_lane_settlement_tx ←
        checked_transaction report "/wrong_lane_rejections/native_settlement/attempted_tx" (
          check_rejected_settlement d x report lane "/wrong_lane_rejections/native_settlement"
            "native-lane rejected settlement")
    wrong_user_lane_settlement_tx ←
        checked_transaction report "/wrong_lane_rejections/wrong_user_settlement/attempted_tx" (
          check_rejected_settlement d x report lane "/wrong_lane_rejections/wrong_user_settlement"
            "wrong-user-lane rejected settlement")
    stale_tx ←
        checked_transaction report "/stale_state_rejection/attempted_tx"
          (check_stale d x report lane)
    settlement_tx ← checked_transaction report "/settlement/raw_tx" (check_settled d x report lane)
    lift (check_state_model d x report lane settlement_tx)
    verify_hex_records d x report state_channel_records
    change (one_check state_channel_entry)
