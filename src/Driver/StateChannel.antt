-- ===== src/Driver/StateChannel.antt =====
-- `verify_state_channel_semantics` of drivers/kaspa-devnet/src/main.rs, in its groups of checks.
use kurrent.Base.{List, String, [], ◌<>◌, ◌∷◌}
use kurrent.Driver.{Answer, CheckEntry, Host, Transaction, ◌>>=◌, ◌>>◌}
use kurrent.Driver.Factory.{two_outputs}
use kurrent.Driver.Require.{
  require_json_hash, require_model_passed, require_not_eq, require_recorded_funding,
  require_recorded_outpoint, require_recorded_spend, require_recorded_txid, require_recorded_value,
  require_same, require_text, require_tx_lane, tx_subnetwork_id_hex,
}
use kurrent.External.{External, domain_channel_receipt, domain_settlement_template, domain_state}
pub mod Checks
pub mod Evidence
pub mod Tests
pub mod Verifier

abbrev pub state_channel_entry : CheckEntry
state_channel_entry = record {
  id = "state_channel_transactions";
  status = "passed";
  details =
      "funding, update, wrong-lane rejections, stale rejection, and settlement transactions decode and match recorded txids, outpoints, values, lane ids, rejection status, JSON hashes, and typed state-model bindings";
}

abbrev pub state_channel_records : List String
state_channel_records =
    "/state_update/witness" ∷ "/stale_state_rejection/witness" ∷ "/settlement/witness"
    ∷ "/settlement/state_1_redeem_script" ∷ "/settlement/state_2_redeem_script" ∷ []

module _ (d : Host) (x : External) where
  unfoldable pub check_state_hashes : d.Value → Answer (Unit {0})
  check_state_hashes report = do
    require_model_passed d report "state channel live evidence" "state channel model validation"
    require_text d report "/model_validation/validation_layer" "typed-kurrent-protocol-model"
        "state channel model validation layer"
    require_json_hash d x report domain_settlement_template "/settlement_template/template"
        "/settlement_template/hash" "state settlement template hash"
    require_json_hash d x report domain_state "/state_header/header" "/state_header/hash"
        "state header hash"
    require_json_hash d x report domain_channel_receipt "/channel_receipt/scope"
        "/channel_receipt/hash" "state channel receipt hash"

  unfoldable pub check_state_funding : d.Value → String → Transaction → Answer (Unit {0})
  check_state_funding report lane tx = do
    require_recorded_funding d report tx "state funding"
    require_recorded_value d report tx 0 "/funding/value" "state funding value"
    require_tx_lane d x tx lane "state funding lane"
    require_text d report "/funding/observed_lane_id" lane "state funding recorded lane"

  unfoldable pub check_state_update : d.Value → String → Transaction → Answer (Unit {0})
  check_state_update report lane tx = do
    require_recorded_txid d report tx "/state_update/txid" "state update"
    require_recorded_spend d report tx "/funding/outpoint" "state update spends funding"
    require_recorded_outpoint d report tx "/state_update/outpoint" 0 "state update outpoint"
    require_recorded_value d report tx 0 "/state_update/value" "state update value"
    require_tx_lane d x tx lane "state update lane"
    require_text d report "/state_update/observed_lane_id" lane "state update recorded lane"

  -- The lane of a rejected attempt: not the expected one, and recorded with the rejection.
  unfoldable pub check_wrong_lane :
      d.Value → String → String → String → Transaction → Answer (Unit {0})
  check_wrong_lane report lane pointer label tx = do
    require_not_eq (tx_subnetwork_id_hex d x tx) lane (label <> " lane")
    require_text d report (pointer <> "/observed_lane_id") (tx_subnetwork_id_hex d x tx)
        (label <> " recorded lane")
    require_text d report (pointer <> "/status") "rejected" (label <> " status")

  -- The rejected update at the pointer, once on the native lane and once on another user lane.
  unfoldable pub check_rejected_update :
      d.Value → String → String → String → Transaction → Answer (Unit {0})
  check_rejected_update report lane pointer label tx = do
    require_recorded_txid d report tx (pointer <> "/attempted_txid") label
    require_recorded_spend d report tx "/funding/outpoint" (label <> " spends funding")
    check_wrong_lane report lane pointer label tx

  -- The recorded payment of both participants.
  unfoldable pub check_settlement_outputs : d.Value → String → Transaction → Answer (Unit {0})
  check_settlement_outputs report label tx = do
    require_recorded_spend d report tx "/state_update/outpoint"
        (label <> " spends latest state output")
    require_recorded_value d report tx 0 "/settlement/outputs/alice" (label <> " Alice output")
    require_recorded_value d report tx 1 "/settlement/outputs/bob" (label <> " Bob output")

  -- The rejected settlement at the pointer, once on the native lane and once on another user lane.
  unfoldable pub check_rejected_settlement :
      d.Value → String → String → String → Transaction → Answer (Unit {0})
  check_rejected_settlement report lane pointer label tx = do
    require_recorded_txid d report tx (pointer <> "/attempted_txid") label
    check_settlement_outputs report label tx
    check_wrong_lane report lane pointer label tx

  unfoldable pub check_stale : d.Value → String → Transaction → Answer (Unit {0})
  check_stale report lane tx = do
    require_recorded_txid d report tx "/stale_state_rejection/attempted_txid" "stale state attempt"
    require_recorded_spend d report tx "/state_update/outpoint"
        "stale state attempt spends latest state output"
    require_text d report "/stale_state_rejection/status" "rejected" "stale state rejection status"
    require_tx_lane d x tx lane "stale attempt lane"
    require_text d report "/stale_state_rejection/observed_lane_id" lane
        "stale attempt recorded lane"

  unfoldable pub check_settled : d.Value → String → Transaction → Answer (Unit {0})
  check_settled report lane tx = do
    require_recorded_txid d report tx "/settlement/txid" "state settlement"
    check_settlement_outputs report "settlement" tx
    require_tx_lane d x tx lane "state settlement lane"
    require_text d report "/settlement/observed_lane_id" lane "state settlement recorded lane"

  unfoldable pub check_state_model : d.Value → String → Transaction → Answer (Unit {0})
  check_state_model report lane tx = do
    require_same d report "/model_validation/funding_state/funding_outpoint" "/funding/outpoint"
        "state model funding outpoint"
    require_same d report "/model_validation/latest_state_header/funding_outpoint"
        "/funding/outpoint" "state model latest header funding outpoint"
    require_text d report "/model_validation/funding_state/expected_lane_id" lane
        "state model funding lane"
    require_text d report "/model_validation/latest_state_header/expected_lane_id" lane
        "state model latest header lane"
    require_text d report "/model_validation/receipt/output_id" (two_outputs tx)
        "state model receipt output id"
    require_same d report "/state_header/header/script_covenant_hash"
        "/settlement/state_2_redeem_script/sha256" "state header script covenant hash"
    require_same d report "/model_validation/settlement_template/script_covenant_hash"
        "/settlement/state_2_redeem_script/sha256" "state model script covenant hash"
