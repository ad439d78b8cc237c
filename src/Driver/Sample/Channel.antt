-- ===== src/Driver/Sample/Channel.antt =====
-- The sample evidence of the state channel and of its lane.
use kurrent.Base.{Map, String, [], list_eq, nat_eq, ◌++◌, ◌<>◌, ◌∷◌}
use kurrent.Fixtures.{digest_text}
use kurrent.Driver.Sample.Places.{Cursor, filed, lane, other_lane}

-- The record of a rejected attempt on the other lane.
abbrev rejected : String → String → Map String String
rejected pointer name =
    (pointer <> "/attempted_txid", name)
    ∷ (pointer <> "/observed_lane_id", other_lane)
    ∷ (pointer <> "/status", "rejected")
    ∷ filed (pointer <> "/attempted_tx") name

abbrev pub state_document : Cursor
state_document = record {
  texts =
      ("/status", "passed")
      ∷ ("/model_validation/status", "passed")
      ∷ ("/model_validation/validation_layer", "typed-kurrent-protocol-model")
      ∷ ("/settlement_template/hash", digest_text)
      ∷ ("/state_header/hash", digest_text)
      ∷ ("/channel_receipt/hash", digest_text)
      ∷ ("/lane_binding/expected_lane_id", lane)
      ∷ ("/funding/txid", "f")
      ∷ ("/funding/outpoint", "f:0")
      ∷ ("/funding/observed_lane_id", lane)
      ∷ ("/state_update/txid", "u")
      ∷ ("/state_update/outpoint", "u:0")
      ∷ ("/state_update/observed_lane_id", lane)
      ∷ ("/stale_state_rejection/attempted_txid", "t")
      ∷ ("/stale_state_rejection/status", "rejected")
      ∷ ("/stale_state_rejection/observed_lane_id", lane)
      ∷ ("/settlement/txid", "s")
      ∷ ("/settlement/observed_lane_id", lane)
      ∷ ("/model_validation/funding_state/funding_outpoint", "f:0")
      ∷ ("/model_validation/latest_state_header/funding_outpoint", "f:0")
      ∷ ("/model_validation/funding_state/expected_lane_id", lane)
      ∷ ("/model_validation/latest_state_header/expected_lane_id", lane)
      ∷ ("/model_validation/receipt/output_id", "s:0,s:1")
      ∷ ("/state_header/header/script_covenant_hash", digest_text)
      ∷ ("/model_validation/settlement_template/script_covenant_hash", digest_text)
      ∷ (rejected "/wrong_lane_rejections/native_state_update" "n"
          ++ (rejected "/wrong_lane_rejections/wrong_user_state_update" "p"
              ++ (rejected "/wrong_lane_rejections/native_settlement" "o"
                  ++ (rejected "/wrong_lane_rejections/wrong_user_settlement" "q"
                      ++ (filed "/funding/raw_tx" "f"
                          ++ (filed "/state_update/raw_tx" "u"
                              ++ (filed "/stale_state_rejection/attempted_tx" "t"
                                  ++ (filed "/settlement/raw_tx" "s"
                                      ++ (filed "/state_update/witness" "w"
                                          ++ (filed "/stale_state_rejection/witness" "w"
                                              ++ (filed "/settlement/witness" "w"
                                                  ++ (filed "/settlement/state_1_redeem_script" "x"
                                                      ++ filed "/settlement/state_2_redeem_script"
                                                          "y"))))))))))));
  numbers =
      ("/funding/value", 9)
      ∷ ("/state_update/value", 8)
      ∷ ("/settlement/outputs/alice", 3)
      ∷ ("/settlement/outputs/bob", 5)
      ∷ [];
  place = "";
}

abbrev pub monitor_document : Cursor
monitor_document = record {
  texts =
      ("/status", "passed")
      ∷ ("/expected_lane_id", lane)
      ∷ ("/lane_binding/expected_lane_id", lane)
      ∷ ("/lane_key", "k")
      ∷ ("/funding/txid", "f")
      ∷ ("/state_update/txid", "u")
      ∷ ("/settlement/txid", "s")
      ∷ ("/lane_events/0/lane_id", lane)
      ∷ ("/lane_events/1/lane_id", lane)
      ∷ ("/lane_events/2/lane_id", lane)
      ∷ ("/lane_events/0/txid", "f")
      ∷ ("/lane_events/1/txid", "u")
      ∷ ("/lane_events/2/txid", "s")
      ∷ ("/wrong_lane_absence/0/txid", "n")
      ∷ ("/lane_activity_blocks/0/parent_seq_commit", "a")
      ∷ ("/lane_activity_blocks/0/events/0/lane_id", lane)
      ∷ ("/lane_activity_blocks/0/events/0/txid", "f")
      ∷ ("/lane_activity_blocks/0/events/0/activity_leaf", "l")
      ∷ ("/lane_activity_blocks/0/activity_digest", "d")
      ∷ ("/lane_activity_blocks/0/lane_tip_after_block", "t")
      ∷ ("/proof/lane/tip", "t")
      ∷ ("/proof/smt_proof", "z")
      ∷ ("/proof/payload_and_ctx_digest", "y")
      ∷ ("/proof/parent_seq_commit", "a")
      ∷ ("/proof/inactivity_shortcut", "i")
      ∷ ("/proof_header/accepted_id_merkle_root", "m")
      ∷ [];
  numbers =
      ("/lane_events/0/accepted_order_index", 4)
      ∷ ("/lane_events/1/accepted_order_index", 5)
      ∷ ("/lane_events/2/accepted_order_index", 6)
      ∷ ("/lane_activity_blocks/0/timestamp", 1)
      ∷ ("/lane_activity_blocks/0/daa_score", 2)
      ∷ ("/lane_activity_blocks/0/blue_score", 3)
      ∷ ("/lane_activity_blocks/0/accepted_order_start", 4)
      ∷ ("/lane_activity_blocks/0/events/0/version", 1)
      ∷ ("/lane_activity_blocks/0/events/0/merge_index", 0)
      ∷ ("/lane_activity_blocks/0/events/0/accepted_order_index", 4)
      ∷ ("/proof/lane/blue_score", 3)
      ∷ [];
  place = "";
}
