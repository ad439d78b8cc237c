-- ===== src/Driver/Sample/Settlement.antt =====
-- The sample evidence of the two settlement verifiers.
use kurrent.Base.{Map, String, [], list_eq, nat_eq, ◌++◌, ◌<>◌, ◌∷◌}
use kurrent.Fixtures.{digest_text}
use kurrent.Driver.Sample.Places.{Cursor, lane, other_lane}

-- A marker's record.
abbrev marked : String → String → Map String String
marked pointer name =
    (pointer <> "/txid", name)
    ∷ (pointer <> "/payload_hash", digest_text)
    ∷ (pointer <> "/raw_tx/path", name)
    ∷ (pointer <> "/raw_tx/sha256", digest_text)
    ∷ []

abbrev pub eligibility_document : Cursor
eligibility_document = record {
  texts =
      ("/status", "passed")
      ∷ ("/expected_lane_id", lane)
      ∷ ("/lane_binding/expected_lane_id", lane)
      ∷ ("/lane_key", "k")
      ∷ ("/candidate_markers/wrong_lane/status", "ignored_wrong_lane")
      ∷ ("/candidate_markers/wrong_lane/accepted_observation/lane_id", other_lane)
      ∷ ("/lane_events/0/lane_id", lane)
      ∷ ("/lane_events/1/lane_id", lane)
      ∷ ("/lane_events/2/lane_id", lane)
      ∷ ("/lane_events/0/txid", "t0")
      ∷ ("/lane_events/1/txid", "t1")
      ∷ ("/lane_events/2/txid", "t2")
      ∷ ("/lane_activity_blocks/0/parent_seq_commit", "a")
      ∷ ("/lane_activity_blocks/0/events/0/lane_id", lane)
      ∷ ("/lane_activity_blocks/0/events/0/txid", "t0")
      ∷ ("/lane_activity_blocks/0/events/0/activity_leaf", "l")
      ∷ ("/lane_activity_blocks/0/events/1/lane_id", lane)
      ∷ ("/lane_activity_blocks/0/events/1/txid", "t1")
      ∷ ("/lane_activity_blocks/0/events/1/activity_leaf", "l")
      ∷ ("/lane_activity_blocks/0/activity_digest", "d")
      ∷ ("/lane_activity_blocks/0/lane_tip_after_block", "t")
      ∷ ("/proof/lane/tip", "t")
      ∷ ("/proof/smt_proof", "z")
      ∷ ("/proof/payload_and_ctx_digest", "y")
      ∷ ("/proof/parent_seq_commit", "a")
      ∷ ("/proof/inactivity_shortcut", "i")
      ∷ ("/proof_header/accepted_id_merkle_root", "m")
      ∷ (marked "/candidate_markers/lower" "t0"
          ++ (marked "/candidate_markers/higher" "t1"
              ++ marked "/candidate_markers/wrong_lane" "w"));
  numbers =
      ("/lane_events/0/accepted_order_index", 4)
      ∷ ("/lane_events/1/accepted_order_index", 5)
      ∷ ("/lane_events/0/daa_score", 100)
      ∷ ("/lane_events/1/daa_score", 104)
      ∷ ("/proof_header/daa_score", 120)
      ∷ ("/model_validation/current_daa", 120)
      ∷ ("/lane_activity_blocks/0/timestamp", 1)
      ∷ ("/lane_activity_blocks/0/daa_score", 2)
      ∷ ("/lane_activity_blocks/0/blue_score", 3)
      ∷ ("/lane_activity_blocks/0/accepted_order_start", 4)
      ∷ ("/lane_activity_blocks/0/events/0/version", 1)
      ∷ ("/lane_activity_blocks/0/events/0/merge_index", 0)
      ∷ ("/lane_activity_blocks/0/events/0/accepted_order_index", 4)
      ∷ ("/lane_activity_blocks/0/events/1/version", 1)
      ∷ ("/lane_activity_blocks/0/events/1/merge_index", 1)
      ∷ ("/lane_activity_blocks/0/events/1/accepted_order_index", 5)
      ∷ ("/proof/lane/blue_score", 3)
      ∷ [];
  place = "";
}

-- A sponsored marker's record, with the hashes of its payload.
abbrev sponsored_mark : String → String → Map String String
sponsored_mark pointer name =
    (pointer <> "/payload/fee_policy_hash", digest_text)
    ∷ (pointer <> "/payload/settlement_distribution_hash", digest_text)
    ∷ (pointer <> "/payload/settlement_template_hash", digest_text)
    ∷ marked pointer name

abbrev pub sponsored_document : Cursor
sponsored_document = record {
  texts =
      ("/status", "passed")
      ∷ ("/expected_lane_id", lane)
      ∷ ("/lane_binding/expected_lane_id", lane)
      ∷ ("/lane_key", "k")
      ∷ ("/fee_policy_hash", digest_text)
      ∷ ("/settlement_distribution_hash", digest_text)
      ∷ ("/funding/outpoint", "f:0")
      ∷ ("/lane_events/0/lane_id", lane)
      ∷ ("/lane_events/1/lane_id", lane)
      ∷ ("/lane_events/2/lane_id", lane)
      ∷ ("/lane_events/0/txid", "t0")
      ∷ ("/lane_events/1/txid", "t1")
      ∷ ("/lane_events/2/txid", "t2")
      ∷ ("/lane_activity_blocks/0/parent_seq_commit", "a")
      ∷ ("/lane_activity_blocks/0/events/0/lane_id", lane)
      ∷ ("/lane_activity_blocks/0/events/0/txid", "t0")
      ∷ ("/lane_activity_blocks/0/events/0/activity_leaf", "l")
      ∷ ("/lane_activity_blocks/0/events/1/lane_id", lane)
      ∷ ("/lane_activity_blocks/0/events/1/txid", "t1")
      ∷ ("/lane_activity_blocks/0/events/1/activity_leaf", "l")
      ∷ ("/lane_activity_blocks/0/activity_digest", "d")
      ∷ ("/lane_activity_blocks/0/lane_tip_after_block", "t")
      ∷ ("/proof/lane/tip", "t")
      ∷ ("/proof/smt_proof", "z")
      ∷ ("/proof/payload_and_ctx_digest", "y")
      ∷ ("/proof/parent_seq_commit", "a")
      ∷ ("/proof/inactivity_shortcut", "i")
      ∷ ("/proof_header/accepted_id_merkle_root", "m")
      ∷ (sponsored_mark "/sponsored_markers/lower" "t0"
          ++ sponsored_mark "/sponsored_markers/higher" "t1");
  numbers =
      ("/lane_events/0/accepted_order_index", 4)
      ∷ ("/lane_events/1/accepted_order_index", 5)
      ∷ ("/lane_events/0/daa_score", 100)
      ∷ ("/lane_events/1/daa_score", 104)
      ∷ ("/proof_header/daa_score", 120)
      ∷ ("/sponsored_markers/lower/sponsor/sponsor_change_total", 20)
      ∷ ("/sponsored_markers/lower/sponsor/sponsor_input_total", 24)
      ∷ ("/sponsored_markers/lower/sponsor/sponsor_fee", 4)
      ∷ ("/sponsored_markers/higher/sponsor/sponsor_change_total", 20)
      ∷ ("/sponsored_markers/higher/sponsor/sponsor_input_total", 22)
      ∷ ("/sponsored_markers/higher/sponsor/sponsor_fee", 2)
      ∷ ("/model_validation/current_daa", 120)
      ∷ ("/lane_activity_blocks/0/timestamp", 1)
      ∷ ("/lane_activity_blocks/0/daa_score", 2)
      ∷ ("/lane_activity_blocks/0/blue_score", 3)
      ∷ ("/lane_activity_blocks/0/accepted_order_start", 4)
      ∷ ("/lane_activity_blocks/0/events/0/version", 1)
      ∷ ("/lane_activity_blocks/0/events/0/merge_index", 0)
      ∷ ("/lane_activity_blocks/0/events/0/accepted_order_index", 4)
      ∷ ("/lane_activity_blocks/0/events/1/version", 1)
      ∷ ("/lane_activity_blocks/0/events/1/merge_index", 1)
      ∷ ("/lane_activity_blocks/0/events/1/accepted_order_index", 5)
      ∷ ("/proof/lane/blue_score", 3)
      ∷ [];
  place = "";
}
