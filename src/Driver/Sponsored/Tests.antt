-- ===== src/Driver/Sponsored/Tests.antt =====
-- A run of the fee-sponsored verifier on two markers of the sample channel, and the theorem about it.
use kurrent.Base.{
  as_bytes, contains, from_keys, get, insert, list_eq, nat_eq, option_eq, pair_eq, refl, same_keys,
  show_u64, string_eq, true, ◌≡◌,
}
use kurrent.Channel.{
  check_conservation, check_header, check_participants, check_signature, check_signatures,
  collect_signatures, participant_set_hash, state_update_signing_digest, state_update_signing_hash,
  sum_is, validate_channel_update, verify_participant_signature,
}
use kurrent.Driver.{map_err, ok, ok_or, require, ◌>>=◌ as answer_then, ◌>>◌ as answer_next}
use kurrent.Driver.Eligibility.{evaluation_answer}
use kurrent.Driver.Sponsored.{
  check_sponsored_lane, check_displacement, check_payload_hashes, check_sponsored_decisions,
  check_sponsors, find_sponsored, require_fee_sponsored_decision_status, require_sponsor_accounting,
  sponsor_inputs, sponsored_entry,
}
use kurrent.Driver.Sponsored.Evidence.{
  SponsoredEvidence, verify_fee_sponsored_displacement_semantics_iff,
}
use kurrent.Driver.Sponsored.Verifier.{verify_fee_sponsored_displacement_semantics}
use kurrent.Sponsor.{
  attach_sponsors, check_sponsor_fee, evaluate_fee_sponsored_settlement_eligibility,
  insert_sponsors, validate_sponsor_evidence,
}
use kurrent.Driver.Lane.{
  event_leaf, event_leaves, lane_id_bytes, next_block, next_blocks, report_lane, required_array,
  required_hash, verify_lane_proof_material, verify_lane_tip,
}
use kurrent.Driver.Markers.{
  check_recorded_lane, check_marker, checked_u64_sum as driver_sum, events_by_txid, initial_lane,
  marker_events, proof_after_windows, require_marker_payload, require_value_eq,
}
use kurrent.Driver.Records.{
  decode_transaction, read_hex_file, read_json, resolve_record_path, transaction_from_record,
  verify_hex_record_hash,
}
use kurrent.Driver.Records.Laws.{counted}
use kurrent.Driver.Require.{
  get_elem?, require_input_outpoint, require_output_count, require_output_value, require_eq,
  require_recorded_txid, require_status, require_text, require_tx_lane, require_txid, required_str,
  required_typed, required_u64, required_value, tx_subnetwork_id_hex,
}
use kurrent.Driver.Sample.{commitments, machine, models, sample_external, start}
use kurrent.Driver.StateChannel.Verifier.{checked_transaction}
use kurrent.Driver.Verify.{change, continue, lift, ◌>>=◌, ◌>>◌}
use kurrent.Eligibility.Accepted.{check_pairs, choose, sort_by_index, strictly_ordered}
use kurrent.Eligibility.Decide.{debug_assert, decide, decide_all, evaluate_settlement_eligibility}
use kurrent.Eligibility.Evidence.{
  check_scope, expected_lane, validate_response_window_daa, validate_settlement_candidate_evidence,
}
use kurrent.Errors.{for_each}
use kurrent.External.{
  fee_policy_hash, settlement_distribution_hash, hash_json, header_hash, sha256_hex, template_hash,
}
use kurrent.Fixtures.{decode_marks, encode_marks}
use kurrent.Lane.{
  decode_fixed_hex, is_valid_kurrent_user_lane_id, validate_lane_binding, validate_lane_id_field,
}

pub sponsored_run :
    verify_fee_sponsored_displacement_semantics machine commitments sample_external models true
      "out" start
    ≡ ok (tt, counted 2 2 sponsored_entry start)
unfolding verify_fee_sponsored_displacement_semantics evaluation_answer check_marker events_by_txid
    initial_lane marker_events proof_after_windows require_marker_payload require_value_eq
    driver_sum checked_transaction decode_transaction transaction_from_record verify_hex_record_hash
    resolve_record_path read_hex_file required_typed required_value require_recorded_txid
    require_txid require_tx_lane tx_subnetwork_id_hex sha256_hex show_u64 event_leaf event_leaves
    lane_id_bytes next_block next_blocks report_lane required_array required_hash
    verify_lane_proof_material verify_lane_tip read_json require_eq require_status require_text
    required_str required_u64 change continue lift ◌>>=◌ ◌>>◌ answer_then answer_next map_err ok_or
    require as_bytes get insert contains evaluate_settlement_eligibility validate_channel_update
    check_header check_participants check_conservation check_signatures state_update_signing_digest
    state_update_signing_hash participant_set_hash validate_lane_binding template_hash hash_json
    encode_marks same_keys from_keys for_each sum_is decode_marks collect_signatures check_signature
    verify_participant_signature decode_fixed_hex validate_lane_id_field
    is_valid_kurrent_user_lane_id validate_response_window_daa
    validate_settlement_candidate_evidence check_scope header_hash expected_lane choose
    sort_by_index debug_assert strictly_ordered check_pairs decide_all decide check_displacement
    check_sponsored_lane check_recorded_lane check_payload_hashes check_sponsored_decisions
    check_sponsors find_sponsored require_fee_sponsored_decision_status require_sponsor_accounting
    sponsor_inputs attach_sponsors check_sponsor_fee evaluate_fee_sponsored_settlement_eligibility
    insert_sponsors validate_sponsor_evidence fee_policy_hash settlement_distribution_hash get_elem?
    require_input_outpoint require_output_count require_output_value
sponsored_run = refl

verify_fee_sponsored_displacement_semantics_iff_example :
    SponsoredEvidence machine commitments sample_external models true "out"
    × (counted 2 2 sponsored_entry start ≡ counted 2 2 sponsored_entry start)
verify_fee_sponsored_displacement_semantics_iff_example =
    (verify_fee_sponsored_displacement_semantics_iff machine commitments sample_external models true
        "out" start (counted 2 2 sponsored_entry start) tt).0
      sponsored_run
