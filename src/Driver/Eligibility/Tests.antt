-- ===== src/Driver/Eligibility/Tests.antt =====
-- A run of the eligibility verifier on two markers of the sample channel.
use kurrent.Base.{
  as_bytes, contains, from_keys, get, insert, list_eq, nat_eq, option_eq, pair_eq, refl, same_keys,
  show_u64, string_eq, true, ◌≡◌,
}
use kurrent.Channel.{
  check_conservation, check_header, check_participants, check_signature, check_signatures,
  collect_signatures, participant_set_hash, state_update_signing_digest, state_update_signing_hash,
  sum_is, validate_channel_update, verify_participant_signature,
}
use kurrent.Driver.{map_err, ok, ok_or, require, ◌>>=◌ as answer_then, ◌>>◌ as answer_next}
use kurrent.Driver.Eligibility.{
  check_candidate_lane, check_decisions, check_eligibility, check_wrong_lane_marker,
  eligibility_entry, evaluation_answer, find_decision, require_decision_status,
}
use kurrent.Driver.Eligibility.Verifier.{verify_settlement_eligibility_semantics}
use kurrent.Driver.Lane.{
  event_leaf, event_leaves, lane_id_bytes, next_block, next_blocks, report_lane, required_array,
  required_hash, verify_lane_proof_material, verify_lane_tip,
}
use kurrent.Driver.Markers.{
  check_recorded_lane, check_marker, checked_u64_sum as driver_sum, events_by_txid, initial_lane,
  marker_events, proof_after_windows, require_marker_payload, require_value_eq,
}
use kurrent.Driver.Monitor.{required_bool}
use kurrent.Driver.Records.{
  decode_transaction, read_hex_file, read_json, resolve_record_path, transaction_from_record,
  verify_hex_record_hash,
}
use kurrent.Driver.Records.Laws.{counted}
use kurrent.Driver.Require.{
  require_eq, require_not_eq, require_recorded_txid, require_status, require_text, require_tx_lane,
  require_txid, required_str, required_typed, required_u64, required_value, tx_subnetwork_id_hex,
}
use kurrent.Driver.Sample.{commitments, machine, models, sample_external, start}
use kurrent.Driver.StateChannel.Verifier.{checked_transaction}
use kurrent.Driver.Verify.{change, continue, lift, ◌>>=◌, ◌>>◌}
use kurrent.Eligibility.Accepted.{check_pairs, choose, sort_by_index, strictly_ordered}
use kurrent.Eligibility.Decide.{debug_assert, decide, decide_all, evaluate_settlement_eligibility}
use kurrent.Eligibility.Evidence.{
  check_scope, expected_lane, validate_response_window_daa, validate_settlement_candidate_evidence,
}
use kurrent.Errors.{for_each}
use kurrent.External.{hash_json, header_hash, sha256_hex, template_hash}
use kurrent.Fixtures.{decode_marks, encode_marks}
use kurrent.Lane.{
  decode_fixed_hex, is_valid_kurrent_user_lane_id, validate_lane_binding, validate_lane_id_field,
}

pub eligibility_run :
    verify_settlement_eligibility_semantics machine commitments sample_external models true "out"
      start
    ≡ ok (tt, counted 3 3 eligibility_entry start)
unfolding verify_settlement_eligibility_semantics check_eligibility check_candidate_lane
    check_recorded_lane check_wrong_lane_marker check_decisions evaluation_answer
    require_decision_status find_decision check_marker events_by_txid initial_lane marker_events
    proof_after_windows require_marker_payload require_value_eq driver_sum checked_transaction
    decode_transaction transaction_from_record verify_hex_record_hash resolve_record_path
    read_hex_file required_typed required_value require_recorded_txid require_txid require_tx_lane
    require_not_eq tx_subnetwork_id_hex sha256_hex show_u64 event_leaf event_leaves lane_id_bytes
    next_block next_blocks report_lane required_array required_hash verify_lane_proof_material
    verify_lane_tip read_json require_eq require_status require_text required_str required_u64
    change continue lift ◌>>=◌ ◌>>◌ answer_then answer_next map_err ok_or require as_bytes get
    insert contains required_bool evaluate_settlement_eligibility validate_channel_update
    check_header check_participants check_conservation check_signatures state_update_signing_digest
    state_update_signing_hash participant_set_hash validate_lane_binding template_hash hash_json
    encode_marks same_keys from_keys for_each sum_is decode_marks collect_signatures check_signature
    verify_participant_signature decode_fixed_hex validate_lane_id_field
    is_valid_kurrent_user_lane_id validate_response_window_daa
    validate_settlement_candidate_evidence check_scope header_hash expected_lane choose
    sort_by_index debug_assert strictly_ordered check_pairs decide_all decide
eligibility_run = refl
