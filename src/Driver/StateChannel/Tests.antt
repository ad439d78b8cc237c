-- ===== src/Driver/StateChannel/Tests.antt =====
-- A run of the state-channel verifier, and the theorem about it.
use kurrent.Base.{as_bytes, get, option_eq, list_eq, nat_eq, refl, show_u64, string_eq, ◌≡◌}
use kurrent.Driver.{map_err, ok, ok_or, require, ◌>>=◌ as answer_then, ◌>>◌ as answer_next}
use kurrent.Driver.Records.{
  decode_transaction, read_hex_file, read_json, resolve_record_path, transaction_from_record,
  verify_hex_record_hash, verify_hex_records,
}
use kurrent.Driver.Records.Laws.{counted}
use kurrent.Driver.Require.{
  get_elem?, require_eq, require_input_outpoint, require_input_sequence, require_model_passed,
  require_outpoint, require_output_count, require_output_index, require_output_value,
  require_recorded_funding, require_recorded_outpoint, require_recorded_spend,
  require_recorded_txid, require_recorded_value, require_same, require_status, require_text,
  require_txid, required_str, required_u64, required_value, require_json_hash, require_not_eq,
  require_tx_lane, tx_subnetwork_id_hex,
}
use kurrent.Driver.StateChannel.{
  check_rejected_settlement, check_rejected_update, check_settled, check_settlement_outputs,
  check_stale, check_state_funding, check_state_hashes, check_state_model, check_state_update,
  check_wrong_lane, state_channel_entry,
}
use kurrent.Driver.StateChannel.Evidence.{StateChannelEvidence, verify_state_channel_semantics_iff}
use kurrent.Driver.StateChannel.Verifier.{checked_transaction, verify_state_channel_semantics}
use kurrent.Driver.Sample.{machine, sample_external, start}
use kurrent.Fixtures.{encode_marks}
use kurrent.Driver.Verify.{change, continue, lift, ◌>>=◌, ◌>>◌}
use kurrent.External.{hash_json, sha256_hex}

pub state_channel_run :
    verify_state_channel_semantics machine sample_external "out" start
    ≡ ok (tt, counted 8 13 state_channel_entry start)
unfolding verify_state_channel_semantics checked_transaction check_state_hashes check_state_funding
    check_state_update check_wrong_lane check_rejected_update check_settlement_outputs
    check_rejected_settlement check_stale check_settled check_state_model require_json_hash
    require_not_eq require_tx_lane tx_subnetwork_id_hex hash_json decode_transaction read_hex_file
    read_json resolve_record_path transaction_from_record verify_hex_record_hash verify_hex_records
    get_elem? require_eq require_input_outpoint require_input_sequence require_model_passed
    require_outpoint require_output_count require_output_index require_output_value
    require_recorded_funding require_recorded_outpoint require_recorded_spend require_recorded_txid
    require_recorded_value require_same require_status require_text require_txid required_str
    required_u64 required_value change continue lift ◌>>=◌ ◌>>◌ answer_then answer_next map_err
    ok_or require encode_marks sha256_hex as_bytes get show_u64
state_channel_run = refl

verify_state_channel_semantics_iff_example :
    StateChannelEvidence machine sample_external "out"
    × (counted 8 13 state_channel_entry start ≡ counted 8 13 state_channel_entry start)
verify_state_channel_semantics_iff_example =
    (verify_state_channel_semantics_iff machine sample_external "out" start
        (counted 8 13 state_channel_entry start) tt).0
      state_channel_run
