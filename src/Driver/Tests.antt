-- ===== src/Driver/Tests.antt =====
-- Runs of the refund, factory and hashlock verifiers.
use kurrent.Base.{
  as_bytes, contains, get, option_eq, list_eq, nat_eq, refl, show_u64, string_eq, ◌≡◌,
}
use kurrent.Bytes.{to_be}
use kurrent.Driver.{map_err, ok, ok_or, require, ◌>>=◌ as answer_then, ◌>>◌ as answer_next}
use kurrent.Driver.Factory.{check_factory_model, check_materialisation, factory_entry}
use kurrent.Driver.Factory.Verifier.{verify_factory_semantics}
use kurrent.Driver.Records.{
  decode_transaction, read_hex_file, read_json, resolve_record_path, transaction_from_record,
  verify_hex_record_hash, verify_hex_records,
}
use kurrent.Driver.Records.Laws.{counted}
use kurrent.Driver.Refund.{
  check_early_refund, check_mature_refund, check_refund_model, refund_entry,
}
use kurrent.Driver.Refund.Verifier.{verify_refund_semantics}
use kurrent.Driver.Require.{
  get_elem?, require_eq, require_input_outpoint, require_input_sequence, require_model_passed,
  require_outpoint, require_output_count, require_output_index, require_output_value,
  require_recorded_funding, require_recorded_outpoint, require_recorded_spend,
  require_recorded_txid, require_recorded_value, require_same, require_status, require_text,
  require_txid, required_str, required_typed, required_u64, required_value, require_u64_eq,
}
use kurrent.Driver.Hashlock.{
  check_hashlock_model, check_hashlock_settlement, check_model_status, check_payment,
  check_swap_amounts, check_typed_swap, first_spk_sha256, hashlock_entry, swap_preimage,
  typed_answer,
}
use kurrent.Driver.Hashlock.Direction.{verify_direction, verify_hashlock_semantics, verify_report}
use kurrent.Registry.Receipt.{scope_key, validate_hash}
use kurrent.Swap.{
  check_swap_fields, check_swap_receipt, decode_preimage, is_hex_digest, validate_ln_swap,
  validate_preimage, validate_preimage_bytes,
}
use kurrent.Driver.Sample.{machine, sample_external, start}
use kurrent.Fixtures.{encode_marks}
use kurrent.Driver.Verify.{change, continue, lift, ◌>>=◌, ◌>>◌}
use kurrent.External.{hash_json, sha256_hex}

pub refund_run :
    verify_refund_semantics machine sample_external "out" start
    ≡ ok (tt, counted 3 6 refund_entry start)
unfolding verify_refund_semantics check_early_refund check_mature_refund check_refund_model
    decode_transaction read_hex_file read_json resolve_record_path transaction_from_record
    verify_hex_record_hash verify_hex_records get_elem? require_eq require_input_outpoint
    require_input_sequence require_model_passed require_outpoint require_output_count
    require_output_index require_output_value require_recorded_funding require_recorded_outpoint
    require_recorded_spend require_recorded_txid require_recorded_value require_same require_status
    require_text require_txid required_str required_u64 required_value change continue lift ◌>>=◌
    ◌>>◌ answer_then answer_next map_err ok_or require encode_marks sha256_hex as_bytes get show_u64
refund_run = refl

pub factory_run :
    verify_factory_semantics machine sample_external "out" start
    ≡ ok (tt, counted 2 4 factory_entry start)
unfolding verify_factory_semantics check_materialisation check_factory_model decode_transaction
    read_hex_file read_json resolve_record_path transaction_from_record verify_hex_record_hash
    verify_hex_records get_elem? require_eq require_input_outpoint require_input_sequence
    require_model_passed require_outpoint require_output_count require_output_index
    require_output_value require_recorded_funding require_recorded_outpoint require_recorded_spend
    require_recorded_txid require_recorded_value require_same require_status require_text
    require_txid required_str required_u64 required_value change continue lift ◌>>=◌ ◌>>◌
    answer_then answer_next map_err ok_or require encode_marks sha256_hex as_bytes get show_u64
factory_run = refl

pub hashlock_run :
    verify_hashlock_semantics machine sample_external "out" start
    ≡ ok (tt, counted 4 8 hashlock_entry start)
unfolding verify_hashlock_semantics verify_direction verify_report check_hashlock_model
    check_hashlock_settlement check_model_status check_payment check_swap_amounts check_typed_swap
    first_spk_sha256 swap_preimage typed_answer required_typed require_u64_eq contains
    validate_ln_swap check_swap_fields check_swap_receipt validate_preimage decode_preimage
    validate_preimage_bytes is_hex_digest validate_hash scope_key hash_json to_be decode_transaction
    read_hex_file read_json resolve_record_path transaction_from_record verify_hex_record_hash
    verify_hex_records get_elem? require_eq require_input_outpoint require_input_sequence
    require_model_passed require_outpoint require_output_count require_output_index
    require_output_value require_recorded_funding require_recorded_outpoint require_recorded_spend
    require_recorded_txid require_recorded_value require_same require_status require_text
    require_txid required_str required_u64 required_value change continue lift ◌>>=◌ ◌>>◌
    answer_then answer_next map_err ok_or require encode_marks sha256_hex as_bytes get show_u64
hashlock_run = refl
