-- ===== src/Swap/Tests.antt =====
-- A swap with its receipt, and the theorems about them.
use kurrent.Base.{String, [], as_bytes, list_eq, nat_eq, none, option_eq, refl, some, string_eq}
use kurrent.Errors.{IsOk}
use kurrent.External.{hash_json, sha256_hex}
use kurrent.Fixtures.{decode_marks, digest_text, encode_marks, zero_external}
use kurrent.Registry.Receipt.{scope_key, validate_hash}
use kurrent.Swap.{
  LnSwapEvidence, check_swap_fields, check_swap_receipt, decode_preimage, is_hex_digest,
  validate_ln_swap, validate_preimage, validate_preimage_bytes,
}
use kurrent.Swap.Outcomes.{IsSwap, validate_ln_swap_iff}
use kurrent.Types.{ChannelReceipt}

abbrev preimage : String
preimage = "aaaaaaaaaaaaaaaaaaaaaaaaaaaaaaaaaaaaaaaaaaaaaaaaaaaaaaaaaaaaaaaa"

abbrev swap : LnSwapEvidence
swap = record {
  protocol_version = 1;
  network_profile = "devnet";
  swap_id = "w";
  direction = "kaspa-to-ln";
  ln_payment_hash = digest_text;
  preimage = preimage;
  preimage_hash = digest_text;
  kaspa_funding_outpoint = "f:0";
  kaspa_settlement_outpoint = "t:0";
  ln_amount_sat = 7;
  kaspa_amount_sompi = 9;
  amount = 9;
  recipient = "b";
  recipient_spk_sha256 = preimage;
  script_hash = "h";
  evidence_file_hashes = [];
}

abbrev receipt : ChannelReceipt
receipt = record {
  protocol_version = 1;
  network_profile = "devnet";
  channel_id = "c";
  factory_id = none;
  virtual_channel_id = none;
  funding_outpoint = "f:0";
  output_id = "t:0";
  state_number = 2;
  settlement_template_hash = "h";
  fee_policy_hash = none;
  swap_id = some "w";
  direction = some "kaspa-to-ln";
  receipt_hash = digest_text;
}

swap_run : IsOk (validate_ln_swap zero_external swap receipt)
unfolding validate_ln_swap check_swap_fields check_swap_receipt validate_preimage decode_preimage
    validate_preimage_bytes is_hex_digest sha256_hex validate_hash scope_key hash_json encode_marks
    decode_marks as_bytes
swap_run = refl

validate_ln_swap_iff_example : IsSwap zero_external swap receipt
validate_ln_swap_iff_example = (validate_ln_swap_iff zero_external swap receipt).0 swap_run
