-- ===== src/Swap.antt =====
-- The Lightning swap of src/lib.rs: preimages and `validate_ln_swap`.
use Prim.Native.Char.{Char, code}
use kurrent.Base.{
  Bool, Map, Option, String, as_bytes, false, leb, length, list_eq, nat_eq, not, option_eq, some,
  string_eq, true, ℕ, ◌!=◌, ◌&&◌, ◌<>◌, ◌==◌, ◌||◌,
}
use kurrent.Bytes.{Bytes}
use kurrent.Errors.{
  KurrentError, Result, fail_if, invalid_swap_evidence, ok_or, receipt_replay,
  wrong_funding_outpoint, wrong_network_profile, wrong_preimage, wrong_protocol_version,
  wrong_script_hash, wrong_settlement_outpoint, ◌>>=◌, ◌>>◌,
}
use kurrent.External.{External, sha256_hex}
use kurrent.Registry.Receipt.{validate_hash}
use kurrent.Types.{ChannelReceipt}
pub mod Outcomes
mod Tests

pub record LnSwapEvidence : Type 0 where
  pub protocol_version : ℕ
  pub network_profile : String
  pub swap_id : String
  pub direction : String
  pub ln_payment_hash : String
  pub preimage : String
  pub preimage_hash : String
  pub kaspa_funding_outpoint : String
  pub kaspa_settlement_outpoint : String
  pub ln_amount_sat : ℕ
  pub kaspa_amount_sompi : ℕ
  pub amount : ℕ
  pub recipient : String
  pub recipient_spk_sha256 : String
  pub script_hash : String
  pub evidence_file_hashes : Map String String

-- `char::is_ascii_hexdigit`
abbrev is_ascii_hexdigit : Char → Bool
is_ascii_hexdigit c =
    (leb 0x30 (code c) && leb (code c) 0x39)
    || (leb 0x41 (code c) && leb (code c) 0x46)
    || (leb 0x61 (code c) && leb (code c) 0x66)

all_hexdigits : String → Bool
all_hexdigits String.[] = true
all_hexdigits (String.◌∷◌ c s) = is_ascii_hexdigit c && all_hexdigits s

-- 64 bytes, all of them hexadecimal digits.
unfoldable pub is_hex_digest : String → Bool
unfolding all_hexdigits
is_hex_digest s = length (as_bytes s) == 64 && all_hexdigits s

module _ (x : External) where
  unfoldable pub decode_preimage : String → Result Bytes
  decode_preimage preimage = do
    fail_if (not (is_hex_digest preimage)) wrong_preimage
    ok_or (x.hex_decode preimage) wrong_preimage

  unfoldable pub validate_preimage_bytes : Bytes → String → Result (Unit {0})
  validate_preimage_bytes preimage expected_hash =
      fail_if (sha256_hex x preimage != expected_hash) wrong_preimage

  unfoldable pub validate_preimage : String → String → Result (Unit {0})
  unfolding decode_preimage validate_preimage_bytes
  validate_preimage preimage expected_hash =
      decode_preimage preimage >>= λ bytes. validate_preimage_bytes bytes expected_hash

  -- The amounts, texts and direction of the evidence.
  unfoldable pub check_swap_fields : LnSwapEvidence → Result (Unit {0})
  check_swap_fields evidence = do
    fail_if
        (evidence.amount == 0
          || evidence.ln_amount_sat == 0
          || evidence.kaspa_amount_sompi == 0
          || evidence.recipient == ""
          || not (is_hex_digest evidence.recipient_spk_sha256)
          || evidence.script_hash == "")
        (invalid_swap_evidence
          "LN amount, Kaspa amount, recipient, recipient script hash, and script hash are required")
    fail_if (evidence.amount != evidence.kaspa_amount_sompi)
        (invalid_swap_evidence "legacy amount must equal kaspa_amount_sompi")
    fail_if (not (evidence.direction == "ln-to-kaspa" || evidence.direction == "kaspa-to-ln"))
        (invalid_swap_evidence ("invalid swap direction: " <> evidence.direction))

  -- The receipt against the evidence.
  unfoldable pub check_swap_receipt : LnSwapEvidence → ChannelReceipt → Result (Unit {0})
  check_swap_receipt evidence receipt = do
    fail_if (receipt.protocol_version != evidence.protocol_version)
        (wrong_protocol_version evidence.protocol_version receipt.protocol_version)
    fail_if (receipt.network_profile != evidence.network_profile)
        (wrong_network_profile evidence.network_profile receipt.network_profile)
    fail_if (receipt.funding_outpoint != evidence.kaspa_funding_outpoint)
        (wrong_funding_outpoint evidence.kaspa_funding_outpoint receipt.funding_outpoint)
    fail_if (receipt.output_id != evidence.kaspa_settlement_outpoint)
        (wrong_settlement_outpoint evidence.kaspa_settlement_outpoint receipt.output_id)
    fail_if (receipt.settlement_template_hash != evidence.script_hash)
        (wrong_script_hash evidence.script_hash receipt.settlement_template_hash)
    fail_if
        (receipt.swap_id != some evidence.swap_id || receipt.direction != some evidence.direction)
        receipt_replay

  unfoldable pub validate_ln_swap : LnSwapEvidence → ChannelReceipt → Result (Unit {0})
  unfolding check_swap_fields validate_preimage check_swap_receipt
  validate_ln_swap evidence receipt = do
    validate_hash x receipt
    check_swap_fields evidence
    validate_preimage evidence.preimage evidence.ln_payment_hash
    fail_if (evidence.preimage_hash != evidence.ln_payment_hash) wrong_preimage
    check_swap_receipt evidence receipt
