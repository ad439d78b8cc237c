-- ===== src/Lane.antt =====
-- Lane identifiers of src/lib.rs: derivation, validity, and the binding of a channel to its lane.
pub mod Laws
use kurrent.Base.{
  Bool, Option, String, [], as_bytes, drop, false, if◌then◌else◌, length, list_eq, nat_eq, none,
  not, option_eq, replicate, some, string_eq, take, true, ℕ, ◌!=◌, ◌&&◌, ◌++◌, ◌==◌, ◌∷◌,
}
use kurrent.Bytes.{Bytes}
use kurrent.Errors.{Result, fail_if, invalid_lane_id, ok, wrong_lane_id, ◌>>=◌, ◌>>◌}
use kurrent.External.{External, domain_lane_id}
use kurrent.Types.{FundingState, KurrentChannelConfig, StateUpdate}

abbrev all_zero : Bytes → Bool
all_zero [] = true
all_zero (b ∷ bs) = b == 0 && all_zero bs

-- `lane[..4]` of the derivation, from the first four bytes of the digest.
lane_prefix : Bytes → Bytes
lane_prefix [] = []
lane_prefix (b0 ∷ tail) = if all_zero tail then b0 ∷ (take 2 tail ++ (1 ∷ [])) else b0 ∷ tail

module _ (x : External) where
  -- `decode_fixed_hex::<N>`, with its error dropped as both callers drop it.
  unfoldable pub decode_fixed_hex : ℕ → String → Option Bytes
  decode_fixed_hex n value = elim (x.hex_decode value) [
    | none ↦ none
    | some bytes ↦ if length bytes == n then some bytes else none
  ]

  unfoldable pub derive_kurrent_channel_lane_id : String → String
  unfolding lane_prefix
  derive_kurrent_channel_lane_id channel_id =
      let digest =
        x.sha256
          (as_bytes domain_lane_id ++ (0 ∷ (as_bytes "channel" ++ (0 ∷ as_bytes channel_id)))) in
      x.hex_encode (lane_prefix (take 4 digest) ++ replicate 16 0)

  unfoldable pub is_valid_kurrent_user_lane_id : String → Bool
  unfolding decode_fixed_hex
  is_valid_kurrent_user_lane_id lane_id = elim (decode_fixed_hex 20 lane_id) [
    | none ↦ false
    | some bytes ↦
        if lane_id != x.hex_encode bytes
        then false
        else all_zero (drop 4 bytes) && not (all_zero (take 3 (drop 1 bytes)))
  ]

  unfoldable pub validate_lane_id_field : String → Option String → Result (Unit {0})
  validate_lane_id_field field none = ok tt
  validate_lane_id_field field (some lane_id) =
      fail_if (not (is_valid_kurrent_user_lane_id lane_id)) (invalid_lane_id field lane_id)

  -- The two comparisons under `if let Some(expected) = &config.expected_lane_id`.
  unfoldable pub lane_matches : Option String → Option String → Option String → Result (Unit {0})
  lane_matches none funding_lane header_lane = ok tt
  lane_matches (some expected) funding_lane header_lane = do
    fail_if (funding_lane != some expected) (wrong_lane_id (some expected) funding_lane)
    fail_if (header_lane != some expected) (wrong_lane_id (some expected) header_lane)

  unfoldable pub validate_lane_binding :
      KurrentChannelConfig → FundingState → StateUpdate → Result (Unit {0})
  unfolding validate_lane_id_field lane_matches
  validate_lane_binding config funding update = do
    validate_lane_id_field "config.expected_lane_id" config.expected_lane_id
    validate_lane_id_field "funding.expected_lane_id" funding.expected_lane_id
    validate_lane_id_field "header.expected_lane_id" update.header.expected_lane_id
    lane_matches config.expected_lane_id funding.expected_lane_id update.header.expected_lane_id
