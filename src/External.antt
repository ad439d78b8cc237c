-- ===== src/External.antt =====
-- Third-party crates that the harness of src/lib.rs calls, as one parameter, and `hash_json`.
use kurrent.Base.{All, Bool, List, Map, Option, String, as_bytes, some, ℕ, ◌++◌, ◌∷◌, ◌≡◌}
use kurrent.Bytes.{Bytes, IsArray, IsByte}
use kurrent.Types.{
  ChallengePolicy, ChannelReceiptScope, ClaimScope, LatestStateHeader, MaterialisationPlan,
  SettlementFeePolicy, SettlementTemplate,
}

-- `to_vec_…` is `serde_json::to_vec` at each serialised type. It is documented to fail only where a
-- `Serialize` implementation fails or a map has keys that are no strings; the types here derive
-- theirs and key their maps by strings, so it is taken to return the bytes.
pub record External : Type 0 where
  pub sha256 : Bytes → Bytes
  pub hex_encode : Bytes → String
  pub hex_decode : String → Option Bytes
  pub to_vec_header : LatestStateHeader → Bytes
  pub to_vec_signing_payload : LatestStateHeader → Map String ℕ → Bytes
  pub to_vec_template : SettlementTemplate → Bytes
  pub to_vec_distribution : Map String ℕ → Bytes
  pub to_vec_fee_policy : SettlementFeePolicy → Bytes
  pub to_vec_challenge_policy : ChallengePolicy → Bytes
  pub to_vec_participants : List String → Bytes
  pub to_vec_receipt_scope : ChannelReceiptScope → Bytes
  pub to_vec_claim_scope : ClaimScope → Bytes
  pub to_vec_plan : MaterialisationPlan → Bytes
  -- `XOnlyPublicKey::from_slice(…).is_ok()`, `Signature::from_slice(…).is_ok()`
  pub public_key_from_slice : Bytes → Bool
  pub signature_from_slice : Bytes → Bool
  -- `signature.verify(&message, &public_key).is_ok()`, on the decoded bytes
  pub schnorr_verify : Bytes → Bytes → Bytes → Bool

-- What the crates document: hex decoding undoes encoding, a SHA-256 digest has 32 bytes, and
-- encoded bytes have two lower-case digits each, so that decoding goes back too.
pub record ExternalLaws (x : External) : Type 0 where
  pub hex_decode-hex_encode :
      (bs : Bytes) → All IsByte bs → x.hex_decode (x.hex_encode bs) ≡ some bs
  pub sha256-IsArray : (bs : Bytes) → IsArray 32 (x.sha256 bs)

abbrev pub domain_state : String
domain_state = "KURRENT_STATE_V1"

abbrev pub domain_settlement_template : String
domain_settlement_template = "KURRENT_SETTLEMENT_TEMPLATE_V1"

abbrev pub domain_channel_receipt : String
domain_channel_receipt = "KURRENT_CHANNEL_RECEIPT_V1"

abbrev pub domain_factory_materialisation : String
domain_factory_materialisation = "KURRENT_FACTORY_MATERIALISATION_V1"

abbrev pub domain_participant_set : String
domain_participant_set = "KURRENT_PARTICIPANT_SET_V1"

abbrev pub domain_claim_scope : String
domain_claim_scope = "KURRENT_CLAIM_SCOPE_V1"

abbrev pub domain_state_signature : String
domain_state_signature = "KURRENT_STATE_SIGNATURE_V1"

abbrev pub domain_lane_id : String
domain_lane_id = "KURRENT_LANE_V1"

abbrev pub domain_settlement_distribution : String
domain_settlement_distribution = "KURRENT_SETTLEMENT_DISTRIBUTION_V1"

abbrev pub domain_settlement_fee_policy : String
domain_settlement_fee_policy = "KURRENT_SETTLEMENT_FEE_POLICY_V1"

module _ (x : External) where
  -- `hash_json`, with the value already serialised: the panic of its `expect`, where `to_vec` fails, is
  -- not modelled.
  unfoldable pub hash_json : String → Bytes → String
  hash_json domain json = x.hex_encode (x.sha256 (as_bytes domain ++ (0 ∷ json)))

  -- `LatestStateHeader::hash`
  unfoldable pub header_hash : LatestStateHeader → String
  header_hash h = hash_json domain_state (x.to_vec_header h)

  -- `SettlementTemplate::hash`
  unfoldable pub template_hash : SettlementTemplate → String
  template_hash t = hash_json domain_settlement_template (x.to_vec_template t)

  -- `SettlementFeePolicy::hash`
  unfoldable pub fee_policy_hash : SettlementFeePolicy → String
  fee_policy_hash p = hash_json domain_settlement_fee_policy (x.to_vec_fee_policy p)

  unfoldable pub settlement_distribution_hash : SettlementTemplate → String
  settlement_distribution_hash t =
      hash_json domain_settlement_distribution (x.to_vec_distribution t.outputs)

  -- `ClaimScope::exclusive_key`
  unfoldable pub exclusive_key : ClaimScope → String
  exclusive_key s = hash_json domain_claim_scope (x.to_vec_claim_scope s)

  unfoldable pub sha256_hex : Bytes → String
  sha256_hex bytes = x.hex_encode (x.sha256 bytes)
