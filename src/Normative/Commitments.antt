-- ===== src/Normative/Commitments.antt =====
-- The commitments of src/lib.rs: state root, state certificate, cooperative close, scope, policy.
pub mod Payloads
pub mod Binding
pub mod Policy
mod Tests
use kurrent.Base.{Bool, list_eq, nat_eq, option_eq, string_eq, ℕ, ◌++◌, ◌==◌, ◌∷◌}
use kurrent.Bytes.{Bytes, to_le}
use kurrent.Errors.{Result, ok, ◌>>=◌, ◌>>◌}
use kurrent.Normative.Amounts.{SettlementMask, byte, from_values, validate_state_number}
use kurrent.Normative.Hash.{
  Mac, blake2b_256_keyed, domain_kurrent_coop_close, domain_kurrent_coop_close_outputs,
  domain_kurrent_scope, domain_kurrent_state, domain_kurrent_state_cert,
}
use kurrent.Normative.Spk.{EncodedSpk, encode_spk}

abbrev pub programme_version_v1 : ℕ
programme_version_v1 = 1

-- `ParticipantSlot::tag`
pub data ParticipantSlot : Type 0 where
  slot_a slot_b : ParticipantSlot

unfoldable pub tag : ParticipantSlot → ℕ
tag slot_a = 0x00
tag slot_b = 0x01

pub record StateRootInput : Type 0 where
  pub settlement_mask : SettlementMask
  pub spk_a : EncodedSpk
  pub value_a : ℕ
  pub spk_b : EncodedSpk
  pub value_b : ℕ

-- `StateRootInput::canonical_payload`
unfoldable pub state_root_payload : StateRootInput → Bytes
unfolding tag
state_root_payload s =
    byte s.settlement_mask
    ∷ (to_le 2 programme_version_v1
        ++ (tag slot_a
            ∷ (encode_spk s.spk_a
                ++ (to_le 8 s.value_a
                    ++ (tag slot_b ∷ (encode_spk s.spk_b ++ to_le 8 s.value_b))))))

-- The payload of `coop_close_outputs_hash`.
unfoldable pub coop_close_outputs_payload : SettlementMask → EncodedSpk → ℕ → EncodedSpk → ℕ → Bytes
coop_close_outputs_payload mask spk_a value_a spk_b value_b =
    byte mask ∷ (encode_spk spk_a ++ (to_le 8 value_a ++ (encode_spk spk_b ++ to_le 8 value_b)))

pub record StateCertMessage : Type 0 where
  pub scope_id : Bytes
  pub state_number : ℕ
  pub state_root : Bytes

pub record CoopCloseMessage : Type 0 where
  pub scope_id : Bytes
  pub input_outpoint : Bytes
  pub settlement_outputs_hash : Bytes

-- `CoopCloseMessage::from_outpoint_parts`
unfoldable pub from_outpoint_parts : Bytes → Bytes → ℕ → Bytes → CoopCloseMessage
from_outpoint_parts scope_id txid vout settlement_outputs_hash = record {
  scope_id = scope_id;
  input_outpoint = txid ++ to_le 4 vout;
  settlement_outputs_hash = settlement_outputs_hash;
}

pub record ScopeInputs : Type 0 where
  pub chain_context : Bytes
  pub covenant_id : Bytes
  pub agg_key : Bytes
  pub delta : ℕ
  pub programme_version : ℕ
  pub policy_hash : Bytes

-- `ScopeInputs::canonical_payload`
unfoldable pub scope_payload : ScopeInputs → Bytes
scope_payload s =
    s.chain_context
    ++ (s.covenant_id
        ++ (s.agg_key ++ (to_le 4 s.delta ++ (to_le 2 s.programme_version ++ s.policy_hash))))

module _ (mac : Mac) where
  -- `StateRootInput::compute_root`
  unfoldable pub compute_root : StateRootInput → Result Bytes
  compute_root s = blake2b_256_keyed mac domain_kurrent_state (state_root_payload s)

  unfoldable pub coop_close_outputs_hash :
      SettlementMask → EncodedSpk → ℕ → EncodedSpk → ℕ → Result Bytes
  coop_close_outputs_hash mask spk_a value_a spk_b value_b =
      blake2b_256_keyed mac domain_kurrent_coop_close_outputs
        (coop_close_outputs_payload mask spk_a value_a spk_b value_b)

  -- `StateCertMessage::compute`
  unfoldable pub state_cert_compute : StateCertMessage → Result Bytes
  state_cert_compute m = do
    validate_state_number m.state_number
    blake2b_256_keyed mac domain_kurrent_state_cert
        (m.scope_id ++ (to_le 8 m.state_number ++ m.state_root))

  -- `CoopCloseMessage::compute`; the three fields are arrays, so the slices are filled exactly.
  unfoldable pub coop_close_compute : CoopCloseMessage → Result Bytes
  coop_close_compute m =
      blake2b_256_keyed mac domain_kurrent_coop_close
        (m.scope_id ++ (m.input_outpoint ++ m.settlement_outputs_hash))

  -- `ScopeInputs::compute_scope_id`
  unfoldable pub compute_scope_id : ScopeInputs → Result Bytes
  compute_scope_id s = blake2b_256_keyed mac domain_kurrent_scope (scope_payload s)

  unfoldable pub verify_replacement_state_root :
      StateCertMessage → EncodedSpk → ℕ → EncodedSpk → ℕ → ℕ → Result Bool
  verify_replacement_state_root cert spk_a value_a spk_b value_b expected_total = do
    settlement_mask ← from_values value_a value_b expected_total
    recomputed ← compute_root (record {
      settlement_mask = settlement_mask;
      spk_a = spk_a;
      value_a = value_a;
      spk_b = spk_b;
      value_b = value_b;
    })
    ok (recomputed == cert.state_root)
