-- ===== src/Normative/Commitments/Tests.antt =====
-- The theorems on commitments at concrete inputs, over a MAC that returns its payload.
use kurrent.Base.{
  [], ◌∷◌, arith, as_bytes, list_eq, nat_eq, option_eq, refl, replicate, string_eq, true, ◌≡◌, ◌⊎◌,
}
use kurrent.Errors.{ok}
use kurrent.Fixtures.{echo_mac}
use kurrent.Normative.Amounts.{SettlementMask, both, validate_state_number}
use kurrent.Normative.Commitments.{
  CoopCloseMessage, ScopeInputs, StateCertMessage, StateRootInput, compute_root, compute_scope_id,
  coop_close_compute, scope_payload, state_cert_compute, state_root_payload,
  verify_replacement_state_root,
}
use kurrent.Normative.Commitments.Binding.{
  Witnessed, compute_root_binding, state_cert_compute_binding,
  verify_replacement_state_root_complete, verify_replacement_state_root_sound, witness_input,
}
use kurrent.Normative.Commitments.Payloads.{
  IsCoopCloseMessage, IsScopeInputs, IsStateCertMessage, IsStateRootInput, coop_close_payload,
  state_cert_payload,
}
use kurrent.Normative.Commitments.Policy.{compute_policy_hash, policy_payload, v1, validate_v1}
use kurrent.Normative.Hash.{
  Collision, blake2b_256_keyed, domain_kurrent_state, domain_kurrent_state_cert,
}
use kurrent.Normative.Spk.{EncodedSpk}

abbrev spk : EncodedSpk
spk = record { version = 0; script = 7 ∷ [] }

abbrev state : StateRootInput
state = record { settlement_mask = both; spk_a = spk; value_a = 60; spk_b = spk; value_b = 40 }

state-IsStateRootInput : IsStateRootInput state
state-IsStateRootInput = omega arith

root_run : compute_root echo_mac state ≡ ok (state_root_payload state)
unfolding compute_root blake2b_256_keyed as_bytes
root_run = refl

compute_root_binding_example :
    (state ≡ state)
    ⊎ Collision echo_mac domain_kurrent_state (state_root_payload state) (state_root_payload state)
compute_root_binding_example =
    compute_root_binding echo_mac state state {d = state_root_payload state} state-IsStateRootInput
      state-IsStateRootInput root_run root_run

abbrev cert : StateCertMessage
cert = record { scope_id = replicate 32 1; state_number = 4; state_root = state_root_payload state }

verify_replacement_state_root_complete_example :
    verify_replacement_state_root echo_mac cert spk 60 spk 40 100 ≡ ok true
verify_replacement_state_root_complete_example =
    verify_replacement_state_root_complete echo_mac cert state 100 (omega arith) (omega arith)
      (omega arith) root_run

verify_replacement_state_root_sound_example :
    Witnessed state spk 60 spk 40 100
    ⊎ ((m : SettlementMask) × Collision echo_mac domain_kurrent_state
          (state_root_payload state)
          (state_root_payload (witness_input m spk 60 spk 40)))
verify_replacement_state_root_sound_example =
    verify_replacement_state_root_sound echo_mac cert state spk spk 60 40 100 state-IsStateRootInput
      (omega arith) (omega arith) (omega arith) (omega arith) root_run
      verify_replacement_state_root_complete_example

abbrev message : StateCertMessage
message = record { scope_id = replicate 32 1; state_number = 4; state_root = replicate 32 2 }

message_run : state_cert_compute echo_mac message ≡ ok (state_cert_payload message)
unfolding state_cert_compute blake2b_256_keyed as_bytes validate_state_number
message_run = refl

message-IsStateCertMessage : IsStateCertMessage message
message-IsStateCertMessage = omega arith

state_cert_compute_binding_example :
    (message ≡ message)
    ⊎ Collision echo_mac domain_kurrent_state_cert
        (state_cert_payload message)
        (state_cert_payload message)
state_cert_compute_binding_example =
    state_cert_compute_binding echo_mac message message {d = state_cert_payload message}
      message-IsStateCertMessage message-IsStateCertMessage message_run message_run

abbrev close : CoopCloseMessage
close = record {
  scope_id = replicate 32 1;
  input_outpoint = replicate 36 2;
  settlement_outputs_hash = replicate 32 3;
}

close_run : coop_close_compute echo_mac close ≡ ok (coop_close_payload close)
unfolding coop_close_compute blake2b_256_keyed as_bytes
close_run = refl

close-IsCoopCloseMessage : IsCoopCloseMessage close
close-IsCoopCloseMessage = omega arith

abbrev inputs : ScopeInputs
inputs = record {
  chain_context = replicate 32 1;
  covenant_id = replicate 32 2;
  agg_key = replicate 32 3;
  delta = 10;
  programme_version = 1;
  policy_hash = replicate 32 4;
}

scope_run : compute_scope_id echo_mac inputs ≡ ok (scope_payload inputs)
unfolding compute_scope_id blake2b_256_keyed as_bytes
scope_run = refl

inputs-IsScopeInputs : IsScopeInputs inputs
inputs-IsScopeInputs = omega arith

policy_run : compute_policy_hash echo_mac v1 ≡ ok (policy_payload v1)
unfolding compute_policy_hash blake2b_256_keyed as_bytes validate_v1
policy_run = refl
