-- ===== src/Normative/Commitments/Binding.antt =====
-- What a digest of src/lib.rs commits to. Each statement ends in "or these two payloads are a
-- collision of keyed BLAKE2b", so no assumption on the hash is made.
use kurrent.Base.{
  String, ap, arith, as_bytes, beq_refl, eq_of_beq, inl, inr, length, list_eq, nat_eq, option_eq,
  string_eq, subst, sym, true, ℕ, ◌+◌, ◌<◌, ◌==◌, ◌∙◌, ◌≡◌, ◌≤◌, ◌⊎◌,
}
use kurrent.Bytes.{Bytes, IsU64}
use kurrent.Errors.{>>-eq-ok, >>=-eq-ok, err, ok, ok-injective, state_number_out_of_range}
use kurrent.Normative.Amounts.{
  SettlementMask, from_values, max_script_amount, max_state_number, validate_state_number,
}
use kurrent.Normative.Amounts.Laws.{Describes, from_values_iff}
use kurrent.Normative.Commitments.{
  CoopCloseMessage, ScopeInputs, StateCertMessage, StateRootInput, compute_root, compute_scope_id,
  coop_close_compute, coop_close_outputs_hash, coop_close_outputs_payload, scope_payload,
  state_cert_compute, state_root_payload, tag, verify_replacement_state_root,
}
use kurrent.Normative.Commitments.Payloads.{
  IsCoopCloseMessage, IsScopeInputs, IsStateCertMessage, IsStateRootInput,
  coop_close_outputs_payload-injective, coop_close_payload, coop_close_payload-injective,
  scope_payload-injective, state_cert_payload, state_cert_payload-injective,
  state_root_payload-injective,
}
use kurrent.Normative.Hash.{
  AcceptsShortKeys, Collision, Mac, blake2b_256_keyed, blake2b_256_keyed_binding,
  blake2b_256_keyed_total, domain_kurrent_coop_close, domain_kurrent_coop_close_outputs,
  domain_kurrent_scope, domain_kurrent_state, domain_kurrent_state_cert,
}
use kurrent.Normative.Spk.{EncodedSpk, IsSpk}

state_cert_tag_short : length (as_bytes domain_kurrent_state_cert) ≤ 64
unfolding as_bytes
state_cert_tag_short = omega arith

-- The payload of a cooperative close's outputs, for the values of a state.
abbrev pub outputs_payload : StateRootInput → Bytes
outputs_payload u = coop_close_outputs_payload u.settlement_mask u.spk_a u.value_a u.spk_b u.value_b

-- The state root input that a witness stands for.
abbrev pub witness_input : SettlementMask → EncodedSpk → ℕ → EncodedSpk → ℕ → StateRootInput
witness_input m a va b vb = record {
  settlement_mask = m;
  spk_a = a;
  value_a = va;
  spk_b = b;
  value_b = vb;
}

-- What a witness shows of the certified state `s`.
pub record Witnessed (s : StateRootInput) (a : EncodedSpk) (va : ℕ) (b : EncodedSpk) (vb : ℕ)
    (total : ℕ) : Type 0 where
  pub conserved : va + vb ≡ total
  pub in_range : total ≤ max_script_amount
  pub same_spk_a : s.spk_a ≡ a
  pub same_value_a : s.value_a ≡ va
  pub same_spk_b : s.spk_b ≡ b
  pub same_value_b : s.value_b ≡ vb
  pub mask_fits : Describes s.settlement_mask va vb

witnessed :
    (s : StateRootInput) (m : SettlementMask) (a b : EncodedSpk) (va vb total : ℕ)
    → s ≡ witness_input m a va b vb
    → (va + vb ≡ total) × (total ≤ max_script_amount) × Describes m va vb
    → Witnessed s a va b vb total
witnessed s m a b va vb total e (sum, range, mask) = record {
  conserved = sum;
  in_range = range;
  same_spk_a = ap (λ (t : StateRootInput). t.spk_a) e;
  same_value_a = ap (λ (t : StateRootInput). t.value_a) e;
  same_spk_b = ap (λ (t : StateRootInput). t.spk_b) e;
  same_value_b = ap (λ (t : StateRootInput). t.value_b) e;
  mask_fits =
      subst (λ k. Describes k va vb) (sym (ap (λ (t : StateRootInput). t.settlement_mask) e)) mask;
}

module _ (mac : Mac) where
  -- A hash of two values under one tag, by payloads that determine them.
  binds {ℓ} :
      {A : Type ℓ} (tag : String) (payload : A → Bytes) (s t : A) {d : Bytes}
      → (payload s ≡ payload t → s ≡ t)
      → blake2b_256_keyed mac tag (payload s) ≡ ok d
      → blake2b_256_keyed mac tag (payload t) ≡ ok d
      → (s ≡ t) ⊎ Collision mac tag (payload s) (payload t)
  binds tag payload s t inj hs ht =
      elim (blake2b_256_keyed_binding mac tag (payload s) (payload t) hs ht) [
        | inl same ↦ inl (inj same)
        | inr broken ↦ inr broken
      ]

  -- A state root binds the mask, both script public keys and both values.
  pub compute_root_binding :
      (s t : StateRootInput) {d : Bytes}
      → IsStateRootInput s
      → IsStateRootInput t
      → compute_root mac s ≡ ok d
      → compute_root mac t ≡ ok d
      → (s ≡ t) ⊎ Collision mac domain_kurrent_state (state_root_payload s) (state_root_payload t)
  unfolding compute_root
  compute_root_binding s t hs ht ds dt =
      binds domain_kurrent_state state_root_payload s t (state_root_payload-injective s t hs ht) ds
        dt

  -- A scope identifier binds chain, covenant, key, window, version and policy.
  pub compute_scope_id_binding :
      (s t : ScopeInputs) {d : Bytes}
      → IsScopeInputs s
      → IsScopeInputs t
      → compute_scope_id mac s ≡ ok d
      → compute_scope_id mac t ≡ ok d
      → (s ≡ t) ⊎ Collision mac domain_kurrent_scope (scope_payload s) (scope_payload t)
  unfolding compute_scope_id
  compute_scope_id_binding s t hs ht ds dt =
      binds domain_kurrent_scope scope_payload s t (scope_payload-injective s t hs ht) ds dt

  -- The hash of the outputs of a cooperative close binds them.
  pub coop_close_outputs_hash_binding :
      (s t : StateRootInput) {d : Bytes}
      → IsStateRootInput s
      → IsStateRootInput t
      → coop_close_outputs_hash mac s.settlement_mask s.spk_a s.value_a s.spk_b s.value_b ≡ ok d
      → coop_close_outputs_hash mac t.settlement_mask t.spk_a t.value_a t.spk_b t.value_b ≡ ok d
      → (s ≡ t)
        ⊎ Collision mac domain_kurrent_coop_close_outputs (outputs_payload s) (outputs_payload t)
  unfolding coop_close_outputs_hash
  coop_close_outputs_hash_binding s t hs ht ds dt =
      binds domain_kurrent_coop_close_outputs outputs_payload s t
        (coop_close_outputs_payload-injective s t hs ht) ds dt

  -- A state certificate's message binds scope, state number and state root: two certificates of the
  -- types' ranges with one message are equal, or their payloads are a collision of keyed BLAKE2b.
  pub state_cert_compute_binding :
      (m n : StateCertMessage) {d : Bytes}
      → IsStateCertMessage m
      → IsStateCertMessage n
      → state_cert_compute mac m ≡ ok d
      → state_cert_compute mac n ≡ ok d
      → (m ≡ n)
        ⊎ Collision mac domain_kurrent_state_cert (state_cert_payload m) (state_cert_payload n)
  unfolding state_cert_compute
  state_cert_compute_binding m n hm hn dm dn =
      binds domain_kurrent_state_cert state_cert_payload m n
        (state_cert_payload-injective m n hm hn) (>>-eq-ok _ _ dm).1 (>>-eq-ok _ _ dn).1

  -- A cooperative close is bound to its scope, to the one outpoint that it spends, and to its
  -- outputs.
  pub coop_close_compute_binding :
      (m n : CoopCloseMessage) {d : Bytes}
      → IsCoopCloseMessage m
      → IsCoopCloseMessage n
      → coop_close_compute mac m ≡ ok d
      → coop_close_compute mac n ≡ ok d
      → (m ≡ n)
        ⊎ Collision mac domain_kurrent_coop_close (coop_close_payload m) (coop_close_payload n)
  unfolding coop_close_compute
  coop_close_compute_binding m n hm hn dm dn =
      binds domain_kurrent_coop_close coop_close_payload m n
        (coop_close_payload-injective m n hm hn) dm dn

  -- With a hash that accepts short keys, a certificate has a message exactly if its state number
  -- is in range; otherwise the error names the number and the bound.
  state_cert_compute_range :
      AcceptsShortKeys mac
      → (m : StateCertMessage)
      → (m.state_number ≤ max_state_number → (d : Bytes) × (state_cert_compute mac m ≡ ok d))
        × (max_state_number < m.state_number
            → state_cert_compute mac m
              ≡ err (state_number_out_of_range m.state_number max_state_number))
  unfolding state_cert_compute validate_state_number
  state_cert_compute_range accepts m = (in_range, λ h. ground arith)
    where
      in_range : m.state_number ≤ max_state_number → (d : Bytes) × (state_cert_compute mac m ≡ ok d)
      in_range h =
          let (d, e) =
            blake2b_256_keyed_total mac accepts domain_kurrent_state_cert (state_cert_payload m)
              state_cert_tag_short in
          (d, ground arith)

  -- If a witness is accepted as the replacement of a certified state, then it holds exactly the slots
  -- whose root was certified, splits the channel's total, and carries the mask of its values, or the
  -- payloads of the certified state and of the witness are a collision of keyed BLAKE2b. Slots and
  -- values have the ranges of their types.
  pub verify_replacement_state_root_sound :
      (cert : StateCertMessage) (s : StateRootInput) (a b : EncodedSpk) (va vb total : ℕ)
      → IsStateRootInput s
      → IsSpk a
      → IsSpk b
      → IsU64 va
      → IsU64 vb
      → compute_root mac s ≡ ok cert.state_root
      → verify_replacement_state_root mac cert a va b vb total ≡ ok true
      → Witnessed s a va b vb total
        ⊎ ((m : SettlementMask) × Collision mac domain_kurrent_state
              (state_root_payload s)
              (state_root_payload (witness_input m a va b vb)))
  unfolding verify_replacement_state_root
  verify_replacement_state_root_sound cert s a b va vb total hs ha hb ua ub root h =
      let (m, em, h1) = >>=-eq-ok (from_values va vb total) _ h in
      let w : StateRootInput = witness_input m a va b vb in
      let (r, er, h2) = >>=-eq-ok (compute_root mac w) (λ d. ok (d == cert.state_root)) h1 in
      let same : r ≡ cert.state_root = eq_of_beq r cert.state_root (ok-injective h2) in
      let fits : IsStateRootInput w = record {
        spk_a_fits = ha;
        value_a_fits = ua;
        spk_b_fits = hb;
        value_b_fits = ub;
      } in
      elim (compute_root_binding s w hs fits root (er ∙ ap ok same)) [
        | inl e ↦ inl (witnessed s m a b va vb total e ((from_values_iff va vb total m).0 em))
        | inr broken ↦ inr (m, broken)
      ]

  -- If the values of a certified state make up a total in script range and its mask says which of them
  -- are paid, then its slots are accepted as its witness.
  pub verify_replacement_state_root_complete :
      (cert : StateCertMessage) (s : StateRootInput) (total : ℕ)
      → s.value_a + s.value_b ≡ total
      → total ≤ max_script_amount
      → Describes s.settlement_mask s.value_a s.value_b
      → compute_root mac s ≡ ok cert.state_root
      → verify_replacement_state_root mac cert s.spk_a s.value_a s.spk_b s.value_b total ≡ ok true
  unfolding verify_replacement_state_root
  verify_replacement_state_root_complete cert s total sum range mask root =
      rw ((from_values_iff s.value_a s.value_b total s.settlement_mask).1 (sum, range, mask), root)
        (ap ok (beq_refl cert.state_root))
