-- ===== src/Normative/Commitments/Payloads.antt =====
-- Each payload that is hashed determines the value that it encodes.
use kurrent.Base.{
  ap, append-injective, append_assoc, arith, length, sym, ℕ, ◌%◌, ◌++◌, ◌^◌, ◌∙◌, ◌≡◌,
}
use kurrent.Bytes.{
  Bytes, IsArray, IsU16, IsU32, IsU64, array-append-injective, cons-injective, to_le,
  to_le-append-injective, to_le-injective,
}
use kurrent.Normative.Amounts.{SettlementMask, a_only, b_only, both, byte}
use kurrent.Normative.Commitments.{
  CoopCloseMessage, ScopeInputs, StateCertMessage, StateRootInput, coop_close_outputs_payload,
  from_outpoint_parts, scope_payload, state_root_payload,
}
use kurrent.Normative.Spk.{EncodedSpk, IsSpk, encode_spk}

-- Two script public keys in front of other bytes: equal bytes mean equal keys and equal rests.
pub encode_spk-append-injective :
    (s t : EncodedSpk) (r q : Bytes)
    → IsSpk s
    → IsSpk t
    → encode_spk s ++ r ≡ encode_spk t ++ q
    → (s ≡ t) × (r ≡ q)
unfolding encode_spk
encode_spk-append-injective s t r q hs ht e =
    let assoc = λ (u : EncodedSpk) (l : Bytes).
      append_assoc (to_le 2 u.version) (to_le 8 (length u.script % 2 ^ 64) ++ u.script) l
      ∙ ap (λ k. to_le 2 u.version ++ k)
          (append_assoc (to_le 8 (length u.script % 2 ^ 64)) u.script l) in
    let (ev, e1) =
      to_le-append-injective 2 s.version t.version _ _ (omega arith) (omega arith)
        (sym (assoc s r) ∙ e ∙ assoc t q) in
    let (el, e2) = to_le-append-injective 8 _ _ _ _ (omega arith) (omega arith) e1 in
    let (es, er) = append-injective s.script t.script r q (omega arith) e2 in
    (λ i. record { version = ev i; script = es i }, er)

-- The values that the Rust type holds.
pub record IsStateRootInput (s : StateRootInput) : Type 0 where
  pub spk_a_fits : IsSpk s.spk_a
  pub value_a_fits : IsU64 s.value_a
  pub spk_b_fits : IsSpk s.spk_b
  pub value_b_fits : IsU64 s.value_b

pub record IsScopeInputs (s : ScopeInputs) : Type 0 where
  pub chain_context_fits : IsArray 32 s.chain_context
  pub covenant_id_fits : IsArray 32 s.covenant_id
  pub agg_key_fits : IsArray 32 s.agg_key
  pub delta_fits : IsU32 s.delta
  pub programme_version_fits : IsU16 s.programme_version
  pub policy_hash_fits : IsArray 32 s.policy_hash

pub record IsStateCertMessage (m : StateCertMessage) : Type 0 where
  pub scope_id_fits : IsArray 32 m.scope_id
  pub state_number_fits : IsU64 m.state_number
  pub state_root_fits : IsArray 32 m.state_root

pub record IsCoopCloseMessage (m : CoopCloseMessage) : Type 0 where
  pub scope_id_fits : IsArray 32 m.scope_id
  pub input_outpoint_fits : IsArray 36 m.input_outpoint
  pub settlement_outputs_hash_fits : IsArray 32 m.settlement_outputs_hash

byte-injective : (m n : SettlementMask) → byte m ≡ byte n → m ≡ n
unfolding byte
byte-injective b_only n e = ground arith
byte-injective a_only n e = ground arith
byte-injective both n e = ground arith

-- Two state roots with one payload agree in mask, keys and values.
pub state_root_payload-injective :
    (s t : StateRootInput)
    → IsStateRootInput s
    → IsStateRootInput t
    → state_root_payload s ≡ state_root_payload t
    → s ≡ t
unfolding state_root_payload
state_root_payload-injective s t hs ht e =
    let (em, e1) = cons-injective e in
    let (_, e2) = to_le-append-injective 2 1 1 _ _ (omega arith) (omega arith) e1 in
    let (_, e3) = cons-injective e2 in
    let (ea, e4) = encode_spk-append-injective s.spk_a t.spk_a _ _ hs.spk_a_fits ht.spk_a_fits e3 in
    let (va, e5) =
      to_le-append-injective 8 s.value_a t.value_a _ _ hs.value_a_fits ht.value_a_fits e4 in
    let (_, e6) = cons-injective e5 in
    let (eb, e7) = encode_spk-append-injective s.spk_b t.spk_b _ _ hs.spk_b_fits ht.spk_b_fits e6 in
    let vb = to_le-injective 8 s.value_b t.value_b hs.value_b_fits ht.value_b_fits e7 in
    let m = byte-injective s.settlement_mask t.settlement_mask em in
    λ i. record {
      settlement_mask = m i;
      spk_a = ea i;
      value_a = va i;
      spk_b = eb i;
      value_b = vb i;
    }

-- The same for the outputs of a cooperative close.
pub coop_close_outputs_payload-injective :
    (s t : StateRootInput)
    → IsStateRootInput s
    → IsStateRootInput t
    → coop_close_outputs_payload s.settlement_mask s.spk_a s.value_a s.spk_b s.value_b
      ≡ coop_close_outputs_payload t.settlement_mask t.spk_a t.value_a t.spk_b t.value_b
    → s ≡ t
unfolding coop_close_outputs_payload
coop_close_outputs_payload-injective s t hs ht e =
    let (em, e3) = cons-injective e in
    let (ea, e4) = encode_spk-append-injective s.spk_a t.spk_a _ _ hs.spk_a_fits ht.spk_a_fits e3 in
    let (va, e6) =
      to_le-append-injective 8 s.value_a t.value_a _ _ hs.value_a_fits ht.value_a_fits e4 in
    let (eb, e7) = encode_spk-append-injective s.spk_b t.spk_b _ _ hs.spk_b_fits ht.spk_b_fits e6 in
    let vb = to_le-injective 8 s.value_b t.value_b hs.value_b_fits ht.value_b_fits e7 in
    let m = byte-injective s.settlement_mask t.settlement_mask em in
    λ i. record {
      settlement_mask = m i;
      spk_a = ea i;
      value_a = va i;
      spk_b = eb i;
      value_b = vb i;
    }

-- Two scopes with one payload agree in every field.
pub scope_payload-injective :
    (s t : ScopeInputs)
    → IsScopeInputs s
    → IsScopeInputs t
    → scope_payload s ≡ scope_payload t
    → s ≡ t
unfolding scope_payload
scope_payload-injective s t hs ht e =
    let (cc_e, e1) =
      array-append-injective 32 _ _ _ _ hs.chain_context_fits ht.chain_context_fits e in
    let (cov, e2) = array-append-injective 32 _ _ _ _ hs.covenant_id_fits ht.covenant_id_fits e1 in
    let (agg, e3) = array-append-injective 32 _ _ _ _ hs.agg_key_fits ht.agg_key_fits e2 in
    let (del, e4) = to_le-append-injective 4 s.delta t.delta _ _ hs.delta_fits ht.delta_fits e3 in
    let (ver, e5) =
      to_le-append-injective 2 s.programme_version t.programme_version _ _ hs.programme_version_fits
        ht.programme_version_fits e4 in
    λ i. record {
      chain_context = cc_e i;
      covenant_id = cov i;
      agg_key = agg i;
      delta = del i;
      programme_version = ver i;
      policy_hash = e5 i;
    }

-- The payload of `StateCertMessage::compute`.
abbrev pub state_cert_payload : StateCertMessage → Bytes
state_cert_payload m = m.scope_id ++ (to_le 8 m.state_number ++ m.state_root)

-- The payload of `CoopCloseMessage::compute`.
abbrev pub coop_close_payload : CoopCloseMessage → Bytes
coop_close_payload m = m.scope_id ++ (m.input_outpoint ++ m.settlement_outputs_hash)

-- Two certificates with one payload agree in every field.
pub state_cert_payload-injective :
    (m n : StateCertMessage)
    → IsStateCertMessage m
    → IsStateCertMessage n
    → state_cert_payload m ≡ state_cert_payload n
    → m ≡ n
state_cert_payload-injective m n hm hn e =
    let (es, e1) = array-append-injective 32 _ _ _ _ hm.scope_id_fits hn.scope_id_fits e in
    let (en, er) =
      to_le-append-injective 8 m.state_number n.state_number _ _ hm.state_number_fits
        hn.state_number_fits e1 in
    λ i. record { scope_id = es i; state_number = en i; state_root = er i }

-- Two cooperative closes with one payload agree in every field.
pub coop_close_payload-injective :
    (m n : CoopCloseMessage)
    → IsCoopCloseMessage m
    → IsCoopCloseMessage n
    → coop_close_payload m ≡ coop_close_payload n
    → m ≡ n
coop_close_payload-injective m n hm hn e =
    let (es, e1) = array-append-injective 32 _ _ _ _ hm.scope_id_fits hn.scope_id_fits e in
    let (eo, er) =
      array-append-injective 36 _ _ _ _ hm.input_outpoint_fits hn.input_outpoint_fits e1 in
    λ i. record { scope_id = es i; input_outpoint = eo i; settlement_outputs_hash = er i }

-- Messages built from a transaction id and an output number determine both.
pub from_outpoint_parts-injective :
    (scope tx tx' hash : Bytes) (vout vout' : ℕ)
    → IsArray 32 tx
    → IsArray 32 tx'
    → IsU32 vout
    → IsU32 vout'
    → from_outpoint_parts scope tx vout hash ≡ from_outpoint_parts scope tx' vout' hash
    → (tx ≡ tx') × (vout ≡ vout')
unfolding from_outpoint_parts
from_outpoint_parts-injective scope tx tx' hash vout vout' ht ht' hv hv' e =
    let (et, ev) =
      array-append-injective 32 _ _ _ _ ht ht'
        (ap (λ (m : CoopCloseMessage). m.input_outpoint) e) in
    (et, to_le-injective 4 vout vout' hv hv' ev)
