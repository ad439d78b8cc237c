-- ===== src/Normative/Signature.antt =====
-- MuSig2 key aggregation and the signature checks of src/lib.rs. The `secp256k1` crate is a
-- parameter.
pub mod Laws
mod Tests
use kurrent.Base.{
  Bool, Option, [], false, if◌then◌else◌, list_eq, ltb, nat_eq, none, option_eq, some, string_eq,
  suc, true, zero, ℕ, ◌++◌, ◌+◌, ◌==◌, ◌^◌, ◌∷◌,
}
use kurrent.Bytes.{Bytes, to_le}
use kurrent.Errors.{Result, err, expect, ok, panic, ◌>>=◌, ◌>>◌}
use kurrent.Normative.Commitments.{
  CoopCloseMessage, StateCertMessage, coop_close_compute, state_cert_compute,
}
use kurrent.Normative.Hash.{Mac}

pub record Secp : Type 1 where
  pub XOnly : Type 0
  pub Signature : Type 0
  pub Message : Type 0
  pub Scalar : Type 0
  pub PublicKey : Type 0
  -- `XOnlyPublicKey::from_slice`, `Signature::from_slice`, `Message::from_digest_slice`
  pub xonly_from_slice : Bytes → Option XOnly
  pub signature_from_slice : Bytes → Option Signature
  pub message_from_digest_slice : Bytes → Option Message
  -- `verify_schnorr(…).is_ok()`
  pub verify_schnorr : Signature → Message → XOnly → Bool
  -- `Scalar::from_be_bytes`, and the test `scalar != Scalar::ZERO`
  pub scalar_from_be_bytes : Bytes → Option Scalar
  pub is_nonzero : Scalar → Bool
  -- `PublicKey::from_x_only_public_key` at even parity
  pub from_xonly_even : XOnly → PublicKey
  pub mul_tweak : PublicKey → Scalar → Option PublicKey
  pub combine : PublicKey → PublicKey → Option PublicKey
  -- `x_only_public_key().0.serialize()`
  pub serialize_xonly : PublicKey → Bytes

-- `<` of byte arrays.
unfoldable pub lex_lt : Bytes → Bytes → Bool
lex_lt [] [] = false
lex_lt [] (y ∷ ys) = true
lex_lt (x ∷ xs) [] = false
lex_lt (x ∷ xs) (y ∷ ys) = if ltb x y then true else (if ltb y x then false else lex_lt xs ys)

-- `[a, b].sort()`
unfoldable pub sort_pair : Bytes → Bytes → Bytes × Bytes
unfolding lex_lt
sort_pair a b = if lex_lt b a then (b, a) else (a, b)

module _ (mac : Mac) (secp : Secp) where
  open secp use {
    XOnly, Scalar, PublicKey, xonly_from_slice, signature_from_slice, message_from_digest_slice,
    verify_schnorr, scalar_from_be_bytes, is_nonzero, from_xonly_even, mul_tweak, combine,
    serialize_xonly,
  }

  -- A scalar that is in range and not zero.
  usable : Option Scalar → Option Scalar
  usable none = none
  usable (some k) = if is_nonzero k then some k else none

  -- The bytes that a round of `coefficient` hashes.
  abbrev coefficient_input : Bytes → Bytes → ℕ → Bytes
  coefficient_input l pk counter = l ++ (pk ++ (if counter == 0 then [] else to_le 4 counter))

  -- The loop of `coefficient`; `checked_add` panics after round 2 ^ 32 - 1, when no round is left.
  unfoldable pub coefficient : ℕ → Bytes → Bytes → ℕ → Result Scalar
  unfolding usable
  coefficient zero l pk counter = panic
  coefficient (suc rounds) l pk counter = do
    bytes ← expect (mac [] (coefficient_input l pk counter))
    elim (usable (scalar_from_be_bytes bytes)) [
      | some k ↦ ok k
      | none ↦ coefficient rounds l pk (counter + 1)
    ]

  -- The aggregation of two sorted keys.
  unfoldable pub aggregate_sorted : Bytes × Bytes → Result Bytes
  unfolding coefficient
  aggregate_sorted (k0, k1) = do
    l ← expect (mac [] (k0 ++ k1))
    a1 ← coefficient (2 ^ 32) l k0 0
    a2 ← coefficient (2 ^ 32) l k1 0
    xonly_a ← expect (xonly_from_slice k0)
    xonly_b ← expect (xonly_from_slice k1)
    p1 ← expect (mul_tweak (from_xonly_even xonly_a) a1)
    p2 ← expect (mul_tweak (from_xonly_even xonly_b) a2)
    combined ← expect (combine p1 p2)
    ok (serialize_xonly combined)

  unfoldable pub musig2_aggregate_xonly : Bytes → Bytes → Result Bytes
  unfolding sort_pair
  musig2_aggregate_xonly pubkey_a pubkey_b = aggregate_sorted (sort_pair pubkey_a pubkey_b)

  unfoldable pub musig2_verify : Bytes → Bytes → Bytes → Result Bool
  musig2_verify agg message signature = elim (xonly_from_slice agg) [
    | none ↦ ok false
    | some xonly ↦ (elim (signature_from_slice signature) [
      | none ↦ ok false
      | some sig ↦
          expect (message_from_digest_slice message) >>= λ msg. ok (verify_schnorr sig msg xonly)
    ])
  ]

  unfoldable pub verify_state_certificate : StateCertMessage → Bytes → Bytes → Result Bool
  verify_state_certificate cert agg signature = elim (state_cert_compute mac cert) [
    | ok message ↦ musig2_verify agg message signature
    | err e ↦ ok false
    | panic ↦ panic
  ]

  unfoldable pub verify_coop_close : CoopCloseMessage → Bytes → Bytes → Result Bool
  verify_coop_close msg agg signature = do
    message ← coop_close_compute mac msg
    musig2_verify agg message signature
