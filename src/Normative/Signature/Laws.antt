-- ===== src/Normative/Signature/Laws.antt =====
-- The order of the keys in `musig2_aggregate_xonly` of src/lib.rs, and what
-- `verify_state_certificate` accepts.
use kurrent.Base.{
  Bool, Bool-cases, Option, [], ap, arith, as_bytes, false, inl, inr, none, refl, some, true, ◌++◌,
  ◌↔◌, ◌∷◌, ◌≡◌, ◌≤◌,
}
use kurrent.Bytes.{Bytes, to_le}
use kurrent.Errors.{>>-eq-ok, Result, err, ok, panic}
use kurrent.Normative.Amounts.{max_state_number}
use kurrent.Normative.Amounts.Laws.{validate_state_number_iff}
use kurrent.Normative.Commitments.{StateCertMessage, state_cert_compute}
use kurrent.Normative.Hash.{Mac, blake2b_256_keyed_iff}
use kurrent.Normative.Signature.{
  Secp, aggregate_sorted, lex_lt, musig2_aggregate_xonly, musig2_verify, sort_pair,
  verify_state_certificate,
}

lex_lt_asymm : (a b : Bytes) → lex_lt a b ≡ true → lex_lt b a ≡ false
unfolding lex_lt
lex_lt_asymm [] [] h = cc
lex_lt_asymm [] (y ∷ ys) h = refl
lex_lt_asymm (x ∷ xs) [] h = cc
lex_lt_asymm (x ∷ xs) (y ∷ ys) h = ground (arith, lex_lt_asymm xs ys)

lex_lt_total : (a b : Bytes) → lex_lt a b ≡ false → lex_lt b a ≡ false → a ≡ b
unfolding lex_lt
lex_lt_total [] [] h k = refl
lex_lt_total [] (y ∷ ys) h k = cc
lex_lt_total (x ∷ xs) [] h k = cc
lex_lt_total (x ∷ xs) (y ∷ ys) h k = ground (arith, lex_lt_total xs ys)

sort_pair_comm : (a b : Bytes) → sort_pair a b ≡ sort_pair b a
unfolding sort_pair
sort_pair_comm a b = elim (Bool-cases (lex_lt a b)) [
  | inl ab ↦ rw (ab, lex_lt_asymm a b ab) refl
  | inr nab ↦ (elim (Bool-cases (lex_lt b a)) [
    | inl ba ↦ rw (nab, ba) refl
    | inr nba ↦ rw (lex_lt_total a b nab nba) refl
  ])
]

module _ (mac : Mac) (secp : Secp) where
  -- The participants get one aggregate key, whichever of them is named first.
  pub musig2_aggregate_xonly_comm :
      (a b : Bytes) → musig2_aggregate_xonly mac secp a b ≡ musig2_aggregate_xonly mac secp b a
  unfolding musig2_aggregate_xonly
  musig2_aggregate_xonly_comm a b = ap (aggregate_sorted mac secp) (sort_pair_comm a b)

  -- The message of a certificate is the MAC of scope, state number and state root.
  state_cert_compute_iff :
      (cert : StateCertMessage) (d : Bytes)
      → (state_cert_compute mac cert ≡ ok d) ↔ (
          (cert.state_number ≤ max_state_number)
          × (mac
                (as_bytes "KurrentStateCert/v1")
                (cert.scope_id ++ (to_le 8 cert.state_number ++ cert.state_root))
              ≡ some d))
  unfolding state_cert_compute as_bytes
  state_cert_compute_iff cert d =
      let payload = cert.scope_id ++ (to_le 8 cert.state_number ++ cert.state_root) in
      let hashed = blake2b_256_keyed_iff mac "KurrentStateCert/v1" payload d (omega arith) in
      let in_range = validate_state_number_iff cert.state_number in
      (
        (λ h. let (n, e) = >>-eq-ok _ _ h in (in_range.0 n, hashed.0 e)),
        (λ (n, e). rw (in_range.1 n) (hashed.1 e)),
      )

  -- The signature is valid for the digest under the key, with all three read from their bytes.
  abbrev pub Verifies : Bytes → Bytes → Bytes → Type 0
  Verifies agg digest signature =
      (key : secp.XOnly) × (secp.xonly_from_slice agg ≡ some key)
      × ((sig : secp.Signature) × (secp.signature_from_slice signature ≡ some sig)
          × ((msg : secp.Message) × (secp.message_from_digest_slice digest ≡ some msg)
              × (secp.verify_schnorr sig msg key ≡ true)))

  musig2_verify_iff :
      (agg digest signature : Bytes)
      → (musig2_verify mac secp agg digest signature ≡ ok true) ↔ Verifies agg digest signature
  unfolding musig2_verify
  musig2_verify_iff agg digest signature =
      go (secp.xonly_from_slice agg) (secp.signature_from_slice signature)
        (secp.message_from_digest_slice digest) refl refl refl
    where
      go :
          (key : Option secp.XOnly) (sig : Option secp.Signature) (msg : Option secp.Message)
          → secp.xonly_from_slice agg ≡ key
          → secp.signature_from_slice signature ≡ sig
          → secp.message_from_digest_slice digest ≡ msg
          → (musig2_verify mac secp agg digest signature ≡ ok true) ↔ Verifies agg digest signature
      go none sig msg k s m = ((λ h. ground arith), (λ v. ground arith))
      go (some key) none msg k s m = ((λ h. ground arith), (λ v. ground arith))
      go (some key) (some sig) none k s m = ((λ h. ground arith), (λ v. ground arith))
      go (some key) (some sig) (some msg) k s m =
          ((λ h. (key, k, (sig, s, (msg, m, ground arith)))), (λ v. ground arith))

  -- A state certificate is accepted exactly if its state number is in range and the MAC of its scope,
  -- state number and state root under the certificate's tag is a digest for which the signature is
  -- valid under the aggregate key, where digest, key and signature are read from their bytes.
  pub verify_state_certificate_iff :
      (cert : StateCertMessage) (agg signature : Bytes)
      → (verify_state_certificate mac secp cert agg signature ≡ ok true) ↔ (
          (cert.state_number ≤ max_state_number)
          × ((d : Bytes) × (mac
                  (as_bytes "KurrentStateCert/v1")
                  (cert.scope_id ++ (to_le 8 cert.state_number ++ cert.state_root))
                ≡ some d)
              × Verifies agg d signature))
  unfolding verify_state_certificate
  verify_state_certificate_iff cert agg signature = (
    forward (state_cert_compute mac cert) refl,
    λ (n, (d, e, v)).
        rw ((state_cert_compute_iff cert d).1 (n, e), verify_state_certificate)
          ((musig2_verify_iff agg d signature).1 v),
  )
    where
      forward :
          (r : Result Bytes)
          → state_cert_compute mac cert ≡ r
          → (elim r as (λ _. Result Bool) [
            | ok message ↦ musig2_verify mac secp agg message signature
            | err e ↦ ok false
            | panic ↦ panic
          ])
            ≡ ok true
          → (cert.state_number ≤ max_state_number)
            × ((d : Bytes) × (mac
                    (as_bytes "KurrentStateCert/v1")
                    (cert.scope_id ++ (to_le 8 cert.state_number ++ cert.state_root))
                  ≡ some d)
                × Verifies agg d signature)
      forward (ok d) e h =
          let (n, hashed) = (state_cert_compute_iff cert d).0 e in
          (n, (d, hashed, (musig2_verify_iff agg d signature).0 h))
      forward (err x) e h = cc
      forward panic e h = cc
