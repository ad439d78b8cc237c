-- ===== src/Normative/Signature/Tests.antt =====
-- The theorems on aggregate keys and certificates at concrete inputs.
use kurrent.Base.{
  Option, [], as_bytes, if◌then◌else◌, length, list_eq, ltb, nat_eq, none, refl, replicate, some,
  take, true, ℕ, ◌++◌, ◌==◌, ◌∷◌, ◌≡◌, ◌≤◌,
}
use kurrent.Bytes.{Bytes, to_le}
use kurrent.Errors.{ok}
use kurrent.Fixtures.{echo_mac, echo_secp}
use kurrent.Normative.Amounts.{max_state_number, validate_state_number}
use kurrent.Normative.Commitments.{StateCertMessage, state_cert_compute}
use kurrent.Normative.Hash.{Mac, blake2b_256_keyed}
use kurrent.Normative.Signature.{
  Secp, musig2_aggregate_xonly, musig2_verify, verify_state_certificate,
}
use kurrent.Normative.Signature.Laws.{
  Verifies, musig2_aggregate_xonly_comm, verify_state_certificate_iff,
}

musig2_aggregate_xonly_comm_example :
    musig2_aggregate_xonly echo_mac echo_secp (2 ∷ []) (1 ∷ [])
    ≡ musig2_aggregate_xonly echo_mac echo_secp (1 ∷ []) (2 ∷ [])
musig2_aggregate_xonly_comm_example =
    musig2_aggregate_xonly_comm echo_mac echo_secp (2 ∷ []) (1 ∷ [])

-- A MAC and a signature scheme of the real lengths: digests and keys of 32 bytes, signatures of 64.
abbrev short_mac : Mac
short_mac key payload = if ltb 64 (length key) then none else some (take 32 payload)

abbrev of_length : ℕ → Bytes → Option Bytes
of_length n bytes = if length bytes == n then some bytes else none

abbrev sized_secp : Secp
sized_secp = record echo_secp {
  xonly_from_slice = of_length 32;
  signature_from_slice = of_length 64;
  message_from_digest_slice = of_length 32;
}

abbrev cert : StateCertMessage
cert = record { scope_id = replicate 32 1; state_number = 4; state_root = replicate 32 2 }

abbrev key : Bytes
key = replicate 32 3

abbrev signature : Bytes
signature = replicate 32 1 ++ key

certificate_run : verify_state_certificate short_mac sized_secp cert key signature ≡ ok true
unfolding verify_state_certificate state_cert_compute validate_state_number blake2b_256_keyed
    musig2_verify as_bytes
certificate_run = refl

verify_state_certificate_iff_example :
    (4 ≤ max_state_number)
    × ((d : Bytes) × (short_mac
            (as_bytes "KurrentStateCert/v1")
            (replicate 32 1 ++ (to_le 8 4 ++ replicate 32 2))
          ≡ some d)
        × Verifies short_mac sized_secp key d signature)
verify_state_certificate_iff_example =
    (verify_state_certificate_iff short_mac sized_secp cert key signature).0 certificate_run
