-- ===== src/Bundle/Tests.antt =====
-- A bundle of one file, and the theorem about it.
use kurrent.Base.{All, [], list_eq, refl, some, string_eq, true, ◌<>◌, ◌∷◌}
use kurrent.Bundle.{EvidenceBundle, FileSystem, verify_evidence_bundle, verify_file}
use kurrent.Bundle.Outcomes.{Recorded, verify_evidence_bundle_iff}
use kurrent.Errors.{IsOk, for_each}
use kurrent.External.{sha256_hex}
use kurrent.Fixtures.{digest_text, encode_marks, zero_external}

abbrev one_file : FileSystem
one_file = record { join = λ p q. p <> "/" <> q; exists = λ p. true; read = λ p. some [] }

abbrev bundle : EvidenceBundle
bundle = record {
  acceptance_json = "{}";
  referenced_files = record { path = "tx.hex"; sha256 = digest_text } ∷ [];
}

bundle_run : IsOk (verify_evidence_bundle zero_external one_file "evidence" bundle)
unfolding verify_evidence_bundle verify_file for_each sha256_hex encode_marks
bundle_run = refl

verify_evidence_bundle_iff_example :
    All (Recorded zero_external one_file "evidence") bundle.referenced_files
verify_evidence_bundle_iff_example =
    (verify_evidence_bundle_iff zero_external one_file "evidence" bundle).0 bundle_run
