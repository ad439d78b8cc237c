-- ===== src/Bundle/Outcomes.antt =====
-- What `verify_evidence_bundle` in src/lib.rs accepts.
use kurrent.Base.{
  All, All-iff, String, bne_iff, list_eq, nat_eq, not-false_iff, option_eq, some, string_eq, true,
  ◌↔◌, ◌≡◌,
}
use kurrent.Bundle.{EvidenceBundle, EvidenceFile, FileSystem, verify_evidence_bundle, verify_file}
use kurrent.Bytes.{Bytes}
use kurrent.Errors.{>>=-eq-ok, IsOk, fail_if_iff, for_each_iff, guard_iff, ok_or, ok_or_iff}
use kurrent.External.{External, sha256_hex}

-- The file is there, and its bytes have the recorded digest.
abbrev pub Recorded : External → FileSystem → String → EvidenceFile → Type 0
Recorded x fs root file =
    (fs.exists (fs.join root file.path) ≡ true)
    × ((bytes : Bytes) × (fs.read (fs.join root file.path) ≡ some bytes)
        × (sha256_hex x bytes ≡ file.sha256))

verify_file_iff :
    (x : External) (fs : FileSystem) (root : String) (file : EvidenceFile)
    → IsOk (verify_file x fs root file) ↔ Recorded x fs root file
unfolding verify_file
verify_file_iff x fs root file = (
  (λ h.
      let (p, q) = (guard_iff _ _ _).0 h in
      let (bytes, r, s) = >>=-eq-ok (ok_or (fs.read (fs.join root file.path)) _) _ q in
      (
        (not-false_iff _).0 p,
        (bytes, (ok_or_iff _ _ _).0 r, (bne_iff _ _).0 ((fail_if_iff _ _).0 s)),
      )),
  (λ (there, (bytes, found, same)). rw (there, found) ((fail_if_iff _ _).1 ((bne_iff _ _).1 same))),
)

-- A bundle is verified exactly if every referenced file is there and its bytes have the recorded
-- digest.
pub verify_evidence_bundle_iff :
    (x : External) (fs : FileSystem) (root : String) (bundle : EvidenceBundle)
    → IsOk (verify_evidence_bundle x fs root bundle)
      ↔ All (Recorded x fs root) bundle.referenced_files
unfolding verify_evidence_bundle
verify_evidence_bundle_iff x fs root bundle =
    let each = for_each_iff (verify_file x fs root) bundle.referenced_files in
    let every =
      All-iff (λ f. IsOk (verify_file x fs root f)) (Recorded x fs root) bundle.referenced_files
        (verify_file_iff x fs root) in
    ((λ h. every.0 (each.0 h)), (λ h. each.1 (every.1 h)))
