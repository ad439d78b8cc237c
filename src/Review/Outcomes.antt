-- ===== src/Review/Outcomes.antt =====
-- What the security-review gate of src/bin/kurrentctl.rs lets pass.
use kurrent.Base.{All, List, Map, String, [], get, list_eq, nat_eq, some, string_eq, true, ◌≡◌}
use kurrent.Bundle.{EvidenceFile}
use kurrent.Bytes.{Bytes}
use kurrent.External.{External, sha256_hex}
use kurrent.Review.Complete.{IsComplete, IsSigned}
use kurrent.Review.{
  SecurityReviewArtifact, SecurityReviewEvidence, Workspace, resolve_record_path, reviewed_by_id,
}

-- The file is there with the recorded digest, at its path, which is taken from the root if relative.
abbrev pub Filed : External → Workspace → String → EvidenceFile → Type 0
Filed x w root file =
    (w.is_file (resolve_record_path x w root file.path) ≡ true)
    × ((bytes : Bytes) × (w.read (resolve_record_path x w root file.path) ≡ some bytes)
        × (sha256_hex x bytes ≡ file.sha256))

-- The review lists the artifact with the path and digest that it has now.
abbrev pub Reviewed : Map String SecurityReviewArtifact → SecurityReviewArtifact → Type 0
Reviewed by_id expected =
    (actual : SecurityReviewArtifact) × (get expected.id by_id ≡ some actual)
    × (actual.path ≡ expected.path)
    × (actual.sha256 ≡ expected.sha256)

module _ (x : External) (w : Workspace) where
  -- What a review that passes says, at the root and with the required artifacts.
  pub record Passes (root : String) (required : List SecurityReviewArtifact)
      (r : SecurityReviewEvidence) : Type 0 where
    pub signed : IsSigned r
    pub complete : IsComplete r
    pub of_head : w.git_head root ≡ some r.reviewed_git_commit
    pub report_filed : Filed x w root r.report
    pub attestation_filed : Filed x w root r.signed_attestation
    pub artifacts : All (Reviewed (reviewed_by_id x w r.reviewed_artifacts [])) required
