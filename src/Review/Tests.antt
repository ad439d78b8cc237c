-- ===== src/Review/Tests.antt =====
-- A review that passes the gate, and the theorem about it.
use kurrent.Base.{String, [], list_eq, map, nat_eq, option_eq, some, string_eq, true, false, ◌∷◌}
use kurrent.Bundle.{EvidenceFile}
use kurrent.Bytes.{Bytes}
use kurrent.Fixtures.{digest_text}
use kurrent.Review.{
  SecurityReviewEvidence, Workspace, required_artifact_paths, security_review_required_scopes,
}

abbrev digest_file : String → EvidenceFile
digest_file path = record { path = path; sha256 = digest_text }

abbrev review : SecurityReviewEvidence
review = record {
  schema_version = "kurrent-security-review-v1";
  status = "passed";
  review_type = "independent_external_security_review";
  completed_at = "2026-01-01";
  reviewer_name = "r";
  reviewer_organisation = "o";
  reviewer_contact = "c";
  reviewer_independence_attestation = "independent of the authors in every respect";
  reviewed_git_commit = "head";
  scope = security_review_required_scopes;
  methodology = "reading" ∷ "testing" ∷ "proving" ∷ [];
  reviewed_artifacts =
      map (λ p. record { id = p.0; path = p.1; sha256 = digest_text }) required_artifact_paths;
  finding_summary = record {
    critical_open = 0;
    high_open = 0;
    medium_open = 0;
    low_open = 0;
    accepted_risk_count = 1;
    fixed_count = 2;
  };
  unresolved_blocking_findings = [];
  report = digest_file "report.pdf";
  signed_attestation = digest_file "attestation.sig";
}

-- Every file is there and parses as the review; paths are relative to the root.
abbrev workspace : Workspace
workspace = record {
  root = some "";
  join = λ root path. path;
  is_absolute = λ path. false;
  strip_prefix = λ root path. some path;
  is_file = λ path. true;
  read = λ path. some [];
  parse = λ bytes. some review;
  git_head = λ root. some "head";
}
