-- ===== src/Review.antt =====
-- The security-review gate of src/bin/kurrentctl.rs: `security_review_evidence_satisfies`.
-- A result is an option: `none` is an error, whose text is not modelled.
use Prim.Native.Char.{Char, code}
use kurrent.Base.{
  Bool, List, Map, Option, String, [], as_bytes, contains, from_keys, get, if◌then◌else◌, insert,
  leb, length, list_eq, ltb, map, nat_eq, none, not, option_eq, some, string_eq, true, false, ℕ,
  ◌!=◌, ◌&&◌, ◌++◌, ◌==◌, ◌||◌, ◌∷◌,
}
use kurrent.Bundle.{EvidenceFile}
use kurrent.Bytes.{Bytes}
use kurrent.External.{External, sha256_hex}
pub mod Complete
pub mod Outcomes
pub mod Root
mod Tests

pub record SecurityReviewArtifact : Type 0 where
  pub id : String
  pub path : String
  pub sha256 : String

pub record SecurityReviewFindingSummary : Type 0 where
  pub critical_open : ℕ
  pub high_open : ℕ
  pub medium_open : ℕ
  pub low_open : ℕ
  pub accepted_risk_count : ℕ
  pub fixed_count : ℕ

pub record SecurityReviewEvidence : Type 0 where
  pub schema_version : String
  pub status : String
  pub review_type : String
  pub completed_at : String
  pub reviewer_name : String
  pub reviewer_organisation : String
  pub reviewer_contact : String
  pub reviewer_independence_attestation : String
  pub reviewed_git_commit : String
  pub scope : List String
  pub methodology : List String
  pub reviewed_artifacts : List SecurityReviewArtifact
  pub finding_summary : SecurityReviewFindingSummary
  pub unresolved_blocking_findings : List String
  pub report : EvidenceFile
  pub signed_attestation : EvidenceFile

-- What the gate reads: the repository root that `root` finds, paths, files, the parsed review, and
-- the commit that git reports at a directory.
pub record Workspace : Type 0 where
  pub root : Option String
  pub join : String → String → String
  pub is_absolute : String → Bool
  pub strip_prefix : String → String → Option String
  pub is_file : String → Bool
  pub read : String → Option Bytes
  pub parse : Bytes → Option SecurityReviewEvidence
  pub git_head : String → Option String

infixl 5 ◌>>=◌
abbrev pub ◌>>=◌ : {A B : Type 0} → Option A → (A → Option B) → Option B
none >>= next = none
some a >>= next = next a

-- `char::is_whitespace`
abbrev is_whitespace : Char → Bool
is_whitespace c =
    (leb 9 (code c) && leb (code c) 13)
    || contains (code c)
        (0x20 ∷ 0x85 ∷ 0xa0 ∷ 0x1680 ∷ 0x2028 ∷ 0x2029 ∷ 0x202f ∷ 0x205f ∷ 0x3000 ∷ [])
    || (leb 0x2000 (code c) && leb (code c) 0x200a)

-- `trim().is_empty()`
unfoldable pub is_blank : String → Bool
is_blank String.[] = true
is_blank (String.◌∷◌ c s) = is_whitespace c && is_blank s

abbrev pub no_blank : List String → Bool
no_blank [] = true
no_blank (s ∷ rest) = not (is_blank s) && no_blank rest

abbrev pub nothing_listed : List String → Bool
nothing_listed [] = true
nothing_listed (s ∷ rest) = false

-- The conditions on the review's own texts, before the repository is read.
unfoldable pub is_signed_review : SecurityReviewEvidence → Bool
is_signed_review r =
    r.schema_version == "kurrent-security-review-v1"
    && r.status == "passed"
    && r.review_type == "independent_external_security_review"
    && no_blank (
        r.completed_at ∷ r.reviewer_name ∷ r.reviewer_organisation ∷ r.reviewer_contact
        ∷ r.reviewer_independence_attestation ∷ r.reviewed_git_commit ∷ [])
    && not (ltb (length (as_bytes r.reviewer_independence_attestation)) 40)

abbrev pub security_review_required_scopes : List String
security_review_required_scopes =
    "protocol_design" ∷ "state_channel_latest_state_safety"
    ∷ "kaspa_script_and_covenant_constraints" ∷ "participant_signer_model"
    ∷ "ln_kaspa_atomic_swap_interop" ∷ "refund_timeout_and_double_claim_safety"
    ∷ "evidence_verification_and_production_gates" ∷ "operational_controls_and_runbooks" ∷ []

abbrev pub all_contained : List String → List String → Bool
all_contained [] scopes = true
all_contained (s ∷ rest) scopes = contains s scopes && all_contained rest scopes

-- The conditions on scope, methodology and findings.
unfoldable pub is_complete_review : SecurityReviewEvidence → Bool
is_complete_review r =
    all_contained security_review_required_scopes r.scope
    && not (ltb (length r.methodology) 3)
    && no_blank r.methodology
    && r.finding_summary.critical_open == 0
    && r.finding_summary.high_open == 0
    && r.finding_summary.medium_open == 0
    && r.finding_summary.low_open == 0
    && nothing_listed r.unresolved_blocking_findings

-- The required artifacts: the 18 listed paths, and the adversarial soak behind them.
abbrev pub required_artifact_paths : List (String × String)
required_artifact_paths =
    ("cargo_manifest", "Cargo.toml")
    ∷ ("cargo_lock", "Cargo.lock")
    ∷ ("protocol_library", "src/lib.rs")
    ∷ ("control_binary", "src/bin/kurrentctl.rs")
    ∷ ("protocol_tests", "tests/protocol_model.rs")
    ∷ ("kaspa_devnet_driver", "drivers/kaspa-devnet/src/main.rs")
    ∷ ("driver_lock", "drivers/kaspa-devnet/Cargo.lock")
    ∷ ("security_assumptions", "docs/KURRENT_SECURITY_ASSUMPTIONS.md")
    ∷ ("production_acceptance", "docs/KURRENT_PRODUCTION_ACCEPTANCE.md")
    ∷ ("production_security_review_brief", "docs/PRODUCTION_SECURITY_REVIEW.md")
    ∷ ("factory_commitment_design_boundary", "docs/KURRENT_FACTORY_COMMITMENT_DESIGN.md")
    ∷ ("key_management_runbook", "docs/PRODUCTION_KEY_MANAGEMENT.md")
    ∷ ("monitoring_runbook", "docs/PRODUCTION_MONITORING.md")
    ∷ ("recovery_runbook", "docs/PRODUCTION_RECOVERY.md")
    ∷ ("rollout_runbook", "docs/PRODUCTION_ROLLOUT.md")
    ∷ ("local_acceptance", "evidence/kurrent-acceptance.json")
    ∷ ("target_profile", "evidence/production/target-profile.json")
    ∷ ("semantic_transaction_verifier", "evidence/production/semantic-transaction-verifier.json")
    ∷ ("adversarial_model_soak", "evidence/production/adversarial-model-soak.json")
    ∷ []

module _ (x : External) (w : Workspace) where
  unfoldable pub resolve_record_path : String → String → String
  resolve_record_path root path = if w.is_absolute path then path else w.join root path

  -- `verify_file_hash_record(…, HashMode::FileBytes).is_ok()`
  unfoldable pub verify_file_hash : String → EvidenceFile → Bool
  unfolding resolve_record_path
  verify_file_hash root file =
      let path = resolve_record_path root file.path in
      w.is_file path
      && elim (w.read path) [ none ↦ false | some bytes ↦ sha256_hex x bytes == file.sha256 ]

  unfoldable pub relative_to_root : String → Option String
  relative_to_root path = do
    root ← w.root
    some (elim (w.strip_prefix root path) [ none ↦ path | some rest ↦ rest ])

  unfoldable pub file_evidence : String → Option EvidenceFile
  unfolding relative_to_root
  file_evidence path = do
    bytes ← w.read path
    relative ← relative_to_root path
    some (record { path = relative; sha256 = sha256_hex x bytes })

  -- The loop over the required paths.
  unfoldable pub artifacts_from :
      String → List (String × String) → Option (List SecurityReviewArtifact)
  unfolding file_evidence
  artifacts_from root [] = some []
  artifacts_from root ((id, relative) ∷ rest) =
      let more = artifacts_from root rest in
      file_evidence (w.join root relative) >>= λ evidence. more >>= λ artifacts.
      some (record { id = id; path = evidence.path; sha256 = evidence.sha256 } ∷ artifacts)

  -- The loop over the required artifacts, with the reviewed ones by id.
  unfoldable pub all_reviewed :
      Map String SecurityReviewArtifact → List SecurityReviewArtifact → Bool
  all_reviewed by_id [] = true
  all_reviewed by_id (expected ∷ rest) =
      elim (get expected.id by_id) [
        | none ↦ false
        | some actual ↦ actual.path == expected.path && actual.sha256 == expected.sha256
      ]
      && all_reviewed by_id rest

  -- `collect()` into a map: a later entry replaces an earlier one.
  unfoldable pub reviewed_by_id :
      List SecurityReviewArtifact
      → Map String SecurityReviewArtifact
      → Map String SecurityReviewArtifact
  reviewed_by_id [] by_id = by_id
  reviewed_by_id (a ∷ artifacts) by_id = reviewed_by_id artifacts (insert a.id a by_id)

  unfoldable pub security_review_required_artifacts : Option (List SecurityReviewArtifact)
  unfolding artifacts_from
  security_review_required_artifacts = do root ← w.root; artifacts_from root required_artifact_paths

  -- The verdict on a parsed review.
  unfoldable pub review_satisfies : SecurityReviewEvidence → Option Bool
  review_satisfies r =
      if not (is_signed_review r)
      then some false
      else w.root >>= λ root.
          if not (
            w.git_head root == some r.reviewed_git_commit
            && is_complete_review r
            && verify_file_hash root r.report
            && verify_file_hash root r.signed_attestation)
          then some false
          else security_review_required_artifacts >>= λ required.
              some (all_reviewed (reviewed_by_id r.reviewed_artifacts []) required)

  unfoldable pub security_review_evidence_satisfies : String → Option Bool
  unfolding review_satisfies
  security_review_evidence_satisfies path = do
    bytes ← w.read path
    review ← w.parse bytes
    review_satisfies review
