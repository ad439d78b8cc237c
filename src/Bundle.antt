-- ===== src/Bundle.antt =====
-- Evidence bundles of src/lib.rs: `verify_evidence_bundle`.
use kurrent.Base.{
  Bool, List, Option, String, ap, arith, list_eq, nat_eq, none, not, option_eq, some, string_eq,
  true, ◌!=◌,
}
use kurrent.Bytes.{Bytes}
use kurrent.Errors.{
  Result, evidence_hash_mismatch, fail_if, for_each, missing_evidence_file, ok_or, ◌>>=◌, ◌>>◌,
}
use kurrent.External.{External, sha256_hex}
pub mod Outcomes
mod Tests

pub record EvidenceFile : Type 0 where
  pub path : String
  pub sha256 : String

pub record EvidenceBundle : Type 0 where
  pub acceptance_json : String
  pub referenced_files : List EvidenceFile

-- The file system while a bundle is verified: `Path::join`, `Path::exists`, `fs::read`.
pub record FileSystem : Type 0 where
  pub join : String → String → String
  pub exists : String → Bool
  pub read : String → Option Bytes

-- One round of the loop.
unfoldable pub verify_file : External → FileSystem → String → EvidenceFile → Result (Unit {0})
verify_file x fs root file = do
  let path = fs.join root file.path
  fail_if (not (fs.exists path)) (missing_evidence_file file.path)
  bytes ← ok_or (fs.read path) (missing_evidence_file file.path)
  let actual = sha256_hex x bytes
  fail_if (actual != file.sha256) (evidence_hash_mismatch file.path file.sha256 actual)

unfoldable pub verify_evidence_bundle :
    External → FileSystem → String → EvidenceBundle → Result (Unit {0})
unfolding verify_file
verify_evidence_bundle x fs root bundle = for_each (verify_file x fs root) bundle.referenced_files
