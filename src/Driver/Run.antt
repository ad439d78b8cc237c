-- ===== src/Driver/Run.antt =====
-- `run_semantic_evidence_verifier` of drivers/kaspa-devnet/src/main.rs: the seven verifiers in order,
-- and the report that it writes.
use kurrent.Base.{or_zero, Bool, List, Option, String, [], none, some, ℕ, ◌++◌, ◌<>◌, ◌∷◌}
use kurrent.Bytes.{Bytes}
use kurrent.Driver.{Answer, CheckEntry, Host, Progress, map_err, ok, ◌>>=◌, ◌>>◌}
use kurrent.Driver.Eligibility.{Models}
use kurrent.Driver.Eligibility.Verifier.{verify_settlement_eligibility_semantics}
use kurrent.Driver.Factory.Verifier.{verify_factory_semantics}
use kurrent.Driver.Hashlock.Direction.{verify_hashlock_semantics}
use kurrent.Driver.Lane.{SeqCommit}
use kurrent.Driver.Monitor.Verifier.{verify_lane_monitor_semantics}
use kurrent.Driver.Refund.Verifier.{verify_refund_semantics}
use kurrent.Driver.Sponsored.Verifier.{verify_fee_sponsored_displacement_semantics}
use kurrent.Driver.StateChannel.Verifier.{verify_state_channel_semantics}
use kurrent.Driver.Verify
use kurrent.Driver.Verify.{Verify}
use kurrent.External.{External}
pub mod Displacement
pub mod Evidence
pub mod Fees
pub mod Swaps
mod Tests

-- The report: a JSON object with these members.
pub record SemanticReport : Type 0 where
  pub status : String
  pub checked_at_unix : ℕ
  pub decoded_transactions : ℕ
  pub verified_hex_records : ℕ
  pub checks : List CheckEntry

-- What the run changes on the machine, and its clock: the seconds since the epoch, none before it.
pub record Disk : Type 0 where
  pub create_dir_all : String → Answer (Unit {0})
  pub since_epoch : Option ℕ
  pub to_vec_pretty : SemanticReport → Answer Bytes
  pub write : String → Bytes → Answer (Unit {0})

-- A file that was written.
pub record Written : Type 0 where
  pub path : String
  pub bytes : Bytes

abbrev pub no_progress : Progress
no_progress = record { checks = []; decoded_transactions = 0; verified_hex_records = 0 }

-- `unix_now`
abbrev pub unix_now : Disk → ℕ
unix_now disk = or_zero disk.since_epoch

abbrev pub semantic_report : Disk → Progress → SemanticReport
semantic_report disk p = record {
  status = "passed";
  checked_at_unix = unix_now disk;
  decoded_transactions = p.decoded_transactions;
  verified_hex_records = p.verified_hex_records;
  checks = p.checks;
}

module _ (d : Host) (disk : Disk) where
  -- `write_json`; the result is the file that it leaves.
  unfoldable pub write_json : String → String → SemanticReport → Answer Written
  write_json output_dir name value = do
    let path = d.join output_dir name
    json ← disk.to_vec_pretty value
    let bytes = json ++ (10 ∷ [])
    map_err (disk.write path bytes) (λ e. "failed to write " <> d.display path <> ": " <> e)
    ok (record { path = path; bytes = bytes })

module _ (d : Host) (k : SeqCommit) (x : External) (ms : Models d) where
  -- The calls of the seven verifiers.
  unfoldable pub verify_all : Bool → String → Verify (Unit {0})
  verify_all debug output_dir = Verify.◌>>◌ (verify_state_channel_semantics d x output_dir) (
      Verify.◌>>◌ (verify_lane_monitor_semantics d k output_dir) (
        Verify.◌>>◌ (verify_settlement_eligibility_semantics d k x ms debug output_dir) (
          Verify.◌>>◌ (verify_fee_sponsored_displacement_semantics d k x ms debug output_dir) (
            Verify.◌>>◌ (verify_factory_semantics d x output_dir) (
              Verify.◌>>◌ (verify_hashlock_semantics d x output_dir)
                (verify_refund_semantics d x output_dir))))))

  unfoldable pub run_semantic_evidence_verifier : Disk → Bool → String → Answer Written
  run_semantic_evidence_verifier disk debug output_dir = do
    map_err (disk.create_dir_all (d.join output_dir "production")) λ e.
        "failed to create production evidence directory under " <> d.display output_dir <> ": " <> e
    done ← verify_all debug output_dir no_progress
    write_json d disk (d.join output_dir "production") "semantic-transaction-verifier.json"
        (semantic_report disk done.1)
