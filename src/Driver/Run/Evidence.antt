-- ===== src/Driver/Run/Evidence.antt =====
-- When a run of `run_semantic_evidence_verifier` of drivers/kaspa-devnet/src/main.rs succeeds, and
-- what it writes then.
use kurrent.Base.{Bool, List, String, [], refl, subst, ◌++◌, ◌↔◌, ◌∷◌, ◌≡◌}
use kurrent.Bytes.{Bytes}
use kurrent.Driver.{CheckEntry, Host, Progress, ok}
use kurrent.Driver.Answers.{both_iff, map_err_iff, ok-injective, some_iff}
use kurrent.Driver.Eligibility.{Models, eligibility_entry}
use kurrent.Driver.Eligibility.Evidence.{
  EligibilityEvidence, verify_settlement_eligibility_semantics_iff,
}
use kurrent.Driver.Factory.{factory_entry}
use kurrent.Driver.Factory.Evidence.{FactoryEvidence, verify_factory_semantics_iff}
use kurrent.Driver.Hashlock.{hashlock_entry}
use kurrent.Driver.Hashlock.Evidence.{HashlockEvidence, verify_hashlock_semantics_iff}
use kurrent.Driver.Lane.{SeqCommit}
use kurrent.Driver.Monitor.{lane_monitor_entry}
use kurrent.Driver.Monitor.Evidence.{MonitorEvidence, verify_lane_monitor_semantics_iff}
use kurrent.Driver.Refund.{refund_entry}
use kurrent.Driver.Refund.Evidence.{RefundEvidence, verify_refund_semantics_iff}
use kurrent.Driver.Answers.{iff_trans}
use kurrent.Driver.Run.{
  Disk, SemanticReport, Written, no_progress, run_semantic_evidence_verifier, semantic_report,
  unix_now, verify_all, write_json,
}
use kurrent.Driver.Runs.{Runs->>}
use kurrent.Driver.Sponsored.{sponsored_entry}
use kurrent.Driver.Sponsored.Evidence.{
  SponsoredEvidence, verify_fee_sponsored_displacement_semantics_iff,
}
use kurrent.Driver.StateChannel.{state_channel_entry}
use kurrent.Driver.StateChannel.Evidence.{StateChannelEvidence, verify_state_channel_semantics_iff}
use kurrent.External.{External}

-- The entries of a whole run, in the order of the calls.
abbrev pub all_entries : List CheckEntry
all_entries =
    state_channel_entry ∷ lane_monitor_entry ∷ eligibility_entry ∷ sponsored_entry ∷ factory_entry
    ∷ hashlock_entry ∷ refund_entry ∷ []

-- The report of a whole run.
abbrev pub full_report : Disk → SemanticReport
full_report disk = record {
  status = "passed";
  checked_at_unix = unix_now disk;
  decoded_transactions = 22;
  verified_hex_records = 36;
  checks = all_entries;
}

-- The progress of a run is known, so that what holds of it holds of the known one.
known_progress_iff :
    {E : Type 0} {known : Progress} (Q : Progress → Type 0)
    → ((a : Unit {0} × Progress) × (E × (a.1 ≡ known)) × Q a.1) ↔ (E × Q known)
known_progress_iff {known} Q = (
  (λ (a, (evidence, same), rest). (evidence, subst Q same rest)),
  (λ (evidence, rest). ((tt, known), (evidence, refl), rest)),
)

module _ (d : Host) (disk : Disk) where
  -- The disk takes the value under the path, which is the file left.
  abbrev pub Writes : String → SemanticReport → Written → Type 0
  Writes path value w =
      (json : Bytes) × (disk.to_vec_pretty value ≡ ok json)
      × ((disk.write path (json ++ (10 ∷ [])) ≡ ok tt)
          × (record { path = path; bytes = json ++ (10 ∷ []) } ≡ w))

  write_json_iff :
      (output_dir name : String) (value : SemanticReport) (w : Written)
      → (write_json d disk output_dir name value ≡ ok w) ↔ Writes (d.join output_dir name) value w
  unfolding write_json
  write_json_iff output_dir name value w =
      some_iff (λ json. ((λ h. h), (λ h. h)))
        λ json. both_iff (map_err_iff _ tt) ((λ e. ok-injective e), (λ e. cc))

module _ (d : Host) (k : SeqCommit) (x : External) (ms : Models d) where
  -- All seven kinds of evidence stand in the directory.
  abbrev pub AllEvidence : Bool → String → Type 0
  AllEvidence debug output_dir =
      StateChannelEvidence d x output_dir
      × (MonitorEvidence d k output_dir
          × (EligibilityEvidence d k x ms debug output_dir
              × (SponsoredEvidence d k x ms debug output_dir
                  × (FactoryEvidence d x output_dir
                      × (HashlockEvidence d x output_dir × RefundEvidence d x output_dir)))))

  -- The seven verifiers succeed exactly on their evidence, and count it all.
  verify_all-Runs :
      (debug : Bool) (output_dir : String) (q : Progress) (u : Unit {0})
      → (verify_all d k x ms debug output_dir no_progress ≡ ok (u, q)) ↔ (
          AllEvidence debug output_dir
          × (q ≡ record {
            checks = all_entries;
            decoded_transactions = 22;
            verified_hex_records = 36;
          }))
  unfolding verify_all
  verify_all-Runs debug output_dir q u =
      (Runs->> (record { at = verify_state_channel_semantics_iff d x output_dir })
          (Runs->> (record { at = verify_lane_monitor_semantics_iff d k output_dir })
            (Runs->>
              (record {
                at = verify_settlement_eligibility_semantics_iff d k x ms debug output_dir;
              })
              (Runs->>
                (record {
                  at = verify_fee_sponsored_displacement_semantics_iff d k x ms debug output_dir;
                })
                (Runs->> (record { at = verify_factory_semantics_iff d x output_dir })
                  (Runs->> (record { at = verify_hashlock_semantics_iff d x output_dir })
                    (record { at = verify_refund_semantics_iff d x output_dir }))))))).at
        no_progress q u

  -- A run succeeds exactly if the directory for its report can be made, all seven kinds of evidence
  -- are accepted, and the report can be written; the file that it writes is then the report of a
  -- passed run on 22 transactions and 36 records, with the seven entries in the order of the calls.
  pub run_semantic_evidence_verifier_iff :
      (disk : Disk) (debug : Bool) (output_dir : String) (w : Written)
      → (run_semantic_evidence_verifier d k x ms disk debug output_dir ≡ ok w) ↔ (
          (disk.create_dir_all (d.join output_dir "production") ≡ ok tt)
          × (AllEvidence debug output_dir
              × Writes d disk
                  (d.join (d.join output_dir "production") "semantic-transaction-verifier.json")
                  (full_report disk)
                  w))
  unfolding run_semantic_evidence_verifier
  run_semantic_evidence_verifier_iff disk debug output_dir w = both_iff (map_err_iff _ tt) (
      iff_trans
        (some_iff (λ (a : Unit {0} × Progress). verify_all-Runs debug output_dir a.1 a.0)
          λ a. write_json_iff d disk _ _ (semantic_report disk a.1) w)
        (known_progress_iff λ p. Writes d disk _ (semantic_report disk p) w))

  -- The evidence behind a written report.
  pub evidence_of :
      (disk : Disk) (debug : Bool) (output_dir : String) (w : Written)
      → run_semantic_evidence_verifier d k x ms disk debug output_dir ≡ ok w
      → AllEvidence debug output_dir
  evidence_of disk debug output_dir w h =
      ((run_semantic_evidence_verifier_iff disk debug output_dir w).0 h).1.0
