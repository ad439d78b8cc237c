-- ===== src/Driver/Run/Tests.antt =====
-- A run of all seven verifiers on one set of evidence, and the theorem about it.
use kurrent.Base.{All, arith, subst, [], refl, some, true, ◌∷◌, ◌≡◌}
use kurrent.Driver.{ok}
use kurrent.Driver.Eligibility.Evidence.{verify_settlement_eligibility_semantics_iff}
use kurrent.Driver.Eligibility.Tests.{eligibility_run}
use kurrent.Driver.Factory.Evidence.{verify_factory_semantics_iff}
use kurrent.Driver.Hashlock.Evidence.{verify_hashlock_semantics_iff}
use kurrent.Driver.Monitor.Evidence.{verify_lane_monitor_semantics_iff}
use kurrent.Driver.Monitor.Tests.{monitor_run}
use kurrent.Driver.Refund.Evidence.{verify_refund_semantics_iff}
use kurrent.Driver.Run.{Disk, Written, run_semantic_evidence_verifier}
use kurrent.Driver.Run.Displacement.{ShowsDisplaced, run-ShowsDisplaced}
use kurrent.Driver.Run.Fees.{ShowsPaid, TotalsInRange, run-ShowsPaid}
use kurrent.Driver.Run.Swaps.{ShowsSwaps, run-ShowsSwaps}
use kurrent.Driver.Answers.{ok-injective}
use kurrent.Bytes.{IsU64}
use kurrent.Driver.Run.Evidence.{AllEvidence, run_semantic_evidence_verifier_iff}
use kurrent.Driver.Sample.{commitments, machine, models, sample_external, start}
use kurrent.Driver.Sponsored.Evidence.{verify_fee_sponsored_displacement_semantics_iff}
use kurrent.Driver.Sponsored.Tests.{sponsored_run}
use kurrent.Driver.StateChannel.Evidence.{verify_state_channel_semantics_iff}
use kurrent.Driver.StateChannel.Tests.{state_channel_run}
use kurrent.Driver.Tests.{factory_run, hashlock_run, refund_run}

sample_evidence : AllEvidence machine commitments sample_external models true "out"
sample_evidence = (
  ((verify_state_channel_semantics_iff machine sample_external "out" start _ tt).0
      state_channel_run).0,
  (
    ((verify_lane_monitor_semantics_iff machine commitments "out" start _ tt).0 monitor_run).0,
    (
      ((verify_settlement_eligibility_semantics_iff machine commitments sample_external models true
            "out" start _ tt).0
          eligibility_run).0,
      (
        ((verify_fee_sponsored_displacement_semantics_iff machine commitments sample_external models
              true "out" start _ tt).0
            sponsored_run).0,
        (
          ((verify_factory_semantics_iff machine sample_external "out" start _ tt).0 factory_run).0,
          (
            ((verify_hashlock_semantics_iff machine sample_external "out" start _ tt).0
                hashlock_run).0,
            ((verify_refund_semantics_iff machine sample_external "out" start _ tt).0 refund_run).0,
          ),
        ),
      ),
    ),
  ),
)

-- A disk on which a report is written as its two totals.
abbrev sample_disk : Disk
sample_disk = record {
  create_dir_all = λ path. ok tt;
  since_epoch = some 7;
  to_vec_pretty = λ r. ok (r.decoded_transactions ∷ r.verified_hex_records ∷ []);
  write = λ path bytes. ok tt;
}

abbrev sample_file : Written
sample_file = record { path = "semantic-transaction-verifier.json"; bytes = 22 ∷ 36 ∷ 10 ∷ [] }

run_semantic_evidence_verifier_iff_example :
    run_semantic_evidence_verifier machine commitments sample_external models sample_disk true "out"
    ≡ ok sample_file
run_semantic_evidence_verifier_iff_example =
    (run_semantic_evidence_verifier_iff machine commitments sample_external models sample_disk true
        "out" sample_file).1
      (refl, (sample_evidence, (_, refl, (refl, refl))))

-- The totals that the sample machine reads are small.
totals-TotalsInRange : TotalsInRange machine models
totals-TotalsInRange v cs h =
    subst (λ bs. All (λ c. IsU64 c.sponsor.sponsor_input_total) bs) (ok-injective h) (omega arith)

sample_run :
    run_semantic_evidence_verifier machine commitments sample_external models sample_disk true "out"
    ≡ ok sample_file
sample_run =
    (run_semantic_evidence_verifier_iff machine commitments sample_external models sample_disk true
        "out" sample_file).1
      (refl, (sample_evidence, (_, refl, (refl, refl))))

run-ShowsDisplaced_example :
    ShowsDisplaced machine commitments sample_external models sample_disk true "out" sample_file
run-ShowsDisplaced_example =
    run-ShowsDisplaced machine commitments sample_external models sample_disk true "out" sample_file
      sample_run

run-ShowsPaid_example :
    ShowsPaid machine commitments sample_external models sample_disk true "out" sample_file
run-ShowsPaid_example =
    run-ShowsPaid machine commitments sample_external models sample_disk true "out" sample_file
      totals-TotalsInRange sample_run

run-ShowsSwaps_example :
    ShowsSwaps machine commitments sample_external models sample_disk true "out" sample_file
run-ShowsSwaps_example =
    run-ShowsSwaps machine commitments sample_external models sample_disk true "out" sample_file
      sample_run
