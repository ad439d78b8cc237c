-- ===== src/Driver/Run/Fees.antt =====
-- What a successful run of `run_semantic_evidence_verifier` of drivers/kaspa-devnet/src/main.rs shows
-- of the sponsors' fees on file.
use kurrent.Base.{All, Bool, List, String, ◌≡◌}
use kurrent.Bytes.{IsU64}
use kurrent.Driver.{Host, ok}
use kurrent.Driver.Eligibility.{Models}
use kurrent.Driver.Lane.{SeqCommit}
use kurrent.Driver.Records.Laws.{JsonFile}
use kurrent.Driver.Require.Laws.{Typed}
use kurrent.Driver.Run.{Disk, Written, run_semantic_evidence_verifier}
use kurrent.Driver.Run.Evidence.{evidence_of}
use kurrent.External.{External}
use kurrent.Sponsor.{FeeSponsoredSettlementDecision}
use kurrent.Sponsor.Outcomes.{Paid, evaluate_fee_sponsored-Paid}
use kurrent.Types.{FeeSponsoredSettlementCandidate, SettlementFeePolicy, SettlementTemplate}

-- serde reads a `u64` field only within its range.
abbrev pub TotalsInRange : (d : Host) → Models d → Type 0
TotalsInRange d ms =
    (v : d.Value) (cs : List FeeSponsoredSettlementCandidate)
    → ms.sponsored_candidates v ≡ ok cs
    → All (λ c. IsU64 c.sponsor.sponsor_input_total) cs

module _ (d : Host) (k : SeqCommit) (x : External) (ms : Models d) (disk : Disk) (debug : Bool)
    (output_dir : String) (w : Written) where
  -- Every recorded decision carries a fee that a sponsor on file pays within the recorded policy.
  abbrev pub ShowsPaid : Type 0
  ShowsPaid =
      (report : d.Value) × JsonFile d
        (d.join output_dir "kurrent-live-fee-sponsored-displacement-evidence.json") report
      × (fee_policy : SettlementFeePolicy) × Typed d ms.fee_policy report "/fee_policy" fee_policy
      × (template : SettlementTemplate) × Typed d ms.template report
          "/model_validation/settlement_template" template
      × (candidates : List FeeSponsoredSettlementCandidate) × Typed d ms.sponsored_candidates report
          "/model_validation/candidates" candidates
      × (decisions : List FeeSponsoredSettlementDecision) × Typed d ms.sponsored_decisions report
          "/model_validation/decisions" decisions
      × All (Paid x template fee_policy candidates) decisions

  -- After a successful run, where totals are read within 64 bits, every recorded sponsored decision
  -- carries the hashes of the recorded fee policy and distribution, and a fee that a sponsor on file
  -- for its transaction pays: positive, within the policy's maximum, and what its inputs leave.
  pub run-ShowsPaid :
      TotalsInRange d ms
      → run_semantic_evidence_verifier d k x ms disk debug output_dir ≡ ok w
      → ShowsPaid
  run-ShowsPaid in_range h =
      let (
        _,
        _,
        (
          report,
          file,
          (
            _,
            (_, _, (fee_policy, f, (_, (_, _, (_, _, (_, (_, _, (policy, _, (_, _, (r, _)))))))))),
          ),
        ),
      ) =
        (evidence_of d k x ms disk debug output_dir w h).1.1.1.0 in
      let (value, _, parsed) = r.has_candidates in
      (
        report,
        file,
        fee_policy,
        f,
        r.template,
        r.has_template,
        r.candidates,
        r.has_candidates,
        r.decisions,
        r.has_decisions,
        (evaluate_fee_sponsored-Paid x debug r.config r.funding r.template policy fee_policy
            r.candidates r.current_daa r.decisions (in_range value r.candidates parsed)
            r.evaluated).1,
      )
