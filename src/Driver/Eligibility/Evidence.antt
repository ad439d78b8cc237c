-- ===== src/Driver/Eligibility/Evidence.antt =====
-- What eligibility evidence is accepted by `verify_settlement_eligibility_semantics` of
-- drivers/kaspa-devnet/src/main.rs.
use kurrent.Base.{Bool, String, arith, ◌↔◌, ◌≡◌}
use kurrent.Driver.{Host, Progress, Transaction, ok}
use kurrent.Driver.Eligibility.{Models, eligibility_entry}
use kurrent.Driver.Eligibility.Laws.{
  EligibleLane, WrongLaneMarker, check_eligibility_iff, check_wrong_lane_marker_iff,
}
use kurrent.Driver.Eligibility.Verifier.{verify_settlement_eligibility_semantics}
use kurrent.Driver.Lane.{SeqCommit}
use kurrent.Driver.Lane.Proof.{LaneOf, report_lane_iff}
use kurrent.Driver.Markers.Laws.{MarkerOn, check_marker_iff}
use kurrent.Driver.Records.Laws.{JsonFile, Runs-counted, Runs-last, counted, read_json_iff}
use kurrent.Driver.Require.Laws.{Passed, require_status_iff}
use kurrent.Driver.Runs.{Runs->>, Runs->>=, Runs-lift}
use kurrent.Driver.StateChannel.Evidence.{At, Runs-checked_transaction}
use kurrent.External.{External}

module _ (d : Host) (k : SeqCommit) (x : External) (ms : Models d) where
  -- The eligibility evidence in the directory: state and report, the lane, and the three markers.
  abbrev pub EligibilityEvidence : Bool → String → Type 0
  EligibilityEvidence debug output_dir =
      (state : d.Value) × JsonFile d (d.join output_dir "kurrent-live-state-channel-evidence.json")
        state
      × ((report : d.Value) × JsonFile d
            (d.join output_dir "kurrent-live-settlement-eligibility-evidence.json") report
          × (Passed d report
              × ((bound : String × k.Hash) × LaneOf d k state report bound.0 bound.1
                  × ((lower : Transaction) × At d x report "/candidate_markers/lower/raw_tx"
                        (MarkerOn d x report bound.0 "/candidate_markers/lower") lower
                      × ((higher : Transaction) × At d x report "/candidate_markers/higher/raw_tx"
                            (MarkerOn d x report bound.0 "/candidate_markers/higher") higher
                          × ((wrong : Transaction) × At d x report
                                "/candidate_markers/wrong_lane/raw_tx"
                                (WrongLaneMarker d k x ms report bound.0) wrong
                              × EligibleLane d k x ms debug report bound.0 bound.1 lower
                                  higher))))))

  -- The eligibility verifier succeeds exactly on a report for the lane of the state evidence with two
  -- decoded markers on the lane and one off it, where the recorded events accept the higher
  -- marker behind the lower one and at or before the end of its window, the proof stands at or behind
  -- the end of its own window, the evaluation of the recorded
  -- candidates gives the recorded decisions with the first state displaced and the second eligible,
  -- and the blocks link to the proven tip; it then has counted three transactions and three records,
  -- and adds its entry.
  pub verify_settlement_eligibility_semantics_iff :
      (debug : Bool) (output_dir : String) (p q : Progress) (u : Unit {0})
      → (verify_settlement_eligibility_semantics d k x ms debug output_dir p ≡ ok (u, q))
        ↔ (EligibilityEvidence debug output_dir × (q ≡ counted 3 3 eligibility_entry p))
  unfolding verify_settlement_eligibility_semantics
  verify_settlement_eligibility_semantics_iff debug output_dir =
      Runs-counted (counted 3 3 eligibility_entry)
        (Runs->>= (Runs-lift (read_json_iff d _)) λ state.
          Runs->>= (Runs-lift (read_json_iff d _)) λ report.
            Runs->> (Runs-lift (λ _. require_status_iff d report _)) (
              Runs->>= (Runs-lift (λ b. report_lane_iff d k state report _ _ b.0 b.1)) λ bound.
                Runs->>=
                  (Runs-checked_transaction d x report _ (check_marker_iff d x report bound.0 _ _))
                  λ lower.
                    Runs->>=
                      (Runs-checked_transaction d x report _
                        (check_marker_iff d x report bound.0 _ _))
                      λ higher.
                        Runs->>=
                          (Runs-checked_transaction d x report _
                            (check_wrong_lane_marker_iff d k x ms report bound.0))
                          λ _. Runs-last _ (
                            Runs-lift (λ _.
                              check_eligibility_iff d k x ms debug report bound.0 bound.1 lower
                                higher))))
        λ p. ground arith
