-- ===== src/Driver/Sponsored/Evidence.antt =====
-- What fee-sponsored evidence is accepted by `verify_fee_sponsored_displacement_semantics` of
-- drivers/kaspa-devnet/src/main.rs.
use kurrent.Base.{Bool, String, arith, ◌↔◌, ◌≡◌}
use kurrent.Driver.{Host, Progress, Transaction, ok}
use kurrent.Driver.Eligibility.{Models}
use kurrent.Driver.Lane.{SeqCommit}
use kurrent.Driver.Lane.Proof.{LaneOf, report_lane_iff}
use kurrent.Driver.Markers.Laws.{MarkerOn, check_marker_iff}
use kurrent.Driver.Records.Laws.{JsonFile, Runs-counted, Runs-last, counted, read_json_iff}
use kurrent.Driver.Require.Laws.{
  Passed, Says, Typed, require_status_iff, require_text_iff, required_typed_iff,
}
use kurrent.Driver.Runs.{Runs->>, Runs->>=, Runs-lift}
use kurrent.Driver.Sponsored.{sponsored_entry}
use kurrent.Driver.Sponsored.Accounting.{Sponsors, check_sponsors_iff}
use kurrent.Driver.Sponsored.Laws.{DisplacedLane, check_displacement_iff}
use kurrent.Driver.Sponsored.Verifier.{verify_fee_sponsored_displacement_semantics}
use kurrent.Driver.StateChannel.Evidence.{At, Runs-checked_transaction}
use kurrent.External.{External, fee_policy_hash}
use kurrent.Types.{SettlementFeePolicy}

module _ (d : Host) (k : SeqCommit) (x : External) (ms : Models d) where
  -- The fee-sponsored evidence in the directory: state and report, lane, fee policy, and two markers.
  abbrev pub SponsoredEvidence : Bool → String → Type 0
  SponsoredEvidence debug output_dir =
      (state : d.Value) × JsonFile d (d.join output_dir "kurrent-live-state-channel-evidence.json")
        state
      × ((report : d.Value) × JsonFile d
            (d.join output_dir "kurrent-live-fee-sponsored-displacement-evidence.json") report
          × (Passed d report
              × ((bound : String × k.Hash) × LaneOf d k state report bound.0 bound.1
                  × ((fee_policy : SettlementFeePolicy) × Typed d ms.fee_policy report "/fee_policy"
                        fee_policy
                      × (Says d report "/fee_policy_hash" (fee_policy_hash x fee_policy)
                          × ((lower : Transaction) × At d x report "/sponsored_markers/lower/raw_tx"
                                (MarkerOn d x report bound.0 "/sponsored_markers/lower") lower
                              × ((higher : Transaction) × At d x report
                                    "/sponsored_markers/higher/raw_tx"
                                    (MarkerOn d x report bound.0 "/sponsored_markers/higher") higher
                                  × (Sponsors d k x ms state report lower higher
                                      × DisplacedLane d k x ms debug report bound.0 bound.1
                                          fee_policy lower higher))))))))

  -- The fee-sponsored verifier succeeds exactly on a report for the lane of the state evidence and its
  -- hashed fee policy with two decoded markers on the lane, each with sponsor inputs outside the channel
  -- whose recorded total is change plus fee, the lower one at the higher fee, where the recorded lane
  -- events accept the higher marker behind the lower one and at or before the end of its window, the
  -- proof stands at or behind the end of its own window, the sponsored evaluation gives the recorded decisions with the
  -- first state displaced and the second eligible, and the blocks link to the proven tip; it then has
  -- counted two transactions and two records, and adds its entry.
  pub verify_fee_sponsored_displacement_semantics_iff :
      (debug : Bool) (output_dir : String) (p q : Progress) (u : Unit {0})
      → (verify_fee_sponsored_displacement_semantics d k x ms debug output_dir p ≡ ok (u, q))
        ↔ (SponsoredEvidence debug output_dir × (q ≡ counted 2 2 sponsored_entry p))
  unfolding verify_fee_sponsored_displacement_semantics
  verify_fee_sponsored_displacement_semantics_iff debug output_dir =
      Runs-counted (counted 2 2 sponsored_entry)
        (Runs->>= (Runs-lift (read_json_iff d _)) λ state.
          Runs->>= (Runs-lift (read_json_iff d _)) λ report.
            Runs->> (Runs-lift (λ _. require_status_iff d report _)) (
              Runs->>= (Runs-lift (λ b. report_lane_iff d k state report _ _ b.0 b.1)) λ bound.
                Runs->>= (Runs-lift (required_typed_iff d _ report _)) λ fee_policy.
                  Runs->> (Runs-lift (λ _. require_text_iff d report _ _ _)) (
                    Runs->>=
                      (Runs-checked_transaction d x report _
                        (check_marker_iff d x report bound.0 _ _))
                      λ lower.
                        Runs->>=
                          (Runs-checked_transaction d x report _
                            (check_marker_iff d x report bound.0 _ _))
                          λ higher.
                            Runs->>
                              (Runs-lift
                                (λ _. check_sponsors_iff d k x ms state report lower higher))
                              (Runs-last _ (
                                Runs-lift (λ _.
                                  check_displacement_iff d k x ms debug report bound.0 bound.1
                                    fee_policy lower higher))))))
        λ p. ground arith
