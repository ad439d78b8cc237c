-- ===== src/Driver/Eligibility/Laws.antt =====
-- When the checks of `verify_settlement_eligibility_semantics` of drivers/kaspa-devnet/src/main.rs are
-- passed.
use kurrent.Base.{
  Bool, List, String, [], ap, list_eq, nat_eq, none, option_eq, refl, show_u64, some, string_eq,
  true, ℕ, ◌↔◌, ◌∙◌, ◌∷◌, ◌≡◌, ◌≢◌,
}
use kurrent.Driver.{Host, Transaction, ok}
use kurrent.Driver.Answers.{AllOf, both_iff, require_iff, some_iff}
use kurrent.Driver.Eligibility.{
  Models, check_decisions, check_eligibility, check_candidate_lane, check_wrong_lane_marker,
  evaluation_answer,
}
use kurrent.Driver.Lane.{SeqCommit}
use kurrent.Driver.Markers.{candidate_markers}
use kurrent.Driver.Markers.Laws.{
  MarkerEvents, PayloadOf, marker_events_iff, require_marker_payload_iff,
}
use kurrent.Driver.Markers.Windows.{InWindows, proof_after_windows_iff}
use kurrent.Driver.Monitor.Evidence.{required_bool_iff}
use kurrent.Driver.Markers.Recorded.{RecordedLane, check_recorded_lane_iff}
use kurrent.Driver.Require.{tx_subnetwork_id_hex}
use kurrent.Driver.Require.Laws.{
  Named, Number, Says, Typed, require_recorded_txid_iff, require_text_iff, required_typed_iff,
  required_u64_iff,
}
use kurrent.Driver.Require.Transactions.{require_eq_iff, require_not_eq_iff}
use kurrent.Driver.Answers.{iff_trans}
use kurrent.Eligibility.Decide.{
  SettlementEligibilityDecision, displaced, eligible_to_finalise, evaluate_settlement_eligibility,
}
use kurrent.Eligibility.Evidence.{Candidate}
use kurrent.Errors.{Result}
use kurrent.External.{External}
use kurrent.Types.{
  FundingState, KurrentChannelConfig, SettlementEligibilityPolicy, SettlementTemplate,
}
use kurrent.Driver.Eligibility.Statuses.{Decided, require_decision_status_iff, same_decisions_iff}

module _ (d : Host) (k : SeqCommit) (x : External) (ms : Models d) where
  -- The transaction is the recorded marker, on another lane, and was ignored.
  abbrev pub WrongLaneMarker : d.Value → String → Transaction → Type 0
  WrongLaneMarker report lane tx = AllOf (
      Named d report tx "/candidate_markers/wrong_lane/txid"
      ∷ (tx_subnetwork_id_hex d x tx ≢ lane)
      ∷ Says d report "/candidate_markers/wrong_lane/status" "ignored_wrong_lane"
      ∷ PayloadOf d x tx report "/candidate_markers/wrong_lane"
      ∷ ((absent : Bool) × ((elim (d.pointer report
              "/candidate_markers/wrong_lane/absent_from_expected_lane_activity") [
                | none ↦ none
                | some v ↦ d.as_bool v
              ])
            ≡ some absent)
          × ((absent ≡ true)
              × Says d report "/candidate_markers/wrong_lane/accepted_observation/lane_id"
                  (tx_subnetwork_id_hex d x tx)))
      ∷ [])

  pub check_wrong_lane_marker_iff :
      (report : d.Value) (lane : String) (tx : Transaction)
      → (check_wrong_lane_marker d k x ms report lane tx ≡ ok tt) ↔ WrongLaneMarker report lane tx
  unfolding check_wrong_lane_marker
  check_wrong_lane_marker_iff report lane tx =
      both_iff (require_recorded_txid_iff d report tx _ _) (
        both_iff (require_not_eq_iff _ _ _) (
          both_iff (require_text_iff d report _ _ _) (
            both_iff (require_marker_payload_iff d x tx report _ _) (
              some_iff (required_bool_iff d k report _)
                λ absent. both_iff (require_iff _) (require_text_iff d report _ _ _)))))

  pub evaluation_answer_iff :
      {A : Type 0} (label : String) (r : Result A) (a : A)
      → (evaluation_answer d k x ms label r ≡ ok a) ↔ (r ≡ Result.ok a)
  unfolding evaluation_answer
  evaluation_answer_iff label (Result.ok b) a = ((λ h. cc), (λ h. cc))
  evaluation_answer_iff label (Result.err e) a = ((λ h. cc), (λ h. cc))
  evaluation_answer_iff label Result.panic a = ((λ h. cc), (λ h. cc))

  -- The recorded decisions are those of the evaluation of the recorded candidates at the proof's score:
  -- the first state is displaced, and the second may finalise.
  pub record DecidedAgain (debug : Bool) (report : d.Value) (policy : SettlementEligibilityPolicy)
      (proof_daa : ℕ) : Type 0 where
    pub config : KurrentChannelConfig
    pub funding : FundingState
    pub template : SettlementTemplate
    pub candidates : List Candidate
    pub decisions : List SettlementEligibilityDecision
    pub current_daa : ℕ
    pub has_config : Typed d ms.config report "/model_validation/config" config
    pub has_funding : Typed d ms.funding report "/model_validation/funding" funding
    pub has_template : Typed d ms.template report "/model_validation/settlement_template" template
    pub has_candidates : Typed d ms.candidates report "/model_validation/candidates" candidates
    pub has_decisions : Typed d ms.decisions report "/model_validation/decisions" decisions
    pub has_current_daa : Number d report "/model_validation/current_daa" current_daa
    pub at_proof : show_u64 current_daa ≡ show_u64 proof_daa
    pub evaluated :
        evaluate_settlement_eligibility x debug config funding template policy candidates
          current_daa
        ≡ Result.ok decisions
    pub first_displaced : Decided decisions 1 displaced
    pub second_eligible : Decided decisions 2 eligible_to_finalise

  check_decisions_iff :
      (debug : Bool) (report : d.Value) (policy : SettlementEligibilityPolicy) (proof_daa : ℕ)
      → (check_decisions d k x ms debug report policy proof_daa ≡ ok tt)
        ↔ DecidedAgain debug report policy proof_daa
  unfolding check_decisions
  check_decisions_iff debug report policy proof_daa =
      iff_trans
        (some_iff (required_typed_iff d _ report _) λ config.
          some_iff (required_typed_iff d _ report _) λ funding.
            some_iff (required_typed_iff d _ report _) λ template.
              some_iff (required_typed_iff d _ report _) λ candidates.
                some_iff (required_typed_iff d _ report _) λ recorded.
                  some_iff (required_u64_iff d report _) λ current.
                    both_iff (require_eq_iff _ _ _) (
                      some_iff
                        (evaluation_answer_iff _ (
                          evaluate_settlement_eligibility x debug config funding template policy
                            candidates current))
                        λ again.
                          both_iff (iff_trans (require_iff _) (same_decisions_iff again recorded)) (
                            both_iff (require_decision_status_iff recorded 1 displaced)
                              (require_decision_status_iff recorded 2 eligible_to_finalise))))
        (
          (λ (c, a, (f, b, (t, e, (cs, g, (ds, h, (n, i, (at, (again, r, (same, (one, two)))))))))).
              record {
                config = c;
                funding = f;
                template = t;
                candidates = cs;
                decisions = ds;
                current_daa = n;
                has_config = a;
                has_funding = b;
                has_template = e;
                has_candidates = g;
                has_decisions = h;
                has_current_daa = i;
                at_proof = at;
                evaluated = r ∙ ap Result.ok same;
                first_displaced = one;
                second_eligible = two;
              }),
          (λ r. (
            r.config,
            r.has_config,
            (
              r.funding,
              r.has_funding,
              (
                r.template,
                r.has_template,
                (
                  r.candidates,
                  r.has_candidates,
                  (
                    r.decisions,
                    r.has_decisions,
                    (
                      r.current_daa,
                      r.has_current_daa,
                      (
                        r.at_proof,
                        (r.decisions, r.evaluated, (refl, (r.first_displaced, r.second_eligible))),
                      ),
                    ),
                  ),
                ),
              ),
            ),
          )),
        )

  -- Two markers' events in their windows, the decisions, and the proven lane.
  abbrev pub EligibleLane : Bool → d.Value → String → k.Hash → Transaction → Transaction → Type 0
  EligibleLane debug report lane key lower_tx higher_tx =
      (events : d.Value × d.Value) × MarkerEvents d k candidate_markers report lane lower_tx.id
        higher_tx.id events.0 events.1
      × ((policy : SettlementEligibilityPolicy) × Typed d ms.policy report "/policy" policy
          × ((proof_daa : ℕ) × InWindows d k report policy.response_window_daa events.0 events.1
                proof_daa
              × (DecidedAgain debug report policy proof_daa
                  × RecordedLane d k "settlement eligibility" report lane key)))

  pub check_eligibility_iff :
      (debug : Bool) (report : d.Value) (lane : String) (key : k.Hash) (lower higher : Transaction)
      → (check_eligibility d k x ms debug report lane key lower higher ≡ ok tt)
        ↔ EligibleLane debug report lane key lower higher
  unfolding check_eligibility check_candidate_lane
  check_eligibility_iff debug report lane key lower higher =
      some_iff
        (λ events.
          marker_events_iff d k candidate_markers report lane lower.id higher.id events.0 events.1)
        λ events. some_iff (required_typed_iff d _ report _) λ policy.
          some_iff
            (proof_after_windows_iff d k candidate_markers report policy.response_window_daa
              events.0 events.1)
            λ proof_daa.
              both_iff (check_decisions_iff debug report policy proof_daa)
                (check_recorded_lane_iff d k _ report lane key)
