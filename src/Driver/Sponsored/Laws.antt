-- ===== src/Driver/Sponsored/Laws.antt =====
-- When the displacement checks of `verify_fee_sponsored_displacement_semantics` of
-- drivers/kaspa-devnet/src/main.rs are passed.
use kurrent.Base.{Bool, List, String, ap, refl, show_u64, some, string_eq, ℕ, ◌<>◌, ◌↔◌, ◌∙◌, ◌≡◌}
use kurrent.Driver.{Host, Transaction, ok}
use kurrent.Driver.Answers.{both_iff, require_iff, some_iff}
use kurrent.Driver.Eligibility.{Models}
use kurrent.Driver.Eligibility.Laws.{evaluation_answer_iff}
use kurrent.Driver.Lane.{SeqCommit}
use kurrent.Driver.Markers.{sponsored_markers}
use kurrent.Driver.Markers.Laws.{MarkerEvents, marker_events_iff}
use kurrent.Driver.Markers.Windows.{InWindows, proof_after_windows_iff}
use kurrent.Driver.Markers.Recorded.{RecordedLane, check_recorded_lane_iff}
use kurrent.Driver.Require.Laws.{
  Number, Says, Typed, require_text_iff, required_typed_iff, required_u64_iff, required_value_iff,
}
use kurrent.Driver.Require.Transactions.{require_eq_iff}
use kurrent.Driver.Answers.{iff_trans}
use kurrent.Driver.Sponsored.{
  check_displacement, check_sponsored_lane, check_payload_hashes, check_sponsored_decisions,
}
use kurrent.Eligibility.Decide.{displaced, eligible_to_finalise}
use kurrent.Errors.{Result}
use kurrent.External.{External, fee_policy_hash, settlement_distribution_hash, template_hash}
use kurrent.Sponsor.{FeeSponsoredSettlementDecision, evaluate_fee_sponsored_settlement_eligibility}
use kurrent.Types.{
  FeeSponsoredSettlementCandidate, FundingState, KurrentChannelConfig, SettlementEligibilityPolicy,
  SettlementFeePolicy, SettlementTemplate,
}
use kurrent.Driver.Sponsored.Statuses.{SponsoredDecided, all_sponsored_iff, require_status_of_iff}

module _ (d : Host) (k : SeqCommit) (x : External) (ms : Models d) where
  -- The marker's payload has the hashes of fee policy, distribution and template.
  abbrev pub PayloadHashes : d.Value → String → String → SettlementTemplate → Type 0
  PayloadHashes report marker fee_hash template =
      (payload : d.Value) × (d.pointer report ("/sponsored_markers/" <> marker <> "/payload")
        ≡ some payload)
      × (Says d payload "/fee_policy_hash" fee_hash
          × (Says d payload "/settlement_distribution_hash"
                (settlement_distribution_hash x template)
              × Says d payload "/settlement_template_hash" (template_hash x template)))

  check_payload_hashes_iff :
      (report : d.Value) (marker fee_hash : String) (template : SettlementTemplate)
      → (check_payload_hashes d k x ms report marker fee_hash template ≡ ok tt)
        ↔ PayloadHashes report marker fee_hash template
  unfolding check_payload_hashes
  check_payload_hashes_iff report marker fee_hash template =
      some_iff (required_value_iff d report _) λ payload.
        both_iff (require_text_iff d payload _ _ _)
          (both_iff (require_text_iff d payload _ _ _) (require_text_iff d payload _ _ _))

  -- The payloads have the hashes, and the recorded decisions are those of the sponsored evaluation at
  -- the proof's score: the first state is displaced, and the second may finalise.
  pub record SponsoredAgain (debug : Bool) (report : d.Value) (policy : SettlementEligibilityPolicy)
      (fee_policy : SettlementFeePolicy) (proof_daa : ℕ) : Type 0 where
    pub config : KurrentChannelConfig
    pub funding : FundingState
    pub template : SettlementTemplate
    pub candidates : List FeeSponsoredSettlementCandidate
    pub decisions : List FeeSponsoredSettlementDecision
    pub current_daa : ℕ
    pub has_config : Typed d ms.config report "/model_validation/config" config
    pub has_funding : Typed d ms.funding report "/model_validation/funding" funding
    pub has_template : Typed d ms.template report "/model_validation/settlement_template" template
    pub distribution :
        Says d report "/settlement_distribution_hash" (settlement_distribution_hash x template)
    pub lower_hashes : PayloadHashes report "lower" (fee_policy_hash x fee_policy) template
    pub higher_hashes : PayloadHashes report "higher" (fee_policy_hash x fee_policy) template
    pub has_candidates :
        Typed d ms.sponsored_candidates report "/model_validation/candidates" candidates
    pub has_decisions :
        Typed d ms.sponsored_decisions report "/model_validation/decisions" decisions
    pub has_current_daa : Number d report "/model_validation/current_daa" current_daa
    pub at_proof : show_u64 current_daa ≡ show_u64 proof_daa
    pub evaluated :
        evaluate_fee_sponsored_settlement_eligibility x debug config funding template policy
          fee_policy candidates current_daa
        ≡ Result.ok decisions
    pub first_displaced : SponsoredDecided decisions 1 displaced
    pub second_eligible : SponsoredDecided decisions 2 eligible_to_finalise

  check_sponsored_decisions_iff :
      (debug : Bool) (report : d.Value) (policy : SettlementEligibilityPolicy)
      (fee_policy : SettlementFeePolicy) (proof_daa : ℕ)
      → (check_sponsored_decisions d k x ms debug report policy fee_policy proof_daa ≡ ok tt)
        ↔ SponsoredAgain debug report policy fee_policy proof_daa
  unfolding check_sponsored_decisions
  check_sponsored_decisions_iff debug report policy fee_policy proof_daa =
      iff_trans
        (some_iff (required_typed_iff d _ report _) λ config.
          some_iff (required_typed_iff d _ report _) λ funding.
            some_iff (required_typed_iff d _ report _) λ template.
              both_iff (require_text_iff d report _ _ _) (
                both_iff
                  (check_payload_hashes_iff report "lower" (fee_policy_hash x fee_policy) template)
                  (both_iff
                    (check_payload_hashes_iff report "higher" (fee_policy_hash x fee_policy)
                      template)
                    (some_iff (required_typed_iff d _ report _) λ candidates.
                      some_iff (required_typed_iff d _ report _) λ recorded.
                        some_iff (required_u64_iff d report _) λ current.
                          both_iff (require_eq_iff _ _ _) (
                            some_iff
                              (evaluation_answer_iff d k x ms _ (
                                evaluate_fee_sponsored_settlement_eligibility x debug config funding
                                  template policy fee_policy candidates current))
                              λ again.
                                both_iff
                                  (iff_trans (require_iff _) (all_sponsored_iff again recorded))
                                  (both_iff (require_status_of_iff recorded 1 displaced)
                                    (require_status_of_iff recorded 2 eligible_to_finalise)))))))
        (
          (λ (
            c,
            a,
            (
              f,
              b,
              (
                t,
                e,
                (di, (lo, (hi, (cs, g, (ds, h, (n, i, (at, (again, r, (same, (one, two)))))))))),
              ),
            ),
          ).
              record {
                config = c;
                funding = f;
                template = t;
                candidates = cs;
                decisions = ds;
                current_daa = n;
                has_config = a;
                has_funding = b;
                has_template = e;
                distribution = di;
                lower_hashes = lo;
                higher_hashes = hi;
                has_candidates = g;
                has_decisions = h;
                has_current_daa = i;
                at_proof = at;
                evaluated = r ∙ ap Result.ok same;
                first_displaced = one;
                second_eligible = two;
              }),
          (λ r. (
            r.config,
            r.has_config,
            (
              r.funding,
              r.has_funding,
              (
                r.template,
                r.has_template,
                (
                  r.distribution,
                  (
                    r.lower_hashes,
                    (
                      r.higher_hashes,
                      (
                        r.candidates,
                        r.has_candidates,
                        (
                          r.decisions,
                          r.has_decisions,
                          (
                            r.current_daa,
                            r.has_current_daa,
                            (
                              r.at_proof,
                              (
                                r.decisions,
                                r.evaluated,
                                (refl, (r.first_displaced, r.second_eligible)),
                              ),
                            ),
                          ),
                        ),
                      ),
                    ),
                  ),
                ),
              ),
            ),
          )),
        )

  -- Two markers' events in their windows, the decisions, and the proven lane.
  abbrev pub DisplacedLane :
      Bool → d.Value → String → k.Hash → SettlementFeePolicy → Transaction → Transaction → Type 0
  DisplacedLane debug report lane key fee_policy lower higher =
      (events : d.Value × d.Value) × MarkerEvents d k sponsored_markers report lane lower.id
        higher.id events.0 events.1
      × ((policy : SettlementEligibilityPolicy) × Typed d ms.policy report "/eligibility_policy"
            policy
          × ((proof_daa : ℕ) × InWindows d k report policy.response_window_daa events.0 events.1
                proof_daa
              × (SponsoredAgain debug report policy fee_policy proof_daa
                  × RecordedLane d k "fee-sponsored" report lane key)))

  pub check_displacement_iff :
      (debug : Bool) (report : d.Value) (lane : String) (key : k.Hash)
      (fee_policy : SettlementFeePolicy) (lower higher : Transaction)
      → (check_displacement d k x ms debug report lane key fee_policy lower higher ≡ ok tt)
        ↔ DisplacedLane debug report lane key fee_policy lower higher
  unfolding check_displacement check_sponsored_lane
  check_displacement_iff debug report lane key fee_policy lower higher =
      some_iff
        (λ events.
          marker_events_iff d k sponsored_markers report lane lower.id higher.id events.0 events.1)
        λ events. some_iff (required_typed_iff d _ report _) λ policy.
          some_iff
            (proof_after_windows_iff d k sponsored_markers report policy.response_window_daa
              events.0 events.1)
            λ proof_daa.
              both_iff (check_sponsored_decisions_iff debug report policy fee_policy proof_daa)
                (check_recorded_lane_iff d k _ report lane key)
