-- ===== src/Driver/Run/Displacement.antt =====
-- What a successful run of `run_semantic_evidence_verifier` of drivers/kaspa-devnet/src/main.rs shows
-- of the settlement candidates on file.
use kurrent.Base.{
  Bool, Bool-cases, eq_of_beq, false, true, List, String, [], inl, inr, nat_eq, some, string_eq,
  subst, sym, ℕ, ◌==◌, ◌∙◌, ◌∷◌, ◌≡◌, ◌≤◌,
}
use kurrent.Driver.{Host, ok}
use kurrent.Driver.Eligibility.{Models, find_decision}
use kurrent.Driver.Lane.{SeqCommit}
use kurrent.Driver.Records.Laws.{JsonFile}
use kurrent.Driver.Require.Laws.{Number, Typed}
use kurrent.Driver.Run.{Disk, Written, run_semantic_evidence_verifier}
use kurrent.Driver.Run.Evidence.{evidence_of}
use kurrent.Eligibility.Accepted.{choose, sort_by_index}
use kurrent.Eligibility.Decide.{SettlementEligibilityDecision, displaced, eligible_to_finalise}
use kurrent.Eligibility.Evaluate.{Decisions}
use kurrent.Eligibility.Evidence.{Candidate, state_of}
use kurrent.Eligibility.Order.{Any}
use kurrent.Eligibility.Outcomes.{evaluate-Decisions}
use kurrent.Eligibility.Search.{Any-map, Displaces, deadline, some_inj}
use kurrent.Eligibility.Verdicts.{Decides}
use kurrent.Errors.{Result}
use kurrent.External.{External}
use kurrent.Types.{KurrentChannelConfig, SettlementEligibilityPolicy}

find_decision-here :
    (n : ℕ) (d : SettlementEligibilityDecision) (ds : List SettlementEligibilityDecision)
    → (d.state_number == n) ≡ true
    → find_decision n (d ∷ ds) ≡ some d
unfolding find_decision
find_decision-here n d ds h = rw h

find_decision-later :
    (n : ℕ) (d : SettlementEligibilityDecision) (ds : List SettlementEligibilityDecision)
    → (d.state_number == n) ≡ false
    → find_decision n (d ∷ ds) ≡ find_decision n ds
unfolding find_decision
find_decision-later n d ds h = rw h

-- The candidate that a decision found in the list is on.
find_decision-Decides :
    (window tolerance now : ℕ) (all cs : List Candidate) (ds : List SettlementEligibilityDecision)
    (n : ℕ) (decision : SettlementEligibilityDecision)
    → Decisions window tolerance now all cs ds
    → find_decision n ds ≡ some decision
    → Any (λ c. (state_of c ≡ n) × Decides window tolerance now all c decision) cs
unfolding find_decision
find_decision-Decides w t now all [] [] n decision v found = cc
find_decision-Decides w t now all [] (d ∷ ds) n decision v found = absurd v
find_decision-Decides w t now all (c ∷ cs) [] n decision v found = absurd v
find_decision-Decides w t now all (c ∷ cs) (d ∷ ds) n decision (v, vs) found =
    elim (Bool-cases (d.state_number == n)) [
      | inl here ↦
          let same : d ≡ decision = some_inj (sym (find_decision-here n d ds here) ∙ found) in
          inl (sym v.of_state ∙ eq_of_beq _ _ here, subst (λ e. Decides w t now all c e) same v)
      | inr other ↦ inr (
          find_decision-Decides w t now all cs ds n decision vs
            (sym (find_decision-later n d ds other) ∙ found))
    ]

module _ (policy : SettlementEligibilityPolicy) (now : ℕ) (chosen : List Candidate) where
  abbrev window_end : Candidate → ℕ
  window_end c = deadline policy.response_window_daa policy.reorg_tolerance_daa c

  -- A candidate of the state was displaced by one of a higher state in its window.
  abbrev pub WasDisplaced : ℕ → Type 0
  WasDisplaced n =
      Any (λ c. (state_of c ≡ n) × Any (Displaces (window_end c) c) chosen) (sort_by_index chosen)

  -- The window of a candidate of the state is over, and none displaced it.
  abbrev pub MayFinalise : ℕ → Type 0
  MayFinalise n =
      Any
        (λ c. (state_of c ≡ n) × (¬ Any (Displaces (window_end c) c) chosen) × (window_end c ≤ now))
        (sort_by_index chosen)

  decided-WasDisplaced :
      (ds : List SettlementEligibilityDecision) (n : ℕ) (decision : SettlementEligibilityDecision)
      → Decisions policy.response_window_daa policy.reorg_tolerance_daa now chosen
          (sort_by_index chosen)
          ds
      → find_decision n ds ≡ some decision
      → decision.status ≡ displaced
      → WasDisplaced n
  decided-WasDisplaced ds n decision v found status =
      Any-map _ _ (sort_by_index chosen) (λ c (at, decides). (at, decides.displaced_iff.0 status))
        (find_decision-Decides _ _ now chosen (sort_by_index chosen) ds n decision v found)

  decided-MayFinalise :
      (ds : List SettlementEligibilityDecision) (n : ℕ) (decision : SettlementEligibilityDecision)
      → Decisions policy.response_window_daa policy.reorg_tolerance_daa now chosen
          (sort_by_index chosen)
          ds
      → find_decision n ds ≡ some decision
      → decision.status ≡ eligible_to_finalise
      → MayFinalise n
  decided-MayFinalise ds n decision v found status =
      Any-map _ _ (sort_by_index chosen)
        (λ c (at, decides).
          let (none_higher, over) = decides.eligible_iff.0 status in (at, none_higher, over))
        (find_decision-Decides _ _ now chosen (sort_by_index chosen) ds n decision v found)

module _ (d : Host) (k : SeqCommit) (x : External) (ms : Models d) (disk : Disk) (debug : Bool)
    (output_dir : String) (w : Written) where
  -- The file holds candidates of which one on state 1 was displaced and one on state 2 may finalise.
  abbrev pub ShowsDisplaced : Type 0
  ShowsDisplaced =
      (report : d.Value) × JsonFile d
        (d.join output_dir "kurrent-live-settlement-eligibility-evidence.json") report
      × (policy : SettlementEligibilityPolicy) × Typed d ms.policy report "/policy" policy
      × (config : KurrentChannelConfig) × Typed d ms.config report "/model_validation/config" config
      × (candidates : List Candidate) × Typed d ms.candidates report "/model_validation/candidates"
          candidates
      × (now : ℕ) × Number d report "/model_validation/current_daa" now
      × (chosen : List Candidate) × (choose config.challenge_policy.same_number_conflict_rule
            candidates
          ≡ Result.ok chosen)
      × WasDisplaced policy now chosen 1
      × MayFinalise policy now chosen 2

  -- After a successful run the candidates on file, chosen under the channel's conflict rule, hold one
  -- on state 1 that a candidate with a higher state displaced within its window, and one on state 2
  -- whose window is over at the recorded score and that none displaced.
  pub run-ShowsDisplaced :
      run_semantic_evidence_verifier d k x ms disk debug output_dir ≡ ok w → ShowsDisplaced
  run-ShowsDisplaced h =
      let (
        state,
        s,
        (report, file, (_, (_, _, (_, _, (_, _, (_, _, (_, _, (policy, p, (_, _, (r, _)))))))))),
      ) =
        (evidence_of d k x ms disk debug output_dir w h).1.1.0 in
      let (chosen, c, v) =
        evaluate-Decisions x debug r.config r.funding r.template policy r.candidates r.current_daa
          r.decisions r.evaluated in
      let (first, f, one) = r.first_displaced in
      let (second, g, two) = r.second_eligible in
      (
        report,
        file,
        policy,
        p,
        r.config,
        r.has_config,
        r.candidates,
        r.has_candidates,
        r.current_daa,
        r.has_current_daa,
        chosen,
        c,
        decided-WasDisplaced policy r.current_daa chosen r.decisions 1 first v f one,
        decided-MayFinalise policy r.current_daa chosen r.decisions 2 second v g two,
      )
