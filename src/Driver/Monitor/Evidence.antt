-- ===== src/Driver/Monitor/Evidence.antt =====
-- What lane evidence is accepted by `verify_lane_monitor_semantics` of
-- drivers/kaspa-devnet/src/main.rs.
use kurrent.Base.{
  All, Bool, List, Map, Option, String, [], arith, contains_key, false, get, insert, none, not,
  refl, some, string_eq, true, ℕ, ◌<◌, ◌↔◌, ◌∷◌, ◌≡◌,
}
use kurrent.Driver.{Host, Progress, ok}
use kurrent.Driver.Answers.{both_iff, ok_or_iff, require_iff, some_iff}
use kurrent.Driver.Lane.{LaneTip, SeqCommit, wrapping_order}
use kurrent.Driver.Lane.Chain.{Chain, next_blocks_iff}
use kurrent.Driver.Lane.Leaves.{ListAt, ok_iff, required_array_iff}
use kurrent.Driver.Lane.Proof.{LaneOf, ProvesTip, report_lane_iff, verify_lane_tip_iff}
use kurrent.Driver.Monitor.{
  check_absence, check_events, check_lane_monitor, check_order, lane_monitor_entry, not_after,
  observe, required_bool,
}
use kurrent.Driver.Monitor.Verifier.{verify_lane_monitor_semantics}
use kurrent.Driver.Records.Laws.{JsonFile, Runs-counted, Runs-last, read_json_iff}
use kurrent.Driver.Require.Laws.{
  Number, Passed, Says, Text, require_status_iff, require_text_iff, required_str_iff,
  required_u64_iff,
}
use kurrent.Driver.Answers.{iff_trans}
use kurrent.Driver.Runs.{Runs->>=, Runs-lift}
use kurrent.Driver.Verify.{one_check}

-- The position is behind the previous one, if there is one.
abbrev pub After : Option ℕ → ℕ → Type 0
After none position = Unit {0}
After (some previous) position = previous < position

not_after_iff :
    (previous : Option ℕ) (position : ℕ)
    → (not (not_after previous position) ≡ true) ↔ After previous position
not_after_iff none position = ((λ h. tt), (λ h. refl))
not_after_iff (some previous) position = ground arith

not-true_iff : (b : Bool) → (not b ≡ true) ↔ (b ≡ false)
not-true_iff b = ground arith

-- The transactions have positions, each behind the one before.
abbrev pub InOrder : Map String ℕ → Option ℕ → List (String × String) → Type 0
InOrder observed previous [] = Unit {0}
InOrder observed previous ((kind, txid) ∷ rest) =
    (position : ℕ) × (get txid observed ≡ some position)
    × (After previous position × InOrder observed (some position) rest)

module _ (d : Host) (k : SeqCommit) where
  -- The map holds the positions of the events, all of them on the lane.
  abbrev pub Observes : String → Map String ℕ → List d.Value → Map String ℕ → Type 0
  Observes lane before [] after = before ≡ after
  Observes lane before (event ∷ rest) after =
      Says d event "/lane_id" lane
      × ((txid : String) × Text d event "/txid" txid
          × ((index : ℕ) × Number d event "/accepted_order_index" index
              × Observes lane (insert txid index before) rest after))

  observe_iff :
      (lane : String) (before : Map String ℕ) (events : List d.Value) (after : Map String ℕ)
      → (observe d k lane before events ≡ ok after) ↔ Observes lane before events after
  unfolding observe
  observe_iff lane before [] after = ok_iff before after
  observe_iff lane before (event ∷ rest) after = both_iff (require_text_iff d event _ _ _) (
      some_iff (required_str_iff d event _) λ txid.
        some_iff (required_u64_iff d event _)
          λ index. observe_iff lane (insert txid index before) rest after)

  check_order_iff :
      (observed : Map String ℕ) (previous : Option ℕ) (expected : List (String × String))
      → (check_order d k observed previous expected ≡ ok tt) ↔ InOrder observed previous expected
  unfolding check_order
  check_order_iff observed previous [] = ((λ h. tt), (λ h. refl))
  check_order_iff observed previous ((kind, txid) ∷ rest) = some_iff (ok_or_iff _) λ position.
      both_iff (iff_trans (require_iff _) (not_after_iff previous position))
        (check_order_iff observed (some position) rest)

  -- The rejected transaction is said to be absent, and is none of the events.
  abbrev pub Absent : Map String ℕ → d.Value → Type 0
  Absent observed file =
      ((elim (d.pointer file "/absent_from_accepted_activity") [
        | none ↦ none
        | some v ↦ d.as_bool v
      ])
        ≡ some true)
      × ((txid : String) × Text d file "/txid" txid × (contains_key txid observed ≡ false))

  pub required_bool_iff :
      (value : d.Value) (pointer : String) (b : Bool)
      → (required_bool d k value pointer ≡ ok b)
        ↔ ((elim (d.pointer value pointer) [ none ↦ none | some v ↦ d.as_bool v ]) ≡ some b)
  unfolding required_bool
  required_bool_iff value pointer b = ok_or_iff _ b

  check_absence_iff :
      (observed : Map String ℕ) (files : List d.Value)
      → (check_absence d k observed files ≡ ok tt) ↔ All (Absent observed) files
  unfolding check_absence
  check_absence_iff observed [] = ((λ h. tt), (λ h. refl))
  check_absence_iff observed (file ∷ rest) =
      iff_trans
        (some_iff (required_bool_iff file _) λ absent. both_iff (require_iff _) (
          some_iff (required_str_iff d file _) λ txid.
            both_iff (iff_trans (require_iff _) (not-true_iff (contains_key txid observed)))
              (check_absence_iff observed rest)))
        (
          (λ (b, a, (same, (txid, e, (f, others)))). ((rw (← same) a, (txid, e, f)), others)),
          (λ ((a, (txid, e, f)), others). (true, a, (refl, (txid, e, (f, others))))),
        )

  -- The events put funding, update and settlement in this order, and none is a rejected transaction.
  abbrev pub Events : d.Value → d.Value → String → Type 0
  Events state report lane =
      (funding : String) × Text d state "/funding/txid" funding
      × ((update : String) × Text d state "/state_update/txid" update
          × ((settlement : String) × Text d state "/settlement/txid" settlement
              × ((events : List d.Value) × ListAt d k report "/lane_events" events
                  × ((observed : Map String ℕ) × Observes lane [] events observed
                      × (InOrder observed none (
                            ("funding", funding)
                            ∷ ("state_update", update)
                            ∷ ("settlement", settlement)
                            ∷ [])
                          × ((absent : List d.Value) × ListAt d k report "/wrong_lane_absence"
                                absent
                              × All (Absent observed) absent))))))

  check_events_iff :
      (state report : d.Value) (lane : String)
      → (check_events d k state report lane ≡ ok tt) ↔ Events state report lane
  unfolding check_events
  check_events_iff state report lane = some_iff (required_str_iff d state _) λ funding.
      some_iff (required_str_iff d state _) λ update.
        some_iff (required_str_iff d state _) λ settlement.
          some_iff (required_array_iff d k report _) λ events.
            some_iff (observe_iff lane [] events) λ observed.
              both_iff (check_order_iff observed none _) (
                some_iff (required_array_iff d k report _)
                  λ absent. check_absence_iff observed absent)

  -- The report has passed and names the lane of the state evidence, its events are in order, and its
  -- blocks link to a tip that its proof proves.
  abbrev pub MonitorReport : d.Value → d.Value → Type 0
  MonitorReport state report =
      Passed d report
      × ((bound : String × k.Hash) × LaneOf d k state report bound.0 bound.1
          × (Events state report bound.0
              × ((blocks : List d.Value) × ListAt d k report "/lane_activity_blocks" blocks
                  × ((reconstructed : LaneTip d k) × Chain d k wrapping_order "lane monitor" bound.0
                        bound.1 (record { tip = none; blue_score = none }) blocks reconstructed
                      × ProvesTip d k bound.1 report reconstructed))))

  check_lane_monitor_iff :
      (state report : d.Value)
      → (check_lane_monitor d k state report ≡ ok tt) ↔ MonitorReport state report
  unfolding check_lane_monitor
  check_lane_monitor_iff state report = both_iff (require_status_iff d report _) (
      some_iff (λ bound. report_lane_iff d k state report _ _ bound.0 bound.1)
        λ bound. both_iff (check_events_iff state report bound.0) (
          some_iff (required_array_iff d k report _) λ blocks.
            some_iff (next_blocks_iff d k wrapping_order _ bound.0 bound.1 _ blocks)
              λ reconstructed. verify_lane_tip_iff d k _ _ bound.1 report reconstructed))

  abbrev pub MonitorEvidence : String → Type 0
  MonitorEvidence output_dir =
      (state : d.Value) × JsonFile d (d.join output_dir "kurrent-live-state-channel-evidence.json")
        state
      × ((report : d.Value) × JsonFile d
            (d.join output_dir "kurrent-live-lane-monitor-evidence.json") report
          × MonitorReport state report)

  -- The lane monitor succeeds exactly on a report for the lane of the state evidence whose events put
  -- funding, update and settlement in this order and contain no rejected transaction, and whose
  -- activity blocks link, digest by digest and tip by tip, to the tip and blue score that its KIP-21
  -- proof leads to the committed root; it then adds its entry and counts nothing.
  pub verify_lane_monitor_semantics_iff :
      (output_dir : String) (p q : Progress) (u : Unit {0})
      → (verify_lane_monitor_semantics d k output_dir p ≡ ok (u, q))
        ↔ (MonitorEvidence output_dir × (q ≡ one_check lane_monitor_entry p))
  unfolding verify_lane_monitor_semantics
  verify_lane_monitor_semantics_iff output_dir =
      Runs-counted (one_check lane_monitor_entry)
        (Runs->>= (Runs-lift (read_json_iff d _)) λ state.
          Runs->>= (Runs-lift (read_json_iff d _))
            λ report. Runs-last _ (Runs-lift (λ _. check_lane_monitor_iff state report)))
        λ p. refl
