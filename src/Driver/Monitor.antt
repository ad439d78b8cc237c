-- ===== src/Driver/Monitor.antt =====
-- `verify_lane_monitor_semantics` of drivers/kaspa-devnet/src/main.rs.
use kurrent.Base.{
  Bool, List, Map, Option, String, [], contains_key, get, insert, leb, none, not, some, string_eq,
  true, ℕ, ◌<>◌, ◌∷◌, false,
}
use kurrent.Driver.{Answer, CheckEntry, Host, ok, ok_or, require, ◌>>=◌, ◌>>◌}
use kurrent.Driver.Lane.{
  SeqCommit, next_blocks, report_lane, required_array, verify_lane_tip, wrapping_order,
}
use kurrent.Driver.Require.{require_status, require_text, required_str, required_u64}
pub mod Evidence
pub mod Tests
pub mod Verifier

abbrev pub lane_monitor_entry : CheckEntry
lane_monitor_entry = record {
  id = "kip21_lane_monitor_evidence";
  status = "passed";
  details =
      "KIP-21 lane proof verifies against the recorded selected-parent accepted_id_merkle_root, and lane activity reconstructs funding < update < settlement order for the bound Kurrent lane";
}

-- Whether a position is not behind the previous one.
abbrev pub not_after : Option ℕ → ℕ → Bool
not_after none position = false
not_after (some previous) position = leb position previous

module _ (d : Host) (k : SeqCommit) where
  -- `required_bool`
  unfoldable pub required_bool : d.Value → String → Answer Bool
  required_bool value pointer =
      ok_or (elim (d.pointer value pointer) [ none ↦ none | some v ↦ d.as_bool v ])
        ("missing required boolean pointer " <> pointer <> " in " <> d.show value)

  -- The positions of the lane's events by transaction; a later event replaces an earlier one.
  unfoldable pub observe : String → Map String ℕ → List d.Value → Answer (Map String ℕ)
  observe lane observed [] = ok observed
  observe lane observed (event ∷ rest) = do
    require_text d event "/lane_id" lane "lane monitor event lane id"
    txid ← required_str d event "/txid"
    index ← required_u64 d event "/accepted_order_index"
    observe lane (insert txid index observed) rest

  -- The expected transactions are there, each behind the one before.
  unfoldable pub check_order : Map String ℕ → Option ℕ → List (String × String) → Answer (Unit {0})
  check_order observed previous [] = ok tt
  check_order observed previous ((kind, txid) ∷ rest) = do
    position ←
        ok_or (get txid observed) ("lane monitor missing expected " <> kind <> " txid " <> txid)
    require (not (not_after previous position))
        "lane monitor expected events are not in funding < update < settlement order"
    check_order observed (some position) rest

  -- The rejected transactions are on no accepted lane.
  unfoldable pub check_absence : Map String ℕ → List d.Value → Answer (Unit {0})
  check_absence observed [] = ok tt
  check_absence observed (file ∷ rest) = do
    absent ← required_bool file "/absent_from_accepted_activity"
    require absent "wrong-lane rejected transaction appeared in accepted activity"
    txid ← required_str d file "/txid"
    require (not (contains_key txid observed))
        ("wrong-lane transaction " <> txid <> " appeared as a lane event")
    check_absence observed rest

  -- The events of the report, against the transactions of the state evidence.
  unfoldable pub check_events : d.Value → d.Value → String → Answer (Unit {0})
  check_events state report lane = do
    funding ← required_str d state "/funding/txid"
    update ← required_str d state "/state_update/txid"
    settlement ← required_str d state "/settlement/txid"
    events ← required_array d k report "/lane_events"
    observed ← observe lane [] events
    check_order observed none
        (("funding", funding) ∷ ("state_update", update) ∷ ("settlement", settlement) ∷ [])
    absent ← required_array d k report "/wrong_lane_absence"
    check_absence observed absent

  unfoldable pub check_lane_monitor : d.Value → d.Value → Answer (Unit {0})
  check_lane_monitor state report = do
    require_status d report "lane monitor evidence"
    bound ← report_lane d k state report "lane monitor" " expected lane id"
    check_events state report bound.0
    blocks ← required_array d k report "/lane_activity_blocks"
    reconstructed ←
        next_blocks d k wrapping_order "lane monitor" bound.0 bound.1
          (record { tip = none; blue_score = none }) blocks
    verify_lane_tip d k "lane monitor" " proof smt_proof" bound.1 report reconstructed
