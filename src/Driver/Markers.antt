-- ===== src/Driver/Markers.antt =====
-- What the two settlement verifiers of drivers/kaspa-devnet/src/main.rs check of their marker
-- transactions: payloads, lane events, their order and the response window.
use kurrent.Base.{
  Bool, List, Map, Option, String, [], eqb, get, if◌then◌else◌, insert, leb, ltb, none, not,
  show_u64, some, string_eq, ℕ, ◌+◌, ◌<>◌, ◌^◌, ◌∷◌,
}
use kurrent.Driver.{Answer, Host, Transaction, map_err, ok, ok_or, require, ◌>>=◌, ◌>>◌}
use kurrent.Driver.Lane.{
  LaneTip, SeqCommit, checked_order, next_blocks, required_array, required_hash, verify_lane_tip,
}
use kurrent.Driver.Require.{
  require_eq, require_recorded_txid, require_text, require_tx_lane, required_str, required_u64,
  required_value,
}
use kurrent.External.{External, sha256_hex}
pub mod Laws
pub mod Recorded
pub mod Windows

-- `u64::checked_add` with its error.
unfoldable pub checked_u64_sum : ℕ → ℕ → String → Answer ℕ
checked_u64_sum a b e = ok_or (if ltb (a + b) (2 ^ 64) then some (a + b) else none) e

-- How the two verifiers name their markers, in pointers and in errors.
pub record MarkerTexts : Type 0 where
  pub label : String
  pub place : String
  pub missing_lower : String
  pub missing_higher : String
  pub lower_event : String
  pub higher_event : String
  pub window_prefix : String

abbrev pub candidate_markers : MarkerTexts
candidate_markers = record {
  label = "settlement eligibility";
  place = "/candidate_markers";
  missing_lower = "missing lower marker from expected-lane events";
  missing_higher = "missing higher marker from expected-lane events";
  lower_event = "lower marker accepted event";
  higher_event = "higher marker accepted event";
  window_prefix = "";
}

abbrev pub sponsored_markers : MarkerTexts
sponsored_markers = record {
  label = "fee-sponsored";
  place = "/sponsored_markers";
  missing_lower = "missing lower fee-sponsored marker from lane events";
  missing_higher = "missing higher fee-sponsored marker from lane events";
  lower_event = "lower fee-sponsored accepted event";
  higher_event = "higher fee-sponsored accepted event";
  window_prefix = "fee-sponsored ";
}

module _ (d : Host) where
  unfoldable pub require_value_eq : d.Value → d.Value → String → Answer (Unit {0})
  require_value_eq actual expected label =
      require (d.value_eq actual expected)
        (label <> ": expected JSON " <> d.show expected <> ", actual JSON " <> d.show actual)

  unfoldable pub require_marker_payload :
      External → Transaction → d.Value → String → String → Answer (Unit {0})
  require_marker_payload x tx report marker_pointer label = do
    payload_hash ← required_str d report (marker_pointer <> "/payload_hash")
    require_eq (sha256_hex x tx.payload) payload_hash (label <> " payload hash")
    expected_payload ← required_value d report (marker_pointer <> "/payload")
    actual_payload ←
        map_err (d.from_slice tx.payload) (λ e. label <> " payload is not valid JSON: " <> e)
    require_value_eq actual_payload expected_payload (label <> " payload")

  -- A marker on the expected lane: its id, lane and payload.
  unfoldable pub check_marker :
      External → d.Value → String → String → String → Transaction → Answer (Unit {0})
  check_marker x report lane marker_pointer label tx = do
    require_recorded_txid d report tx (marker_pointer <> "/txid") label
    require_tx_lane d x tx lane (label <> " lane")
    require_marker_payload x tx report marker_pointer label

  module _ (k : SeqCommit) where
    -- The lane's events by transaction.
    unfoldable pub events_by_txid :
        String → String → Map String d.Value → List d.Value → Answer (Map String d.Value)
    events_by_txid label lane found [] = ok found
    events_by_txid label lane found (event ∷ rest) = do
      require_text d event "/lane_id" lane (label <> " lane event lane id")
      txid ← required_str d event "/txid"
      events_by_txid label lane (insert txid event found) rest

    -- The events of the lower and the higher marker, as recorded with the markers, in this order.
    unfoldable pub marker_events :
        MarkerTexts → d.Value → String → String → String → Answer (d.Value × d.Value)
    marker_events t report lane lower_txid higher_txid = do
      events ← required_array d k report "/lane_events"
      found ← events_by_txid t.label lane [] events
      lower_event ← ok_or (get lower_txid found) t.missing_lower
      higher_event ← ok_or (get higher_txid found) t.missing_higher
      lower_recorded ← required_value d report (t.place <> "/lower/accepted_event")
      require_value_eq lower_recorded lower_event t.lower_event
      higher_recorded ← required_value d report (t.place <> "/higher/accepted_event")
      require_value_eq higher_recorded higher_event t.higher_event
      lower_order ← required_u64 d lower_event "/accepted_order_index"
      higher_order ← required_u64 d higher_event "/accepted_order_index"
      require (ltb lower_order higher_order) (t.label <> " lower marker must precede higher marker")
      ok (lower_event, higher_event)

    -- The higher marker is not behind the end of the lower one's window, and the proof is not before the
    -- end of the higher one's.
    unfoldable pub proof_after_windows : MarkerTexts → d.Value → ℕ → d.Value → d.Value → Answer ℕ
    proof_after_windows t report response_window_daa lower_event higher_event = do
      lower_daa ← required_u64 d lower_event "/daa_score"
      higher_daa ← required_u64 d higher_event "/daa_score"
      lower_deadline ←
          checked_u64_sum lower_daa response_window_daa
            (t.label <> " lower response-window overflow")
      require (leb higher_daa lower_deadline) (
          t.window_prefix
          <> "higher marker DAA "
          <> show_u64 higher_daa
          <> " is outside lower response window ending at "
          <> show_u64 lower_deadline)
      survivor_deadline ←
          checked_u64_sum higher_daa response_window_daa
            (t.label <> " survivor response-window overflow")
      proof_daa ← required_u64 d report "/proof_header/daa_score"
      require (leb survivor_deadline proof_daa) (
          t.window_prefix
          <> "proof DAA "
          <> show_u64 proof_daa
          <> " is before survivor eligibility threshold "
          <> show_u64 survivor_deadline)
      ok proof_daa

    -- The tip before the recorded blocks: none if the report has none or null.
    unfoldable pub initial_lane : d.Value → Answer (LaneTip d k)
    initial_lane report =
        let empty = ok (record { tip = none; blue_score = none }) in
        elim (d.pointer report "/initial_lane") [
          | none ↦ empty
          | some lane ↦
              if d.is_null lane
              then empty
              else required_hash d k report "/initial_lane/tip" >>= λ tip.
                  required_u64 d report "/initial_lane/blue_score" >>= λ blue_score.
                  ok (record { tip = some tip; blue_score = some blue_score })
        ]

    -- The recorded blocks from the recorded tip on, and the proof of the tip that they give.
    unfoldable pub check_recorded_lane : String → d.Value → String → k.Hash → Answer (Unit {0})
    check_recorded_lane label report lane key = do
      before ← initial_lane report
      blocks ← required_array d k report "/lane_activity_blocks"
      reconstructed ← next_blocks d k (checked_order label) label lane key before blocks
      verify_lane_tip d k label " smt_proof" key report reconstructed
