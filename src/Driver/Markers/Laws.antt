-- ===== src/Driver/Markers/Laws.antt =====
-- When the marker checks of drivers/kaspa-devnet/src/main.rs are passed.
use kurrent.Base.{
  List, Map, String, [], ap, get, insert, lt→ltb, ltb→lt, refl, some, string_eq, subst, sym, true,
  ℕ, ◌<>◌, ◌<◌, ◌↔◌, ◌∷◌, ◌≡◌, ◌∙◌,
}
use kurrent.Driver.{Host, Transaction, ok}
use kurrent.Driver.Answers.{AllOf, both_iff, map_err_iff, ok_or_iff, require_iff, some_iff}
use kurrent.Driver.Lane.{SeqCommit}
use kurrent.Driver.Lane.Leaves.{ListAt, ok_iff, required_array_iff}
use kurrent.Driver.Markers.{
  MarkerTexts, check_marker, events_by_txid, marker_events, require_marker_payload,
  require_value_eq,
}
use kurrent.Driver.Require.{tx_subnetwork_id_hex}
use kurrent.Driver.Require.Laws.{
  Named, Number, Says, Text, require_recorded_txid_iff, require_text_iff, require_tx_lane_iff,
  required_str_iff, required_u64_iff, required_value_iff,
}
use kurrent.Driver.Require.Transactions.{require_eq_iff}
use kurrent.Driver.Answers.{iff_trans}
use kurrent.External.{External, sha256_hex}

module _ (d : Host) where
  -- The payload of the transaction is the recorded one, with its recorded digest.
  pub record PayloadOf (x : External) (tx : Transaction) (report : d.Value) (marker : String)
      : Type 0 where
    pub recorded : d.Value
    pub parsed : d.Value
    pub digest : Text d report (marker <> "/payload_hash") (sha256_hex x tx.payload)
    pub has_payload : d.pointer report (marker <> "/payload") ≡ some recorded
    pub parses : d.from_slice tx.payload ≡ ok parsed
    pub same : d.value_eq parsed recorded ≡ true

  pub require_marker_payload_iff :
      (x : External) (tx : Transaction) (report : d.Value) (marker label : String)
      → (require_marker_payload d x tx report marker label ≡ ok tt) ↔ PayloadOf x tx report marker
  unfolding require_marker_payload require_value_eq
  require_marker_payload_iff x tx report marker label =
      iff_trans
        (some_iff (required_str_iff d report _) λ hash.
          both_iff (require_eq_iff (sha256_hex x tx.payload) hash _) (
            some_iff (required_value_iff d report _)
              λ recorded. some_iff (map_err_iff _) λ parsed. require_iff _))
        (
          (λ (h, a, (b, (r, c, (p, e, f)))). record {
            recorded = r;
            parsed = p;
            digest = subst (Text d report (marker <> "/payload_hash")) (sym b) a;
            has_payload = c;
            parses = e;
            same = f;
          }),
          (λ r. (
            sha256_hex x tx.payload,
            r.digest,
            (refl, (r.recorded, r.has_payload, (r.parsed, r.parses, r.same))),
          )),
        )

  -- The transaction is the recorded marker, on the lane.
  abbrev pub MarkerOn : External → d.Value → String → String → Transaction → Type 0
  MarkerOn x report lane marker tx = AllOf (
      Named d report tx (marker <> "/txid")
      ∷ (tx_subnetwork_id_hex d x tx ≡ lane)
      ∷ PayloadOf x tx report marker
      ∷ [])

  pub check_marker_iff :
      (x : External) (report : d.Value) (lane marker label : String) (tx : Transaction)
      → (check_marker d x report lane marker label tx ≡ ok tt) ↔ MarkerOn x report lane marker tx
  unfolding check_marker
  check_marker_iff x report lane marker label tx =
      both_iff (require_recorded_txid_iff d report tx _ _) (
        both_iff (require_tx_lane_iff d x tx lane _)
          (require_marker_payload_iff x tx report marker label))

  module _ (k : SeqCommit) where
    -- The map holds the events by transaction, all of them on the lane.
    abbrev pub EventsBy : String → Map String d.Value → List d.Value → Map String d.Value → Type 0
    EventsBy lane before [] after = before ≡ after
    EventsBy lane before (event ∷ rest) after =
        Says d event "/lane_id" lane
        × ((txid : String) × Text d event "/txid" txid
            × EventsBy lane (insert txid event before) rest after)

    events_by_txid_iff :
        (label lane : String) (before : Map String d.Value) (events : List d.Value)
        (after : Map String d.Value)
        → (events_by_txid d k label lane before events ≡ ok after)
          ↔ EventsBy lane before events after
    unfolding events_by_txid
    events_by_txid_iff label lane before [] after = ok_iff before after
    events_by_txid_iff label lane before (event ∷ rest) after =
        both_iff (require_text_iff d event _ _ _) (
          some_iff (required_str_iff d event _)
            λ txid. events_by_txid_iff label lane (insert txid event before) rest after)

    -- The two events are the last of their transactions among the lane's events, equal those recorded
    -- with the markers, and stand in this order.
    pub record MarkerEvents (t : MarkerTexts) (report : d.Value)
        (lane lower_txid higher_txid : String) (lower higher : d.Value) : Type 0 where
      pub events : List d.Value
      pub found : Map String d.Value
      pub lower_recorded : d.Value
      pub higher_recorded : d.Value
      pub lower_order : ℕ
      pub higher_order : ℕ
      pub has_events : ListAt d k report "/lane_events" events
      pub has_found : EventsBy lane [] events found
      pub has_lower : get lower_txid found ≡ some lower
      pub has_higher : get higher_txid found ≡ some higher
      pub lower_at : d.pointer report (t.place <> "/lower/accepted_event") ≡ some lower_recorded
      pub lower_same : d.value_eq lower_recorded lower ≡ true
      pub higher_at : d.pointer report (t.place <> "/higher/accepted_event") ≡ some higher_recorded
      pub higher_same : d.value_eq higher_recorded higher ≡ true
      pub has_lower_order : Number d lower "/accepted_order_index" lower_order
      pub has_higher_order : Number d higher "/accepted_order_index" higher_order
      pub in_order : lower_order < higher_order

    pub marker_events_iff :
        (t : MarkerTexts) (report : d.Value) (lane l h : String) (lower higher : d.Value)
        → (marker_events d k t report lane l h ≡ ok (lower, higher))
          ↔ MarkerEvents t report lane l h lower higher
    unfolding marker_events require_value_eq
    marker_events_iff t report lane l h lower higher =
        iff_trans
          (some_iff (required_array_iff d k report _) λ events.
            some_iff (events_by_txid_iff _ lane [] events) λ found. some_iff (ok_or_iff _) λ low.
              some_iff (ok_or_iff _) λ high.
                some_iff (required_value_iff d report _) λ low_recorded. both_iff (require_iff _) (
                  some_iff (required_value_iff d report _) λ high_recorded.
                    both_iff (require_iff _) (
                      some_iff (required_u64_iff d low _) λ m.
                        some_iff (required_u64_iff d high _) λ n.
                          both_iff (iff_trans (require_iff _) (ltb→lt m n, lt→ltb m n))
                            (ok_iff (low, high) (lower, higher)))))
          (
            (λ (
              ev,
              a,
              (f, b, (lo, c, (hi, e, (lr, g, (i, (hr, j, (o, (m, p, (n, q, (r, s)))))))))),
            ).
                let at : lo ≡ lower = ap (λ z. z.0) s in
                let up : hi ≡ higher = ap (λ z. z.1) s in
                record {
                  events = ev;
                  found = f;
                  lower_recorded = lr;
                  higher_recorded = hr;
                  lower_order = m;
                  higher_order = n;
                  has_events = a;
                  has_found = b;
                  has_lower = c ∙ ap some at;
                  has_higher = e ∙ ap some up;
                  lower_at = g;
                  lower_same = subst (λ z. d.value_eq lr z ≡ true) at i;
                  higher_at = j;
                  higher_same = subst (λ z. d.value_eq hr z ≡ true) up o;
                  has_lower_order = subst (λ z. Number d z "/accepted_order_index" m) at p;
                  has_higher_order = subst (λ z. Number d z "/accepted_order_index" n) up q;
                  in_order = r;
                }),
            (λ r. (
              r.events,
              r.has_events,
              (
                r.found,
                r.has_found,
                (
                  lower,
                  r.has_lower,
                  (
                    higher,
                    r.has_higher,
                    (
                      r.lower_recorded,
                      r.lower_at,
                      (
                        r.lower_same,
                        (
                          r.higher_recorded,
                          r.higher_at,
                          (
                            r.higher_same,
                            (
                              r.lower_order,
                              r.has_lower_order,
                              (r.higher_order, r.has_higher_order, (r.in_order, refl)),
                            ),
                          ),
                        ),
                      ),
                    ),
                  ),
                ),
              ),
            )),
          )
