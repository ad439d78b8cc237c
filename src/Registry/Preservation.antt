-- ===== src/Registry/Preservation.antt =====
-- The changes of `SettlementRegistry` in src/lib.rs keep its invariant.
use kurrent.Base.{
  Bool-cases, Map, Option-cases, String, ap, arith, contains, contains-insert_key, eq_of_beq, get,
  get-insert-cases, get-insert_ne, get-insert_self, inl, inr, insert, insert_key, list_eq, nat_eq,
  none, option_eq, pair_eq, some, string_eq, subst, sym, true, ℕ, ◌+◌, ◌==◌, ◌∙◌, ◌≡◌, ◌≢◌, ◌≤◌,
}
use kurrent.External.{External}
use kurrent.Registry.Calls.{
  Change, claimed, recorded, registered, settled, with_receipt, with_settled,
}
use kurrent.Registry.Methods.{record_update}
use kurrent.Registry.State.{SettlementRegistry}
use kurrent.Registry.Validity.{
  IsNext, IsValid, Passed, check_settlement-latest, check_update-Passed,
}
use kurrent.Types.{LatestStateHeader, StateUpdate}

-- The successor of a header of the channel has a greater number.
pub after_latest :
    (r : SettlementRegistry) (update : StateUpdate)
    → Passed r update
    → (h : LatestStateHeader) → get update.header.channel_id r.latest_by_channel ≡ some h
    → update.header.state_number ≡ h.state_number + 1
after_latest r update passed h found = (subst (λ o. IsNext o update.header) found passed.is_next).0

-- The registry after an accepted update is valid again.
module _ (r : SettlementRegistry) (update : StateUpdate) (valid : IsValid r)
    (passed : Passed r update) where
  abbrev header : LatestStateHeader
  header = update.header

  abbrev latest' : Map String LatestStateHeader
  latest' = insert header.channel_id header r.latest_by_channel

  abbrev seen' : Map (String × ℕ) String
  seen' =
      insert (header.channel_id, header.state_number) header.new_state_commitment r.seen_commitments

  own : (c : String) (h : LatestStateHeader) → get c latest' ≡ some h → h.channel_id ≡ c
  own c h e = elim (get-insert-cases header.channel_id c header r.latest_by_channel) [
    | inl (p, q) ↦ cc
    | inr (p, q) ↦ valid.latest_own c h (sym q ∙ e)
  ]

  seen :
      (c : String) (h : LatestStateHeader)
      → get c latest' ≡ some h
      → get (c, h.state_number) seen' ≡ some h.new_state_commitment
  seen c h e = elim (get-insert-cases header.channel_id c header r.latest_by_channel) [
    | inl (p, q) ↦
        (let same : header ≡ h = cc in
          let found =
            get-insert_self (header.channel_id, header.state_number) header.new_state_commitment
              r.seen_commitments in
          cc)
    | inr (p, q) ↦
        get-insert_ne _ _ _ r.seen_commitments (λ k. p (ap (λ (i, n). i) k))
        ∙ valid.latest_seen c h (sym q ∙ e)
  ]

  below :
      (c : String) (n : ℕ) (s : String)
      → get (c, n) seen' ≡ some s
      → (h : LatestStateHeader) × (get c latest' ≡ some h) × (n ≤ h.state_number)
  below c n s e =
      elim (get-insert-cases (header.channel_id, header.state_number) (c, n)
        header.new_state_commitment r.seen_commitments) [
          | inl (p, q) ↦ (
            header,
            subst (λ i. get i latest' ≡ some header) (ap (λ (i, m). i) p)
                (get-insert_self header.channel_id header r.latest_by_channel),
            (let same : header.state_number ≡ n = ap (λ (i, m). m) p in omega arith),
          )
          | inr (p, q) ↦
              (let (h, found, l) = valid.seen_latest c n s (sym q ∙ e) in
                elim (get-insert-cases header.channel_id c header r.latest_by_channel) [
                  | inl (p, g) ↦
                      (let next =
                          after_latest r update passed h
                            (subst (λ i. get i r.latest_by_channel ≡ some h) (sym p) found) in
                        (header, g, omega arith))
                  | inr (p, g) ↦ (h, g ∙ found, l)
                ])
        ]

  earlier :
      (c : String) (n : ℕ) (h h0 : LatestStateHeader)
      → header.channel_id ≡ c
      → get c latest' ≡ some header
      → get c latest' ≡ some h
      → n ≤ h.state_number
      → header.state_number ≡ h0.state_number + 1
      → ◌≢◌ {A = String × ℕ} (header.channel_id, header.state_number) (c, n)
      → n ≤ h0.state_number
  earlier c n h h0 same g e l next p =
      let is_header : header ≡ h = cc in
      let low : n ≤ header.state_number = subst (λ k. n ≤ k.state_number) (sym is_header) l in
      let other : header.state_number ≢ n = λ last. p (cc) in omega arith

  all :
      (c : String) (n : ℕ) (h : LatestStateHeader)
      → get c latest' ≡ some h
      → n ≤ h.state_number
      → (s : String) × (get (c, n) seen' ≡ some s)
  all c n h e l =
      elim (get-insert-cases (header.channel_id, header.state_number) (c, n)
        header.new_state_commitment r.seen_commitments) [
          | inl (p, q) ↦ (header.new_state_commitment, q)
          | inr (p, q) ↦ elim (get-insert-cases header.channel_id c header r.latest_by_channel) [
            | inl (same, g) ↦ elim (Option-cases (get c r.latest_by_channel)) [
              | inl missing ↦
                  (let is_header : header ≡ h = cc in
                    let zeroth : header.state_number ≡ 0 =
                      subst (λ o. IsNext o header)
                        (subst (λ i. get i r.latest_by_channel ≡ none) (sym same) missing)
                        passed.is_next in
                    let low : n ≤ header.state_number =
                      subst (λ k. n ≤ k.state_number) (sym is_header) l in
                    let last : header.state_number ≡ n = omega arith in absurd (p (cc)))
              | inr (h0, found) ↦
                  (let next =
                      after_latest r update passed h0
                        (subst (λ i. get i r.latest_by_channel ≡ some h0) (sym same) found) in
                    let (s, found_seen) =
                      valid.all_seen c n h0 found (earlier c n h h0 same g e l next p) in
                    (s, q ∙ found_seen))
            ]
            | inr (other, g) ↦
                (let (s, found) = valid.all_seen c n h (sym g ∙ e) l in (s, q ∙ found))
          ]
        ]

  settled_channel :
      (c : String)
      → contains c r.settled_channels ≡ true
      → (h : LatestStateHeader) × (get c latest' ≡ some h)
  settled_channel c e = elim (get-insert-cases header.channel_id c header r.latest_by_channel) [
    | inl (p, q) ↦ (header, q)
    | inr (p, q) ↦ (let (h, found) = valid.settled_latest c e in (h, q ∙ found))
  ]

  pub record_update-IsValid : IsValid (record_update update r)
  unfolding record_update
  record_update-IsValid = record {
    latest_own = own;
    latest_seen = seen;
    seen_latest = below;
    all_seen = all;
    settled_latest = settled_channel;
  }

settle-IsValid :
    (r : SettlementRegistry) (key channel_id : String) (latest : LatestStateHeader)
    → IsValid r
    → get channel_id r.latest_by_channel ≡ some latest
    → IsValid (with_settled channel_id (with_receipt key r))
settle-IsValid r key channel_id latest valid found = record {
  latest_own = valid.latest_own;
  latest_seen = valid.latest_seen;
  seen_latest = valid.seen_latest;
  all_seen = valid.all_seen;
  settled_latest = marked;
}
  where
    marked :
        (c : String)
        → contains c (insert_key channel_id r.settled_channels).1 ≡ true
        → (h : LatestStateHeader) × (get c r.latest_by_channel ≡ some h)
    marked c e = elim (Bool-cases (channel_id == c)) [
      | inl same ↦ (
        latest,
        subst (λ i. get i r.latest_by_channel ≡ some latest) (eq_of_beq channel_id c same) found,
      )
      | inr other ↦
          valid.settled_latest c
            (ground (arith, contains-insert_key channel_id c r.settled_channels))
    ]

-- Every change keeps the registry valid.
pub Change-IsValid :
    (x : External) (r r' : SettlementRegistry) → Change x r r' → IsValid r → IsValid r'
Change-IsValid x r _ (recorded update rule h) valid =
    record_update-IsValid r update valid (check_update-Passed r update rule h)
Change-IsValid x r _ (claimed claim_id new) valid = record {
  latest_own = valid.latest_own;
  latest_seen = valid.latest_seen;
  seen_latest = valid.seen_latest;
  all_seen = valid.all_seen;
  settled_latest = valid.settled_latest;
}
Change-IsValid x r _ (registered key new) valid = record {
  latest_own = valid.latest_own;
  latest_seen = valid.latest_seen;
  seen_latest = valid.seen_latest;
  all_seen = valid.all_seen;
  settled_latest = valid.settled_latest;
}
Change-IsValid x r _ (settled update template latest key h new) valid =
    settle-IsValid r key update.header.channel_id latest valid
      (check_settlement-latest x r update template latest h).0
