-- ===== src/Driver/Lane/Chain.antt =====
-- The lane that the activity blocks of drivers/kaspa-devnet/src/main.rs describe, as a chain of tips.
use kurrent.Base.{
  List, String, [], ap, arith, length, list_eq, nat_eq, none, not, option_eq, refl, some, string_eq,
  subst, sym, true, ℕ, ◌==◌, ◌↔◌, ◌∷◌, ◌≡◌, ◌≢◌,
}
use kurrent.Driver.{Answer, Host, ok}
use kurrent.Driver.Answers.{both_iff, require_iff, some_iff}
use kurrent.Driver.Lane.{LaneTip, SeqCommit, next_block, next_blocks}
use kurrent.Driver.Require.Laws.{Number, Text, required_str_iff, required_u64_iff}
use kurrent.Driver.Require.Transactions.{require_eq_iff}
use kurrent.Driver.Answers.{beq_true_iff, iff_trans}
use kurrent.Driver.Lane.Leaves.{
  HashAt, ListAt, LeavesOf, event_leaves_iff, ok_iff, required_array_iff, required_hash_iff,
}

filled_iff : (n : ℕ) → (not (n == 0) ≡ true) ↔ (n ≢ 0)
filled_iff n = ground (arith, beq_true_iff n 0)

module _ (d : Host) (k : SeqCommit) where
  module _ (order : ℕ → ℕ → Answer ℕ) (label lane : String) where
    -- The tip that a block gives on top of a parent.
    abbrev pub tip_over : k.Hash → k.Hash → List k.Hash → ℕ → ℕ → ℕ → k.Hash
    tip_over parent key leaves timestamp daa_score blue_score =
        k.lane_tip_next parent key (k.activity_digest_lane leaves)
          (k.mergeset_context_hash timestamp daa_score blue_score)

    -- The block has events, and records the digest of their leaves and the tip over the one before,
    -- or over its parent if it is the first.
    pub record Links (key : k.Hash) (before : LaneTip d k) (block : d.Value) (after : LaneTip d k)
        : Type 0 where
      pub parent : k.Hash
      pub timestamp : ℕ
      pub daa_score : ℕ
      pub blue_score : ℕ
      pub start : ℕ
      pub events : List d.Value
      pub leaves : List k.Hash
      pub has_parent : HashAt d k block "/parent_seq_commit" parent
      pub has_timestamp : Number d block "/timestamp" timestamp
      pub has_daa_score : Number d block "/daa_score" daa_score
      pub has_blue_score : Number d block "/blue_score" blue_score
      pub has_start : Number d block "/accepted_order_start" start
      pub has_events : ListAt d k block "/events" events
      pub has_leaves : LeavesOf d k order label lane start events leaves
      pub not_empty : length leaves ≢ 0
      pub digest : Text d block "/activity_digest" (k.to_string (k.activity_digest_lane leaves))
      pub next_tip : k.Hash
      pub is_next :
          tip_over
            (elim before.tip [ none ↦ parent | some tip ↦ tip ])
            key
            leaves
            timestamp
            daa_score
            blue_score
          ≡ next_tip
      pub recorded : Text d block "/lane_tip_after_block" (k.to_string next_tip)
      pub result : record { tip = some next_tip; blue_score = some blue_score } ≡ after

    next_block_iff :
        (key : k.Hash) (before : LaneTip d k) (block : d.Value) (after : LaneTip d k)
        → (next_block d k order label lane key before block ≡ ok after)
          ↔ Links key before block after
    unfolding next_block
    next_block_iff key before block after =
        iff_trans
          (some_iff (required_hash_iff d k block _) λ parent.
            some_iff (required_u64_iff d block _) λ timestamp.
              some_iff (required_u64_iff d block _) λ daa.
                some_iff (required_u64_iff d block _) λ blue.
                  some_iff (required_u64_iff d block _) λ start.
                    some_iff (required_array_iff d k block _) λ events.
                      some_iff (event_leaves_iff d k order label lane start events) λ leaves.
                        both_iff (iff_trans (require_iff _) (filled_iff (length leaves))) (
                          some_iff (required_str_iff d block _) λ digest.
                            both_iff (require_eq_iff _ _ _) (
                              some_iff (required_str_iff d block _)
                                λ recorded. both_iff (require_eq_iff _ _ _) (ok_iff _ after))))
          (
            (λ (
              p,
              a,
              (t, b, (y, c, (u, e, (s, f, (ev, g, (ls, h, (ne, (di, i, (j, (re, l, (n, r))))))))))),
            ).
                record {
                  parent = p;
                  timestamp = t;
                  daa_score = y;
                  blue_score = u;
                  start = s;
                  events = ev;
                  leaves = ls;
                  has_parent = a;
                  has_timestamp = b;
                  has_daa_score = c;
                  has_blue_score = e;
                  has_start = f;
                  has_events = g;
                  has_leaves = h;
                  not_empty = ne;
                  digest = subst (Text d block "/activity_digest") (sym j) i;
                  next_tip = tip_over (elim before.tip [ none ↦ p | some tip ↦ tip ]) key ls t y u;
                  is_next = refl;
                  recorded = subst (Text d block "/lane_tip_after_block") (sym n) l;
                  result = r;
                }),
            (λ r. (
              r.parent,
              r.has_parent,
              (
                r.timestamp,
                r.has_timestamp,
                (
                  r.daa_score,
                  r.has_daa_score,
                  (
                    r.blue_score,
                    r.has_blue_score,
                    (
                      r.start,
                      r.has_start,
                      (
                        r.events,
                        r.has_events,
                        (
                          r.leaves,
                          r.has_leaves,
                          (
                            r.not_empty,
                            (
                              _,
                              r.digest,
                              (
                                refl,
                                (
                                  _,
                                  r.recorded,
                                  (
                                    ap k.to_string r.is_next,
                                    subst
                                        (λ z.
                                          record { tip = some z; blue_score = some r.blue_score }
                                          ≡ after)
                                        (sym r.is_next) r.result,
                                  ),
                                ),
                              ),
                            ),
                          ),
                        ),
                      ),
                    ),
                  ),
                ),
              ),
            )),
          )

    -- The blocks link one after the other.
    abbrev pub Chain : k.Hash → LaneTip d k → List d.Value → LaneTip d k → Type 0
    Chain key before [] after = before ≡ after
    Chain key before (block ∷ rest) after =
        (between : LaneTip d k) × Links key before block between × Chain key between rest after

    pub next_blocks_iff :
        (key : k.Hash) (before : LaneTip d k) (blocks : List d.Value) (after : LaneTip d k)
        → (next_blocks d k order label lane key before blocks ≡ ok after)
          ↔ Chain key before blocks after
    unfolding next_blocks
    next_blocks_iff key before [] after = ok_iff before after
    next_blocks_iff key before (block ∷ rest) after =
        some_iff (next_block_iff key before block) λ between. next_blocks_iff key between rest after
