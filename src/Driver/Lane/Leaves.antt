-- ===== src/Driver/Lane/Leaves.antt =====
-- When the events of a block are accepted by drivers/kaspa-devnet/src/main.rs, and their leaves.
use kurrent.Base.{
  List, String, [], ap, list_eq, ltb, lt→ltb, ltb→lt, nat_eq, none, option_eq, refl, some,
  string_eq, subst, sym, true, ℕ, ◌<◌, ◌^◌, ◌↔◌, ◌∷◌, ◌≡◌,
}
use kurrent.Driver.{Answer, Host, ok}
use kurrent.Driver.Answers.{both_iff, map_err_iff, ok-injective, ok_or_iff, require_iff, some_iff}
use kurrent.Driver.Lane.{SeqCommit, event_leaf, event_leaves, required_array, required_hash}
use kurrent.Driver.Require.Laws.{
  Number, Says, Text, require_text_iff, required_str_iff, required_u64_iff,
}
use kurrent.Driver.Require.Transactions.{require_eq_iff}
use kurrent.Driver.Answers.{beq_true_iff, iff_trans}

pub ok_iff : {A : Type 0} (a b : A) → (ok a ≡ ok b) ↔ (a ≡ b)
ok_iff a b = ((λ h. ok-injective h), (λ h. ap ok h))

below_iff : (a b : ℕ) → (ltb a b ≡ true) ↔ (a < b)
below_iff a b = (ltb→lt a b, lt→ltb a b)

module _ (d : Host) (k : SeqCommit) where
  -- The document has the hash at the pointer.
  abbrev pub HashAt : d.Value → String → k.Hash → Type 0
  HashAt value pointer hash =
      (text : String) × Text d value pointer text × (k.from_str text ≡ ok hash)

  pub required_hash_iff :
      (value : d.Value) (pointer : String) (hash : k.Hash)
      → (required_hash d k value pointer ≡ ok hash) ↔ HashAt value pointer hash
  unfolding required_hash
  required_hash_iff value pointer hash =
      some_iff (required_str_iff d value _) (λ text. map_err_iff _ hash)

  -- The document has the list at the pointer.
  abbrev pub ListAt : d.Value → String → List d.Value → Type 0
  ListAt value pointer items =
      (elim (d.pointer value pointer) [ none ↦ none | some v ↦ d.as_array v ]) ≡ some items

  pub required_array_iff :
      (value : d.Value) (pointer : String) (items : List d.Value)
      → (required_array d k value pointer ≡ ok items) ↔ ListAt value pointer items
  unfolding required_array
  required_array_iff value pointer items = ok_or_iff _ items

  module _ (order : ℕ → ℕ → Answer ℕ) (label lane : String) where
    -- The event is on the lane, at its place in the accepted order, and records its own leaf.
    pub record LeafOf (start : ℕ) (event : d.Value) (leaf : k.Hash) : Type 0 where
      pub txid : k.Hash
      pub version : ℕ
      pub merge_index : ℕ
      pub position : ℕ
      pub on_lane : Says d event "/lane_id" lane
      pub has_txid : HashAt event "/txid" txid
      pub has_version : Number d event "/version" version
      pub has_merge_index : Number d event "/merge_index" merge_index
      pub has_position : Number d event "/accepted_order_index" position
      pub in_order : order start merge_index ≡ ok position
      pub version_range : version < 2 ^ 16
      pub merge_index_range : merge_index < 2 ^ 32
      pub is_leaf : k.activity_leaf txid version merge_index ≡ leaf
      pub recorded : Text d event "/activity_leaf" (k.to_string leaf)

    event_leaf_iff :
        (start : ℕ) (event : d.Value) (leaf : k.Hash)
        → (event_leaf d k order label lane start event ≡ ok leaf) ↔ LeafOf start event leaf
    unfolding event_leaf
    event_leaf_iff start event leaf =
        iff_trans
          (both_iff (require_text_iff d event _ _ _) (
            some_iff (required_hash_iff event _) λ txid.
              some_iff (required_u64_iff d event _) λ version.
                some_iff (required_u64_iff d event _) λ index.
                  some_iff (required_u64_iff d event _) λ position.
                    some_iff (λ place. ((λ h. h), (λ h. h)))
                      λ place. both_iff (iff_trans (require_iff _) (beq_true_iff position place)) (
                        both_iff (iff_trans (require_iff _) (below_iff version (2 ^ 16))) (
                          both_iff (iff_trans (require_iff _) (below_iff index (2 ^ 32))) (
                            some_iff (required_str_iff d event _)
                              λ text. both_iff (require_eq_iff _ _ _) (ok_iff _ leaf))))))
          (
            (λ (on, (t, a, (v, b, (i, c, (p, e, (q, f, (same, (r, (s, (text, g, (h, l))))))))))).
                record {
                  txid = t;
                  version = v;
                  merge_index = i;
                  position = p;
                  on_lane = on;
                  has_txid = a;
                  has_version = b;
                  has_merge_index = c;
                  has_position = e;
                  in_order = subst (λ n. order start i ≡ ok n) (sym same) f;
                  version_range = r;
                  merge_index_range = s;
                  is_leaf = l;
                  recorded =
                      subst (λ z. Text d event "/activity_leaf" (k.to_string z)) l
                        (subst (Text d event "/activity_leaf") (sym h) g);
                }),
            (λ r. (
              r.on_lane,
              (
                r.txid,
                r.has_txid,
                (
                  r.version,
                  r.has_version,
                  (
                    r.merge_index,
                    r.has_merge_index,
                    (
                      r.position,
                      r.has_position,
                      (
                        r.position,
                        r.in_order,
                        (
                          refl,
                          (
                            r.version_range,
                            (
                              r.merge_index_range,
                              (k.to_string leaf, r.recorded, (ap k.to_string r.is_leaf, r.is_leaf)),
                            ),
                          ),
                        ),
                      ),
                    ),
                  ),
                ),
              ),
            )),
          )

    -- The leaves of the events, in their order.
    abbrev pub LeavesOf : ℕ → List d.Value → List k.Hash → Type 0
    LeavesOf start [] leaves = [] ≡ leaves
    LeavesOf start (event ∷ rest) leaves =
        (leaf : k.Hash) × LeafOf start event leaf
        × ((more : List k.Hash) × LeavesOf start rest more × (leaf ∷ more ≡ leaves))

    pub event_leaves_iff :
        (start : ℕ) (events : List d.Value) (leaves : List k.Hash)
        → (event_leaves d k order label lane start events ≡ ok leaves)
          ↔ LeavesOf start events leaves
    unfolding event_leaves
    event_leaves_iff start [] leaves = ok_iff [] leaves
    event_leaves_iff start (event ∷ rest) leaves =
        some_iff (event_leaf_iff start event)
          λ leaf. some_iff (event_leaves_iff start rest) λ more. ok_iff (leaf ∷ more) leaves
