-- ===== src/Factory/Effect.antt =====
-- What an accepted materialisation does to a factory of src/lib.rs, and what a sequence of them.
use kurrent.Base.{
  All, Bool-cases, Map, Option, String, [], arith, contains, contains_key, eq_of_beq, false, get,
  inl, inr, is_subset-contains, keys, list_eq, none, option_eq, refl, some, string_eq, subst, sym,
  true, values, ◌+◌, ◌==◌, ◌∙◌, ◌∷◌, ◌≡◌, ◌≢◌,
}
use kurrent.Bytes.{IsU64}
use kurrent.Channel.Sums.{sum}
use kurrent.Errors.{ok}
use kurrent.External.{External}
use kurrent.Factory.{validate_materialisation}
use kurrent.Factory.Outcomes.{IsMaterialisation, validate_materialisation_iff}
use kurrent.Types.{ChannelReceipt, FactoryState, MaterialisationPlan, VirtualChannelState}

-- What is found stands in the map, under its key.
get-All :
    {V : Type 0} (P : String × V → Type 0) (k : String) (v : V) (m : Map String V)
    → All P m
    → get k m ≡ some v
    → P (k, v)
unfolding get
get-All P k v [] h e = cc
get-All P k v ((j, w) ∷ m) (p, h) e = elim (Bool-cases (j == k)) [
  | inl same ↦
      (let key = eq_of_beq j k same in
        let value : w ≡ v = (let f = rw same at e in cc) in
        subst (λ i. P (i, v)) key (subst (λ u. P (j, u)) value p))
  | inr other ↦ get-All P k v m h (rw other at e)
]

get-All-keys :
    {V : Type 0} (P : String → Type 0) (k : String) (v : V) (m : Map String V)
    → All P (keys m)
    → get k m ≡ some v
    → P k
unfolding get
get-All-keys P k v [] h e = cc
get-All-keys P k v ((j, w) ∷ m) (p, h) e = elim (Bool-cases (j == k)) [
  | inl same ↦ subst P (eq_of_beq j k same) p
  | inr other ↦ get-All-keys P k v m h (rw other at e)
]

-- A channel that is not the materialised one is as before.
kept :
    (before after : FactoryState) (plan : MaterialisationPlan) (channel : VirtualChannelState)
    → IsMaterialisation before after plan channel
    → (id : String) → id ≢ plan.virtual_channel_id
    → get id after.virtual_channels ≡ get id before.virtual_channels
kept before after plan channel v id other = go (get id before.virtual_channels) refl
  where
    absent :
        (o : Option VirtualChannelState)
        → get id after.virtual_channels ≡ o
        → get id before.virtual_channels ≡ none
        → o ≡ none
    absent none e missing = refl
    absent (some c) e missing =
        let known : contains_key id before.virtual_channels ≡ true =
          get-All-keys (λ k. contains_key k before.virtual_channels ≡ true) id c
            after.virtual_channels v.no_new e in
        let not_known : contains_key id before.virtual_channels ≡ false =
          rw (contains_key, missing) in
        cc

    go :
        (o : Option VirtualChannelState)
        → get id before.virtual_channels ≡ o
        → get id after.virtual_channels ≡ get id before.virtual_channels
    go (some c) e =
        get-All (λ f. f.0 ≢ plan.virtual_channel_id → get f.0 after.virtual_channels ≡ some f.1) id
          c before.virtual_channels v.untouched e other
        ∙ sym e
    go none e = absent (get id after.virtual_channels) refl e ∙ sym e

-- If a materialisation is accepted, the totals being of 64 bits, then the factory loses exactly the
-- plan's channel: every other channel is as before. The fee reserve is spent, the plan's id was not
-- among the receipt ids and is now, and no id recorded before is lost. What the factory holds
-- afterwards and the planned outputs make up what it held.
pub materialisation_effect :
    (x : External) (before after : FactoryState) (plan : MaterialisationPlan)
    (receipt : ChannelReceipt)
    → IsU64 before.total_principal
    → IsU64 after.total_principal
    → validate_materialisation x before after plan ≡ ok receipt
    → (contains_key plan.virtual_channel_id after.virtual_channels ≡ false)
      × ((id : String)
          → id ≢ plan.virtual_channel_id
          → get id after.virtual_channels ≡ get id before.virtual_channels)
      × (after.fee_reserve ≡ 0)
      × (contains plan.materialisation_id before.materialised_receipts ≡ false)
      × (contains plan.materialisation_id after.materialised_receipts ≡ true)
      × ((id : String)
          → contains id before.materialised_receipts ≡ true
          → contains id after.materialised_receipts ≡ true)
      × (after.total_principal + after.fee_reserve + sum (values plan.output_amounts)
          ≡ before.total_principal + before.fee_reserve)
materialisation_effect x before after plan receipt u w h =
    let (channel, v, _) = (validate_materialisation_iff x before after plan receipt u w).0 h in
    let p = v.principal_left in
    let q = v.fee_left in
    let r = v.paid_out in
    let s = v.of_reserve in
    (
      v.removed,
      kept before after plan channel v,
      v.fee_left,
      v.receipts.fresh,
      v.receipts.recorded,
      λ id.
          is_subset-contains before.materialised_receipts after.materialised_receipts id
            v.receipts.preserved,
      omega arith,
    )

-- A factory that accepted materialisations lead to.
pub data Reaches (x : External) (first : FactoryState) : FactoryState → Type 0 where
  here : Reaches x first first
  next :
      {before after : FactoryState} (plan : MaterialisationPlan) (receipt : ChannelReceipt)
      → Reaches x first before
      → IsU64 before.total_principal
      → IsU64 after.total_principal
      → validate_materialisation x before after plan ≡ ok receipt
      → Reaches x first after

Reaches-contains :
    (x : External) (first later : FactoryState) (id : String)
    → Reaches x first later
    → contains id first.materialised_receipts ≡ true
    → contains id later.materialised_receipts ≡ true
Reaches-contains x first later id here h = h
Reaches-contains x first later id (next {before = before} plan receipt r u w e) h =
    let (_, v, _) = (validate_materialisation_iff x before later plan receipt u w).0 e in
    is_subset-contains before.materialised_receipts later.materialised_receipts id
      v.receipts.preserved (Reaches-contains x first before id r h)

-- Once a materialisation is accepted, no later one with its id is, after however many others. The
-- totals are of 64 bits.
pub materialised_once :
    (x : External) (before after later last : FactoryState) (plan other : MaterialisationPlan)
    (receipt another : ChannelReceipt)
    → IsU64 before.total_principal
    → IsU64 after.total_principal
    → IsU64 later.total_principal
    → IsU64 last.total_principal
    → validate_materialisation x before after plan ≡ ok receipt
    → Reaches x after later
    → other.materialisation_id ≡ plan.materialisation_id
    → validate_materialisation x later last other ≢ ok another
materialised_once x before after later last plan other receipt another u w a b h r same e =
    let (_, v, _) = (validate_materialisation_iff x before after plan receipt u w).0 h in
    let (_, z, _) = (validate_materialisation_iff x later last other another a b).0 e in
    let recorded = Reaches-contains x after later plan.materialisation_id r v.receipts.recorded in
    let fresh = z.receipts.fresh in
    let moved = subst (λ id. contains id later.materialised_receipts ≡ false) same fresh in cc
