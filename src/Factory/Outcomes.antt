-- ===== src/Factory/Outcomes.antt =====
-- What `validate_materialisation` in src/lib.rs accepts.
use kurrent.Base.{
  All, ℕ, not-false_iff, All-iff, [], arith, contains_key, false, get, keys, list_eq, nat_eq,
  option_eq, refl, ap, ◌∙◌, some, string_eq, sym, true, values, ◌+◌, ◌↔◌, ◌∷◌, ◌≡◌, ◌≢◌,
}
use kurrent.Bytes.{IsU64}
use kurrent.Channel.Sums.{sum}
use kurrent.Errors.{
  >>=-eq-ok, >>-eq-ok, IsOk, expect, expect-eq-ok, fail_if-eq-ok, for_each, for_each_iff, ok,
  ok-injective,
}
use kurrent.External.{External}
use kurrent.Factory.{
  check_balance, check_leaf, check_plan, check_receipts, check_removed, check_rest, check_total,
  check_untouched, is_disjoint, materialisation_receipt, validate_materialisation,
}
use kurrent.Factory.Guards.{
  Receipts, check_balance_iff, check_leaf_iff, check_plan_iff, check_receipts_iff,
  check_removed_iff, check_rest_iff, check_untouched_iff,
}
use kurrent.Factory.Sums.{channel_sum, check_total_iff, principal}
use kurrent.Types.{ChannelReceipt, FactoryState, MaterialisationPlan, VirtualChannelState}

-- The plan takes `channel` out of the factory `before` and leaves the factory `after`.
pub record IsMaterialisation (before after : FactoryState) (plan : MaterialisationPlan)
    (channel : VirtualChannelState) : Type 0 where
  pub receipts : Receipts before after plan
  pub touched : plan.touched_leaves ≡ plan.virtual_channel_id ∷ []
  pub materialised : get plan.virtual_channel_id before.virtual_channels ≡ some channel
  pub removed : contains_key plan.virtual_channel_id after.virtual_channels ≡ false
  pub no_new :
      All (λ k. contains_key k before.virtual_channels ≡ true) (keys after.virtual_channels)
  pub untouched :
      All
        (λ e. e.0 ≢ plan.virtual_channel_id → get e.0 after.virtual_channels ≡ some e.1)
        before.virtual_channels
  pub of_channel : plan.principal_amount ≡ channel_sum channel
  pub of_reserve : plan.fee_amount ≡ before.fee_reserve
  pub paid_out : sum (values plan.output_amounts) ≡ plan.principal_amount + plan.fee_amount
  pub principal_left : after.total_principal + plan.principal_amount ≡ before.total_principal
  pub fee_left : after.fee_reserve ≡ 0
  pub separated : is_disjoint plan.principal_input_ids plan.fee_input_ids ≡ true
  pub total_after : principal (values after.virtual_channels) ≡ after.total_principal
  pub fits : IsU64 (before.total_principal + before.fee_reserve)

module _ (x : External) (before after : FactoryState) (plan : MaterialisationPlan)
    (receipt : ChannelReceipt) where
  untouched-All :
      plan.touched_leaves ≡ plan.virtual_channel_id ∷ []
      → IsOk (for_each (check_untouched after plan) before.virtual_channels)
        ↔ All
            (λ e. e.0 ≢ plan.virtual_channel_id → get e.0 after.virtual_channels ≡ some e.1)
            before.virtual_channels
  untouched-All one =
      let each = for_each_iff (check_untouched after plan) before.virtual_channels in
      let every =
        All-iff (λ e. IsOk (check_untouched after plan e))
          (λ e. e.0 ≢ plan.virtual_channel_id → get e.0 after.virtual_channels ≡ some e.1)
          before.virtual_channels
          (λ e. check_untouched_iff after plan plan.virtual_channel_id e one) in
      ((λ h. every.0 (each.0 h)), (λ h. each.1 (every.1 h)))

  -- Every check is passed, for the channel and the sum of the planned outputs.
  abbrev Guarded : VirtualChannelState → ℕ → Type 0
  Guarded channel planned =
      IsOk (check_receipts before after plan)
      × IsOk (check_leaf before plan)
      × (get plan.virtual_channel_id before.virtual_channels ≡ some channel)
      × IsOk (check_removed before after plan.virtual_channel_id)
      × (check_plan before plan channel ≡ ok planned)
      × IsOk (check_rest before after plan)
      × (is_disjoint plan.principal_input_ids plan.fee_input_ids ≡ true)
      × IsOk (for_each (check_untouched after plan) before.virtual_channels)
      × IsOk (check_total after)
      × IsOk (check_balance before after planned)

  accepted-Guarded :
      validate_materialisation x before after plan ≡ ok receipt
      → (channel : VirtualChannelState) × (planned : ℕ) × (receipt
          ≡ materialisation_receipt x before plan channel)
        × Guarded channel planned
  unfolding validate_materialisation
  accepted-Guarded h =
      let (p1, h1) = >>-eq-ok (check_receipts before after plan) _ h in
      let (p2, h2) = >>-eq-ok (check_leaf before plan) _ h1 in
      let (channel, p3, h3) =
        >>=-eq-ok (expect (get plan.virtual_channel_id before.virtual_channels)) _ h2 in
      let (p4, h4) = >>-eq-ok (check_removed before after plan.virtual_channel_id) _ h3 in
      let (planned, p5, h5) = >>=-eq-ok (check_plan before plan channel) _ h4 in
      let (p6, h6) = >>-eq-ok (check_rest before after plan) _ h5 in
      let (p7, h7) = fail_if-eq-ok _ _ _ h6 in
      let (p8, h8) =
        >>-eq-ok (for_each (check_untouched after plan) before.virtual_channels) _ h7 in
      let (p9, h9) = >>-eq-ok (check_total after) _ h8 in
      let (p10, h10) = >>-eq-ok (check_balance before after planned) _ h9 in
      let guards : Guarded channel planned =
        (p1, p2, expect-eq-ok p3, p4, p5, p6, (not-false_iff _).0 p7, p8, p9, p10) in
      (channel, planned, sym (ok-injective h10), guards)

  Guarded-IsMaterialisation :
      (channel : VirtualChannelState) (planned : ℕ)
      → IsU64 before.total_principal
      → IsU64 after.total_principal
      → Guarded channel planned
      → IsMaterialisation before after plan channel
  Guarded-IsMaterialisation channel planned u w (p1, p2, p3, p4, p5, p6, p7, p8, p9, p10) =
      let (_, one) = (check_leaf_iff before plan).0 p2 in
      let (gone, known) = (check_removed_iff before after plan.virtual_channel_id).0 p4 in
      let (amount, fee, outputs, _, _) = (check_plan_iff before plan channel planned).0 p5 in
      let (left, rest) = (check_rest_iff before after plan).0 p6 in
      record {
        receipts = (check_receipts_iff before after plan u).0 p1;
        touched = one;
        materialised = p3;
        removed = gone;
        no_new = known;
        untouched = (untouched-All one).0 p8;
        of_channel = amount;
        of_reserve = fee;
        paid_out = outputs;
        principal_left = left;
        fee_left = omega arith;
        separated = p7;
        total_after = (check_total_iff after w).0 p9;
        fits = ((check_balance_iff before after planned).0 p10).0;
      }

  complete :
      (channel : VirtualChannelState)
      → IsU64 before.total_principal
      → IsU64 after.total_principal
      → IsMaterialisation before after plan channel
      → validate_materialisation x before after plan
        ≡ ok (materialisation_receipt x before plan channel)
  unfolding validate_materialisation
  complete channel u w v =
      let planned = plan.principal_amount + plan.fee_amount in
      let of_reserve = v.of_reserve in
      let left = v.principal_left in
      let none_left = v.fee_left in
      let fits = v.fits in
      let known : contains_key plan.virtual_channel_id before.virtual_channels ≡ true =
        rw (contains_key, v.materialised) in
      rw (
        (check_receipts_iff before after plan u).1 v.receipts,
        (check_leaf_iff before plan).1 (known, v.touched),
        v.materialised,
        (check_removed_iff before after plan.virtual_channel_id).1 (v.removed, v.no_new),
        (check_plan_iff before plan channel planned).1
            (v.of_channel, v.of_reserve, v.paid_out, refl, omega arith),
        (check_rest_iff before after plan).1 (left, omega arith),
        v.separated,
        (untouched-All v.touched).1 v.untouched,
        (check_total_iff after w).1 v.total_after,
        (check_balance_iff before after planned).1 (fits, omega arith),
      )

  -- A materialisation is accepted exactly if the plan, of this factory and with an id that is new and
  -- recorded while all recorded ids stay, touches one channel of the factory; that channel is gone
  -- afterwards and every other is unchanged, with none added; its principal and the whole fee reserve
  -- are what the planned outputs pay; the totals are those of the channels before and after; and
  -- principal inputs are no fee inputs. The receipt is the one for that channel. The two totals are
  -- of 64 bits.
  pub validate_materialisation_iff :
      IsU64 before.total_principal
      → IsU64 after.total_principal
      → (validate_materialisation x before after plan ≡ ok receipt) ↔ (
          (channel : VirtualChannelState) × IsMaterialisation before after plan channel
          × (receipt ≡ materialisation_receipt x before plan channel))
  validate_materialisation_iff u w = (
    (λ h.
        let (channel, planned, same, guards) = accepted-Guarded h in
        (channel, Guarded-IsMaterialisation channel planned u w guards, same)),
    (λ (channel, v, same). complete channel u w v ∙ ap ok (sym same)),
  )
