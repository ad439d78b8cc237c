-- ===== src/Factory/Guards.antt =====
-- What each group of checks of `validate_materialisation` in src/lib.rs accepts.
use kurrent.Base.{
  All, not-false_iff, Bool, List, String, [], arith, bne_iff, contains, contains_key, false, get,
  is_subset, keys, length, list_eq, nat_eq, not, option_eq, some, string_eq, true, values, ℕ, ◌!=◌,
  ◌+◌, ◌||◌, ◌↔◌, ◌∷◌, ◌≡◌, ◌≢◌, refl, ap, All-iff, Option, inl, inr, none, if◌then◌else◌,
}
use kurrent.Bytes.{IsU64}
use kurrent.Channel.Sums.{sum}
use kurrent.Errors.{
  Result, err, mutated_untouched_virtual_channel, injected_virtual_channel, >>_iff, IsOk, fail_if,
  fail_if_iff, fail_if_ne_iff, for_each_iff, guard_iff, ok,
}
use kurrent.Factory.{
  check_balance, check_leaf, check_plan, check_receipts, check_removed, check_rest, check_total,
  check_untouched, vc_eq,
}
use kurrent.Factory.Sums.{checked_sum-cases, channel_sum, check_total_iff, principal}
use kurrent.Types.{FactoryState, MaterialisationPlan, VirtualChannelState}

-- Factory ids, total and materialisation ids.
pub record Receipts (before after : FactoryState) (plan : MaterialisationPlan) : Type 0 where
  pub of_factory : before.factory_id ≡ plan.factory_id
  pub same_factory : before.factory_id ≡ after.factory_id
  pub total_before : principal (values before.virtual_channels) ≡ before.total_principal
  pub fresh : contains plan.materialisation_id before.materialised_receipts ≡ false
  pub preserved : is_subset before.materialised_receipts after.materialised_receipts ≡ true
  pub recorded : contains plan.materialisation_id after.materialised_receipts ≡ true

pub check_receipts_iff :
    (before after : FactoryState) (plan : MaterialisationPlan)
    → IsU64 before.total_principal
    → IsOk (check_receipts before after plan) ↔ Receipts before after plan
unfolding check_receipts
check_receipts_iff before after plan fits = (
  (λ h.
      let (p1, h1) = (fail_if_ne_iff _ _ _ _).0 h in
      let (p2, h2) = (fail_if_ne_iff _ _ _ _).0 h1 in
      let (p3, h3) = (>>_iff (check_total before) _).0 h2 in
      let (p4, h4) = (guard_iff _ _ _).0 h3 in
      let (p5, h5) = (guard_iff _ _ _).0 h4 in
      record {
        of_factory = p1;
        same_factory = p2;
        total_before = (check_total_iff before fits).0 p3;
        fresh = p4;
        preserved = (not-false_iff _).0 p5;
        recorded = (not-false_iff _).0 ((fail_if_iff _ _).0 h5);
      }),
  (λ v. (fail_if_ne_iff _ _ _ _).1 (
    v.of_factory,
    (fail_if_ne_iff _ _ _ _).1 (
      v.same_factory,
      (>>_iff (check_total before) _).1 (
        (check_total_iff before fits).1 v.total_before,
        (guard_iff _ _ _).1 (
          v.fresh,
          (guard_iff _ _ _).1 (
            (not-false_iff _).1 v.preserved,
            (fail_if_iff _ _).1 ((not-false_iff _).1 v.recorded),
          ),
        ),
      ),
    ),
  )),
)

-- A set of one element that contains `id`.
singleton_iff :
    (id : String) (s : List String)
    → ((length s != 1 || not (contains id s)) ≡ false) ↔ (s ≡ id ∷ [])
unfolding contains
singleton_iff id [] = ground arith
singleton_iff id (k ∷ []) = ground (arith, string_eq.beq_iff k id)
singleton_iff id (k ∷ j ∷ s) = ground arith

pub check_leaf_iff :
    (before : FactoryState) (plan : MaterialisationPlan)
    → IsOk (check_leaf before plan) ↔ (
        (contains_key plan.virtual_channel_id before.virtual_channels ≡ true)
        × (plan.touched_leaves ≡ plan.virtual_channel_id ∷ []))
unfolding check_leaf
check_leaf_iff before plan = (
  (λ h.
      let (p, q) = (guard_iff _ _ _).0 h in
      ((not-false_iff _).0 p, (singleton_iff _ _).0 ((fail_if_iff _ _).0 q))),
  (λ (p, q).
      (guard_iff _ _ _).1 ((not-false_iff _).1 p, (fail_if_iff _ _).1 ((singleton_iff _ _).1 q))),
)

pub check_removed_iff :
    (before after : FactoryState) (id : String)
    → IsOk (check_removed before after id) ↔ (
        (contains_key id after.virtual_channels ≡ false)
        × All (λ k. contains_key k before.virtual_channels ≡ true) (keys after.virtual_channels))
unfolding check_removed
check_removed_iff before after id =
    let each = for_each_iff known (keys after.virtual_channels) in
    let every =
      All-iff (λ k. IsOk (known k)) (λ k. contains_key k before.virtual_channels ≡ true)
        (keys after.virtual_channels) known_iff in
    (
      (λ h. let (p, q) = (guard_iff _ _ _).0 h in (p, every.0 (each.0 q))),
      (λ (p, q). (guard_iff _ _ _).1 (p, each.1 (every.1 q))),
    )
  where
    known : String → Result (Unit {0})
    known k = fail_if (not (contains_key k before.virtual_channels)) (injected_virtual_channel k)

    known_iff : (k : String) → IsOk (known k) ↔ (contains_key k before.virtual_channels ≡ true)
    known_iff k = (
      (λ h. (not-false_iff _).0 ((fail_if_iff _ _).0 h)),
      (λ h. (fail_if_iff _ _).1 ((not-false_iff _).1 h)),
    )

pub check_plan_iff :
    (before : FactoryState) (plan : MaterialisationPlan) (channel : VirtualChannelState)
    (planned : ℕ)
    → (check_plan before plan channel ≡ ok planned) ↔ (
        (plan.principal_amount ≡ channel_sum channel)
        × (plan.fee_amount ≡ before.fee_reserve)
        × (sum (values plan.output_amounts) ≡ plan.principal_amount + plan.fee_amount)
        × (planned ≡ plan.principal_amount + plan.fee_amount)
        × IsU64 planned)
unfolding check_plan
check_plan_iff before plan channel planned =
    elim (checked_sum-cases (values channel.balance_by_participant)) [
      | inr (missing, large) ↦ rw missing (ground arith)
      | inl (found, fits) ↦ elim (checked_sum-cases (values plan.output_amounts)) [
        | inr (missing, large) ↦ rw (found, missing) (ground arith)
        | inl (outputs, small) ↦ rw (found, outputs) (ground arith)
      ]
    ]

pub check_rest_iff :
    (before after : FactoryState) (plan : MaterialisationPlan)
    → IsOk (check_rest before after plan) ↔ (
        (after.total_principal + plan.principal_amount ≡ before.total_principal)
        × (after.fee_reserve + plan.fee_amount ≡ before.fee_reserve))
unfolding check_rest
check_rest_iff before after plan = ground arith

pub check_balance_iff :
    (before after : FactoryState) (planned : ℕ)
    → IsOk (check_balance before after planned) ↔ (
        IsU64 (before.total_principal + before.fee_reserve)
        × (after.total_principal + after.fee_reserve + planned
            ≡ before.total_principal + before.fee_reserve))
unfolding check_balance
check_balance_iff before after planned = ground arith

untouched_iff :
    (b : Bool) (o : Option VirtualChannelState) (channel : VirtualChannelState) (id : String)
    → IsOk (
        if b then ok tt else elim o [
          | none ↦ err (mutated_untouched_virtual_channel id)
          | some after_channel ↦
              fail_if (after_channel != channel) (mutated_untouched_virtual_channel id)
        ])
      ↔ (b ≡ false → o ≡ some channel)
untouched_iff true o c id = ((λ h e. cc), (λ h. refl))
untouched_iff false none c id = ((λ h. cc), (λ h. let e = h refl in cc))
untouched_iff false (some d) c id = (
  (λ h _. ap some ((bne_iff d c).0 ((fail_if_iff _ _).0 h))),
  (λ h. (fail_if_iff _ _).1 ((bne_iff d c).1 (let e = h refl in cc))),
)

contains_one : (id key : String) → (contains key (id ∷ []) ≡ false) ↔ (key ≢ id)
unfolding contains
contains_one id key = ground (arith, string_eq.beq_iff id key)

pub check_untouched_iff :
    (after : FactoryState) (plan : MaterialisationPlan) (id : String)
    (entry : String × VirtualChannelState)
    → plan.touched_leaves ≡ id ∷ []
    → IsOk (check_untouched after plan entry)
      ↔ (entry.0 ≢ id → get entry.0 after.virtual_channels ≡ some entry.1)
unfolding check_untouched
check_untouched_iff after plan id (key, channel) e =
    let here =
      untouched_iff (contains key plan.touched_leaves) (get key after.virtual_channels) channel
        key in
    let one : (contains key plan.touched_leaves ≡ false) ↔ (key ≢ id) =
      rw e (contains_one id key) in
    ((λ h n. here.0 h (one.1 n)), (λ h. here.1 (λ c. h (one.0 c))))
