-- ===== src/Factory.antt =====
-- Factory materialisation of src/lib.rs: `factory_principal_sum`, `checked_principal` and
-- `validate_materialisation`.
use kurrent.Base.{
  Bool, Eq, if◌then◌else◌, List, Map, Option, String, [], arith, contains, contains_key, false, get,
  is_subset, keys, length, list_eq, nat_eq, none, not, option_eq, pair_eq, some, string_eq, true,
  values, ℕ, ◌!=◌, ◌&&◌, ◌==◌, ◌||◌, ◌∷◌, ◌↔◌, ◌≡◌,
}
use kurrent.Channel.{checked_sum}
use kurrent.Errors.{
  KurrentError, Result, conservation_failure, double_materialisation, err, expect,
  factory_principal_invariant, fail_if, fee_principal_not_separated, for_each,
  injected_virtual_channel, materialisation_amount_mismatch, materialised_channel_still_active,
  materialised_receipts_not_preserved, mutated_untouched_virtual_channel, ok, ok_or,
  wrong_factory_id, wrong_virtual_channel_id, ◌>>=◌, ◌>>◌,
}
use kurrent.External.{External, domain_factory_materialisation, hash_json}
use kurrent.Normative.Amounts.{checked_add, checked_sub, u64_max}
use kurrent.Registry.Receipt.{new_receipt, scope_key}
use kurrent.Types.{ChannelReceipt, FactoryState, MaterialisationPlan, VirtualChannelState}
pub mod Sums
pub mod Guards
pub mod Outcomes
pub mod Effect
mod Tests

-- `==` of virtual channels.
abbrev pub vc_beq : VirtualChannelState → VirtualChannelState → Bool
vc_beq a b =
    (a.virtual_channel_id == b.virtual_channel_id)
    && (a.channel_id == b.channel_id)
    && (a.balance_by_participant == b.balance_by_participant)
    && (a.state_number == b.state_number)
    && (a.state_commitment == b.state_commitment)

pub vc_beq_iff : (a b : VirtualChannelState) → (vc_beq a b ≡ true) ↔ (a ≡ b)
vc_beq_iff a b = ground (
  arith,
  string_eq.beq_iff a.virtual_channel_id b.virtual_channel_id,
  string_eq.beq_iff a.channel_id b.channel_id,
  balances_eq.beq_iff a.balance_by_participant b.balance_by_participant,
  string_eq.beq_iff a.state_commitment b.state_commitment,
)
  where
    balances_eq : Eq (Map String ℕ)
    balances_eq = list_eq

instance abbrev pub vc_eq : Eq VirtualChannelState
vc_eq = record { beq = vc_beq; beq_iff = vc_beq_iff }

-- `factory_principal_sum`, from an accumulator.
unfoldable pub principal_from : ℕ → List VirtualChannelState → Option ℕ
principal_from acc [] = some acc
principal_from acc (c ∷ cs) = elim (checked_sum (values c.balance_by_participant)) [
  | none ↦ none
  | some principal ↦ elim (checked_add acc principal) [
    | none ↦ none
    | some acc' ↦ principal_from acc' cs
  ]
]

unfoldable pub factory_principal_sum : FactoryState → Option ℕ
unfolding principal_from
factory_principal_sum state = principal_from 0 (values state.virtual_channels)

-- The total of a factory is the sum of its channels.
unfoldable pub check_total : FactoryState → Result (Unit {0})
unfolding factory_principal_sum
check_total state = do
  computed ←
      ok_or (factory_principal_sum state)
        (factory_principal_invariant state.total_principal u64_max)
  fail_if (state.total_principal != computed)
      (factory_principal_invariant state.total_principal computed)

-- The factory ids, the total before, and the ids of materialisations.
unfoldable pub check_receipts :
    FactoryState → FactoryState → MaterialisationPlan → Result (Unit {0})
unfolding check_total
check_receipts before after plan = do
  fail_if (before.factory_id != plan.factory_id)
      (wrong_factory_id before.factory_id plan.factory_id)
  fail_if (before.factory_id != after.factory_id)
      (wrong_factory_id before.factory_id after.factory_id)
  check_total before
  fail_if (contains plan.materialisation_id before.materialised_receipts)
      (double_materialisation plan.materialisation_id)
  fail_if (not (is_subset before.materialised_receipts after.materialised_receipts))
      materialised_receipts_not_preserved
  fail_if (not (contains plan.materialisation_id after.materialised_receipts))
      materialised_receipts_not_preserved

-- The materialised channel is there before, alone touched.
unfoldable pub check_leaf : FactoryState → MaterialisationPlan → Result (Unit {0})
check_leaf before plan = do
  let id = plan.virtual_channel_id
  fail_if (not (contains_key id before.virtual_channels)) (wrong_virtual_channel_id id)
  fail_if (length plan.touched_leaves != 1 || not (contains id plan.touched_leaves))
      (wrong_virtual_channel_id id)

-- It is gone afterwards, and no channel is new.
unfoldable pub check_removed : FactoryState → FactoryState → String → Result (Unit {0})
check_removed before after id = do
  fail_if (contains_key id after.virtual_channels) (materialised_channel_still_active id)
  for_each
      (λ key.
        fail_if (not (contains_key key before.virtual_channels)) (injected_virtual_channel key))
      (keys after.virtual_channels)

-- The planned amounts against the channel, the fee reserve and the planned outputs.
unfoldable pub check_plan : FactoryState → MaterialisationPlan → VirtualChannelState → Result ℕ
check_plan before plan channel = do
  principal ←
      ok_or (checked_sum (values channel.balance_by_participant))
        (factory_principal_invariant before.total_principal u64_max)
  fail_if (plan.principal_amount != principal)
      (materialisation_amount_mismatch principal plan.principal_amount)
  fail_if (plan.fee_amount != before.fee_reserve)
      (materialisation_amount_mismatch before.fee_reserve plan.fee_amount)
  planned ←
      ok_or (checked_sum (values plan.output_amounts))
        (conservation_failure plan.principal_amount u64_max)
  expected ←
      ok_or (checked_add plan.principal_amount plan.fee_amount)
        (conservation_failure plan.principal_amount plan.fee_amount)
  fail_if (planned != expected) (conservation_failure expected planned)
  ok planned

-- What is left in the factory.
unfoldable pub check_rest : FactoryState → FactoryState → MaterialisationPlan → Result (Unit {0})
check_rest before after plan = do
  principal ←
      ok_or (checked_sub before.total_principal plan.principal_amount)
        (conservation_failure before.total_principal plan.principal_amount)
  fee ←
      ok_or (checked_sub before.fee_reserve plan.fee_amount)
        (conservation_failure before.fee_reserve plan.fee_amount)
  fail_if (after.total_principal != principal)
      (conservation_failure principal after.total_principal)
  fail_if (after.fee_reserve != fee) (conservation_failure fee after.fee_reserve)

-- One round of the loop over the channels before.
unfoldable pub check_untouched :
    FactoryState → MaterialisationPlan → String × VirtualChannelState → Result (Unit {0})
check_untouched after plan (id, channel) =
    if contains id plan.touched_leaves then ok tt else elim (get id after.virtual_channels) [
      | none ↦ err (mutated_untouched_virtual_channel id)
      | some after_channel ↦
          fail_if (after_channel != channel) (mutated_untouched_virtual_channel id)
    ]

-- `BTreeSet::is_disjoint`
abbrev pub is_disjoint : List String → List String → Bool
is_disjoint [] t = true
is_disjoint (k ∷ s) t = not (contains k t) && is_disjoint s t

-- The balance of the whole factory with its planned outputs.
unfoldable pub check_balance : FactoryState → FactoryState → ℕ → Result (Unit {0})
check_balance before after planned = do
  expected ←
      ok_or (checked_add before.total_principal before.fee_reserve)
        (conservation_failure before.total_principal before.fee_reserve)
  left ←
      ok_or (checked_add after.total_principal after.fee_reserve)
        (conservation_failure expected u64_max)
  actual ← ok_or (checked_add left planned) (conservation_failure expected u64_max)
  fail_if (expected != actual) (conservation_failure expected actual)

-- The receipt of a materialisation.
unfoldable pub materialisation_receipt :
    External → FactoryState → MaterialisationPlan → VirtualChannelState → ChannelReceipt
materialisation_receipt x before plan channel =
    let fresh =
      new_receipt x 1 before.network_profile plan.virtual_channel_id before.factory_id
        plan.materialisation_id channel.state_number
        (hash_json x domain_factory_materialisation (x.to_vec_plan plan)) in
    let scoped = record fresh {
      factory_id = some before.factory_id;
      virtual_channel_id = some plan.virtual_channel_id;
    } in
    record scoped { receipt_hash = scope_key x scoped }

unfoldable pub validate_materialisation :
    External → FactoryState → FactoryState → MaterialisationPlan → Result ChannelReceipt
unfolding check_receipts check_leaf check_removed check_plan check_rest check_untouched
    check_balance materialisation_receipt
validate_materialisation x before after plan = do
  check_receipts before after plan
  check_leaf before plan
  channel ← expect (get plan.virtual_channel_id before.virtual_channels)
  check_removed before after plan.virtual_channel_id
  planned ← check_plan before plan channel
  check_rest before after plan
  fail_if (not (is_disjoint plan.principal_input_ids plan.fee_input_ids))
      fee_principal_not_separated
  for_each (check_untouched after plan) before.virtual_channels
  check_total after
  check_balance before after planned
  ok (materialisation_receipt x before plan channel)
