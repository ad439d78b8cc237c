-- ===== src/Factory/Tests.antt =====
-- A materialisation from a factory with two channels, and the theorems about it there.
use kurrent.Base.{
  Map, String, [], arith, contains, contains_key, false, get, is_subset, list_eq, refl, string_eq,
  true, values, ℕ, ◌+◌, ◌∷◌, ◌≡◌, ◌≢◌, nat_eq, option_eq, pair_eq,
}
use kurrent.Channel.{checked_sum}
use kurrent.Channel.Sums.{sum}
use kurrent.Errors.{for_each, ok}
use kurrent.Factory.{
  check_balance, check_leaf, check_plan, check_receipts, check_removed, check_rest, check_total,
  check_untouched, factory_principal_sum, materialisation_receipt, principal_from,
  validate_materialisation, vc_eq,
}
use kurrent.Factory.Effect.{here, materialisation_effect, materialised_once}
use kurrent.Factory.Outcomes.{IsMaterialisation, validate_materialisation_iff}
use kurrent.Fixtures.{zero_external}
use kurrent.Types.{ChannelReceipt, FactoryState, MaterialisationPlan, VirtualChannelState}

abbrev virtual_channel : String → Map String ℕ → VirtualChannelState
virtual_channel id balances = record {
  virtual_channel_id = id;
  channel_id = "c";
  balance_by_participant = balances;
  state_number = 4;
  state_commitment = "s4";
}

abbrev taken : VirtualChannelState
taken = virtual_channel "v1" (("a", 30) ∷ ("b", 10) ∷ [])

abbrev left : VirtualChannelState
left = virtual_channel "v2" (("a", 60) ∷ [])

abbrev before : FactoryState
before = record {
  factory_id = "F";
  network_profile = "devnet";
  total_principal = 100;
  fee_reserve = 5;
  virtual_channels = ("v1", taken) ∷ ("v2", left) ∷ [];
  materialised_receipts = "m0" ∷ [];
}

abbrev after : FactoryState
after = record before {
  total_principal = 60;
  fee_reserve = 0;
  virtual_channels = ("v2", left) ∷ [];
  materialised_receipts = "m0" ∷ "m1" ∷ [];
}

abbrev plan : MaterialisationPlan
plan = record {
  materialisation_id = "m1";
  factory_id = "F";
  virtual_channel_id = "v1";
  touched_leaves = "v1" ∷ [];
  principal_input_ids = "i1" ∷ [];
  fee_input_ids = "i2" ∷ [];
  principal_amount = 40;
  fee_amount = 5;
  output_amounts = ("a", 30) ∷ ("b", 10) ∷ ("fee", 5) ∷ [];
}

-- A second plan with the first one's id, for the other channel.
abbrev again : MaterialisationPlan
again = record plan {
  virtual_channel_id = "v2";
  touched_leaves = "v2" ∷ [];
  principal_amount = 60;
  fee_amount = 0;
  output_amounts = ("a", 60) ∷ [];
}

abbrev emptied : FactoryState
emptied = record after { total_principal = 0; virtual_channels = [] }

abbrev receipt : ChannelReceipt
receipt = materialisation_receipt zero_external before plan taken

materialisation_run : validate_materialisation zero_external before after plan ≡ ok receipt
unfolding validate_materialisation materialisation_receipt check_receipts check_leaf check_removed
    check_plan check_rest check_untouched check_balance check_total factory_principal_sum
    principal_from checked_sum contains is_subset get for_each
materialisation_run = refl

validate_materialisation_iff_example :
    (channel : VirtualChannelState) × IsMaterialisation before after plan channel
    × (receipt ≡ materialisation_receipt zero_external before plan channel)
validate_materialisation_iff_example =
    (validate_materialisation_iff zero_external before after plan receipt (omega arith)
        (omega arith)).0
      materialisation_run

materialisation_effect_example :
    (contains_key "v1" after.virtual_channels ≡ false)
    × ((id : String) → id ≢ "v1" → get id after.virtual_channels ≡ get id before.virtual_channels)
    × (after.fee_reserve ≡ 0)
    × (contains "m1" before.materialised_receipts ≡ false)
    × (contains "m1" after.materialised_receipts ≡ true)
    × ((id : String)
        → contains id before.materialised_receipts ≡ true
        → contains id after.materialised_receipts ≡ true)
    × (after.total_principal + after.fee_reserve + sum (values plan.output_amounts)
        ≡ before.total_principal + before.fee_reserve)
materialisation_effect_example =
    materialisation_effect zero_external before after plan receipt (omega arith) (omega arith)
      materialisation_run

materialised_once_example : validate_materialisation zero_external after emptied again ≢ ok receipt
materialised_once_example =
    materialised_once zero_external before after after emptied plan again receipt receipt
      (omega arith) (omega arith) (omega arith) (omega arith) materialisation_run here refl
