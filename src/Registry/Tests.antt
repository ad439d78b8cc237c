-- ===== src/Registry/Tests.antt =====
-- Runs of the registry on the sample channel, and the theorems about it there.
use kurrent.Base.{
  List, [], contains, get, insert, insert_key, list_eq, nat_eq, option_eq, pair_eq, refl, some,
  string_eq, true, ℕ, ◌∷◌, ◌≡◌, ◌≢◌, ◌≤◌,
}
use kurrent.Errors.{IsOk, double_claim, err, ok}
use kurrent.External.{External, hash_json, template_hash}
use kurrent.Fixtures.{
  encode_marks, first_header, first_update, second_update, template, zero_external,
}
use kurrent.Registry.Calls.{Call, accepting, perform, run, settling, with_receipt, with_settled}
use kurrent.Registry.Checks.{check_settlement, check_update}
use kurrent.Registry.Claims.{claim_exclusive}
use kurrent.Registry.History.{
  failed_call_unchanged, run-IsValid, seen_commitment_permanent, settled_channel_final,
}
use kurrent.Registry.Methods.{accept_update_with_rule, refund_claim, settle, settle_claim}
use kurrent.Registry.Receipt.{scope_key, settlement_receipt}
use kurrent.Registry.Settlement.{Settles, settle_iff}
use kurrent.Registry.State.{SettlementRegistry, empty_registry}
use kurrent.Registry.Validity.{IsValid, empty_registry-IsValid}
use kurrent.Types.{ChannelReceipt, prefer_later, reject_conflict}

abbrev x : External
x = zero_external

-- The registry after the first update.
abbrev opened : SettlementRegistry
opened = run x (accepting first_update reject_conflict ∷ []) empty_registry

opened-IsValid : IsValid opened
opened-IsValid =
    run-IsValid x (accepting first_update reject_conflict ∷ []) empty_registry
      empty_registry-IsValid

opened_latest : get "c" opened.latest_by_channel ≡ some first_header
unfolding get run accept_update_with_rule check_update contains insert
opened_latest = refl

opened_seen : get ("c", 0) opened.seen_commitments ≡ some "s0"
unfolding get run accept_update_with_rule check_update contains insert
opened_seen = refl

-- A conflicting update, the next one, a settlement and a late update.
abbrev calls : List Call
calls =
    accepting
      (record first_update { header = record first_header { new_state_commitment = "other" } })
      prefer_later
    ∷ accepting second_update reject_conflict
    ∷ settling second_update template
    ∷ accepting (record first_update { header = record first_header { state_number = 2 } })
        prefer_later
    ∷ []

abbrev settled_registry : SettlementRegistry
settled_registry =
    run x (accepting second_update reject_conflict ∷ settling second_update template ∷ []) opened

settled_run : contains "c" settled_registry.settled_channels ≡ true
unfolding contains run settle check_settlement get accept_update_with_rule check_update insert
    template_hash hash_json encode_marks settlement_receipt scope_key insert_key
settled_run = refl

run-IsValid_example : IsValid (run x calls opened)
run-IsValid_example = run-IsValid x calls opened opened-IsValid

seen_commitment_permanent_example : get ("c", 0) (run x calls opened).seen_commitments ≡ some "s0"
seen_commitment_permanent_example =
    seen_commitment_permanent x calls opened "c" 0 "s0" opened-IsValid opened_seen

settled_channel_final_example :
    (contains "c" (run x calls settled_registry).settled_channels ≡ true)
    × (get "c" (run x calls settled_registry).latest_by_channel
        ≡ get "c" settled_registry.latest_by_channel)
settled_channel_final_example = settled_channel_final x calls settled_registry "c" settled_run

refused_run : (perform x (accepting second_update reject_conflict) empty_registry).0 ≢ ok tt
unfolding perform accept_update_with_rule check_update contains get
refused_run h = cc

failed_call_unchanged_example :
    (perform x (accepting second_update reject_conflict) empty_registry).1 ≡ empty_registry
failed_call_unchanged_example =
    failed_call_unchanged x (accepting second_update reject_conflict) empty_registry refused_run

accept_run : IsOk (accept_update_with_rule second_update prefer_later opened).0
unfolding accept_update_with_rule check_update contains run get insert
accept_run = refl

abbrev first_receipt : ChannelReceipt
first_receipt = settlement_receipt x "c" first_header template

settle_run :
    settle x first_update template opened
    ≡ (ok first_receipt, with_settled "c" (with_receipt first_receipt.receipt_hash opened))
unfolding settle check_settlement get run accept_update_with_rule check_update contains insert
    template_hash hash_json encode_marks settlement_receipt scope_key
settle_run = refl

settle_iff_example :
    Settles x opened first_update template first_receipt
      (with_settled "c" (with_receipt first_receipt.receipt_hash opened))
settle_iff_example =
    (settle_iff x first_update template opened
        (with_settled "c" (with_receipt first_receipt.receipt_hash opened)) first_receipt).0
      settle_run

refund_run : IsOk (refund_claim "claim" 60 50 empty_registry).0
unfolding refund_claim contains
refund_run = refl

abbrev refunded : SettlementRegistry
refunded =
    run x (accepting first_update reject_conflict ∷ [])
      (refund_claim "claim" 60 50 empty_registry).1

claim_exclusive_example :
    (settle_claim "claim" refunded ≡ (err (double_claim "claim"), refunded))
    × ((current required : ℕ)
        → required ≤ current
        → refund_claim "claim" current required refunded ≡ (err (double_claim "claim"), refunded))
claim_exclusive_example =
    claim_exclusive x (accepting first_update reject_conflict ∷ []) empty_registry "claim" 60 50
      refund_run
