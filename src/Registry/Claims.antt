-- ===== src/Registry/Claims.antt =====
-- The claims of `SettlementRegistry` in src/lib.rs: each id is settled or refunded once.
use kurrent.Base.{
  Bool-cases, List, String, arith, beq_refl, contains, contains-insert_key, false, inl, inr,
  list_eq, nat_eq, option_eq, pair_eq, string_eq, true, ℕ, ◌↔◌, ◌≡◌, ◌≤◌,
}
use kurrent.Errors.{IsOk, double_claim, err}
use kurrent.External.{External}
use kurrent.Registry.Calls.{Call, Change, claimed, recorded, registered, run, settled}
use kurrent.Registry.History.{run_keeps}
use kurrent.Registry.Methods.{record_update, refund_claim, settle_claim}
use kurrent.Registry.State.{SettlementRegistry}

module _ (x : External) where
  -- A claim id in the registry stays there.
  claim_stays :
      (claim_id : String) (calls : List Call) (r : SettlementRegistry)
      → contains claim_id r.claims ≡ true
      → contains claim_id (run x calls r).claims ≡ true
  unfolding record_update
  claim_stays claim_id = run_keeps x (λ r. contains claim_id r.claims ≡ true) step
    where
      step :
          (r r' : SettlementRegistry)
          → Change x r r'
          → contains claim_id r.claims ≡ true
          → contains claim_id r'.claims ≡ true
      step r _ (recorded update rule h) p = p
      step r _ (claimed other new) p = ground (arith, contains-insert_key other claim_id r.claims)
      step r _ (registered key new) p = p
      step r _ (settled update template latest key h new) p = p

settle_claim_taken :
    (claim_id : String) (r : SettlementRegistry)
    → contains claim_id r.claims ≡ true
    → settle_claim claim_id r ≡ (err (double_claim claim_id), r)
unfolding settle_claim
settle_claim_taken claim_id r taken = ground arith

-- A refund succeeds exactly if its time has come and the id is not claimed yet.
pub refund_claim_iff :
    (claim_id : String) (current_daa required_daa : ℕ) (r : SettlementRegistry)
    → IsOk (refund_claim claim_id current_daa required_daa r).0
      ↔ ((required_daa ≤ current_daa) × (contains claim_id r.claims ≡ false))
unfolding refund_claim settle_claim
refund_claim_iff claim_id current_daa required_daa r =
    elim (Bool-cases (contains claim_id r.claims)) [
      | inl taken ↦ ground arith
      | inr free ↦ ground arith
    ]

refund_claim_stored :
    (claim_id : String) (current_daa required_daa : ℕ) (r : SettlementRegistry)
    → IsOk (refund_claim claim_id current_daa required_daa r).0
    → contains claim_id (refund_claim claim_id current_daa required_daa r).1.claims ≡ true
unfolding refund_claim settle_claim
refund_claim_stored claim_id current_daa required_daa r h =
    ground (arith, contains-insert_key claim_id claim_id r.claims, beq_refl claim_id)

-- Once an id is refunded, no calls make it claimable again: a settlement of the same id is refused
-- as a double claim, and so is a second refund whose time has come.
pub claim_exclusive :
    (x : External) (calls : List Call) (r : SettlementRegistry) (claim_id : String)
    (current_daa required_daa : ℕ)
    → IsOk (refund_claim claim_id current_daa required_daa r).0
    → let r' = run x calls (refund_claim claim_id current_daa required_daa r).1 in
      (settle_claim claim_id r' ≡ (err (double_claim claim_id), r'))
      × ((current required : ℕ)
          → required ≤ current
          → refund_claim claim_id current required r' ≡ (err (double_claim claim_id), r'))
unfolding refund_claim
claim_exclusive x calls r claim_id current_daa required_daa h =
    let stays =
      claim_stays x claim_id calls _ (refund_claim_stored claim_id current_daa required_daa r h) in
    (
      settle_claim_taken claim_id _ stays,
      λ current required mature. ground (arith, settle_claim_taken claim_id _ stays),
    )
