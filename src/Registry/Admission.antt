-- ===== src/Registry/Admission.antt =====
-- The checks of `accept_update_with_rule` in src/lib.rs pass for every successor.
use kurrent.Base.{
  Option, String, arith, bne_of_eq, list_eq, ltb, nat_eq, none, option_eq, pair_eq, refl, some,
  string_eq, true, ◌!=◌, ◌+◌, ◌^◌, ◌≡◌,
}
use kurrent.Bytes.{IsU64}
use kurrent.Errors.{
  >>_iff, IsOk, fail_if, fail_if_iff, fail_if_ne_iff, non_monotonic_state, previous_state_mismatch,
  ◌>>◌,
}
use kurrent.Registry.Checks.{check_seen, check_successor, check_update}
use kurrent.Registry.State.{SettlementRegistry}
use kurrent.Registry.Validity.{IsNext, IsValid, Passed, Passed-fresh}
use kurrent.Types.{LatestStateHeader, SameNumberConflictRule, StateUpdate}

check_seen_fresh :
    (update : StateUpdate) (rule : SameNumberConflictRule) (o : Option String)
    → o ≡ none
    → IsOk (check_seen o update rule)
unfolding check_seen
check_seen_fresh update rule none h = refl
check_seen_fresh update rule (some s) h = cc

check_successor_complete :
    (o : Option LatestStateHeader) (update : StateUpdate)
    → IsU64 update.header.state_number
    → IsNext o update.header
    → IsOk (check_successor o update)
unfolding check_successor
check_successor_complete none update fits h = (fail_if_iff _ _).1 (bne_of_eq ⦃e = nat_eq⦄ _ _ h)
check_successor_complete (some current) update fits (n, p) =
    let small : ltb (current.state_number + 1) (2 ^ 64) ≡ true = ground arith in
    let passed : IsOk (
        fail_if (update.header.state_number != current.state_number + 1)
          (non_monotonic_state current.state_number update.header.state_number)
        >> fail_if (update.header.previous_state_commitment != current.new_state_commitment) (
            previous_state_mismatch current.new_state_commitment
              update.header.previous_state_commitment)) =
      (fail_if_ne_iff ⦃e = nat_eq⦄ _ _ _ _).1
        (n, (fail_if_iff _ _).1 (bne_of_eq ⦃e = string_eq⦄ _ _ p)) in
    rw small passed

pub check_update_complete :
    (r : SettlementRegistry) (update : StateUpdate) (rule : SameNumberConflictRule)
    → IsValid r
    → IsU64 update.header.state_number
    → Passed r update
    → IsOk (check_update r update rule)
unfolding check_update
check_update_complete r update rule valid fits p = (fail_if_ne_iff ⦃e = string_eq⦄ _ _ _ _).1 (
  p.in_domain,
  (>>_iff _ _).1 (
    (fail_if_iff _ _).1 p.open_channel,
    (>>_iff _ _).1 (
      check_seen_fresh update rule _ (Passed-fresh r update valid p),
      check_successor_complete _ update fits p.is_next,
    ),
  ),
)
