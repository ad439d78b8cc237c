-- ===== src/Registry/Outcomes.antt =====
-- When the methods of `SettlementRegistry` in src/lib.rs succeed, and what they then return.
use kurrent.Base.{ap, ◌↔◌}
use kurrent.Bytes.{IsU64}
use kurrent.Errors.{IsOk}
use kurrent.External.{External}
use kurrent.Registry.Admission.{check_update_complete}
use kurrent.Registry.Checks.{check_update}
use kurrent.Registry.Methods.{accept_update_with_rule, record_update}
use kurrent.Registry.State.{SettlementRegistry, check_with, lift, modify, then-eq-ok, ◌>>◌}
use kurrent.Registry.Validity.{IsValid, Passed, check_update-Passed}
use kurrent.Types.{SameNumberConflictRule, StateUpdate}

-- On a valid registry and for a 64-bit state number, under either rule, an update is accepted
-- exactly if its domain is right, its channel is not settled, and it is the successor of the channel's latest header.
pub accept_update_with_rule_iff :
    (r : SettlementRegistry) (update : StateUpdate) (rule : SameNumberConflictRule)
    → IsValid r
    → IsU64 update.header.state_number
    → IsOk (accept_update_with_rule update rule r).0 ↔ Passed r update
unfolding accept_update_with_rule
accept_update_with_rule_iff r update rule valid fits = (forward, backward)
  where
    forward : IsOk (accept_update_with_rule update rule r).0 → Passed r update
    forward h =
        let (v, checked, rest) =
          then-eq-ok (check_with (λ r. check_update r update rule))
            (λ v. modify (record_update update)) r h in
        check_update-Passed r update rule checked

    backward : Passed r update → IsOk (accept_update_with_rule update rule r).0
    backward p =
        ap (λ a. (◌>>◌ {B = Unit {0}} (lift a) (modify (record_update update)) r).0)
          (check_update_complete r update rule valid fits p)
