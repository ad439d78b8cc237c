-- ===== src/Registry/Methods.antt =====
-- The `&mut self` methods of `SettlementRegistry` in src/lib.rs.
use kurrent.Base.{
  String, contains, insert, insert_key, list_eq, ltb, nat_eq, option_eq, pair_eq, string_eq, ℕ,
}
use kurrent.Channel.{validate_channel_update}
use kurrent.Errors.{
  double_claim, duplicate_receipt, fail_if, ok, ok_or, refund_not_configured, refund_not_mature,
}
use kurrent.External.{External, exclusive_key}
use kurrent.Registry.Checks.{check_settlement, check_update}
use kurrent.Registry.Receipt.{scope_key, settlement_receipt, validate_hash}
use kurrent.Registry.State.{Action, SettlementRegistry, check_with, lift, modify, read, ◌>>=◌, ◌>>◌}
use kurrent.Types.{
  ChannelReceipt, ClaimScope, FundingState, KurrentChannelConfig, SameNumberConflictRule,
  SettlementTemplate, StateUpdate, reject_conflict,
}

-- The two insertions at its end.
unfoldable pub record_update : StateUpdate → SettlementRegistry → SettlementRegistry
record_update update r =
    let header = update.header in
    record r {
      seen_commitments =
          insert (header.channel_id, header.state_number) header.new_state_commitment
            r.seen_commitments;
      latest_by_channel = insert header.channel_id header r.latest_by_channel;
    }

unfoldable pub accept_update_with_rule : StateUpdate → SameNumberConflictRule → Action (Unit {0})
unfolding record_update
accept_update_with_rule update rule = do
  check_with (λ r. check_update r update rule)
  modify (record_update update)

unfoldable pub accept_update : StateUpdate → Action (Unit {0})
accept_update update = accept_update_with_rule update reject_conflict

-- `settle_claim`
unfoldable pub settle_claim : String → Action (Unit {0})
settle_claim claim_id = do
  check_with (λ r. fail_if (contains claim_id r.claims) (double_claim claim_id))
  modify (λ r. record r { claims = (insert_key claim_id r.claims).1 })

unfoldable pub refund_claim : String → ℕ → ℕ → Action (Unit {0})
unfolding settle_claim
refund_claim claim_id current_daa required_daa = do
  check_with
      (λ _. fail_if (ltb current_daa required_daa) (refund_not_mature current_daa required_daa))
  settle_claim claim_id

unfoldable pub refund_claim_with_template : String → SettlementTemplate → ℕ → Action (Unit {0})
unfolding refund_claim
refund_claim_with_template claim_id template current_daa = do
  required_daa ← lift (ok_or template.refund_after_daa refund_not_configured)
  refund_claim claim_id current_daa required_daa

module _ (x : External) where
  -- `register_receipt`
  unfoldable pub register_receipt : ChannelReceipt → Action (Unit {0})
  unfolding validate_hash
  register_receipt receipt = do
    lift (validate_hash x receipt)
    check_with (λ r.
        fail_if (contains (scope_key x receipt) r.receipts)
          (duplicate_receipt (scope_key x receipt)))
    modify (λ r. record r { receipts = (insert_key (scope_key x receipt) r.receipts).1 })

  -- `settle`: the receipt is registered before the channel is marked as settled.
  unfoldable pub settle : StateUpdate → SettlementTemplate → Action ChannelReceipt
  unfolding register_receipt
  settle update template = do
    let channel_id = update.header.channel_id
    r ← read
    latest ← lift (check_settlement x r update template)
    let receipt = settlement_receipt x channel_id latest template
    register_receipt receipt
    modify (λ r. record r { settled_channels = (insert_key channel_id r.settled_channels).1 })
    lift (ok receipt)

  unfoldable pub validate_and_accept_update :
      KurrentChannelConfig → FundingState → StateUpdate → SettlementTemplate → Action (Unit {0})
  validate_and_accept_update config funding update template = do
    lift (validate_channel_update x config funding update template)
    accept_update_with_rule update config.challenge_policy.same_number_conflict_rule

  unfoldable pub settle_scoped_claim : ClaimScope → Action (Unit {0})
  settle_scoped_claim s = settle_claim (exclusive_key x s)

  unfoldable pub refund_scoped_claim : ClaimScope → ℕ → ℕ → Action (Unit {0})
  refund_scoped_claim s current_daa required_daa =
      refund_claim (exclusive_key x s) current_daa required_daa

  unfoldable pub refund_scoped_claim_with_template :
      ClaimScope → SettlementTemplate → ℕ → Action (Unit {0})
  unfolding refund_scoped_claim
  refund_scoped_claim_with_template s template current_daa = do
    required_daa ← lift (ok_or template.refund_after_daa refund_not_configured)
    refund_scoped_claim s current_daa required_daa
