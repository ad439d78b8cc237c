-- ===== src/Registry/Receipt.antt =====
-- `ChannelReceipt` of src/lib.rs: its scope, its hash, and how a receipt is built.
use kurrent.Base.{String, list_eq, nat_eq, none, option_eq, string_eq, ℕ, ◌!=◌}
use kurrent.Errors.{Result, fail_if, receipt_hash_mismatch}
use kurrent.External.{External, domain_channel_receipt, hash_json}
use kurrent.Types.{ChannelReceipt, ChannelReceiptScope, LatestStateHeader, SettlementTemplate}

-- `ChannelReceipt::scope`
abbrev pub scope : ChannelReceipt → ChannelReceiptScope
scope r = record {
  protocol_version = r.protocol_version;
  network_profile = r.network_profile;
  channel_id = r.channel_id;
  factory_id = r.factory_id;
  virtual_channel_id = r.virtual_channel_id;
  funding_outpoint = r.funding_outpoint;
  output_id = r.output_id;
  state_number = r.state_number;
  settlement_template_hash = r.settlement_template_hash;
  fee_policy_hash = r.fee_policy_hash;
  swap_id = r.swap_id;
  direction = r.direction;
}

module _ (x : External) where
  -- `ChannelReceipt::scope_key`
  unfoldable pub scope_key : ChannelReceipt → String
  scope_key r = hash_json x domain_channel_receipt (x.to_vec_receipt_scope (scope r))

  -- `ChannelReceipt::refresh_hash`
  unfoldable pub refresh_hash : ChannelReceipt → ChannelReceipt
  refresh_hash r = record r { receipt_hash = scope_key r }

  -- `ChannelReceipt::new`
  unfoldable pub new_receipt : ℕ → String → String → String → String → ℕ → String → ChannelReceipt
  unfolding refresh_hash
  new_receipt protocol_version network_profile channel_id funding_outpoint output_id state_number
        settlement_template_hash =
      refresh_hash (record {
        protocol_version = protocol_version;
        network_profile = network_profile;
        channel_id = channel_id;
        factory_id = none;
        virtual_channel_id = none;
        funding_outpoint = funding_outpoint;
        output_id = output_id;
        state_number = state_number;
        settlement_template_hash = settlement_template_hash;
        fee_policy_hash = none;
        swap_id = none;
        direction = none;
        receipt_hash = "";
      })

  -- `ChannelReceipt::validate_hash`
  unfoldable pub validate_hash : ChannelReceipt → Result (Unit {0})
  validate_hash r = fail_if (r.receipt_hash != scope_key r) receipt_hash_mismatch

  -- The receipt that `settle` issues.
  unfoldable pub settlement_receipt :
      String → LatestStateHeader → SettlementTemplate → ChannelReceipt
  unfolding new_receipt
  settlement_receipt channel_id latest template =
      let fresh =
        new_receipt latest.protocol_version latest.network_profile channel_id
          latest.funding_outpoint template.template_id latest.state_number
          latest.settlement_template_hash in
      refresh_hash (record fresh { fee_policy_hash = latest.fee_policy_hash })
