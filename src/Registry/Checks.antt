-- ===== src/Registry/Checks.antt =====
-- The checks of the methods of `SettlementRegistry` in src/lib.rs, which read and change nothing.
use kurrent.Base.{
  Bool, Option, String, contains, get, list_eq, nat_eq, none, option_eq, pair_eq, some, string_eq,
  ◌!=◌, ◌||◌,
}
use kurrent.Errors.{
  Result, channel_already_settled, duplicate_settlement, fail_if, non_monotonic_state, ok, ok_or,
  previous_state_mismatch, same_number_conflict, settlement_template_mismatch, stale_state,
  unknown_channel, wrong_domain_separator, ◌>>=◌, ◌>>◌,
}
use kurrent.External.{External, domain_state, template_hash}
use kurrent.Normative.Amounts.{checked_add}
use kurrent.Registry.State.{SettlementRegistry}
use kurrent.Types.{
  LatestStateHeader, SameNumberConflictRule, SettlementTemplate, StateUpdate, prefer_later,
  reject_conflict,
}

-- The comparison with a commitment already seen at this state number.
unfoldable pub check_seen : Option String → StateUpdate → SameNumberConflictRule → Result (Unit {0})
check_seen none update rule = ok tt
check_seen (some seen) update reject_conflict =
    fail_if (seen != update.header.new_state_commitment)
      (same_number_conflict update.header.state_number)
check_seen (some seen) update prefer_later = ok tt

-- The comparison with the channel's latest header.
unfoldable pub check_successor : Option LatestStateHeader → StateUpdate → Result (Unit {0})
check_successor none update =
    fail_if (update.header.state_number != 0) (non_monotonic_state 0 update.header.state_number)
check_successor (some current) update = do
  let jump = non_monotonic_state current.state_number update.header.state_number
  next_state_number ← ok_or (checked_add current.state_number 1) jump
  fail_if (update.header.state_number != next_state_number) jump
  fail_if (update.header.previous_state_commitment != current.new_state_commitment)
      (previous_state_mismatch current.new_state_commitment update.header.previous_state_commitment)

-- The checks of `accept_update_with_rule`, which come before any change.
unfoldable pub check_update :
    SettlementRegistry → StateUpdate → SameNumberConflictRule → Result (Unit {0})
unfolding check_seen check_successor
check_update r update rule = do
  let channel_id = update.header.channel_id
  fail_if (update.header.domain_separator != domain_state)
      (wrong_domain_separator domain_state update.header.domain_separator)
  fail_if (contains channel_id r.settled_channels) (channel_already_settled channel_id)
  check_seen (get (channel_id, update.header.state_number) r.seen_commitments) update rule
  check_successor (get channel_id r.latest_by_channel) update

-- The condition of `StaleState` in `settle`.
unfoldable pub is_stale : LatestStateHeader → LatestStateHeader → Bool
is_stale latest header =
    latest.state_number != header.state_number
    || (latest.new_state_commitment != header.new_state_commitment
        || (latest.funding_outpoint != header.funding_outpoint
            || (latest.network_profile != header.network_profile
                || (latest.protocol_version != header.protocol_version
                    || (latest.settlement_template_hash != header.settlement_template_hash
                        || (latest.fee_policy_hash != header.fee_policy_hash
                            || (latest.covenant_id != header.covenant_id
                                || (latest.script_covenant_hash != header.script_covenant_hash
                                    || latest.participant_set_hash
                                      != header.participant_set_hash))))))))

-- The checks of `settle` in front of the receipt, in their order; the latest header is returned.
unfoldable pub check_settlement :
    External → SettlementRegistry → StateUpdate → SettlementTemplate → Result LatestStateHeader
unfolding is_stale
check_settlement x r update template = do
  let channel_id = update.header.channel_id
  latest ← ok_or (get channel_id r.latest_by_channel) (unknown_channel channel_id)
  fail_if (is_stale latest update.header)
      (stale_state latest.state_number update.header.state_number)
  fail_if (update.header.settlement_template_hash != template_hash x template)
      settlement_template_mismatch
  fail_if (contains channel_id r.settled_channels) (duplicate_settlement channel_id)
  ok latest
