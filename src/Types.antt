-- ===== src/Types.antt =====
-- The records of the marker harness in src/lib.rs: configuration, states, candidates, policies.
use kurrent.Base.{
  List, Map, Option, String, if◌then◌else◌, list_eq, nat_eq, option_eq, string_eq, ℕ, ◌==◌,
}

pub data SameNumberConflictRule : Type 0 where
  reject_conflict prefer_later : SameNumberConflictRule

-- `SameNumberConflictRule::parse`
unfoldable pub parse_rule : String → SameNumberConflictRule
parse_rule value = if value == "prefer-later" then prefer_later else reject_conflict

pub record ChallengePolicy : Type 0 where
  pub mode : String
  pub challenge_window_daa : ℕ
  pub same_number_conflict_rule : SameNumberConflictRule

pub record AccessManifest : Type 0 where
  pub authorised_participants : List String
  pub participant_public_keys : Map String String
  pub required_signatures : ℕ

pub record KurrentChannelConfig : Type 0 where
  pub protocol_version : ℕ
  pub network_profile : String
  pub genesis_or_devnet_id : Option String
  pub channel_id : String
  pub participants : List String
  pub challenge_policy : ChallengePolicy
  pub access_manifest : AccessManifest
  pub expected_lane_id : Option String

pub record FundingState : Type 0 where
  pub funding_outpoint : String
  pub total_principal : ℕ
  pub principal_by_participant : Map String ℕ
  pub fee_reserve : ℕ
  pub covenant_id : Option String
  pub expected_lane_id : Option String
  pub script_covenant_hash : String

pub record LatestStateHeader : Type 0 where
  pub network_profile : String
  pub genesis_or_devnet_id : Option String
  pub funding_outpoint : String
  pub channel_id : String
  pub factory_id : Option String
  pub virtual_channel_id : Option String
  pub state_number : ℕ
  pub previous_state_commitment : String
  pub new_state_commitment : String
  pub settlement_template_hash : String
  pub fee_policy_hash : Option String
  pub challenge_policy_hash : String
  pub participant_set_hash : String
  pub covenant_id : Option String
  pub expected_lane_id : Option String
  pub script_covenant_hash : String
  pub protocol_version : ℕ
  pub domain_separator : String

pub record StateUpdate : Type 0 where
  pub header : LatestStateHeader
  pub balances : Map String ℕ
  pub participant_signatures : Map String String

pub record SettlementTemplate : Type 0 where
  pub template_id : String
  pub outputs : Map String ℕ
  pub refund_after_daa : Option ℕ
  pub script_covenant_hash : String

-- The fields of a receipt that its hash covers: `ChannelReceiptScope`.
pub record ChannelReceiptScope : Type 0 where
  pub protocol_version : ℕ
  pub network_profile : String
  pub channel_id : String
  pub factory_id : Option String
  pub virtual_channel_id : Option String
  pub funding_outpoint : String
  pub output_id : String
  pub state_number : ℕ
  pub settlement_template_hash : String
  pub fee_policy_hash : Option String
  pub swap_id : Option String
  pub direction : Option String

pub record ChannelReceipt : Type 0 where
  pub protocol_version : ℕ
  pub network_profile : String
  pub channel_id : String
  pub factory_id : Option String
  pub virtual_channel_id : Option String
  pub funding_outpoint : String
  pub output_id : String
  pub state_number : ℕ
  pub settlement_template_hash : String
  pub fee_policy_hash : Option String
  pub swap_id : Option String
  pub direction : Option String
  pub receipt_hash : String

pub record ClaimScope : Type 0 where
  pub network_profile : String
  pub funding_outpoint : String
  pub output_id : String
  pub claim_subject : String

pub record SettlementEligibilityPolicy : Type 0 where
  pub response_window_daa : ℕ
  pub reorg_tolerance_daa : ℕ

pub record SettlementCandidateEvidence : Type 0 where
  pub network_profile : String
  pub funding_outpoint : String
  pub channel_id : String
  pub factory_id : Option String
  pub virtual_channel_id : Option String
  pub state_number : ℕ
  pub state_header_hash : String
  pub lane_id : String
  pub candidate_txid : String
  pub accepted_order_index : ℕ
  pub accepting_chain_block_hash : String
  pub daa_score : ℕ
  pub blue_score : ℕ

pub record SettlementEligibilityCandidate : Type 0 where
  pub update : StateUpdate
  pub evidence : SettlementCandidateEvidence

pub record SettlementFeePolicy : Type 0 where
  pub policy_id : String
  pub max_sponsor_fee : ℕ
  pub sponsor_mode : String

pub record SettlementSponsorEvidence : Type 0 where
  pub candidate_txid : String
  pub sponsor_input_outpoints : List String
  pub sponsor_input_total : ℕ
  pub sponsor_change_total : ℕ
  pub sponsor_fee : ℕ
  pub settlement_template_hash : String
  pub settlement_distribution_hash : String

pub record FeeSponsoredSettlementCandidate : Type 0 where
  pub eligibility : SettlementEligibilityCandidate
  pub sponsor : SettlementSponsorEvidence

pub record VirtualChannelState : Type 0 where
  pub virtual_channel_id : String
  pub channel_id : String
  pub balance_by_participant : Map String ℕ
  pub state_number : ℕ
  pub state_commitment : String

pub record FactoryState : Type 0 where
  pub factory_id : String
  pub network_profile : String
  pub total_principal : ℕ
  pub fee_reserve : ℕ
  pub virtual_channels : Map String VirtualChannelState
  pub materialised_receipts : List String

-- `touched_leaves` is the set inside `TouchedLeaves`.
pub record MaterialisationPlan : Type 0 where
  pub materialisation_id : String
  pub factory_id : String
  pub virtual_channel_id : String
  pub touched_leaves : List String
  pub principal_input_ids : List String
  pub fee_input_ids : List String
  pub principal_amount : ℕ
  pub fee_amount : ℕ
  pub output_amounts : Map String ℕ
