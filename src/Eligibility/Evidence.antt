-- ===== src/Eligibility/Evidence.antt =====
-- The response window and the evidence of a settlement candidate, of src/lib.rs.
use kurrent.Base.{
  Option, String, if◌then◌else◌, leb, list_eq, nat_eq, none, option_eq, show_u64, some, string_eq,
  ℕ, ◌!=◌, ◌%◌, ◌&&◌, ◌-◌, ◌<>◌, ◌^◌,
}
use kurrent.Errors.{
  KurrentError, Result, err, fail_if, non_monotonic_state, ok,
  settlement_eligibility_evidence_mismatch, wrong_channel_id, wrong_funding_outpoint, wrong_lane_id,
  wrong_network_profile, ◌>>◌,
}
use kurrent.External.{External, header_hash}
use kurrent.Lane.{validate_lane_id_field}
use kurrent.Types.{
  FundingState, KurrentChannelConfig, LatestStateHeader, SettlementCandidateEvidence,
  SettlementEligibilityCandidate,
}

abbrev pub min_response_window_daa : ℕ
min_response_window_daa = 1

abbrev pub max_response_window_daa : ℕ
max_response_window_daa = 2 ^ 32 - 1

abbrev pub mismatch : String → KurrentError
mismatch = settlement_eligibility_evidence_mismatch

unfoldable pub validate_response_window_daa : ℕ → Result ℕ
validate_response_window_daa response_window_daa =
    if leb min_response_window_daa response_window_daa
      && leb response_window_daa max_response_window_daa
    then ok (response_window_daa % 2 ^ 32)
    else err (
        mismatch (
          "response_window_daa must be in "
          <> show_u64 min_response_window_daa
          <> "..="
          <> show_u64 max_response_window_daa
          <> ", got "
          <> show_u64 response_window_daa))

abbrev pub Candidate : Type 0
Candidate = SettlementEligibilityCandidate

abbrev pub state_of : Candidate → ℕ
state_of c = c.update.header.state_number

abbrev pub index_of : Candidate → ℕ
index_of c = c.evidence.accepted_order_index

abbrev pub daa_of : Candidate → ℕ
daa_of c = c.evidence.daa_score

-- `if let Some(expected) = &config.expected_lane_id { … }`
unfoldable pub expected_lane : Option String → String → Result (Unit {0})
expected_lane none lane_id = ok tt
expected_lane (some expected) lane_id =
    fail_if (lane_id != expected) (wrong_lane_id (some expected) (some lane_id))

-- The comparisons of the evidence with header, funding and configuration.
unfoldable pub check_scope :
    KurrentChannelConfig
    → FundingState
    → LatestStateHeader
    → SettlementCandidateEvidence
    → Result (Unit {0})
check_scope config funding header evidence = do
  fail_if (evidence.network_profile != header.network_profile)
      (wrong_network_profile header.network_profile evidence.network_profile)
  fail_if (evidence.funding_outpoint != header.funding_outpoint)
      (wrong_funding_outpoint header.funding_outpoint evidence.funding_outpoint)
  fail_if (evidence.funding_outpoint != funding.funding_outpoint)
      (wrong_funding_outpoint funding.funding_outpoint evidence.funding_outpoint)
  fail_if (evidence.channel_id != header.channel_id)
      (wrong_channel_id header.channel_id evidence.channel_id)
  fail_if (evidence.channel_id != config.channel_id)
      (wrong_channel_id config.channel_id evidence.channel_id)
  fail_if (evidence.factory_id != header.factory_id)
      (mismatch "candidate factory scope does not match state header")
  fail_if (evidence.virtual_channel_id != header.virtual_channel_id)
      (mismatch "candidate virtual-channel scope does not match state header")
  fail_if (evidence.state_number != header.state_number)
      (non_monotonic_state header.state_number evidence.state_number)

unfoldable pub validate_settlement_candidate_evidence :
    External → KurrentChannelConfig → FundingState → Candidate → Result (Unit {0})
unfolding check_scope expected_lane
validate_settlement_candidate_evidence x config funding candidate = do
  let header = candidate.update.header
  let evidence = candidate.evidence
  check_scope config funding header evidence
  fail_if (evidence.state_header_hash != header_hash x header)
      (mismatch "candidate state-header hash does not match signed state")
  validate_lane_id_field x "candidate.lane_id" (some evidence.lane_id)
  expected_lane config.expected_lane_id evidence.lane_id
  fail_if (header.expected_lane_id != some evidence.lane_id)
      (wrong_lane_id header.expected_lane_id (some evidence.lane_id))
