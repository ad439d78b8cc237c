-- ===== src/Eligibility/Scoped.antt =====
-- Which evidence of a settlement candidate `validate_settlement_candidate_evidence` in src/lib.rs
-- accepts.
use kurrent.Base.{
  Option, String, bne_of_eq, eq_of_not_bne, eq_true_of_not, list_eq, nat_eq, none, option_eq, refl,
  some, string_eq, true, ◌↔◌, ◌≡◌,
}
use kurrent.Eligibility.Evidence.{
  Candidate, check_scope, expected_lane, validate_settlement_candidate_evidence,
}
use kurrent.Errors.{>>_iff, IsOk, fail_if_iff, fail_if_ne_iff}
use kurrent.External.{External, header_hash}
use kurrent.Lane.{is_valid_kurrent_user_lane_id, validate_lane_id_field}
use kurrent.Types.{
  FundingState, KurrentChannelConfig, LatestStateHeader, SettlementCandidateEvidence,
}

-- The evidence names the scope of the header, of the funding and of the channel.
pub record InScope (config : KurrentChannelConfig) (funding : FundingState)
    (header : LatestStateHeader) (evidence : SettlementCandidateEvidence) : Type 0 where
  pub network : evidence.network_profile ≡ header.network_profile
  pub outpoint : evidence.funding_outpoint ≡ header.funding_outpoint
  pub funded : evidence.funding_outpoint ≡ funding.funding_outpoint
  pub channel : evidence.channel_id ≡ header.channel_id
  pub configured : evidence.channel_id ≡ config.channel_id
  pub factory : evidence.factory_id ≡ header.factory_id
  pub virtual_channel : evidence.virtual_channel_id ≡ header.virtual_channel_id
  pub state : evidence.state_number ≡ header.state_number

check_scope_iff :
    (config : KurrentChannelConfig) (funding : FundingState) (header : LatestStateHeader)
    (evidence : SettlementCandidateEvidence)
    → IsOk (check_scope config funding header evidence) ↔ InScope config funding header evidence
unfolding check_scope
check_scope_iff config funding header evidence = (forward, backward)
  where
    forward :
        IsOk (check_scope config funding header evidence) → InScope config funding header evidence
    forward h =
        let (e1, h) = (fail_if_ne_iff _ _ _ _).0 h in
        let (e2, h) = (fail_if_ne_iff _ _ _ _).0 h in
        let (e3, h) = (fail_if_ne_iff _ _ _ _).0 h in
        let (e4, h) = (fail_if_ne_iff _ _ _ _).0 h in
        let (e5, h) = (fail_if_ne_iff _ _ _ _).0 h in
        let (e6, h) = (fail_if_ne_iff _ _ _ _).0 h in
        let (e7, h) = (fail_if_ne_iff _ _ _ _).0 h in
        record {
          network = e1;
          outpoint = e2;
          funded = e3;
          channel = e4;
          configured = e5;
          factory = e6;
          virtual_channel = e7;
          state = eq_of_not_bne _ _ ((fail_if_iff _ _).0 h);
        }

    backward :
        InScope config funding header evidence → IsOk (check_scope config funding header evidence)
    backward s = (fail_if_ne_iff _ _ _ _).1 (
      s.network,
      (fail_if_ne_iff _ _ _ _).1 (
        s.outpoint,
        (fail_if_ne_iff _ _ _ _).1 (
          s.funded,
          (fail_if_ne_iff _ _ _ _).1 (
            s.channel,
            (fail_if_ne_iff _ _ _ _).1 (
              s.configured,
              (fail_if_ne_iff _ _ _ _).1 (
                s.factory,
                (fail_if_ne_iff _ _ _ _).1
                    (s.virtual_channel, (fail_if_iff _ _).1 (bne_of_eq _ _ s.state)),
              ),
            ),
          ),
        ),
      ),
    )

-- A lane that the configuration asks for is this one.
abbrev pub OnLane : Option String → String → Type 0
OnLane none lane_id = Unit
OnLane (some expected) lane_id = lane_id ≡ expected

expected_lane_iff :
    (expected : Option String) (lane_id : String)
    → IsOk (expected_lane expected lane_id) ↔ OnLane expected lane_id
unfolding expected_lane
expected_lane_iff none lane_id = ((λ h. tt), (λ v. refl))
expected_lane_iff (some expected) lane_id =
    ((λ h. eq_of_not_bne _ _ ((fail_if_iff _ _).0 h)), (λ e. (fail_if_iff _ _).1 (bne_of_eq _ _ e)))

module _ (x : External) where
  -- The evidence is in scope, carries the hash of the candidate's header, and names a valid lane, the
  -- one of the header and of the configuration.
  pub record IsEvidence (config : KurrentChannelConfig) (funding : FundingState) (c : Candidate)
      : Type 0 where
    pub in_scope : InScope config funding c.update.header c.evidence
    pub of_header : c.evidence.state_header_hash ≡ header_hash x c.update.header
    pub valid_lane : is_valid_kurrent_user_lane_id x c.evidence.lane_id ≡ true
    pub configured_lane : OnLane config.expected_lane_id c.evidence.lane_id
    pub header_lane : c.update.header.expected_lane_id ≡ some c.evidence.lane_id

  valid_lane_iff :
      (field lane_id : String)
      → IsOk (validate_lane_id_field x field (some lane_id))
        ↔ (is_valid_kurrent_user_lane_id x lane_id ≡ true)
  unfolding validate_lane_id_field
  valid_lane_iff field lane_id =
      ((λ h. eq_true_of_not _ ((fail_if_iff _ _).0 h)), (λ e. (fail_if_iff _ _).1 (rw e refl)))

  pub validate_settlement_candidate_evidence_iff :
      (config : KurrentChannelConfig) (funding : FundingState) (c : Candidate)
      → IsOk (validate_settlement_candidate_evidence x config funding c)
        ↔ IsEvidence config funding c
  unfolding validate_settlement_candidate_evidence
  validate_settlement_candidate_evidence_iff config funding c = (forward, backward)
    where
      forward :
          IsOk (validate_settlement_candidate_evidence x config funding c)
          → IsEvidence config funding c
      forward h =
          let (scope, h) = (>>_iff _ _).0 h in
          let (hash, h) = (fail_if_ne_iff _ _ _ _).0 h in
          let (valid, h) = (>>_iff _ _).0 h in
          let (lane, h) = (>>_iff _ _).0 h in
          record {
            in_scope = (check_scope_iff config funding c.update.header c.evidence).0 scope;
            of_header = hash;
            valid_lane = (valid_lane_iff _ c.evidence.lane_id).0 valid;
            configured_lane = (expected_lane_iff config.expected_lane_id _).0 lane;
            header_lane = eq_of_not_bne _ _ ((fail_if_iff _ _).0 h);
          }

      backward :
          IsEvidence config funding c
          → IsOk (validate_settlement_candidate_evidence x config funding c)
      backward e = (>>_iff _ _).1 (
        (check_scope_iff config funding c.update.header c.evidence).1 e.in_scope,
        (fail_if_ne_iff _ _ _ _).1 (
          e.of_header,
          (>>_iff _ _).1 (
            (valid_lane_iff _ c.evidence.lane_id).1 e.valid_lane,
            (>>_iff _ _).1 (
              (expected_lane_iff config.expected_lane_id _).1 e.configured_lane,
              (fail_if_iff _ _).1 (bne_of_eq _ _ e.header_lane),
            ),
          ),
        ),
      )
