-- ===== src/Channel/Spec.antt =====
-- What an accepted channel update is, stated without the order of the checks.
use kurrent.Base.{
  bne_of_eq, eq_of_not_bne, list_eq, nat_eq, option_eq, or-false, or_false, string_eq, ◌↔◌, ◌≡◌,
}
use kurrent.Channel.{check_header, participant_set_hash}
use kurrent.Errors.{>>_iff, IsOk, fail_if-eq-ok, fail_if_iff, fail_if_ne_iff}
use kurrent.External.{External, domain_state, hash_json, template_hash}
use kurrent.Lane.{validate_lane_binding}
use kurrent.Types.{FundingState, KurrentChannelConfig, SettlementTemplate, StateUpdate}

module _ (x : External) where
  -- The header names this channel, its funding, its template and its policies.
  pub record HeaderBound (config : KurrentChannelConfig) (funding : FundingState)
      (update : StateUpdate) (template : SettlementTemplate) : Type 0 where
    pub domain : update.header.domain_separator ≡ domain_state
    pub version : update.header.protocol_version ≡ config.protocol_version
    pub network : update.header.network_profile ≡ config.network_profile
    pub genesis : update.header.genesis_or_devnet_id ≡ config.genesis_or_devnet_id
    pub channel : update.header.channel_id ≡ config.channel_id
    pub outpoint : update.header.funding_outpoint ≡ funding.funding_outpoint
    pub lane : IsOk (validate_lane_binding x config funding update)
    pub template_bound : update.header.settlement_template_hash ≡ template_hash x template
    pub covenant : update.header.covenant_id ≡ funding.covenant_id
    pub script : update.header.script_covenant_hash ≡ funding.script_covenant_hash
    pub template_script : template.script_covenant_hash ≡ funding.script_covenant_hash
    pub participants_bound :
        update.header.participant_set_hash ≡ participant_set_hash x config.participants
    pub challenge_bound :
        update.header.challenge_policy_hash
        ≡ hash_json x domain_state (x.to_vec_challenge_policy config.challenge_policy)

  -- Header checks pass exactly for a bound header.
  pub check_header_iff :
      (config : KurrentChannelConfig) (funding : FundingState) (update : StateUpdate)
      (template : SettlementTemplate)
      → IsOk (check_header x config funding update template)
        ↔ HeaderBound config funding update template
  unfolding check_header
  check_header_iff config funding update template = (forward, backward)
    where
      forward :
          IsOk (check_header x config funding update template)
          → HeaderBound config funding update template
      forward h =
          let (e1, h) = (fail_if_ne_iff _ _ _ _).0 h in
          let (e2, h) = (fail_if_ne_iff _ _ _ _).0 h in
          let (e3, h) = (fail_if_ne_iff _ _ _ _).0 h in
          let (e4, h) = (fail_if_ne_iff _ _ _ _).0 h in
          let (e5, h) = (fail_if_ne_iff _ _ _ _).0 h in
          let (e6, h) = (fail_if_ne_iff _ _ _ _).0 h in
          let (e7, h) = (>>_iff _ _).0 h in
          let (e8, h) = (fail_if_ne_iff _ _ _ _).0 h in
          let (e9, h) = (fail_if_ne_iff _ _ _ _).0 h in
          let (e10, h) = fail_if-eq-ok _ _ _ h in
          let (e11, h) = (fail_if_ne_iff _ _ _ _).0 h in
          let (s1, s2) = or-false _ _ e10 in
          record {
            domain = e1;
            version = e2;
            network = e3;
            genesis = e4;
            channel = e5;
            outpoint = e6;
            lane = e7;
            template_bound = e8;
            covenant = e9;
            script = eq_of_not_bne _ _ s1;
            template_script = eq_of_not_bne _ _ s2;
            participants_bound = e11;
            challenge_bound = eq_of_not_bne _ _ ((fail_if_iff _ _).0 h);
          }

      backward :
          HeaderBound config funding update template
          → IsOk (check_header x config funding update template)
      backward b = (fail_if_ne_iff _ _ _ _).1 (
        b.domain,
        (fail_if_ne_iff _ _ _ _).1 (
          b.version,
          (fail_if_ne_iff _ _ _ _).1 (
            b.network,
            (fail_if_ne_iff _ _ _ _).1 (
              b.genesis,
              (fail_if_ne_iff _ _ _ _).1 (
                b.channel,
                (fail_if_ne_iff _ _ _ _).1 (
                  b.outpoint,
                  (>>_iff _ _).1 (
                    b.lane,
                    (fail_if_ne_iff _ _ _ _).1 (
                      b.template_bound,
                      (fail_if_ne_iff _ _ _ _).1 (
                        b.covenant,
                        (>>_iff _ _).1 (
                          (fail_if_iff _ _).1
                              (or_false (bne_of_eq _ _ b.script) (bne_of_eq _ _ b.template_script)),
                          (fail_if_ne_iff _ _ _ _).1 (
                            b.participants_bound,
                            (fail_if_iff _ _).1 (bne_of_eq _ _ b.challenge_bound),
                          ),
                        ),
                      ),
                    ),
                  ),
                ),
              ),
            ),
          ),
        ),
      )
