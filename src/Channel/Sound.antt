-- ===== src/Channel/Sound.antt =====
-- `validate_channel_update` of src/lib.rs accepts exactly the authorised updates.
use kurrent.Base.{
  All, [], arith, as_bytes, beq_of_eq, length, list_eq, nat_eq, option_eq, string_eq, ◌%◌, ◌++◌,
  ◌^◌, ◌∷◌, ◌≡◌, ◌≤◌,
}
use kurrent.Bytes.{Bytes}
use kurrent.Channel.{state_update_signing_digest}
use kurrent.Channel.Checks.{Conserves, IsSigned, ParticipantsAgree, signers}
use kurrent.Channel.Spec.{HeaderBound}
use kurrent.Errors.{ok}
use kurrent.External.{External, ExternalLaws, domain_state_signature, hash_json}
use kurrent.Types.{FundingState, KurrentChannelConfig, SettlementTemplate, StateUpdate}

module _ (x : External) (laws : ExternalLaws x) where
  -- The 32 bytes that the participants sign.
  abbrev pub signed_bytes : StateUpdate → Bytes
  signed_bytes update = x.sha256 (
      as_bytes domain_state_signature
      ++ (0 ∷ x.to_vec_signing_payload update.header update.balances))

  -- Neither `expect` in the digest can fail.
  pub state_update_signing_digest-eq-ok :
      (update : StateUpdate) → state_update_signing_digest x update ≡ ok (signed_bytes update)
  unfolding state_update_signing_digest hash_json
  state_update_signing_digest-eq-ok update =
      let (len, bytes) = laws.sha256-IsArray _ in
      let back = laws.hex_decode-hex_encode (signed_bytes update) bytes in
      let width = beq_of_eq (length (signed_bytes update)) 32 len in ground (arith, back, width)

  -- Enough distinct authorised signers; the code counts them as a `u16`.
  pub record Quorum (config : KurrentChannelConfig) (update : StateUpdate) : Type 0 where
    pub all_signed :
        All (IsSigned x config.access_manifest (signed_bytes update)) update.participant_signatures
    pub enough :
        config.access_manifest.required_signatures
        ≤ length (signers update.participant_signatures []) % 2 ^ 16

  pub record IsAuthorised (config : KurrentChannelConfig) (funding : FundingState)
      (update : StateUpdate) (template : SettlementTemplate) : Type 0 where
    pub header_bound : HeaderBound x config funding update template
    pub participants_agree : ParticipantsAgree config update
    pub conserves : Conserves funding update template
    pub quorum : Quorum config update
