-- ===== src/Channel/Panics.antt =====
-- The panics of `validate_channel_update` in src/lib.rs: the two `expect`s of the signing digest and
-- the index into the key map. The `expect` of `hash_json`, on serde_json, is outside the model.
use kurrent.Base.{
  Bool, List, Map, Option, String, [], arith, contains, contains_key, from_keys, get-contains-keys,
  insert_key, keys, list_eq, nat_eq, none, not, eq_true_of_not, option_eq, same_keys-contains, some,
  string_eq, true, values, ℕ, ◌∷◌, ◌≡◌, ◌≢◌,
}
use kurrent.Bytes.{Bytes}
use kurrent.Channel.{
  check_conservation, check_header, check_participants, check_signature, check_signatures,
  collect_signatures, sum_is, validate_channel_update, verify_participant_signature,
}
use kurrent.Channel.Checks.{ParticipantsAgree, check_participants_iff}
use kurrent.Channel.Sound.{signed_bytes, state_update_signing_digest-eq-ok}
use kurrent.Errors.{
  >>-eq-panic, KurrentError, fail_if, fail_if-ne-panic, fail_if_iff, for_each, for_each-ne-panic,
  guard-eq-panic, panic, participant_set_mismatch, unauthorized_participant,
}
use kurrent.External.{External, ExternalLaws}
use kurrent.Lane.{lane_matches, validate_lane_binding, validate_lane_id_field}
use kurrent.Types.{
  AccessManifest, FundingState, KurrentChannelConfig, SettlementTemplate, StateUpdate,
}

module _ (x : External) where
  lane_field-ne-panic :
      (field : String) (lane : Option String) → validate_lane_id_field x field lane ≢ panic
  unfolding validate_lane_id_field
  lane_field-ne-panic field none h = cc
  lane_field-ne-panic field (some lane) h = fail_if-ne-panic _ _ h

  lane_matches-ne-panic : (c f u : Option String) → lane_matches x c f u ≢ panic
  unfolding lane_matches
  lane_matches-ne-panic none f u h = cc
  lane_matches-ne-panic (some l) f u h = fail_if-ne-panic _ _ (guard-eq-panic _ _ _ h).1

  lane_binding-ne-panic :
      (config : KurrentChannelConfig) (funding : FundingState) (update : StateUpdate)
      → validate_lane_binding x config funding update ≢ panic
  unfolding validate_lane_binding
  lane_binding-ne-panic config funding update h =
      let (_, h) = >>-eq-panic _ _ h (lane_field-ne-panic _ config.expected_lane_id) in
      let (_, h) = >>-eq-panic _ _ h (lane_field-ne-panic _ funding.expected_lane_id) in
      let (_, h) = >>-eq-panic _ _ h (lane_field-ne-panic _ update.header.expected_lane_id) in
      lane_matches-ne-panic config.expected_lane_id funding.expected_lane_id
        update.header.expected_lane_id h

  check_header-ne-panic :
      (config : KurrentChannelConfig) (funding : FundingState) (update : StateUpdate)
      (template : SettlementTemplate)
      → check_header x config funding update template ≢ panic
  unfolding check_header
  check_header-ne-panic config funding update template h =
      ground (arith, lane_binding-ne-panic config funding update)

  verify-ne-panic :
      (p pk s : String) (digest : Bytes) → verify_participant_signature x p pk s digest ≢ panic
  unfolding verify_participant_signature
  verify-ne-panic p pk s digest h = ground arith

  -- A round panics only if an authorised participant has no key.
  check_signature-ne-panic :
      (manifest : AccessManifest) (digest : Bytes) (entry : String × String)
      → (contains entry.0 (from_keys manifest.authorised_participants) ≡ true
          → contains entry.0 (keys manifest.participant_public_keys) ≡ true)
      → check_signature x manifest digest entry ≢ panic
  unfolding check_signature
  check_signature-ne-panic manifest digest (p, s) keyed h =
      let (passed, h) = >>-eq-panic _ _ h (fail_if-ne-panic _ _) in
      let authorised = eq_true_of_not _ ((fail_if_iff _ _).0 passed) in
      let (pk, found) = get-contains-keys p manifest.participant_public_keys (keyed authorised) in
      ground (arith, h, found, verify-ne-panic p pk s digest)

  collect_signatures-ne-panic :
      (manifest : AccessManifest) (digest : Bytes) (sigs : Map String String) (valid : List String)
      → ((p : String)
          → contains p (from_keys manifest.authorised_participants) ≡ true
          → contains p (keys manifest.participant_public_keys) ≡ true)
      → collect_signatures x manifest digest sigs valid ≢ panic
  unfolding collect_signatures
  collect_signatures-ne-panic manifest digest [] valid keyed h = cc
  collect_signatures-ne-panic manifest digest ((p, s) ∷ rest) valid keyed h = ground (
    arith,
    check_signature-ne-panic manifest digest (p, s) (keyed p),
    collect_signatures-ne-panic manifest digest rest (insert_key p valid).1 keyed,
  )

sum_is-ne-panic : (vs : List ℕ) (total : ℕ) → sum_is vs total ≢ panic
unfolding sum_is
sum_is-ne-panic vs total h = ground arith

check_conservation-ne-panic :
    (funding : FundingState) (update : StateUpdate) (template : SettlementTemplate)
    → check_conservation funding update template ≢ panic
unfolding check_conservation
check_conservation-ne-panic funding update template h =
    let total = funding.total_principal in
    ground (
      arith,
      sum_is-ne-panic (values funding.principal_by_participant) total,
      sum_is-ne-panic (values update.balances) total,
      sum_is-ne-panic (values template.outputs) total,
    )

-- A loop of guards.
guards-ne-panic :
    (test : String → Bool) (e : String → KurrentError) (ps : List String)
    → for_each (λ p. fail_if (not (test p)) (e p)) ps ≢ panic
guards-ne-panic test e ps = for_each-ne-panic _ ps (λ p. fail_if-ne-panic (not (test p)) (e p))

check_participants-ne-panic :
    (config : KurrentChannelConfig) (update : StateUpdate)
    → check_participants config update ≢ panic
unfolding check_participants
check_participants-ne-panic config update h =
    let ps = from_keys config.participants in
    let known =
      guards-ne-panic (λ p. contains p ps) (λ p. unauthorized_participant p)
        (keys update.balances) in
    let complete =
      guards-ne-panic (λ p. contains_key p update.balances) (λ _. participant_set_mismatch) ps in
    ground (arith, known, complete)

-- Where the participants agree, every authorised participant has a key.
authorised-keyed :
    (config : KurrentChannelConfig) (update : StateUpdate)
    → ParticipantsAgree config update
    → (p : String) → contains p (from_keys config.access_manifest.authorised_participants) ≡ true
    → contains p (keys config.access_manifest.participant_public_keys) ≡ true
authorised-keyed config update a p h =
    (same_keys-contains _ _ p a.key_holders_agree).1
      ((same_keys-contains _ _ p a.authorised_agree).1 h)

module _ (x : External) (laws : ExternalLaws x) where
  -- Where serde_json serialises the hashed values, which the model takes for granted, and hex and
  -- SHA-256 are lawful, validation does not panic: both `expect`s of the signing digest succeed, and
  -- every signer that passes the membership test has a key.
  pub validate_channel_update-ne-panic :
      (config : KurrentChannelConfig) (funding : FundingState) (update : StateUpdate)
      (template : SettlementTemplate)
      → validate_channel_update x config funding update template ≢ panic
  unfolding validate_channel_update check_signatures
  validate_channel_update-ne-panic config funding update template h =
      let (_, h) = >>-eq-panic _ _ h (check_header-ne-panic x config funding update template) in
      let (agreed, h) = >>-eq-panic _ _ h (check_participants-ne-panic config update) in
      let (_, h) = >>-eq-panic _ _ h (check_conservation-ne-panic funding update template) in
      signatures ((check_participants_iff config update).0 agreed) h
    where
      signatures : ParticipantsAgree config update → check_signatures x config update ≢ panic
      signatures a h =
          let keyed = authorised-keyed config update a in
          ground (
            arith,
            state_update_signing_digest-eq-ok x laws update,
            collect_signatures-ne-panic x config.access_manifest (signed_bytes x laws update)
                update.participant_signatures [] keyed,
          )
