-- ===== src/Channel.antt =====
-- `validate_channel_update` of src/lib.rs and the functions that it calls. The `BTreeMap`s and
-- `BTreeSet`s are lists in key order.
pub mod Sums
pub mod Spec
pub mod Checks
pub mod Sound
pub mod Panics
mod Tests
use kurrent.Base.{
  List, Map, Option, String, [], contains, contains_key, from_keys, get, if◌then◌else◌, insert_key,
  keys, length, list_eq, ltb, nat_eq, none, not, option_eq, same_keys, some, str_le, string_eq,
  values, ℕ, ◌!=◌, ◌%◌, ◌==◌, ◌^◌, ◌||◌, ◌∷◌,
}
use kurrent.Bytes.{Bytes}
use kurrent.Errors.{
  Result, conservation_failure, expect, fail_if, for_each, insufficient_signatures,
  invalid_participant_public_key, invalid_participant_signature, invalid_signature_quorum, ok,
  ok_or, panic, participant_set_mismatch, settlement_template_mismatch, unauthorized_participant,
  wrong_challenge_policy_hash, wrong_channel_id, wrong_covenant_id, wrong_domain_separator,
  wrong_funding_outpoint, wrong_genesis_or_devnet_id, wrong_network_profile, wrong_protocol_version,
  wrong_script_hash, ◌>>=◌, ◌>>◌,
}
use kurrent.External.{
  External, domain_participant_set, domain_state, domain_state_signature, hash_json, template_hash,
}
use kurrent.Lane.{decode_fixed_hex, validate_lane_binding}
use kurrent.Normative.Amounts.{checked_add, u64_max}
use kurrent.Types.{
  AccessManifest, FundingState, KurrentChannelConfig, SettlementTemplate, StateUpdate,
}

abbrev pub min_required_signatures : ℕ
min_required_signatures = 2

-- `try_fold` with `checked_add`, from an accumulator.
unfoldable pub checked_sum_from : ℕ → List ℕ → Option ℕ
checked_sum_from acc [] = some acc
checked_sum_from acc (v ∷ vs) = elim (checked_add acc v) [
  | none ↦ none
  | some acc' ↦ checked_sum_from acc' vs
]

unfoldable pub checked_sum : List ℕ → Option ℕ
unfolding checked_sum_from
checked_sum vs = checked_sum_from 0 vs

-- `sort_unstable` of texts: the order leaves no choice between equal texts.
insert_sorted : String → List String → List String
insert_sorted s [] = s ∷ []
insert_sorted s (t ∷ ts) = if str_le s t then s ∷ t ∷ ts else t ∷ insert_sorted s ts

unfoldable pub sort_strings : List String → List String
unfolding insert_sorted
sort_strings [] = []
sort_strings (s ∷ ss) = insert_sorted s (sort_strings ss)

-- One `ConservationFailure` comparison: a checked sum against the funded total.
unfoldable pub sum_is : List ℕ → ℕ → Result (Unit {0})
unfolding checked_sum
sum_is amounts total = do
  sum ← ok_or (checked_sum amounts) (conservation_failure total u64_max)
  fail_if (sum != total) (conservation_failure total sum)

-- The sets of participants, authorised participants and key holders, the quorum, and the
-- balances' holders. `len() as u16` wraps.
unfoldable pub check_participants : KurrentChannelConfig → StateUpdate → Result (Unit {0})
check_participants config update = do
  let manifest = config.access_manifest
  let participants = from_keys config.participants
  let count = length participants
  let quorum =
      invalid_signature_quorum manifest.required_signatures (count % 2 ^ 16) min_required_signatures
  fail_if (not (same_keys participants (from_keys manifest.authorised_participants)))
      participant_set_mismatch
  fail_if (not (same_keys (keys manifest.participant_public_keys) participants))
      participant_set_mismatch
  fail_if
      (ltb manifest.required_signatures min_required_signatures
        || ltb count manifest.required_signatures)
      quorum
  for_each (λ p. fail_if (not (contains p participants)) (unauthorized_participant p))
      (keys update.balances)
  for_each (λ p. fail_if (not (contains_key p update.balances)) participant_set_mismatch)
      participants

-- The three sums over the funded total.
unfoldable pub check_conservation :
    FundingState → StateUpdate → SettlementTemplate → Result (Unit {0})
check_conservation funding update template = do
  sum_is (values funding.principal_by_participant) funding.total_principal
  sum_is (values update.balances) funding.total_principal
  sum_is (values template.outputs) funding.total_principal

-- `len() as u16` of the valid signers against the quorum.
unfoldable pub enough_signers : ℕ → List String → Result (Unit {0})
enough_signers required valid =
    let actual = length valid % 2 ^ 16 in
    fail_if (ltb actual required) (insufficient_signatures required actual)

module _ (x : External) where
  unfoldable pub participant_set_hash : List String → String
  unfolding sort_strings
  participant_set_hash participants =
      hash_json x domain_participant_set (x.to_vec_participants (sort_strings participants))

  unfoldable pub state_update_signing_hash : StateUpdate → String
  state_update_signing_hash update =
      hash_json x domain_state_signature (x.to_vec_signing_payload update.header update.balances)

  -- Both `expect`s: the hash is hexadecimal, and has 32 bytes.
  unfoldable pub state_update_signing_digest : StateUpdate → Result Bytes
  unfolding state_update_signing_hash
  state_update_signing_digest update = do
    bytes ← expect (x.hex_decode (state_update_signing_hash update))
    if length bytes == 32 then ok bytes else panic

  unfoldable pub verify_participant_signature : String → String → String → Bytes → Result (Unit {0})
  verify_participant_signature participant public_key signature digest = do
    public_key_bytes ←
        ok_or (decode_fixed_hex x 32 public_key) (invalid_participant_public_key participant)
    signature_bytes ←
        ok_or (decode_fixed_hex x 64 signature) (invalid_participant_signature participant)
    fail_if (not (x.public_key_from_slice public_key_bytes))
        (invalid_participant_public_key participant)
    fail_if (not (x.signature_from_slice signature_bytes))
        (invalid_participant_signature participant)
    fail_if (not (x.schnorr_verify signature_bytes digest public_key_bytes))
        (invalid_participant_signature participant)

  -- The comparisons of the header with configuration, funding and template.
  unfoldable pub check_header :
      KurrentChannelConfig → FundingState → StateUpdate → SettlementTemplate → Result (Unit {0})
  check_header config funding update template = do
    let header = update.header
    fail_if (header.domain_separator != domain_state)
        (wrong_domain_separator domain_state header.domain_separator)
    fail_if (header.protocol_version != config.protocol_version)
        (wrong_protocol_version config.protocol_version header.protocol_version)
    fail_if (header.network_profile != config.network_profile)
        (wrong_network_profile config.network_profile header.network_profile)
    fail_if (header.genesis_or_devnet_id != config.genesis_or_devnet_id) wrong_genesis_or_devnet_id
    fail_if (header.channel_id != config.channel_id)
        (wrong_channel_id config.channel_id header.channel_id)
    fail_if (header.funding_outpoint != funding.funding_outpoint)
        (wrong_funding_outpoint funding.funding_outpoint header.funding_outpoint)
    validate_lane_binding x config funding update
    fail_if (header.settlement_template_hash != template_hash x template)
        settlement_template_mismatch
    fail_if (header.covenant_id != funding.covenant_id)
        (wrong_covenant_id funding.covenant_id header.covenant_id)
    fail_if
        (header.script_covenant_hash != funding.script_covenant_hash
          || template.script_covenant_hash != funding.script_covenant_hash)
        (wrong_script_hash funding.script_covenant_hash header.script_covenant_hash)
    fail_if (header.participant_set_hash != participant_set_hash config.participants)
        participant_set_mismatch
    fail_if
        (header.challenge_policy_hash
          != hash_json x domain_state (x.to_vec_challenge_policy config.challenge_policy))
        wrong_challenge_policy_hash

  -- One round of the signature loop; indexing the key map panics on a missing key.
  unfoldable pub check_signature : AccessManifest → Bytes → String × String → Result (Unit {0})
  check_signature manifest digest (participant, signature) = do
    fail_if (not (contains participant (from_keys manifest.authorised_participants)))
        (unauthorized_participant participant)
    public_key ← expect (get participant manifest.participant_public_keys)
    verify_participant_signature participant public_key signature digest

  -- The signature loop, with the set of valid signers so far.
  unfoldable pub collect_signatures :
      AccessManifest → Bytes → Map String String → List String → Result (List String)
  collect_signatures manifest digest [] valid = ok valid
  collect_signatures manifest digest ((participant, signature) ∷ rest) valid =
      check_signature manifest digest (participant, signature)
      >> collect_signatures manifest digest rest (insert_key participant valid).1

  unfoldable pub check_signatures : KurrentChannelConfig → StateUpdate → Result (Unit {0})
  unfolding enough_signers
  check_signatures config update = do
    digest ← state_update_signing_digest update
    valid ← collect_signatures config.access_manifest digest update.participant_signatures []
    enough_signers config.access_manifest.required_signatures valid

  unfoldable pub validate_channel_update :
      KurrentChannelConfig → FundingState → StateUpdate → SettlementTemplate → Result (Unit {0})
  validate_channel_update config funding update template = do
    check_header config funding update template
    check_participants config update
    check_conservation funding update template
    check_signatures config update
