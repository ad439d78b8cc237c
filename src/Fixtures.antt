-- ===== src/Fixtures.antt =====
-- Sample data for the tests: stand-ins for the third-party crates, and one funded channel.
use Prim.Native.Char.{code}
use kurrent.Base.{
  All, Option, String, [], arith, eqb, if◌then◌else◌, length, list_eq, ltb, nat_eq, none, option_eq,
  pair_eq, refl, replicate, some, string_eq, suc, true, zero, ℕ, ◌++◌, ◌+◌, ◌==◌, ◌∷◌, ◌≡◌,
}
use kurrent.Bytes.{Bytes, IsByte}
use kurrent.External.{External, ExternalLaws}
use kurrent.Normative.Hash.{AcceptsShortKeys, Mac}
use kurrent.Normative.Signature.{Secp}
use kurrent.Eligibility.Evidence.{Candidate}
use kurrent.Types.{
  SettlementEligibilityPolicy, FundingState, KurrentChannelConfig, LatestStateHeader,
  SettlementTemplate, StateUpdate, reject_conflict,
}

-- A MAC that refuses keys of more than 64 bytes and returns the payload.
abbrev pub echo_mac : Mac
echo_mac key payload = if ltb 64 (length key) then none else some payload

pub echo_mac-AcceptsShortKeys : AcceptsShortKeys echo_mac
echo_mac-AcceptsShortKeys key payload h = (payload, ground arith)

-- A signature scheme on the bytes themselves: a signature is the message in front of the key.
abbrev pub echo_secp : Secp
echo_secp = record {
  XOnly = Bytes;
  Signature = Bytes;
  Message = Bytes;
  Scalar = Bytes;
  PublicKey = Bytes;
  xonly_from_slice = some;
  signature_from_slice = some;
  message_from_digest_slice = some;
  verify_schnorr = λ sig msg key. sig == (msg ++ key);
  scalar_from_be_bytes = some;
  is_nonzero = λ k. true;
  from_xonly_even = λ k. k;
  mul_tweak = λ p k. some p;
  combine = λ p q. some (p ++ q);
  serialize_xonly = λ p. p;
}

-- A text for a list of bytes: each byte as so many marks, and a comma.
encode_byte : ℕ → String → String
encode_byte zero rest = String.◌∷◌ "," rest
encode_byte (suc b) rest = String.◌∷◌ "a" (encode_byte b rest)

unfoldable pub encode_marks : Bytes → String
unfolding encode_byte
encode_marks [] = ""
encode_marks (b ∷ bs) = encode_byte b (encode_marks bs)

-- The bytes of such a text, with `n` marks read already.
decode_from : ℕ → String → Option Bytes
decode_from n String.[] = some []
decode_from n (String.◌∷◌ c s) =
    let more = decode_from (n + 1) s in
    let next = decode_from 0 s in
    if eqb (code c) b'a' then more else (elim next [ none ↦ none | some bs ↦ some (n ∷ bs) ])

unfoldable pub decode_marks : String → Option Bytes
unfolding decode_from
decode_marks s = decode_from 0 s

decode_from-encode_byte :
    (n b : ℕ) (s : String) (bs : Bytes)
    → decode_from 0 s ≡ some bs
    → decode_from n (encode_byte b s) ≡ some ((n + b) ∷ bs)
unfolding decode_from encode_byte
decode_from-encode_byte n zero s bs h = ground (arith)
decode_from-encode_byte n (suc b) s bs h = ground (arith, decode_from-encode_byte (n + 1) b s bs h)

decode_marks-encode_marks : (bs : Bytes) → decode_marks (encode_marks bs) ≡ some bs
unfolding decode_marks encode_marks decode_from
decode_marks-encode_marks [] = refl
decode_marks-encode_marks (b ∷ bs) =
    ground (arith, decode_from-encode_byte 0 b (encode_marks bs) bs (decode_marks-encode_marks bs))

zeros-IsByte : (n : ℕ) → All IsByte (replicate n 0)
zeros-IsByte zero = tt
zeros-IsByte (suc n) = (omega arith, zeros-IsByte n)

-- Every digest is 32 zero bytes, so that all hashes of the sample agree.
abbrev pub zero_external : External
zero_external = record {
  sha256 = λ bs. replicate 32 0;
  hex_encode = encode_marks;
  hex_decode = decode_marks;
  to_vec_header = λ h. [];
  to_vec_signing_payload = λ h b. [];
  to_vec_template = λ t. [];
  to_vec_distribution = λ d. [];
  to_vec_fee_policy = λ p. [];
  to_vec_challenge_policy = λ p. [];
  to_vec_participants = λ ps. [];
  to_vec_receipt_scope = λ r. [];
  to_vec_claim_scope = λ s. [];
  to_vec_plan = λ p. [];
  public_key_from_slice = λ bs. true;
  signature_from_slice = λ bs. true;
  schnorr_verify = λ sig msg key. true;
}

pub zero_external-ExternalLaws : ExternalLaws zero_external
zero_external-ExternalLaws = record {
  hex_decode-hex_encode = λ bs h. decode_marks-encode_marks bs;
  sha256-IsArray = λ bs. (refl, zeros-IsByte 32);
}

abbrev pub digest_text : String
digest_text = ",,,,,,,,,,,,,,,,,,,,,,,,,,,,,,,,"

abbrev pub key_text : String
key_text = digest_text

abbrev pub signature_text : String
signature_text = ",,,,,,,,,,,,,,,,,,,,,,,,,,,,,,,,,,,,,,,,,,,,,,,,,,,,,,,,,,,,,,,,"

abbrev pub config : KurrentChannelConfig
config = record {
  protocol_version = 1;
  network_profile = "devnet";
  genesis_or_devnet_id = none;
  channel_id = "c";
  participants = "a" ∷ "b" ∷ [];
  challenge_policy = record {
    mode = "window";
    challenge_window_daa = 10;
    same_number_conflict_rule = reject_conflict;
  };
  access_manifest = record {
    authorised_participants = "a" ∷ "b" ∷ [];
    participant_public_keys = ("a", key_text) ∷ ("b", key_text) ∷ [];
    required_signatures = 2;
  };
  expected_lane_id = none;
}

abbrev pub funding : FundingState
funding = record {
  funding_outpoint = "f:0";
  total_principal = 100;
  principal_by_participant = ("a", 60) ∷ ("b", 40) ∷ [];
  fee_reserve = 0;
  covenant_id = none;
  expected_lane_id = none;
  script_covenant_hash = "s";
}

-- The first state of the channel, and its successor.
abbrev pub first_header : LatestStateHeader
first_header = record {
  network_profile = "devnet";
  genesis_or_devnet_id = none;
  funding_outpoint = "f:0";
  channel_id = "c";
  factory_id = none;
  virtual_channel_id = none;
  state_number = 0;
  previous_state_commitment = "";
  new_state_commitment = "s0";
  settlement_template_hash = digest_text;
  fee_policy_hash = none;
  challenge_policy_hash = digest_text;
  participant_set_hash = digest_text;
  covenant_id = none;
  expected_lane_id = none;
  script_covenant_hash = "s";
  protocol_version = 1;
  domain_separator = "KURRENT_STATE_V1";
}

abbrev pub first_update : StateUpdate
first_update = record {
  header = first_header;
  balances = ("a", 60) ∷ ("b", 40) ∷ [];
  participant_signatures = ("a", signature_text) ∷ ("b", signature_text) ∷ [];
}

abbrev pub second_header : LatestStateHeader
second_header = record first_header {
  state_number = 1;
  previous_state_commitment = "s0";
  new_state_commitment = "s1";
}

abbrev pub second_update : StateUpdate
second_update = record first_update {
  header = second_header;
  balances = ("a", 50) ∷ ("b", 50) ∷ [];
}

abbrev pub template : SettlementTemplate
template = record {
  template_id = "t";
  outputs = ("a", 60) ∷ ("b", 40) ∷ [];
  refund_after_daa = some 50;
  script_covenant_hash = "s";
}

-- A lane identifier, and settlement candidates on it.
abbrev lane : String
lane = ",a,,,,,,,,,,,,,,,,,,,"

-- A candidate: the update on the lane, its transaction, its index and its score.
abbrev pub candidate : StateUpdate → String → ℕ → ℕ → Candidate
candidate update txid index score = record {
  update = record update { header = record update.header { expected_lane_id = some lane } };
  evidence = record {
    network_profile = "devnet";
    funding_outpoint = "f:0";
    channel_id = "c";
    factory_id = none;
    virtual_channel_id = none;
    state_number = update.header.state_number;
    state_header_hash = digest_text;
    lane_id = lane;
    candidate_txid = txid;
    accepted_order_index = index;
    accepting_chain_block_hash = "b";
    daa_score = score;
    blue_score = score;
  };
}

abbrev pub policy : SettlementEligibilityPolicy
policy = record { response_window_daa = 10; reorg_tolerance_daa = 2 }
