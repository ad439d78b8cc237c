-- ===== src/Driver/Sample.antt =====
-- Sample data for the driver's verifiers: one machine with the evidence of a whole run.
use kurrent.Base.{
  true, List, Map, Option, String, [], as_bytes, contains, contains_key, get, map, if◌then◌else◌,
  list_eq, nat_eq, none, replicate, some, string_eq, false, ℕ, ◌+◌, ◌<>◌, ◌&&◌, ◌==◌, ◌||◌, ◌∷◌,
}
use kurrent.Bytes.{Bytes}
use kurrent.Driver.{Host, Progress, Transaction, TransactionOutput, err, ok}
use kurrent.Driver.Eligibility.{Models}
use kurrent.Driver.Lane.{SeqCommit}
use kurrent.Driver.Sample.Candidates.{
  candidates, decisions, sponsored_candidates, sponsored_decisions, the_policy,
}
use kurrent.Driver.Sample.Places.{Cursor, digest_a, digest_b}
use kurrent.Driver.Sample.Documents.{document}
use kurrent.Driver.Sample.Transactions.{transactions}
use kurrent.Eligibility.Decide.{SettlementEligibilityDecision, displaced, eligible_to_finalise}
use kurrent.Eligibility.Evidence.{Candidate}
use kurrent.External.{External}
use kurrent.Fixtures.{
  candidate, config, decode_marks, digest_text, encode_marks, first_header, first_update, funding,
  policy, second_header, template, zero_external,
}
use kurrent.Sponsor.{FeeSponsoredSettlementDecision}
use kurrent.Swap.{LnSwapEvidence}
use kurrent.Types.{
  ChannelReceipt, FeeSponsoredSettlementCandidate, SettlementFeePolicy, StateUpdate,
}
mod Candidates
mod Channel
pub mod Places
mod Documents
mod Payments
mod Settlement
mod Transactions

-- The digests of the two preimages and of an empty script differ from all others.
abbrev pub sample_external : External
sample_external = record zero_external {
  sha256 = λ bs.
      if bs == (1 ∷ []) || bs == (2 ∷ [])
      then bs
      else (if bs == (0 ∷ 0 ∷ []) then 1 ∷ [] else replicate 32 0);
  hex_encode = λ bs.
      if bs == (1 ∷ []) then digest_a else (if bs == (2 ∷ []) then digest_b else encode_marks bs);
  hex_decode = λ s.
      if s == digest_a
      then some (1 ∷ [])
      else (if s == digest_b then some (2 ∷ []) else decode_marks s);
}

-- Hashes are texts, one for each purpose.
abbrev pub commitments : SeqCommit
commitments = record {
  Hash = String;
  hash_eq = string_eq;
  from_str = λ s. ok s;
  to_string = λ h. h;
  debug_tip = λ h. "tip";
  lane_key = λ bytes. "k";
  mergeset_context_hash = λ t d b. "c";
  activity_leaf = λ t v m. "l";
  activity_digest_lane = λ leaves. "d";
  lane_tip_next = λ p k d c. "t";
  Proof = String;
  proof_from_bytes = λ bytes. ok "p";
  smt_leaf_hash = λ t b. "h";
  compute_root = λ p k l. ok "r";
  verify_smt_metadata = λ l d p i m q. ok tt;
}

abbrev swap : LnSwapEvidence
swap = record {
  protocol_version = 1;
  network_profile = "devnet";
  swap_id = "w";
  direction = "kaspa-to-ln";
  ln_payment_hash = digest_a;
  preimage = digest_a;
  preimage_hash = digest_a;
  kaspa_funding_outpoint = "f:0";
  kaspa_settlement_outpoint = "r:0";
  ln_amount_sat = 7;
  kaspa_amount_sompi = 8;
  amount = 8;
  recipient = "b";
  recipient_spk_sha256 = digest_a;
  script_hash = "h";
  evidence_file_hashes = [];
}

abbrev receipt : ChannelReceipt
receipt = record {
  protocol_version = 1;
  network_profile = "devnet";
  channel_id = "c";
  factory_id = none;
  virtual_channel_id = none;
  funding_outpoint = "f:0";
  output_id = "r:0";
  state_number = 2;
  settlement_template_hash = "h";
  fee_policy_hash = none;
  swap_id = some "w";
  direction = some "kaspa-to-ln";
  receipt_hash = digest_text;
}

abbrev text_at : Cursor → Option String
text_at c = get c.place c.texts

-- The entries of the lists in a document.
abbrev items : Map String String → String → List String
items texts place =
    if place == "/lane_events"
    then "0" ∷ "1" ∷ "2" ∷ []
    else (if place == "/lane_activity_blocks/0/events"
          && contains_key "/lane_activity_blocks/0/events/1/txid" texts
        then "0" ∷ "1" ∷ []
        else (if contains place (
              "/wrong_lane_absence" ∷ "/lane_activity_blocks" ∷ "/lane_activity_blocks/0/events"
              ∷ [])
            then "0" ∷ []
            else []))

-- The payment hash of a report, which is that of its model too.
abbrev payment_hash : Cursor → String
payment_hash c = elim (get "/ln_payment_hash" c.texts) [ none ↦ "" | some h ↦ h ]

-- Each direction has a swap of its own, with its receipt.
abbrev direction_of : Cursor → String
direction_of c = if payment_hash c == digest_a then "ln-to-kaspa" else "kaspa-to-ln"

-- The bytes of a file are its name.
abbrev pub machine : Host
machine = record {
  Value = Cursor;
  pointer = λ c pointer. some (record c { place = c.place <> pointer });
  as_str = text_at;
  as_u64 = λ c. get c.place c.numbers;
  is_null = λ c. true;
  as_bool = λ c. some true;
  as_array =
      λ c. some (map (λ i. record c { place = c.place <> "/" <> i }) (items c.texts c.place));
  show = λ c. c.place;
  value_eq = λ c k. true;
  to_vec = λ c. [];
  from_slice = λ bytes. ok (document bytes);
  swap_evidence_from_value = λ c. ok (record swap {
    ln_payment_hash = payment_hash c;
    preimage = payment_hash c;
    preimage_hash = payment_hash c;
    swap_id = direction_of c;
    direction = direction_of c;
  });
  receipt_from_value = λ c.
      ok (record receipt { swap_id = some (direction_of c); direction = some (direction_of c) });
  debug = λ e. "error";
  transaction_from_slice = λ bytes. ok (transactions bytes);
  decode = λ s.
      if s == digest_a
      then ok (1 ∷ [])
      else (if s == digest_b then ok (2 ∷ []) else ok (as_bytes s));
  trim = λ s. s;
  join = λ directory name. name;
  is_absolute = λ path. false;
  current_dir = some "";
  read = λ path. ok (as_bytes path);
  read_to_string = λ path. ok path;
  display = λ path. path;
}

abbrev pub start : Progress
start = record { checks = []; decoded_transactions = 0; verified_hex_records = 0 }

abbrev pub models : Models machine
models = record {
  policy = λ c. ok policy;
  config = λ c. ok config;
  funding = λ c. ok funding;
  template = λ c. ok template;
  candidates = λ c. ok candidates;
  decisions = λ c. ok decisions;
  fee_policy = λ c. ok the_policy;
  sponsored_candidates = λ c. ok sponsored_candidates;
  sponsored_decisions = λ c. ok sponsored_decisions;
  outpoints = λ c. ok ("s:0" ∷ []);
}
