-- ===== src/Driver/Lane.antt =====
-- The lane reconstruction that the evidence verifiers of drivers/kaspa-devnet/src/main.rs repeat: lane
-- identifier and key, activity blocks, and the KIP-21 proof of the lane's tip.
use kurrent.Base.{
  Bool, Eq, List, Option, String, [], as_bytes, if◌then◌else◌, length, list_eq, ltb, nat_eq, none,
  not, option_eq, show_u64, some, string_eq, ℕ, ◌%◌, ◌+◌, ◌<>◌, ◌==◌, ◌^◌, ◌∷◌,
}
use kurrent.Bytes.{Bytes}
use kurrent.Driver.{Answer, Host, map_err, ok, ok_or, require, ◌>>=◌, ◌>>◌}
use kurrent.Driver.Require.{
  require_eq, require_same, require_text, required_str, required_u64, required_value,
}
pub mod Chain
pub mod Leaves
pub mod Proof

-- The crates for lanes and sparse Merkle proofs.
pub record SeqCommit : Type 1 where
  pub Hash : Type 0
  pub hash_eq : Eq Hash
  pub from_str : String → Answer Hash
  pub to_string : Hash → String
  pub debug_tip : Option Hash → String
  pub lane_key : Bytes → Hash
  pub mergeset_context_hash : ℕ → ℕ → ℕ → Hash
  pub activity_leaf : Hash → ℕ → ℕ → Hash
  pub activity_digest_lane : List Hash → Hash
  pub lane_tip_next : Hash → Hash → Hash → Hash → Hash
  pub Proof : Type 0
  pub proof_from_bytes : Bytes → Answer Proof
  pub smt_leaf_hash : Hash → ℕ → Hash
  pub compute_root : Proof → Hash → Option Hash → Answer Hash
  pub verify_smt_metadata : Hash → Hash → Hash → Hash → Hash → Hash → Answer (Unit {0})

-- `{:?}` of an optional integer.
abbrev debug_score : Option ℕ → String
debug_score none = "None"
debug_score (some n) = "Some(" <> show_u64 n <> ")"

-- The plain sum of a release build, and `checked_add` with its error.
abbrev pub wrapping_order : ℕ → ℕ → Answer ℕ
wrapping_order start index = ok ((start + index) % 2 ^ 64)

abbrev pub checked_order : String → ℕ → ℕ → Answer ℕ
checked_order label start index =
    ok_or (if ltb (start + index) (2 ^ 64) then some (start + index) else none)
      (label <> " accepted-order index overflow")

module _ (d : Host) (k : SeqCommit) where
  unfoldable pub lane_id_bytes : String → String → Answer Bytes
  lane_id_bytes value label = do
    bytes ← map_err (d.decode value) (λ e. label <> " is not valid hex: " <> e)
    require (length bytes == 20) (label <> " must be 20 bytes, got " <> show_u64 (length bytes))
    ok bytes

  unfoldable pub required_hash : d.Value → String → Answer k.Hash
  required_hash value pointer = do
    text ← required_str d value pointer
    map_err (k.from_str text) (λ e. pointer <> " is not a valid hash " <> text <> ": " <> e)

  -- `required_array`
  unfoldable pub required_array : d.Value → String → Answer (List d.Value)
  required_array value pointer =
      ok_or (elim (d.pointer value pointer) [ none ↦ none | some v ↦ d.as_array v ])
        ("missing required array pointer " <> pointer <> " in " <> d.show value)

  -- The lane of the report, which is the one of the state evidence, and its key.
  unfoldable pub report_lane : d.Value → d.Value → String → String → Answer (String × k.Hash)
  report_lane state report label id_label = do
    lane ← required_str d report "/expected_lane_id"
    bound ← required_str d state "/lane_binding/expected_lane_id"
    require_eq lane bound (label <> " expected lane matches state evidence")
    bytes ← lane_id_bytes lane (label <> id_label)
    require_text d report "/lane_key" (k.to_string (k.lane_key bytes)) (label <> " lane key")
    ok (lane, k.lane_key bytes)

  -- The tip of the lane and its blue score, after the blocks so far.
  pub record LaneTip : Type 0 where
    pub tip : Option k.Hash
    pub blue_score : Option ℕ

  module _ (order : ℕ → ℕ → Answer ℕ) (label lane : String) where
    -- One event of a block.
    unfoldable pub event_leaf : ℕ → d.Value → Answer k.Hash
    event_leaf accepted_order_start event = do
      require_text d event "/lane_id" lane (label <> " block event lane id")
      txid ← required_hash event "/txid"
      version ← required_u64 d event "/version"
      merge_index ← required_u64 d event "/merge_index"
      accepted_order_index ← required_u64 d event "/accepted_order_index"
      expected_order ← order accepted_order_start merge_index
      require (accepted_order_index == expected_order) (
          label
          <> " accepted-order index mismatch: expected "
          <> show_u64 expected_order
          <> ", actual "
          <> show_u64 accepted_order_index)
      require (ltb version (2 ^ 16))
          (label <> " tx version " <> show_u64 version <> " does not fit u16")
      require (ltb merge_index (2 ^ 32))
          (label <> " merge index " <> show_u64 merge_index <> " does not fit u32")
      recorded ← required_str d event "/activity_leaf"
      require_eq (k.to_string (k.activity_leaf txid version merge_index)) recorded
          (label <> " activity leaf")
      ok (k.activity_leaf txid version merge_index)

    unfoldable pub event_leaves : ℕ → List d.Value → Answer (List k.Hash)
    event_leaves start [] = ok []
    event_leaves start (event ∷ rest) =
        let more = event_leaves start rest in
        event_leaf start event >>= λ leaf. more >>= λ leaves. ok (leaf ∷ leaves)

    -- One activity block on top of the tip so far.
    unfoldable pub next_block : k.Hash → LaneTip → d.Value → Answer LaneTip
    next_block key before block = do
      parent_seq_commit ← required_hash block "/parent_seq_commit"
      timestamp ← required_u64 d block "/timestamp"
      daa_score ← required_u64 d block "/daa_score"
      blue_score ← required_u64 d block "/blue_score"
      accepted_order_start ← required_u64 d block "/accepted_order_start"
      events ← required_array block "/events"
      leaves ← event_leaves accepted_order_start events
      require (not (length leaves == 0)) (label <> " activity block contains no events")
      digest ← required_str d block "/activity_digest"
      require_eq (k.to_string (k.activity_digest_lane leaves)) digest (label <> " activity digest")
      recorded ← required_str d block "/lane_tip_after_block"
      let next_tip =
          k.lane_tip_next (elim before.tip [ none ↦ parent_seq_commit | some tip ↦ tip ]) key
            (k.activity_digest_lane leaves) (k.mergeset_context_hash timestamp daa_score blue_score)
      require_eq (k.to_string next_tip) recorded (label <> " reconstructed lane tip")
      ok (record { tip = some next_tip; blue_score = some blue_score })

    unfoldable pub next_blocks : k.Hash → LaneTip → List d.Value → Answer LaneTip
    next_blocks key before [] = ok before
    next_blocks key before (block ∷ rest) =
        next_block key before block >>= λ after. next_blocks key after rest

  -- `verify_lane_proof_material`
  unfoldable pub verify_lane_proof_material :
      k.Hash → k.Hash → ℕ → Bytes → k.Hash → k.Hash → k.Hash → k.Hash → Answer (Unit {0})
  verify_lane_proof_material key tip blue_score smt_proof digest parent inactivity merkle_root = do
    proof ← map_err (k.proof_from_bytes smt_proof) (λ e. "failed to parse KIP-21 SMT proof: " <> e)
    lanes_root ←
        map_err (k.compute_root proof key (some (k.smt_leaf_hash tip blue_score)))
          (λ e. "failed to compute KIP-21 lanes root: " <> e)
    map_err (k.verify_smt_metadata lanes_root digest parent inactivity merkle_root parent)
        (λ e. "KIP-21 lane proof does not chain to accepted_id_merkle_root: " <> e)

  -- The recorded proof against the tip that the blocks give.
  unfoldable pub verify_lane_tip : String → String → k.Hash → d.Value → LaneTip → Answer (Unit {0})
  verify_lane_tip label smt_label key report reconstructed = do
    tip ← required_hash report "/proof/lane/tip"
    blue_score ← required_u64 d report "/proof/lane/blue_score"
    require ((option_eq ⦃e = k.hash_eq⦄).beq (some tip) reconstructed.tip) (
        label
        <> " proof tip does not match reconstructed activity tip: proof "
        <> k.to_string tip
        <> ", reconstructed "
        <> k.debug_tip reconstructed.tip)
    require (some blue_score == reconstructed.blue_score) (
        label
        <> " proof blue score does not match reconstructed activity score: proof "
        <> show_u64 blue_score
        <> ", reconstructed "
        <> debug_score reconstructed.blue_score)
    text ← required_str d report "/proof/smt_proof"
    smt_proof ← map_err (d.decode text) (λ e. label <> smt_label <> " is not valid hex: " <> e)
    digest ← required_hash report "/proof/payload_and_ctx_digest"
    parent ← required_hash report "/proof/parent_seq_commit"
    inactivity ← required_hash report "/proof/inactivity_shortcut"
    merkle_root ← required_hash report "/proof_header/accepted_id_merkle_root"
    verify_lane_proof_material key tip blue_score smt_proof digest parent inactivity merkle_root
