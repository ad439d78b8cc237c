-- ===== src/Driver/Require/Laws.antt =====
-- When each `require_*` helper of drivers/kaspa-devnet/src/main.rs lets its caller go on.
use kurrent.Base.{String, nat_eq, some, string_eq, ℕ, ◌↔◌, ◌≡◌}
use kurrent.Driver.{Answer, Host, Transaction, ok}
use kurrent.Driver.Answers.{both_iff, map_err_iff, ok_or_iff, some_iff}
use kurrent.Driver.Require.{
  require_json_hash, require_model_passed, require_recorded_funding, require_recorded_outpoint,
  require_recorded_spend, require_recorded_txid, require_recorded_value, require_same,
  require_status, require_text, require_tx_lane, require_txid, required_str, required_typed,
  required_u64, required_value, str_at, tx_subnetwork_id_hex, u64_at,
}
use kurrent.External.{External, hash_json}
use kurrent.Driver.Require.Transactions.{
  IsOutpoint, Pays, Spends, require_eq_iff, require_input_outpoint_iff, require_outpoint_iff,
  require_output_value_iff,
}

module _ (d : Host) where
  -- The document has the text at the pointer.
  abbrev pub Text : d.Value → String → String → Type 0
  Text value pointer text = str_at d value pointer ≡ some text

  -- The document has the integer at the pointer.
  abbrev pub Number : d.Value → String → ℕ → Type 0
  Number value pointer n = u64_at d value pointer ≡ some n

  pub required_value_iff :
      (v : d.Value) (pointer : String) (a : d.Value)
      → (required_value d v pointer ≡ ok a) ↔ (d.pointer v pointer ≡ some a)
  unfolding required_value
  required_value_iff v pointer a = ok_or_iff _ a

  pub required_str_iff :
      (v : d.Value) (pointer : String) (s : String)
      → (required_str d v pointer ≡ ok s) ↔ Text v pointer s
  unfolding required_str
  required_str_iff v pointer s = ok_or_iff _ s

  pub required_u64_iff :
      (v : d.Value) (pointer : String) (n : ℕ)
      → (required_u64 d v pointer ≡ ok n) ↔ Number v pointer n
  unfolding required_u64
  required_u64_iff v pointer n = ok_or_iff _ n

  -- The document has a value of the type at the pointer.
  abbrev pub Typed : {T : Type 0} → (d.Value → Answer T) → d.Value → String → T → Type 0
  Typed from_value value pointer t =
      (found : d.Value) × (d.pointer value pointer ≡ some found) × (from_value found ≡ ok t)

  pub required_typed_iff :
      {T : Type 0} (from_value : d.Value → Answer T) (v : d.Value) (pointer : String) (t : T)
      → (required_typed d from_value v pointer ≡ ok t) ↔ Typed from_value v pointer t
  unfolding required_typed
  required_typed_iff from_value v pointer t =
      some_iff (required_value_iff _ _) (λ found. map_err_iff _ t)

  -- What the document has at the first pointer is the text.
  pub require_text_iff :
      (v : d.Value) (pointer text : String) (l : String)
      → (require_text d v pointer text l ≡ ok tt) ↔ ((s : String) × Text v pointer s × (s ≡ text))
  unfolding require_text
  require_text_iff v pointer text l = some_iff (required_str_iff _ _) (λ s. require_eq_iff _ _ l)

  pub require_same_iff :
      (v : d.Value) (pointer other : String) (l : String)
      → (require_same d v pointer other l ≡ ok tt)
        ↔ ((s : String) × Text v pointer s × ((t : String) × Text v other t × (s ≡ t)))
  unfolding require_same
  require_same_iff v pointer other l =
      some_iff (required_str_iff _ _)
        (λ s. some_iff (required_str_iff _ _) (λ t. require_eq_iff _ _ l))

  -- The document says that it passed.
  abbrev pub Passed : d.Value → Type 0
  Passed value = (s : String) × Text value "/status" s × (s ≡ "passed")

  pub require_status_iff : (v : d.Value) (l : String) → (require_status d v l ≡ ok tt) ↔ Passed v
  unfolding require_status
  require_status_iff v l = some_iff (required_str_iff _ _) (λ s. require_eq_iff _ _ _)

  -- What the document records of a transaction: its id, an outpoint, what it spends, a value.
  abbrev pub Named : d.Value → Transaction → String → Type 0
  Named report tx pointer = (s : String) × Text report pointer s × (tx.id ≡ s)

  abbrev pub Outpoint : d.Value → Transaction → String → ℕ → Type 0
  Outpoint report tx pointer index = (s : String) × Text report pointer s × IsOutpoint tx index s

  abbrev pub Spent : d.Value → Transaction → String → Type 0
  Spent report tx pointer = (s : String) × Text report pointer s × Spends tx 0 s

  abbrev pub Paid : d.Value → Transaction → ℕ → String → Type 0
  Paid report tx index pointer = (n : ℕ) × Number report pointer n × Pays tx index n

  -- Two pointers of the document have the same text.
  abbrev pub Same : d.Value → String → String → Type 0
  Same report pointer other =
      (s : String) × Text report pointer s × ((t : String) × Text report other t × (s ≡ t))

  -- The document has the given text at the pointer.
  abbrev pub Says : d.Value → String → String → Type 0
  Says report pointer text = (s : String) × Text report pointer s × (s ≡ text)

  pub require_recorded_txid_iff :
      (report : d.Value) (tx : Transaction) (pointer : String) (l : String)
      → (require_recorded_txid d report tx pointer l ≡ ok tt) ↔ Named report tx pointer
  unfolding require_recorded_txid require_txid
  require_recorded_txid_iff report tx pointer l =
      some_iff (required_str_iff _ _) (λ s. require_eq_iff _ _ l)

  pub require_recorded_outpoint_iff :
      (report : d.Value) (tx : Transaction) (pointer : String) (index : ℕ) (l : String)
      → (require_recorded_outpoint d report tx pointer index l ≡ ok tt)
        ↔ Outpoint report tx pointer index
  unfolding require_recorded_outpoint
  require_recorded_outpoint_iff report tx pointer index l =
      some_iff (required_str_iff _ _) (λ s. require_outpoint_iff s tx index l)

  pub require_recorded_spend_iff :
      (report : d.Value) (tx : Transaction) (pointer : String) (l : String)
      → (require_recorded_spend d report tx pointer l ≡ ok tt) ↔ Spent report tx pointer
  unfolding require_recorded_spend
  require_recorded_spend_iff report tx pointer l =
      some_iff (required_str_iff _ _) (λ s. require_input_outpoint_iff tx 0 s l)

  pub require_recorded_value_iff :
      (report : d.Value) (tx : Transaction) (index : ℕ) (pointer : String) (l : String)
      → (require_recorded_value d report tx index pointer l ≡ ok tt) ↔ Paid report tx index pointer
  unfolding require_recorded_value
  require_recorded_value_iff report tx index pointer l =
      some_iff (required_u64_iff _ _) (λ n. require_output_value_iff tx index n l)

  -- The evidence and its model validation have passed.
  abbrev pub ModelPassed : d.Value → Type 0
  ModelPassed report =
      Passed report
      × ((model : d.Value) × (d.pointer report "/model_validation" ≡ some model) × Passed model)

  -- The transaction is the recorded funding one, and has the recorded outpoint.
  abbrev pub Funding : d.Value → Transaction → Type 0
  Funding report tx = Named report tx "/funding/txid" × Outpoint report tx "/funding/outpoint" 0

  pub require_model_passed_iff :
      (report : d.Value) (l m : String)
      → (require_model_passed d report l m ≡ ok tt) ↔ ModelPassed report
  unfolding require_model_passed
  require_model_passed_iff report l m =
      both_iff (require_status_iff report l)
        (some_iff (required_value_iff report _) λ model. require_status_iff model m)

  pub require_recorded_funding_iff :
      (report : d.Value) (tx : Transaction) (l : String)
      → (require_recorded_funding d report tx l ≡ ok tt) ↔ Funding report tx
  unfolding require_recorded_funding
  require_recorded_funding_iff report tx l =
      both_iff (require_recorded_txid_iff report tx _ l)
        (require_recorded_outpoint_iff report tx _ 0 _)

  module _ (x : External) where
    -- The recorded hash is the hash of the recorded value.
    abbrev pub Hashed : d.Value → String → String → String → Type 0
    Hashed value domain value_pointer hash_pointer =
        (payload : d.Value) × (d.pointer value value_pointer ≡ some payload)
        × ((s : String) × Text value hash_pointer s × (hash_json x domain (d.to_vec payload) ≡ s))

    pub require_json_hash_iff :
        (value : d.Value) (domain value_pointer hash_pointer : String) (l : String)
        → (require_json_hash d x value domain value_pointer hash_pointer l ≡ ok tt)
          ↔ Hashed value domain value_pointer hash_pointer
    unfolding require_json_hash
    require_json_hash_iff value domain value_pointer hash_pointer l =
        some_iff (required_value_iff _ _)
          (λ payload. some_iff (required_str_iff _ _) (λ s. require_eq_iff _ _ l))

    pub require_tx_lane_iff :
        (tx : Transaction) (lane : String) (l : String)
        → (require_tx_lane d x tx lane l ≡ ok tt) ↔ (tx_subnetwork_id_hex d x tx ≡ lane)
    unfolding require_tx_lane
    require_tx_lane_iff tx lane l = require_eq_iff _ _ l
