-- ===== src/Driver/Require.antt =====
-- The `require_*` and `required_*` helpers of drivers/kaspa-devnet/src/main.rs.
use kurrent.Base.{
  List, Option, String, [], length, list_eq, ltb, nat_eq, none, not, some, string_eq, zero, suc, ℕ,
  ◌!=◌, ◌<>◌, ◌==◌, ◌∷◌, show_u64,
}
use kurrent.Driver.{
  Answer, Host, Transaction, TransactionInput, TransactionOutput, map_err, ok_or, require, ◌>>=◌,
  ◌>>◌,
}
use kurrent.External.{External, hash_json, sha256_hex}
pub mod Laws
pub mod Transactions

-- `Vec::get`
unfoldable pub get_elem? : {A : Type 0} → List A → ℕ → Option A
get_elem? [] i = none
get_elem? (a ∷ rest) zero = some a
get_elem? (a ∷ rest) (suc i) = get_elem? rest i

unfoldable pub require_eq : String → String → String → Answer (Unit {0})
require_eq actual expected label =
    require (actual == expected) (label <> ": expected " <> expected <> ", actual " <> actual)

unfoldable pub require_u64_eq : ℕ → ℕ → String → Answer (Unit {0})
require_u64_eq actual expected label =
    require (actual == expected)
      (label <> ": expected " <> show_u64 expected <> ", actual " <> show_u64 actual)

unfoldable pub require_not_eq : String → String → String → Answer (Unit {0})
require_not_eq actual forbidden label =
    require (actual != forbidden) (label <> ": value must not be " <> forbidden)

unfoldable pub require_output_index : Transaction → ℕ → String → Answer (Unit {0})
require_output_index tx output_index label =
    require (ltb output_index (length tx.outputs))
      (label <> ": missing output " <> show_u64 output_index)

unfoldable pub require_output_count : Transaction → ℕ → String → Answer (Unit {0})
require_output_count tx expected label = require (length tx.outputs == expected) (
    label
    <> ": expected "
    <> show_u64 expected
    <> " outputs, actual "
    <> show_u64 (length tx.outputs))

-- The text of an outpoint.
abbrev pub outpoint_text : String → ℕ → String
outpoint_text id index = id <> ":" <> show_u64 index

unfoldable pub require_outpoint : String → Transaction → ℕ → String → Answer (Unit {0})
require_outpoint expected tx output_index label = do
  require_output_index tx output_index label
  require_eq (outpoint_text tx.id output_index) expected label

unfoldable pub require_input_outpoint : Transaction → ℕ → String → String → Answer (Unit {0})
require_input_outpoint tx input_index expected label = do
  input ←
      ok_or (get_elem? tx.inputs input_index) (label <> ": missing input " <> show_u64 input_index)
  require_eq (outpoint_text input.previous_outpoint.transaction_id input.previous_outpoint.index)
      expected label

unfoldable pub require_input_sequence : Transaction → ℕ → ℕ → String → Answer (Unit {0})
require_input_sequence tx input_index expected label = do
  input ←
      ok_or (get_elem? tx.inputs input_index) (label <> ": missing input " <> show_u64 input_index)
  require (input.sequence == expected) (
      label
      <> ": expected sequence "
      <> show_u64 expected
      <> ", actual "
      <> show_u64 input.sequence)

unfoldable pub require_output_value : Transaction → ℕ → ℕ → String → Answer (Unit {0})
require_output_value tx output_index expected label = do
  output ←
      ok_or (get_elem? tx.outputs output_index)
        (label <> ": missing output " <> show_u64 output_index)
  require (output.value == expected)
      (label <> ": expected value " <> show_u64 expected <> ", actual " <> show_u64 output.value)

unfoldable pub require_txid : Transaction → String → String → Answer (Unit {0})
require_txid tx expected label = require_eq tx.id expected label

-- The documents and what is read from them.
module _ (d : Host) where
  -- `pointer(…).and_then(Value::as_str)`
  abbrev pub str_at : d.Value → String → Option String
  str_at value pointer = elim (d.pointer value pointer) [ none ↦ none | some v ↦ d.as_str v ]

  -- `pointer(…).and_then(Value::as_u64)`
  abbrev pub u64_at : d.Value → String → Option ℕ
  u64_at value pointer = elim (d.pointer value pointer) [ none ↦ none | some v ↦ d.as_u64 v ]

  unfoldable pub required_value : d.Value → String → Answer d.Value
  required_value value pointer =
      ok_or (d.pointer value pointer)
        ("missing required JSON pointer " <> pointer <> " in " <> d.show value)

  unfoldable pub required_str : d.Value → String → Answer String
  required_str value pointer =
      ok_or (str_at value pointer)
        ("missing required string pointer " <> pointer <> " in " <> d.show value)

  unfoldable pub required_u64 : d.Value → String → Answer ℕ
  required_u64 value pointer =
      ok_or (u64_at value pointer)
        ("missing required integer pointer " <> pointer <> " in " <> d.show value)

  unfoldable pub required_typed : {T : Type 0} → (d.Value → Answer T) → d.Value → String → Answer T
  required_typed from_value value pointer = do
    found ← required_value value pointer
    map_err (from_value found) (λ e. "failed to decode typed JSON pointer " <> pointer <> ": " <> e)

  unfoldable pub require_status : d.Value → String → Answer (Unit {0})
  require_status value label = do
    status ← required_str value "/status"
    require_eq status "passed" (label <> " status")

  -- `require_eq(required_str(&report, pointer)?, expected, label)`
  unfoldable pub require_text : d.Value → String → String → String → Answer (Unit {0})
  require_text report pointer expected label = do
    text ← required_str report pointer
    require_eq text expected label

  -- `require_eq(required_str(&report, pointer)?, &required_str(&report, other)?, label)`
  unfoldable pub require_same : d.Value → String → String → String → Answer (Unit {0})
  require_same report pointer other label = do
    text ← required_str report pointer
    expected ← required_str report other
    require_eq text expected label

  -- `require_txid(&tx, &required_str(&report, pointer)?, label)`
  unfoldable pub require_recorded_txid : d.Value → Transaction → String → String → Answer (Unit {0})
  require_recorded_txid report tx pointer label = do
    txid ← required_str report pointer
    require_txid tx txid label

  -- `require_outpoint(&required_str(&report, pointer)?, &tx, index, label)`
  unfoldable pub require_recorded_outpoint :
      d.Value → Transaction → String → ℕ → String → Answer (Unit {0})
  require_recorded_outpoint report tx pointer index label = do
    outpoint ← required_str report pointer
    require_outpoint outpoint tx index label

  -- `require_input_outpoint(&tx, 0, &required_str(&report, pointer)?, label)`
  unfoldable pub require_recorded_spend :
      d.Value → Transaction → String → String → Answer (Unit {0})
  require_recorded_spend report tx pointer label = do
    outpoint ← required_str report pointer
    require_input_outpoint tx 0 outpoint label

  -- `require_output_value(&tx, index, required_u64(&report, pointer)?, label)`
  unfoldable pub require_recorded_value :
      d.Value → Transaction → ℕ → String → String → Answer (Unit {0})
  require_recorded_value report tx index pointer label = do
    value ← required_u64 report pointer
    require_output_value tx index value label

  -- The statuses of the evidence and of its model validation.
  unfoldable pub require_model_passed : d.Value → String → String → Answer (Unit {0})
  require_model_passed report label model_label = do
    require_status report label
    model ← required_value report "/model_validation"
    require_status model model_label

  -- The id and the first outpoint of the recorded funding transaction.
  unfoldable pub require_recorded_funding : d.Value → Transaction → String → Answer (Unit {0})
  require_recorded_funding report tx label = do
    require_recorded_txid report tx "/funding/txid" label
    require_recorded_outpoint report tx "/funding/outpoint" 0 (label <> " outpoint")

  module _ (x : External) where
    unfoldable pub require_json_hash :
        d.Value → String → String → String → String → Answer (Unit {0})
    require_json_hash value domain value_pointer hash_pointer label = do
      payload ← required_value value value_pointer
      expected ← required_str value hash_pointer
      require_eq (hash_json x domain (d.to_vec payload)) expected label

    unfoldable pub tx_subnetwork_id_hex : Transaction → String
    tx_subnetwork_id_hex tx = x.hex_encode tx.subnetwork_id

    unfoldable pub require_tx_lane : Transaction → String → String → Answer (Unit {0})
    require_tx_lane tx expected label = require_eq (tx_subnetwork_id_hex tx) expected label
