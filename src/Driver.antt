-- ===== src/Driver.antt =====
-- The evidence verifier of drivers/kaspa-devnet/src/main.rs: what it calls, its results and its
-- counters. A result is a value, an error text, or a panic.
use kurrent.Base.{
  Bool, List, Map, Option, String, [], false, if◌then◌else◌, none, some, true, ℕ, ◌%◌, ◌+◌, ◌++◌,
  ◌^◌, ◌∷◌,
}
use kurrent.Bytes.{Bytes}
use kurrent.Errors.{KurrentError}
use kurrent.Swap.{LnSwapEvidence}
use kurrent.Types.{ChannelReceipt}
pub mod Answers
pub mod Eligibility
pub mod Factory
pub mod Hashlock
pub mod Lane
pub mod Markers
pub mod Monitor
pub mod Records
pub mod Refund
pub mod Require
pub mod Run
pub mod Runs
pub mod Sample
pub mod Sponsored
pub mod StateChannel
mod Tests
pub mod Verify

pub data Answer {ℓ} (A : Type ℓ) : Type ℓ where
  ok : A → Answer A
  err : String → Answer A
  panic : Answer A

-- The fields that the driver reads of a transaction of the Kaspa crates; hashes by their text.
pub record TransactionOutpoint : Type 0 where
  pub transaction_id : String
  pub index : ℕ

pub record TransactionInput : Type 0 where
  pub previous_outpoint : TransactionOutpoint
  pub sequence : ℕ

pub record TransactionOutput : Type 0 where
  pub value : ℕ
  pub script_version : ℕ
  pub script : Bytes

pub record Transaction : Type 0 where
  pub id : String
  pub inputs : List TransactionInput
  pub outputs : List TransactionOutput
  pub payload : Bytes
  pub subnetwork_id : Bytes

-- The crates and the machine: `serde_json` values, borsh, hex, paths, files. An error that one of
-- them returns is its text. `display` is also the `Display` of a path.
pub record Host : Type 1 where
  pub Value : Type 0
  pub pointer : Value → String → Option Value
  pub as_str : Value → Option String
  pub as_u64 : Value → Option ℕ
  pub is_null : Value → Bool
  pub as_bool : Value → Option Bool
  pub as_array : Value → Option (List Value)
  pub show : Value → String
  pub value_eq : Value → Value → Bool
  pub to_vec : Value → Bytes
  pub from_slice : Bytes → Answer Value
  pub swap_evidence_from_value : Value → Answer LnSwapEvidence
  pub receipt_from_value : Value → Answer ChannelReceipt
  pub debug : KurrentError → String
  pub transaction_from_slice : Bytes → Answer Transaction
  pub decode : String → Answer Bytes
  pub trim : String → String
  pub join : String → String → String
  pub is_absolute : String → Bool
  pub current_dir : Option String
  pub read : String → Answer Bytes
  pub read_to_string : String → Answer String
  pub display : String → String

-- One entry of the list of checks: a JSON object with these members.
pub record CheckEntry : Type 0 where
  pub id : String
  pub status : String
  pub details : String

-- What the verifiers are passed to change.
pub record Progress : Type 0 where
  pub checks : List CheckEntry
  pub decoded_transactions : ℕ
  pub verified_hex_records : ℕ

infixl 5 ◌>>=◌ ◌>>◌
unfoldable pub ◌>>=◌ {ℓ κ} : {A : Type ℓ} {B : Type κ} → Answer A → (A → Answer B) → Answer B
ok a >>= next = next a
err e >>= next = err e
panic >>= next = panic

unfoldable pub ◌>>◌ {ℓ} : {B : Type ℓ} → Answer (Unit {0}) → Answer B → Answer B
unfolding ◌>>=◌
first >> second = first >>= λ _. second

-- `o.ok_or(e)?`
unfoldable pub ok_or {ℓ} : {A : Type ℓ} → Option A → String → Answer A
ok_or none e = err e
ok_or (some a) e = ok a

-- `r.map_err(f)?`
unfoldable pub map_err {ℓ} : {A : Type ℓ} → Answer A → (String → String) → Answer A
map_err (ok a) f = ok a
map_err (err e) f = err (f e)
map_err panic f = panic

-- `if c { Ok(()) } else { Err(e) }`
unfoldable pub require : Bool → String → Answer (Unit {0})
require true e = ok tt
require false e = err e
