-- ===== src/Driver/Hashlock.antt =====
-- `verify_hashlock_semantics` of drivers/kaspa-devnet/src/main.rs, in its groups of checks.
use kurrent.Base.{List, String, [], none, some, ℕ, ◌++◌, ◌<>◌, ◌∷◌}
use kurrent.Bytes.{Bytes, to_be}
use kurrent.Driver.{
  Answer, CheckEntry, Host, Transaction, TransactionOutput, err, map_err, ok, panic, ◌>>=◌, ◌>>◌,
}
use kurrent.Driver.Require.{
  get_elem?, require_eq, require_output_count, require_recorded_spend, require_recorded_txid,
  require_same, require_status, require_text, require_u64_eq, required_str, required_u64,
  required_value,
}
use kurrent.Errors.{Result}
use kurrent.External.{External, sha256_hex}
use kurrent.Swap.{LnSwapEvidence, validate_ln_swap}
use kurrent.Types.{ChannelReceipt}
pub mod Checks
pub mod Direction
pub mod Evidence

abbrev pub hashlock_entry : CheckEntry
hashlock_entry = record {
  id = "hashlock_transactions";
  status = "passed";
  details =
      "both hashlock directions decode, consume distinct LN payment hashes, spend their recorded funding outputs, and bind LN amount, Kaspa amount, recipient output script, and typed swap receipt data";
}

abbrev pub hashlock_records : List String
hashlock_records = "/settlement/witness" ∷ "/settlement/redeem_script" ∷ []

-- `spk_bytes`
abbrev pub spk_bytes : TransactionOutput → Bytes
spk_bytes output = to_be 2 output.script_version ++ output.script

module _ (d : Host) (x : External) where
  -- `hex::decode(required_str(&ln_swap, "/preimage")?)`
  unfoldable pub swap_preimage : d.Value → String → Answer Bytes
  swap_preimage ln_swap label = do
    text ← required_str d ln_swap "/preimage"
    map_err (d.decode text) (λ e. "LN " <> label <> " preimage is not valid hex: " <> e)

  -- The report against the Lightning side's payment hash and amount.
  unfoldable pub check_payment : d.Value → String → String → ℕ → Answer (Unit {0})
  check_payment report label payment_hash ln_amount_sat = do
    require_status d report label
    require_text d report "/preimage_sha256" payment_hash (label <> " preimage binding")
    require_text d report "/ln_payment_hash" payment_hash (label <> " report LN payment hash")
    amount ← required_u64 d report "/ln_amount_sat"
    require_u64_eq amount ln_amount_sat (label <> " report LN amount")

  unfoldable pub check_hashlock_settlement : d.Value → String → Transaction → Answer (Unit {0})
  check_hashlock_settlement report label tx = do
    require_recorded_txid d report tx "/settlement/txid" (label <> " settlement")
    require_recorded_spend d report tx "/funding/outpoint"
        (label <> " settlement spends hashlock funding")
    require_output_count tx 1 (label <> " settlement output count")

  -- `sha256_hex(&spk_bytes(&settlement_tx.outputs[0].script_public_key))`
  unfoldable pub first_spk_sha256 : Transaction → Answer String
  first_spk_sha256 tx = elim (get_elem? tx.outputs 0) [
    | none ↦ panic
    | some output ↦ ok (sha256_hex x (spk_bytes output))
  ]

  unfoldable pub check_model_status : d.Value → String → Answer (Unit {0})
  check_model_status report label = do
    model ← required_value d report "/model_validation"
    require_status d model (label <> " model validation")

  -- `map_err(|err| format!(…))` on the result of the typed validation.
  unfoldable pub typed_answer : String → Result (Unit {0}) → Answer (Unit {0})
  typed_answer label (Result.ok _) = ok tt
  typed_answer label (Result.err e) = err (label <> " typed swap validation failed: " <> d.debug e)
  typed_answer label Result.panic = panic

  -- `validate_ln_swap(…).map_err(…)?`
  unfoldable pub check_typed_swap : String → LnSwapEvidence → ChannelReceipt → Answer (Unit {0})
  check_typed_swap label swap_evidence receipt =
      typed_answer label (validate_ln_swap x swap_evidence receipt)

  -- The typed evidence against the payment, the settlement value and its script.
  unfoldable pub check_swap_amounts :
      LnSwapEvidence → String → String → ℕ → ℕ → String → Answer (Unit {0})
  check_swap_amounts swap label payment_hash ln_amount_sat settlement_value spk_sha256 = do
    require_eq swap.ln_payment_hash payment_hash (label <> " model payment hash")
    require_u64_eq swap.ln_amount_sat ln_amount_sat (label <> " model LN amount")
    require_u64_eq swap.kaspa_amount_sompi settlement_value (label <> " model Kaspa amount")
    require_u64_eq swap.amount settlement_value (label <> " legacy amount alias")
    require_eq swap.recipient_spk_sha256 spk_sha256 (label <> " recipient output script hash")

  unfoldable pub check_hashlock_model : d.Value → String → Transaction → Answer (Unit {0})
  check_hashlock_model report label tx = do
    require_same d report "/model_validation/swap_evidence/kaspa_funding_outpoint"
        "/funding/outpoint" (label <> " model funding outpoint")
    require_text d report "/model_validation/swap_evidence/kaspa_settlement_outpoint"
        (tx.id <> ":0") (label <> " model settlement outpoint")
    require_same d report "/model_validation/swap_evidence/script_hash"
        "/settlement/redeem_script/sha256" (label <> " model script hash")
