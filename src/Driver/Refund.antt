-- ===== src/Driver/Refund.antt =====
-- `verify_refund_semantics` of drivers/kaspa-devnet/src/main.rs, in its groups of checks.
use kurrent.Base.{String, [], ◌-◌, ◌<>◌, ◌∷◌, ℕ}
use kurrent.Driver.{Answer, CheckEntry, Host, Transaction, ◌>>=◌, ◌>>◌}
use kurrent.Driver.Require.{
  require_input_sequence, require_output_count, require_recorded_outpoint, require_recorded_spend,
  require_recorded_txid, require_recorded_value, require_same, require_status, require_text,
  required_value,
}
use kurrent.External.{External}
pub mod Evidence
pub mod Verifier

abbrev pub refund_sequence : ℕ
refund_sequence = 120

abbrev pub refund_entry : CheckEntry
refund_entry = record {
  id = "refund_transactions";
  status = "passed";
  details =
      "early and mature refund transactions decode, spend the recorded funding output, use the expected sequence-lock values, and match typed refund claim bindings";
}

module _ (d : Host) where
  unfoldable pub check_early_refund : d.Value → Transaction → Answer (Unit {0})
  check_early_refund report tx = do
    require_recorded_txid d report tx "/early_refund_rejection/attempted_txid"
        "early refund attempt"
    require_recorded_spend d report tx "/funding/outpoint" "early refund spends refund funding"
    require_input_sequence tx 0 (refund_sequence - 1) "early refund sequence"
    require_text d report "/early_refund_rejection/status" "rejected"
        "early refund rejection status"

  unfoldable pub check_mature_refund : d.Value → Transaction → Answer (Unit {0})
  check_mature_refund report tx = do
    require_recorded_txid d report tx "/refund/txid" "mature refund"
    require_recorded_spend d report tx "/funding/outpoint" "mature refund spends refund funding"
    require_input_sequence tx 0 refund_sequence "mature refund sequence"
    require_output_count tx 1 "mature refund output count"
    require_recorded_value d report tx 0 "/refund/output_value" "mature refund output value"

  unfoldable pub check_refund_model : d.Value → Transaction → Answer (Unit {0})
  check_refund_model report tx = do
    require_same d report "/model_validation/claim_scope/funding_outpoint" "/funding/outpoint"
        "refund model funding outpoint"
    require_text d report "/model_validation/claim_scope/output_id" (tx.id <> ":0")
        "refund model output id"
    require_same d report "/model_validation/redeem_script_sha256" "/refund/redeem_script/sha256"
        "refund model redeem script hash"
