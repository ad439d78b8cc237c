-- ===== src/Driver/Hashlock/Direction.antt =====
-- One direction of `verify_hashlock_semantics` of drivers/kaspa-devnet/src/main.rs, and the loop.
use kurrent.Base.{List, String, [], contains, not, string_eq, ℕ, ◌<>◌, ◌∷◌}
use kurrent.Driver.{Host, ok, require}
use kurrent.Driver.Hashlock.{
  check_hashlock_model, check_hashlock_settlement, check_model_status, check_payment,
  check_swap_amounts, check_typed_swap, first_spk_sha256, hashlock_entry, swap_preimage,
  hashlock_records,
}
use kurrent.Driver.Records.{decode_transaction, read_json, verify_hex_records}
use kurrent.Driver.Require.{
  require_eq, require_output_value, require_recorded_funding, require_status, required_str,
  required_typed, required_u64, required_value,
}
use kurrent.Driver.Verify.{Verify, change, lift, one_check, ◌>>=◌, ◌>>◌}
use kurrent.External.{External, sha256_hex}

module _ (d : Host) (x : External) where
  -- The report of a direction, with the payment hash and amount of its Lightning side.
  unfoldable pub verify_report : d.Value → String → String → ℕ → Verify (Unit {0})
  verify_report report label payment_hash ln_amount_sat = do
    lift (check_payment d x report label payment_hash ln_amount_sat)
    funding_tx ← decode_transaction d x report "/funding/raw_tx"
    lift (require_recorded_funding d report funding_tx (label <> " funding"))
    settlement_tx ← decode_transaction d x report "/settlement/raw_tx"
    lift (check_hashlock_settlement d x report label settlement_tx)
    settlement_value ← lift (required_u64 d report "/settlement/output_value")
    lift (
        require_output_value settlement_tx 0 settlement_value (label <> " settlement output value"))
    spk_sha256 ← lift (first_spk_sha256 d x settlement_tx)
    verify_hex_records d x report hashlock_records
    lift (check_model_status d x report label)
    swap_evidence ←
        lift (required_typed d d.swap_evidence_from_value report "/model_validation/swap_evidence")
    receipt ← lift (required_typed d d.receipt_from_value report "/model_validation/receipt")
    lift (check_typed_swap d x label swap_evidence receipt)
    lift (
        check_swap_amounts d x swap_evidence label payment_hash ln_amount_sat settlement_value
          spk_sha256)
    lift (check_hashlock_model d x report label settlement_tx)

  -- One round of the loop over the directions: the payment hashes seen so far, with the new one.
  unfoldable pub verify_direction :
      String → d.Value → List String → String → String → Verify (List String)
  verify_direction output_dir ln seen label file_name = do
    ln_swap ← lift (required_value d ln ("/swaps/" <> label))
    preimage ← lift (swap_preimage d x ln_swap label)
    payment_hash ← lift (required_str d ln_swap "/payment_hash")
    ln_amount_sat ← lift (required_u64 d ln_swap "/amount_sat")
    lift (
        require_eq (sha256_hex x preimage) payment_hash
          ("LN " <> label <> " preimage hashes to payment hash"))
    lift (
        require (not (contains payment_hash seen))
          ("LN payment hash " <> payment_hash <> " is reused across hashlock directions"))
    report ← lift (read_json d (d.join output_dir file_name))
    verify_report report label payment_hash ln_amount_sat
    lift (ok (payment_hash ∷ seen))

  unfoldable pub verify_hashlock_semantics : String → Verify (Unit {0})
  verify_hashlock_semantics output_dir = do
    ln ← lift (read_json d (d.join output_dir "ln-devnet-evidence.json"))
    lift (require_status d ln "LN devnet evidence")
    seen ← verify_direction output_dir ln [] "ln-to-kaspa" "kurrent-live-ln-to-kaspa-evidence.json"
    both ←
        verify_direction output_dir ln seen "kaspa-to-ln" "kurrent-live-kaspa-to-ln-evidence.json"
    change (one_check hashlock_entry)
