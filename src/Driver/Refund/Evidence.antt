-- ===== src/Driver/Refund/Evidence.antt =====
-- What refund evidence is accepted by `verify_refund_semantics` of drivers/kaspa-devnet/src/main.rs.
use kurrent.Base.{String, [], length, ◌<>◌, ◌↔◌, ◌∷◌, ◌≡◌, arith}
use kurrent.Driver.{Host, Progress, Transaction, ok}
use kurrent.Driver.Answers.{AllOf, both_iff}
use kurrent.Driver.Records.Laws.{
  AllRecorded, Decoded, JsonFile, Runs-decode_transaction, Runs-verify_hex_records, read_json_iff,
  Runs-last, counted, Runs-counted,
}
use kurrent.Driver.Refund.{
  check_early_refund, check_mature_refund, check_refund_model, refund_entry,
}
use kurrent.Driver.Refund.Verifier.{refund_records, verify_refund_semantics}
use kurrent.Driver.Require.Laws.{
  Funding, ModelPassed, Named, Paid, require_model_passed_iff, require_recorded_funding_iff, Same,
  Says, Spent, require_recorded_spend_iff, require_recorded_txid_iff, require_recorded_value_iff,
  require_same_iff, require_text_iff,
}
use kurrent.Driver.Require.Transactions.{
  Sequenced, require_input_sequence_iff, require_output_count_iff,
}
use kurrent.Driver.Runs.{Runs->>, Runs->>=, Runs-lift}
use kurrent.External.{External}

module _ (d : Host) where
  -- The early attempt spends the funding output one short of the sequence, and was rejected.
  abbrev pub EarlyRefund : d.Value → Transaction → Type 0
  EarlyRefund report tx = AllOf (
      Named d report tx "/early_refund_rejection/attempted_txid"
      ∷ Spent d report tx "/funding/outpoint"
      ∷ Sequenced tx 0 119
      ∷ Says d report "/early_refund_rejection/status" "rejected"
      ∷ [])

  -- The mature refund spends the funding output at the sequence, into one output.
  abbrev pub MatureRefund : d.Value → Transaction → Type 0
  MatureRefund report tx = AllOf (
      Named d report tx "/refund/txid"
      ∷ Spent d report tx "/funding/outpoint"
      ∷ Sequenced tx 0 120
      ∷ (length tx.outputs ≡ 1)
      ∷ Paid d report tx 0 "/refund/output_value"
      ∷ [])

  abbrev pub RefundModel : d.Value → Transaction → Type 0
  RefundModel report tx = AllOf (
      Same d report "/model_validation/claim_scope/funding_outpoint" "/funding/outpoint"
      ∷ Says d report "/model_validation/claim_scope/output_id" (tx.id <> ":0")
      ∷ Same d report "/model_validation/redeem_script_sha256" "/refund/redeem_script/sha256"
      ∷ [])

  check_early_refund_iff :
      (report : d.Value) (tx : Transaction)
      → (check_early_refund d report tx ≡ ok tt) ↔ EarlyRefund report tx
  unfolding check_early_refund
  check_early_refund_iff report tx = both_iff (require_recorded_txid_iff d report tx _ _) (
      both_iff (require_recorded_spend_iff d report tx _ _)
        (both_iff (require_input_sequence_iff tx 0 119 _) (require_text_iff d report _ _ _)))

  check_mature_refund_iff :
      (report : d.Value) (tx : Transaction)
      → (check_mature_refund d report tx ≡ ok tt) ↔ MatureRefund report tx
  unfolding check_mature_refund
  check_mature_refund_iff report tx = both_iff (require_recorded_txid_iff d report tx _ _) (
      both_iff (require_recorded_spend_iff d report tx _ _) (
        both_iff (require_input_sequence_iff tx 0 120 _) (
          both_iff (require_output_count_iff tx 1 _)
            (require_recorded_value_iff d report tx 0 _ _))))

  model_iff :
      (report : d.Value) (tx : Transaction)
      → (check_refund_model d report tx ≡ ok tt) ↔ RefundModel report tx
  unfolding check_refund_model
  model_iff report tx =
      both_iff (require_same_iff d report _ _ _)
        (both_iff (require_text_iff d report _ _ _) (require_same_iff d report _ _ _))

  module _ (x : External) where
    -- The refund evidence in the directory: the document, and the three transactions that it records.
    abbrev pub RefundEvidence : String → Type 0
    RefundEvidence output_dir =
        (report : d.Value) × JsonFile d (d.join output_dir "kurrent-live-refund-evidence.json")
          report
        × (ModelPassed d report
            × ((funding : Transaction) × Decoded d x report "/funding/raw_tx" funding
                × (Funding d report funding
                    × ((early : Transaction) × Decoded d x report
                          "/early_refund_rejection/attempted_tx" early
                        × (EarlyRefund report early
                            × ((refund : Transaction) × Decoded d x report "/refund/raw_tx" refund
                                × (MatureRefund report refund
                                    × (AllRecorded d x report refund_records
                                        × RefundModel report refund))))))))

    -- The refund verifier succeeds exactly on evidence whose three recorded transactions decode from
    -- files with their digests and have the recorded ids, where the early attempt spends the funding
    -- output at sequence 119 and was rejected, the mature refund spends the same output at sequence 120
    -- into the one recorded output, and the model names the same outpoints and script; it then has
    -- counted three transactions and six records, and adds its entry.
    pub verify_refund_semantics_iff :
        (output_dir : String) (p q : Progress) (u : Unit {0})
        → (verify_refund_semantics d x output_dir p ≡ ok (u, q))
          ↔ (RefundEvidence output_dir × (q ≡ counted 3 6 refund_entry p))
    unfolding verify_refund_semantics
    verify_refund_semantics_iff output_dir =
        Runs-counted (counted 3 6 refund_entry)
          (Runs->>= (Runs-lift (read_json_iff d _)) λ report.
            Runs->> (Runs-lift (λ _. require_model_passed_iff d report _ _)) (
              Runs->>= (Runs-decode_transaction d x report "/funding/raw_tx") λ funding.
                Runs->> (Runs-lift (λ _. require_recorded_funding_iff d report funding _)) (
                  Runs->>= (Runs-decode_transaction d x report _) λ early.
                    Runs->> (Runs-lift (λ _. check_early_refund_iff report early)) (
                      Runs->>= (Runs-decode_transaction d x report "/refund/raw_tx") λ refund.
                        Runs->> (Runs-lift (λ _. check_mature_refund_iff report refund)) (
                          Runs->> (Runs-verify_hex_records d x report refund_records)
                            (Runs-last _ (Runs-lift (λ _. model_iff report refund))))))))
          λ p. ground arith
