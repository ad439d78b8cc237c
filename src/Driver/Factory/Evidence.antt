-- ===== src/Driver/Factory/Evidence.antt =====
-- What factory evidence is accepted by `verify_factory_semantics` of
-- drivers/kaspa-devnet/src/main.rs.
use kurrent.Base.{String, [], arith, length, ◌↔◌, ◌∷◌, ◌≡◌}
use kurrent.Driver.{Host, Progress, Transaction, ok}
use kurrent.Driver.Answers.{AllOf, both_iff}
use kurrent.Driver.Factory.{
  check_factory_model, check_materialisation, factory_entry, factory_records, two_outputs,
}
use kurrent.Driver.Factory.Verifier.{verify_factory_semantics}
use kurrent.Driver.Records.Laws.{
  AllRecorded, Decoded, JsonFile, Runs-counted, Runs-decode_transaction, Runs-last,
  Runs-verify_hex_records, counted, read_json_iff,
}
use kurrent.Driver.Require.Laws.{
  Funding, ModelPassed, Named, Paid, Same, Says, Spent, require_model_passed_iff,
  require_recorded_funding_iff, require_recorded_spend_iff, require_recorded_txid_iff,
  require_recorded_value_iff, require_same_iff, require_text_iff,
}
use kurrent.Driver.Require.Transactions.{require_output_count_iff}
use kurrent.Driver.Runs.{Runs->>, Runs->>=, Runs-lift}
use kurrent.External.{External}

module _ (d : Host) where
  -- The materialisation spends the funding output into the two recorded outputs.
  abbrev pub Materialisation : d.Value → Transaction → Type 0
  Materialisation report tx = AllOf (
      Named d report tx "/materialisation/txid"
      ∷ Spent d report tx "/funding/outpoint"
      ∷ (length tx.outputs ≡ 2)
      ∷ Paid d report tx 0 "/materialisation/outputs/alice"
      ∷ Paid d report tx 1 "/materialisation/outputs/bob"
      ∷ [])

  abbrev pub FactoryModel : d.Value → Transaction → Type 0
  FactoryModel report tx = AllOf (
      Same d report "/model_validation/plan/principal_input_ids/0" "/funding/outpoint"
      ∷ Same d report "/model_validation/redeem_script_sha256"
          "/materialisation/redeem_script/sha256"
      ∷ Says d report "/model_validation/plan/materialisation_id" (two_outputs tx)
      ∷ [])

  check_materialisation_iff :
      (report : d.Value) (tx : Transaction)
      → (check_materialisation d report tx ≡ ok tt) ↔ Materialisation report tx
  unfolding check_materialisation
  check_materialisation_iff report tx = both_iff (require_recorded_txid_iff d report tx _ _) (
      both_iff (require_recorded_spend_iff d report tx _ _) (
        both_iff (require_output_count_iff tx 2 _) (
          both_iff (require_recorded_value_iff d report tx 0 _ _)
            (require_recorded_value_iff d report tx 1 _ _))))

  model_iff :
      (report : d.Value) (tx : Transaction)
      → (check_factory_model d report tx ≡ ok tt) ↔ FactoryModel report tx
  unfolding check_factory_model
  model_iff report tx =
      both_iff (require_same_iff d report _ _ _)
        (both_iff (require_same_iff d report _ _ _) (require_text_iff d report _ _ _))

  module _ (x : External) where
    -- The factory evidence in the directory: the document, and the two transactions that it records.
    abbrev pub FactoryEvidence : String → Type 0
    FactoryEvidence output_dir =
        (report : d.Value) × JsonFile d (d.join output_dir "kurrent-live-factory-evidence.json")
          report
        × (ModelPassed d report
            × ((funding : Transaction) × Decoded d x report "/funding/raw_tx" funding
                × (Funding d report funding
                    × ((materialisation : Transaction) × Decoded d x report
                          "/materialisation/raw_tx" materialisation
                        × (Materialisation report materialisation
                            × (AllRecorded d x report factory_records
                                × FactoryModel report materialisation))))))

    -- The factory verifier succeeds exactly on evidence whose two recorded transactions decode from
    -- files with their digests and have the recorded ids, where the materialisation spends the funding
    -- output into the two recorded outputs, and the model names the same input, script and outputs; it
    -- then has counted two transactions and four records, and adds its entry.
    pub verify_factory_semantics_iff :
        (output_dir : String) (p q : Progress) (u : Unit {0})
        → (verify_factory_semantics d x output_dir p ≡ ok (u, q))
          ↔ (FactoryEvidence output_dir × (q ≡ counted 2 4 factory_entry p))
    unfolding verify_factory_semantics
    verify_factory_semantics_iff output_dir =
        Runs-counted (counted 2 4 factory_entry)
          (Runs->>= (Runs-lift (read_json_iff d _)) λ report.
            Runs->> (Runs-lift (λ _. require_model_passed_iff d report _ _)) (
              Runs->>= (Runs-decode_transaction d x report "/funding/raw_tx") λ funding.
                Runs->> (Runs-lift (λ _. require_recorded_funding_iff d report funding _)) (
                  Runs->>= (Runs-decode_transaction d x report "/materialisation/raw_tx") λ tx.
                    Runs->> (Runs-lift (λ _. check_materialisation_iff report tx)) (
                      Runs->> (Runs-verify_hex_records d x report factory_records)
                        (Runs-last _ (Runs-lift (λ _. model_iff report tx)))))))
          λ p. ground arith
