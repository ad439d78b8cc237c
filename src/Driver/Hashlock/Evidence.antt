-- ===== src/Driver/Hashlock/Evidence.antt =====
-- What hashlock evidence is accepted by `verify_hashlock_semantics` of
-- drivers/kaspa-devnet/src/main.rs.
use kurrent.Base.{
  List, String, [], arith, contains, not, refl, some, subst, string_eq, true, ℕ, ◌<>◌, sym, ◌↔◌,
  ◌∷◌, ◌≡◌, ◌≢◌, false,
}
use kurrent.Bytes.{Bytes}
use kurrent.Driver.{Host, Progress, Transaction, ok}
use kurrent.Driver.Answers.{require_iff}
use kurrent.Driver.Hashlock.{hashlock_entry, hashlock_records}
use kurrent.Driver.Hashlock.Checks.{
  FirstScript, HashlockModel, HashlockSettlement, ModelStatus, Payment, Preimage, SwapAmounts,
  first_spk_sha256_iff, check_hashlock_model_iff, check_hashlock_settlement_iff,
  check_model_status_iff, check_payment_iff, check_swap_amounts_iff, swap_preimage_iff,
  check_typed_swap_iff,
}
use kurrent.Driver.Hashlock.Direction.{verify_direction, verify_hashlock_semantics, verify_report}
use kurrent.Driver.Records.Laws.{
  AllRecorded, Decoded, JsonFile, Runs-counted, Runs-decode_transaction, Runs-iff, Runs-ok,
  Runs-verify_hex_records, counted, each_verified, read_json_iff,
}
use kurrent.Driver.Require.Laws.{
  Funding, Number, Passed, Text, Typed, require_recorded_funding_iff, require_status_iff,
  required_str_iff, required_typed_iff, required_u64_iff, required_value_iff,
}
use kurrent.Driver.Require.Transactions.{Pays, require_eq_iff, require_output_value_iff}
use kurrent.Driver.Answers.{beq_true_iff, iff_trans}
use kurrent.Driver.Runs.{Runs, Runs->>, Runs->>=, Runs-change, Runs-lift}
use kurrent.Driver.Verify.{one_decoded, one_verified}
use kurrent.Errors.{Result}
use kurrent.External.{External, sha256_hex}
use kurrent.Swap.{LnSwapEvidence, validate_ln_swap}
use kurrent.Types.{ChannelReceipt}

module _ (d : Host) (x : External) where
  -- The typed swap of the report is a valid one of the payment, and pays the first output's script.
  abbrev pub TypedSwap : d.Value → String → ℕ → Transaction → ℕ → String → Type 0
  TypedSwap report payment_hash ln_amount_sat settlement value spk_sha256 =
      (swap : LnSwapEvidence) × Typed d d.swap_evidence_from_value report
        "/model_validation/swap_evidence" swap
      × ((receipt : ChannelReceipt) × Typed d d.receipt_from_value report
            "/model_validation/receipt" receipt
          × ((validate_ln_swap x swap receipt ≡ Result.ok tt)
              × (SwapAmounts d x swap payment_hash ln_amount_sat value spk_sha256
                  × HashlockModel d x report settlement)))

  -- The report of a direction: a funding and a settlement that spends it, and the typed swap.
  abbrev pub ReportFor : d.Value → String → ℕ → Type 0
  ReportFor report payment_hash ln_amount_sat =
      Payment d x report payment_hash ln_amount_sat
      × ((funding : Transaction) × Decoded d x report "/funding/raw_tx" funding
          × (Funding d report funding
              × ((settlement : Transaction) × Decoded d x report "/settlement/raw_tx" settlement
                  × (HashlockSettlement d x report settlement
                      × ((value : ℕ) × Number d report "/settlement/output_value" value
                          × (Pays settlement 0 value
                              × ((spk_sha256 : String) × FirstScript d x settlement spk_sha256
                                  × (AllRecorded d x report hashlock_records
                                      × (ModelStatus d x report
                                          × TypedSwap report payment_hash ln_amount_sat settlement
                                              value spk_sha256)))))))))

  -- Two transactions and four records.
  abbrev report_progress : Progress → Progress
  report_progress p =
      each_verified d x hashlock_records (one_decoded (one_verified (one_decoded (one_verified p))))

  Runs-verify_report :
      (report : d.Value) (label h : String) (n : ℕ)
      → Runs (verify_report d x report label h n) report_progress (λ _. ReportFor report h n)
  unfolding verify_report
  Runs-verify_report report label h n =
      Runs->> (Runs-lift (λ _. check_payment_iff d x report label h n)) (
        Runs->>= (Runs-decode_transaction d x report "/funding/raw_tx") λ funding.
          Runs->> (Runs-lift (λ _. require_recorded_funding_iff d report funding _)) (
            Runs->>= (Runs-decode_transaction d x report "/settlement/raw_tx") λ tx.
              Runs->> (Runs-lift (λ _. check_hashlock_settlement_iff d x report label tx)) (
                Runs->>= (Runs-lift (required_u64_iff d report _)) λ value.
                  Runs->> (Runs-lift (λ _. require_output_value_iff tx 0 value _)) (
                    Runs->>= (Runs-lift (first_spk_sha256_iff d x tx)) λ script.
                      Runs->> (Runs-verify_hex_records d x report hashlock_records) (
                        Runs->> (Runs-lift (λ _. check_model_status_iff d x report label)) (
                          Runs->>= (Runs-lift (required_typed_iff d _ report _)) λ swap.
                            Runs->>= (Runs-lift (required_typed_iff d _ report _)) λ receipt.
                              Runs->> (Runs-lift (λ _. check_typed_swap_iff d x label swap receipt))
                                (Runs->>
                                  (Runs-lift
                                    (λ _. check_swap_amounts_iff d x swap label h n value script))
                                  (Runs-lift
                                    (λ _. check_hashlock_model_iff d x report label tx)))))))))

  -- One direction: the Lightning side's preimage opens its payment hash, and the report is for it.
  abbrev pub DirectionFor : String → d.Value → String → String → String → Type 0
  DirectionFor output_dir ln label file_name payment_hash =
      (ln_swap : d.Value) × (preimage : Bytes) × (ln_amount_sat : ℕ) × (report : d.Value)
      × (d.pointer ln ("/swaps/" <> label) ≡ some ln_swap)
      × Preimage d x ln_swap preimage
      × Text d ln_swap "/payment_hash" payment_hash
      × Number d ln_swap "/amount_sat" ln_amount_sat
      × (sha256_hex x preimage ≡ payment_hash)
      × JsonFile d (d.join output_dir file_name) report
      × ReportFor report payment_hash ln_amount_sat

  fresh_iff :
      (h : String) (seen : List String) → (not (contains h seen) ≡ true) ↔ (contains h seen ≡ false)
  fresh_iff h seen = ground arith

  Runs-verify_direction :
      (output_dir : String) (ln : d.Value) (seen : List String) (label file_name : String)
      → Runs (verify_direction d x output_dir ln seen label file_name) report_progress (λ others.
        (h : String) × DirectionFor output_dir ln label file_name h
        × (contains h seen ≡ false)
        × (h ∷ seen ≡ others))
  unfolding verify_direction
  Runs-verify_direction output_dir ln seen label file_name =
      Runs-iff
        (Runs->>= (Runs-lift (required_value_iff d ln _)) λ ln_swap.
          Runs->>= (Runs-lift (swap_preimage_iff d x ln_swap label)) λ preimage.
            Runs->>= (Runs-lift (required_str_iff d ln_swap "/payment_hash")) λ h.
              Runs->>= (Runs-lift (required_u64_iff d ln_swap "/amount_sat")) λ n.
                Runs->> (Runs-lift (λ _. require_eq_iff (sha256_hex x preimage) h _)) (
                  Runs->> (Runs-lift (λ _. iff_trans (require_iff _) (fresh_iff h seen))) (
                    Runs->>= (Runs-lift (read_json_iff d _)) λ report.
                      Runs->> (Runs-verify_report report label h n) (Runs-ok (h ∷ seen)))))
        λ others. (
          (λ (s, a, (b, c, (h, t, (n, m, (e, (new, (r, f, (v, same)))))))).
              (h, (s, b, n, r, a, c, t, m, e, f, v), new, same)),
          (λ (h, (s, b, n, r, a, c, t, m, e, f, v), new, same).
              (s, a, (b, c, (h, t, (n, m, (e, (new, (r, f, (v, same))))))))),
        )

  -- The hashlock evidence in the directory: both directions, with different payment hashes.
  abbrev pub HashlockEvidence : String → Type 0
  HashlockEvidence output_dir =
      (ln : d.Value) × (first second : String) × JsonFile d
        (d.join output_dir "ln-devnet-evidence.json") ln
      × Passed d ln
      × DirectionFor output_dir ln "ln-to-kaspa" "kurrent-live-ln-to-kaspa-evidence.json" first
      × DirectionFor output_dir ln "kaspa-to-ln" "kurrent-live-kaspa-to-ln-evidence.json" second
      × (first ≢ second)

  two_fresh_iff : (g h : String) → (contains h (g ∷ []) ≡ false) ↔ (g ≢ h)
  unfolding contains
  two_fresh_iff g h = ground (arith, beq_true_iff g h)

  -- The hashlock verifier succeeds exactly on evidence in which both directions have a preimage that
  -- opens their payment hash, the two payment hashes differ, and each report has that hash and amount,
  -- a funding and a settlement that decode, the settlement spending the funding into one output of
  -- the recorded value, and a typed swap that is valid for its receipt with that hash, amount, value
  -- and output script; it then has counted four transactions and eight records, and adds its entry.
  pub verify_hashlock_semantics_iff :
      (output_dir : String) (p q : Progress) (u : Unit {0})
      → (verify_hashlock_semantics d x output_dir p ≡ ok (u, q))
        ↔ (HashlockEvidence output_dir × (q ≡ counted 4 8 hashlock_entry p))
  unfolding verify_hashlock_semantics contains
  verify_hashlock_semantics_iff output_dir =
      Runs-counted (counted 4 8 hashlock_entry)
        (Runs-iff
          (Runs->>= (Runs-lift (read_json_iff d _)) λ ln.
            Runs->> (Runs-lift (λ _. require_status_iff d ln _)) (
              Runs->>= (Runs-verify_direction output_dir ln [] _ _) λ seen.
                Runs->>= (Runs-verify_direction output_dir ln seen _ _) λ both. Runs-change))
          λ _. (
            (λ (ln, a, (b, (seen, (g, s, _, e), (both, (h, t, new, f), _)))). (
              ln,
              g,
              h,
              a,
              b,
              s,
              t,
              (two_fresh_iff g h).0 (subst (λ l. contains h l ≡ false) (sym e) new),
            )),
            (λ (ln, g, h, a, b, s, t, apart). (
              ln,
              a,
              (
                b,
                (
                  g ∷ [],
                  (g, s, refl, refl),
                  (h ∷ g ∷ [], (h, t, (two_fresh_iff g h).1 apart, refl), tt),
                ),
              ),
            )),
          ))
        λ p. ground arith
