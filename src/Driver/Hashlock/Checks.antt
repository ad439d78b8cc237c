-- ===== src/Driver/Hashlock/Checks.antt =====
-- When each group of checks of `verify_hashlock_semantics` of drivers/kaspa-devnet/src/main.rs is
-- passed.
use kurrent.Base.{Option, String, [], length, none, some, ℕ, ◌<>◌, ◌↔◌, ◌∷◌, ◌≡◌, refl}
use kurrent.Bytes.{Bytes}
use kurrent.Driver.{Host, Transaction, TransactionOutput, ok, panic}
use kurrent.Driver.Answers.{AllOf, both_iff, map_err_iff, ok-injective, some_iff}
use kurrent.Driver.Hashlock.{
  check_hashlock_model, check_hashlock_settlement, check_model_status, check_payment,
  check_swap_amounts, check_typed_swap, first_spk_sha256, spk_bytes, swap_preimage, typed_answer,
}
use kurrent.Driver.Require.{get_elem?}
use kurrent.Driver.Require.Laws.{
  Named, Number, Passed, Same, Says, Spent, Text, require_recorded_spend_iff,
  require_recorded_txid_iff, require_same_iff, require_status_iff, require_text_iff,
  required_str_iff, required_u64_iff, required_value_iff,
}
use kurrent.Driver.Require.Transactions.{
  require_eq_iff, require_output_count_iff, require_u64_eq_iff,
}
use kurrent.Errors.{Result}
use kurrent.External.{External, sha256_hex}
use kurrent.Swap.{LnSwapEvidence, validate_ln_swap}
use kurrent.Types.{ChannelReceipt}

module _ (d : Host) (x : External) where
  -- The document has the bytes as hexadecimal digits.
  abbrev pub Preimage : d.Value → Bytes → Type 0
  Preimage ln_swap bytes =
      (text : String) × Text d ln_swap "/preimage" text × (d.decode text ≡ ok bytes)

  pub swap_preimage_iff :
      (ln_swap : d.Value) (label : String) (bytes : Bytes)
      → (swap_preimage d x ln_swap label ≡ ok bytes) ↔ Preimage ln_swap bytes
  unfolding swap_preimage
  swap_preimage_iff ln_swap label bytes =
      some_iff (required_str_iff d ln_swap _) (λ text. map_err_iff _ bytes)

  -- The report has passed, and has the payment hash and amount of the Lightning side.
  abbrev pub Payment : d.Value → String → ℕ → Type 0
  Payment report payment_hash ln_amount_sat = AllOf (
      Passed d report
      ∷ Says d report "/preimage_sha256" payment_hash
      ∷ Says d report "/ln_payment_hash" payment_hash
      ∷ ((n : ℕ) × Number d report "/ln_amount_sat" n × (n ≡ ln_amount_sat))
      ∷ [])

  pub check_payment_iff :
      (report : d.Value) (label h : String) (n : ℕ)
      → (check_payment d x report label h n ≡ ok tt) ↔ Payment report h n
  unfolding check_payment
  check_payment_iff report label h n = both_iff (require_status_iff d report _) (
      both_iff (require_text_iff d report _ _ _) (
        both_iff (require_text_iff d report _ _ _)
          (some_iff (required_u64_iff d report _) (λ k. require_u64_eq_iff k n _))))

  -- The settlement spends the funding output into one output.
  abbrev pub HashlockSettlement : d.Value → Transaction → Type 0
  HashlockSettlement report tx = AllOf (
      Named d report tx "/settlement/txid"
      ∷ Spent d report tx "/funding/outpoint"
      ∷ (length tx.outputs ≡ 1)
      ∷ [])

  pub check_hashlock_settlement_iff :
      (report : d.Value) (label : String) (tx : Transaction)
      → (check_hashlock_settlement d x report label tx ≡ ok tt) ↔ HashlockSettlement report tx
  unfolding check_hashlock_settlement
  check_hashlock_settlement_iff report label tx =
      both_iff (require_recorded_txid_iff d report tx _ _)
        (both_iff (require_recorded_spend_iff d report tx _ _) (require_output_count_iff tx 1 _))

  -- The text is the digest of the script of the first output.
  abbrev pub FirstScript : Transaction → String → Type 0
  FirstScript tx text =
      (output : TransactionOutput) × (get_elem? tx.outputs 0 ≡ some output)
      × (sha256_hex x (spk_bytes output) ≡ text)

  script_of_iff :
      (o : Option TransactionOutput) (text : String)
      → ((elim o [ none ↦ panic | some output ↦ ok (sha256_hex x (spk_bytes output)) ]) ≡ ok text)
        ↔ ((output : TransactionOutput) × (o ≡ some output)
            × (sha256_hex x (spk_bytes output) ≡ text))
  script_of_iff none text = ((λ h. cc), (λ (_, h, _). cc))
  script_of_iff (some output) text =
      ((λ h. (output, refl, ok-injective h)), (λ (other, same, h). cc))

  pub first_spk_sha256_iff :
      (tx : Transaction) (text : String) → (first_spk_sha256 d x tx ≡ ok text) ↔ FirstScript tx text
  unfolding first_spk_sha256
  first_spk_sha256_iff tx text = script_of_iff (get_elem? tx.outputs 0) text

  abbrev pub ModelStatus : d.Value → Type 0
  ModelStatus report =
      (model : d.Value) × (d.pointer report "/model_validation" ≡ some model) × Passed d model

  pub check_model_status_iff :
      (report : d.Value) (label : String)
      → (check_model_status d x report label ≡ ok tt) ↔ ModelStatus report
  unfolding check_model_status
  check_model_status_iff report label =
      some_iff (required_value_iff d report _) (λ model. require_status_iff d model _)

  typed_answer_iff :
      (label : String) (r : Result (Unit {0}))
      → (typed_answer d x label r ≡ ok tt) ↔ (r ≡ Result.ok tt)
  unfolding typed_answer
  typed_answer_iff label (Result.ok tt) = ((λ h. refl), (λ h. refl))
  typed_answer_iff label (Result.err e) = ((λ h. cc), (λ h. cc))
  typed_answer_iff label Result.panic = ((λ h. cc), (λ h. cc))

  pub check_typed_swap_iff :
      (label : String) (swap : LnSwapEvidence) (receipt : ChannelReceipt)
      → (check_typed_swap d x label swap receipt ≡ ok tt)
        ↔ (validate_ln_swap x swap receipt ≡ Result.ok tt)
  unfolding check_typed_swap
  check_typed_swap_iff label swap receipt = typed_answer_iff label (validate_ln_swap x swap receipt)

  abbrev pub SwapAmounts : LnSwapEvidence → String → ℕ → ℕ → String → Type 0
  SwapAmounts swap payment_hash ln_amount_sat settlement_value spk_sha256 = AllOf (
      (swap.ln_payment_hash ≡ payment_hash)
      ∷ (swap.ln_amount_sat ≡ ln_amount_sat)
      ∷ (swap.kaspa_amount_sompi ≡ settlement_value)
      ∷ (swap.amount ≡ settlement_value)
      ∷ (swap.recipient_spk_sha256 ≡ spk_sha256)
      ∷ [])

  pub check_swap_amounts_iff :
      (swap : LnSwapEvidence) (label h : String) (n v : ℕ) (s : String)
      → (check_swap_amounts d x swap label h n v s ≡ ok tt) ↔ SwapAmounts swap h n v s
  unfolding check_swap_amounts
  check_swap_amounts_iff swap label h n v s = both_iff (require_eq_iff _ _ _) (
      both_iff (require_u64_eq_iff _ _ _) (
        both_iff (require_u64_eq_iff _ _ _)
          (both_iff (require_u64_eq_iff _ _ _) (require_eq_iff _ _ _))))

  abbrev pub HashlockModel : d.Value → Transaction → Type 0
  HashlockModel report tx = AllOf (
      Same d report "/model_validation/swap_evidence/kaspa_funding_outpoint" "/funding/outpoint"
      ∷ Says d report "/model_validation/swap_evidence/kaspa_settlement_outpoint" (tx.id <> ":0")
      ∷ Same d report "/model_validation/swap_evidence/script_hash"
          "/settlement/redeem_script/sha256"
      ∷ [])

  pub check_hashlock_model_iff :
      (report : d.Value) (label : String) (tx : Transaction)
      → (check_hashlock_model d x report label tx ≡ ok tt) ↔ HashlockModel report tx
  unfolding check_hashlock_model
  check_hashlock_model_iff report label tx =
      both_iff (require_same_iff d report _ _ _)
        (both_iff (require_text_iff d report _ _ _) (require_same_iff d report _ _ _))
