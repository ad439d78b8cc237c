-- ===== src/Driver/Require/Transactions.antt =====
-- When the checks of equal texts and of a transaction in drivers/kaspa-devnet/src/main.rs are passed.
use kurrent.Base.{String, length, lt→ltb, ltb→lt, nat_eq, some, string_eq, ℕ, ◌<◌, ◌↔◌, ◌≡◌, ◌≢◌}
use kurrent.Driver.{Transaction, TransactionInput, TransactionOutput, ok}
use kurrent.Driver.Answers.{both_iff, ok_or_iff, require_iff, some_iff}
use kurrent.Driver.Require.{
  get_elem?, outpoint_text, require_eq, require_input_outpoint, require_input_sequence,
  require_not_eq, require_outpoint, require_output_count, require_output_index,
  require_output_value, require_u64_eq,
}
use kurrent.Driver.Answers.{iff_trans, beq_true_iff, bne_true_iff}

pub require_eq_iff : (a b : String) (l : String) → (require_eq a b l ≡ ok tt) ↔ (a ≡ b)
unfolding require_eq
require_eq_iff a b l = iff_trans (require_iff _) (beq_true_iff a b)

pub require_u64_eq_iff : (a b : ℕ) (l : String) → (require_u64_eq a b l ≡ ok tt) ↔ (a ≡ b)
unfolding require_u64_eq
require_u64_eq_iff a b l = iff_trans (require_iff _) (beq_true_iff a b)

pub require_not_eq_iff : (a b : String) (l : String) → (require_not_eq a b l ≡ ok tt) ↔ (a ≢ b)
unfolding require_not_eq
require_not_eq_iff a b l = iff_trans (require_iff _) (bne_true_iff a b)

pub require_output_count_iff :
    (tx : Transaction) (n : ℕ) (l : String)
    → (require_output_count tx n l ≡ ok tt) ↔ (length tx.outputs ≡ n)
unfolding require_output_count
require_output_count_iff tx n l = iff_trans (require_iff _) (beq_true_iff (length tx.outputs) n)

-- The transaction has the output, and the text is the outpoint's.
abbrev pub IsOutpoint : Transaction → ℕ → String → Type 0
IsOutpoint tx index text = (index < length tx.outputs) × (outpoint_text tx.id index ≡ text)

-- The input at the index spends the outpoint.
abbrev pub Spends : Transaction → ℕ → String → Type 0
Spends tx index text =
    (input : TransactionInput) × (get_elem? tx.inputs index ≡ some input)
    × (outpoint_text input.previous_outpoint.transaction_id input.previous_outpoint.index ≡ text)

-- The input at the index has the sequence.
abbrev pub Sequenced : Transaction → ℕ → ℕ → Type 0
Sequenced tx index sequence =
    (input : TransactionInput) × (get_elem? tx.inputs index ≡ some input)
    × (input.sequence ≡ sequence)

-- The output at the index has the value.
abbrev pub Pays : Transaction → ℕ → ℕ → Type 0
Pays tx index value =
    (output : TransactionOutput) × (get_elem? tx.outputs index ≡ some output)
    × (output.value ≡ value)

pub require_outpoint_iff :
    (text : String) (tx : Transaction) (i : ℕ) (l : String)
    → (require_outpoint text tx i l ≡ ok tt) ↔ IsOutpoint tx i text
unfolding require_outpoint require_output_index
require_outpoint_iff text tx i l =
    both_iff
      (iff_trans (require_iff _) (ltb→lt i (length tx.outputs), lt→ltb i (length tx.outputs)))
      (require_eq_iff _ _ l)

pub require_input_outpoint_iff :
    (tx : Transaction) (i : ℕ) (text : String) (l : String)
    → (require_input_outpoint tx i text l ≡ ok tt) ↔ Spends tx i text
unfolding require_input_outpoint
require_input_outpoint_iff tx i text l = some_iff (ok_or_iff _) (λ input. require_eq_iff _ _ l)

pub require_input_sequence_iff :
    (tx : Transaction) (i n : ℕ) (l : String)
    → (require_input_sequence tx i n l ≡ ok tt) ↔ Sequenced tx i n
unfolding require_input_sequence
require_input_sequence_iff tx i n l =
    some_iff (ok_or_iff _) (λ input. iff_trans (require_iff _) (beq_true_iff input.sequence n))

pub require_output_value_iff :
    (tx : Transaction) (i n : ℕ) (l : String)
    → (require_output_value tx i n l ≡ ok tt) ↔ Pays tx i n
unfolding require_output_value
require_output_value_iff tx i n l =
    some_iff (ok_or_iff _) (λ output. iff_trans (require_iff _) (beq_true_iff output.value n))
