-- ===== src/Normative/Amounts/Laws.antt =====
-- The checks on amounts accept exactly what they are meant to accept.
use kurrent.Base.{arith, if◌then◌else◌, ltb, refl, suc, zero, ℕ, ◌+◌, ◌<◌, ◌↔◌, ◌≡◌, ◌≢◌, ◌≤◌, ◌⊎◌}
use kurrent.Bytes.{IsU64}
use kurrent.Errors.{IsOk, conservation_failure, err, ok}
use kurrent.Normative.Amounts.{
  SettlementMask, a_only, b_only, both, check_sponsor_invariant, from_values, max_script_amount,
  max_state_number, participant_output_count, saturating_add, validate_conservation,
  validate_state_number,
}

-- A state number is accepted exactly if it is at most 2 ^ 63 - 1.
pub validate_state_number_iff : (n : ℕ) → IsOk (validate_state_number n) ↔ (n ≤ max_state_number)
unfolding validate_state_number
validate_state_number_iff n = ground arith

-- Conservation holds exactly if the true sum, with no wrap-around, is the total.
pub validate_conservation_iff :
    (a b total : ℕ) → IsU64 total → IsOk (validate_conservation a b total) ↔ (a + b ≡ total)
unfolding validate_conservation
validate_conservation_iff a b total h = ground arith

-- Every other sum is a `ConservationFailure` with the total and the sum, held at `u64::MAX`.
pub validate_conservation_error :
    (a b total : ℕ)
    → IsU64 total
    → a + b ≢ total
    → validate_conservation a b total ≡ err (conservation_failure total (saturating_add a b))
unfolding validate_conservation
validate_conservation_error a b total h ne = ground arith

-- Without a sponsor input nothing is paid; with one a fee is paid, and input is change plus fee.
pub check_sponsor_invariant_iff :
    (input change fee : ℕ)
    → IsU64 input
    → IsOk (check_sponsor_invariant input change fee)
      ↔ ((input ≡ change + fee) × (input ≡ 0 ⊎ 0 < fee))
unfolding check_sponsor_invariant
check_sponsor_invariant_iff input change fee h = ground arith

-- The number of parties that are paid.
abbrev pub paid : ℕ → ℕ
paid value = if ltb 0 value then 1 else 0

-- The mask of two values: which of them is paid, with one output for each and never a zero one.
abbrev pub Describes : SettlementMask → ℕ → ℕ → Type 0
Describes b_only a b = (a ≡ 0) × (0 < b)
Describes a_only a b = (0 < a) × (b ≡ 0)
Describes both a b = (0 < a) × (0 < b)

-- `from_values` answers with a mask exactly if the values make up a positive total in script
-- range, and then it is the mask that says which party is paid.
pub from_values_iff :
    (a b total : ℕ) (m : SettlementMask)
    → (from_values a b total ≡ ok m)
      ↔ ((a + b ≡ total) × (total ≤ max_script_amount) × Describes m a b)
unfolding from_values
from_values_iff a b total b_only = ground arith
from_values_iff a b total a_only = ground arith
from_values_iff a b total both = ground arith

counts :
    (m : SettlementMask) (a b : ℕ) → Describes m a b → participant_output_count m ≡ paid a + paid b
unfolding participant_output_count
counts b_only a b h = ground arith
counts a_only a b h = ground arith
counts both a b h = ground arith

-- The outputs that the mask promises are the parties that are paid.
pub participant_output_count-from_values :
    (a b total : ℕ) {m : SettlementMask}
    → from_values a b total ≡ ok m
    → participant_output_count m ≡ paid a + paid b
participant_output_count-from_values a b total {m} h =
    counts m a b ((from_values_iff a b total m).0 h).2

-- Every positive split in script range has a mask: the call does not fail.
pub from_values_total :
    (a b : ℕ)
    → 0 < a + b
    → a + b ≤ max_script_amount
    → (m : SettlementMask) × (from_values a b (a + b) ≡ ok m)
from_values_total zero b h k =
    (b_only, (from_values_iff 0 b (0 + b) b_only).1 (refl, k, (refl, omega arith)))
from_values_total (suc a) zero h k =
    (a_only, (from_values_iff (suc a) 0 (suc a + 0) a_only).1 (refl, k, (omega arith, refl)))
from_values_total (suc a) (suc b) h k = (
  both,
  (from_values_iff (suc a) (suc b) (suc a + suc b) both).1 (refl, k, (omega arith, omega arith)),
)
