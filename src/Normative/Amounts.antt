-- ===== src/Normative/Amounts.antt =====
-- Amounts of src/lib.rs: checked sums, conservation, the sponsor invariant, settlement masks, and
-- the range of state numbers. A `u64` is a number below 2 ^ 64.
pub mod Laws
mod Tests
use kurrent.Base.{
  Option, if◌then◌else◌, leb, list_eq, ltb, nat_eq, none, option_eq, some, string_eq, ℕ, ◌!=◌, ◌&&◌,
  ◌+◌, ◌-◌, ◌==◌, ◌^◌, ◌||◌,
}
use kurrent.Errors.{
  Result, conservation_failure, err, fail_if, invalid_settlement_mask, invalid_sponsor_invariant,
  ok, ok_or, state_number_out_of_range, ◌>>=◌, ◌>>◌,
}

abbrev pub u64_max : ℕ
u64_max = 2 ^ 64 - 1

abbrev pub max_state_number : ℕ
max_state_number = 2 ^ 63 - 1

abbrev pub max_script_amount : ℕ
max_script_amount = 2 ^ 63 - 1

-- `u64::checked_add`
abbrev pub checked_add : ℕ → ℕ → Option ℕ
checked_add a b = if ltb (a + b) (2 ^ 64) then some (a + b) else none

-- `u64::checked_sub`
abbrev pub checked_sub : ℕ → ℕ → Option ℕ
checked_sub a b = if leb b a then some (a - b) else none

-- `u64::saturating_add`
abbrev pub saturating_add : ℕ → ℕ → ℕ
saturating_add a b = if ltb (a + b) (2 ^ 64) then a + b else u64_max

unfoldable pub validate_state_number : ℕ → Result (Unit {0})
validate_state_number state_number =
    fail_if (ltb max_state_number state_number)
      (state_number_out_of_range state_number max_state_number)

unfoldable pub validate_conservation : ℕ → ℕ → ℕ → Result (Unit {0})
validate_conservation value_a value_b expected_total = do
  let overflow = conservation_failure expected_total (saturating_add value_a value_b)
  total ← ok_or (checked_add value_a value_b) overflow
  fail_if (total != expected_total) (conservation_failure expected_total total)

unfoldable pub check_sponsor_invariant : ℕ → ℕ → ℕ → Result (Unit {0})
check_sponsor_invariant sponsor_input_value sponsor_change_value fee =
    let invalid = invalid_sponsor_invariant sponsor_input_value sponsor_change_value fee in
    let unsponsored = fail_if (sponsor_change_value != 0 || fee != 0) invalid in
    let sponsored : Result (Unit {0}) = do
      fail_if (fee == 0) invalid
      let overflow =
          conservation_failure sponsor_input_value (saturating_add sponsor_change_value fee)
      total ← ok_or (checked_add sponsor_change_value fee) overflow
      fail_if (total != sponsor_input_value) (conservation_failure sponsor_input_value total)
    in if sponsor_input_value == 0 then unsponsored else sponsored

pub data SettlementMask : Type 0 where
  b_only a_only both : SettlementMask

-- `SettlementMask::byte`
unfoldable pub byte : SettlementMask → ℕ
byte b_only = 0x01
byte a_only = 0x02
byte both = 0x03

-- `SettlementMask::participant_output_count`
unfoldable pub participant_output_count : SettlementMask → ℕ
participant_output_count b_only = 1
participant_output_count a_only = 1
participant_output_count both = 2

-- The `match` on the two values in `SettlementMask::from_values`.
mask_of : ℕ → ℕ → ℕ → Result SettlementMask
mask_of value_a value_b total =
    if value_a == 0 && (value_b == total && ltb 0 total)
    then ok b_only
    else (if value_b == 0 && (value_a == total && ltb 0 total)
        then ok a_only
        else (if ltb 0 value_a && ltb 0 value_b
            then ok both
            else err (invalid_settlement_mask value_a value_b total)))

-- `SettlementMask::from_values`
unfoldable pub from_values : ℕ → ℕ → ℕ → Result SettlementMask
unfolding validate_conservation mask_of
from_values value_a value_b total = do
  fail_if
      (ltb max_script_amount value_a
        || (ltb max_script_amount value_b || ltb max_script_amount total))
      (invalid_settlement_mask value_a value_b total)
  validate_conservation value_a value_b total
  mask_of value_a value_b total
