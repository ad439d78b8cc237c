-- ===== src/Normative/Shape/Tests.antt =====
-- The theorems on shapes and sequences at concrete inputs.
use kurrent.Base.{false, refl, true, ℕ, ◌<◌, ◌↔◌, ◌≡◌, ◌≢◌, ◌≤◌, ◌⊎◌}
use kurrent.Errors.{ok}
use kurrent.Normative.Amounts.{a_only, from_values}
use kurrent.Normative.Shape.{
  contest_opening_or_replacement, output_slot_count, settlement, sponsor_change_index,
}
use kurrent.Normative.Shape.Laws.{sponsor_change_index_in_range}

split_run : from_values 7 0 7 ≡ ok a_only
unfolding from_values
split_run = refl

sponsor_change_index_in_range_example :
    (settlement ≢ contest_opening_or_replacement
      → ((2 ≡ output_slot_count settlement a_only false) ↔ ((0 < 7) × (0 < 0)))
        × ((output_slot_count settlement a_only true ≤ 2) ↔ (◌≡◌ {A = ℕ} 7 0 ⊎ ◌≡◌ {A = ℕ} 0 0)))
    × (settlement ≡ contest_opening_or_replacement → 3 ≡ output_slot_count settlement a_only true)
unfolding sponsor_change_index
sponsor_change_index_in_range_example =
    sponsor_change_index_in_range settlement 7 0 7 2 split_run refl
