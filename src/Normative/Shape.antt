-- ===== src/Normative/Shape.antt =====
-- `BoundedShape` and `CanonicalSequence` of src/lib.rs.
pub mod Laws
mod Tests
use kurrent.Base.{Bool, Option, false, some, true, ℕ, ◌+◌, ◌^◌}
use kurrent.Bytes.{Bytes, to_le}
use kurrent.Normative.Amounts.{SettlementMask, participant_output_count}

pub data BoundedShape : Type 0 where
  contest_opening_or_replacement settlement coop_close : BoundedShape

-- `BoundedShape::input_slot_count`
unfoldable pub input_slot_count : BoundedShape → ℕ
input_slot_count contest_opening_or_replacement = 2
input_slot_count settlement = 2
input_slot_count coop_close = 2

-- `usize::from` of a `bool`
abbrev from_bool : Bool → ℕ
from_bool false = 0
from_bool true = 1

-- `BoundedShape::output_slot_count`
unfoldable pub output_slot_count : BoundedShape → SettlementMask → Bool → ℕ
unfolding participant_output_count
output_slot_count contest_opening_or_replacement mask change = 1 + from_bool change
output_slot_count settlement mask change = participant_output_count mask + from_bool change
output_slot_count coop_close mask change = participant_output_count mask + from_bool change

-- `BoundedShape::allows_sponsor_input`
unfoldable pub allows_sponsor_input : BoundedShape → Bool
allows_sponsor_input contest_opening_or_replacement = true
allows_sponsor_input settlement = true
allows_sponsor_input coop_close = true

-- `BoundedShape::sponsor_change_index`
unfoldable pub sponsor_change_index : BoundedShape → Option ℕ
sponsor_change_index contest_opening_or_replacement = some 1
sponsor_change_index settlement = some 2
sponsor_change_index coop_close = some 2

pub data CanonicalSequence : Type 0 where
  settle : ℕ → CanonicalSequence
  disable_relative_lock : CanonicalSequence

-- `CanonicalSequence::encode`
unfoldable pub encode_sequence : CanonicalSequence → Bytes
encode_sequence (settle delta) = to_le 8 delta
encode_sequence disable_relative_lock = to_le 8 (2 ^ 63)
