-- ===== src/Normative/Shape/Laws.antt =====
-- The output slots of a branch, and the two sequence encodings.
use kurrent.Base.{
  Bool, ap, arith, false, if◌then◌else◌, refl, some, suc, sym, true, ℕ, ◌+◌, ◌^◌, ◌↔◌, ◌∙◌, ◌≡◌,
  ◌≢◌, ◌<◌, ◌≤◌, ◌⊎◌,
}
use kurrent.Bytes.{IsU32, from_le, from_le-to_le}
use kurrent.Errors.{ok}
use kurrent.Normative.Amounts.{SettlementMask, from_values}
use kurrent.Normative.Amounts.Laws.{paid, participant_output_count-from_values}
use kurrent.Normative.Shape.{
  BoundedShape, CanonicalSequence, contest_opening_or_replacement, coop_close,
  disable_relative_lock, encode_sequence, output_slot_count, settle, settlement,
  sponsor_change_index,
}

-- A settlement or a cooperative close of `a + b` has an output for each party that is paid, and
-- one more for sponsor change.
pub output_slot_count_lem :
    (a b total : ℕ) {m : SettlementMask} (change : Bool)
    → from_values a b total ≡ ok m
    → (output_slot_count settlement m change ≡ paid a + paid b + (if change then 1 else 0))
      × (output_slot_count coop_close m change ≡ output_slot_count settlement m change)
unfolding output_slot_count
output_slot_count_lem a b total {m} true h =
    ground (arith, participant_output_count-from_values a b total h)
output_slot_count_lem a b total {m} false h =
    ground (arith, participant_output_count-from_values a b total h)

-- For a split of a total, the fixed change index of a settling branch is the slot behind the
-- participants' outputs exactly if both parties are paid; if one is not, the index is past the last
-- output, change included. On the other branch it is the last of the slots with change.
pub sponsor_change_index_in_range :
    (s : BoundedShape) (a b total : ℕ) {m : SettlementMask} (i : ℕ)
    → from_values a b total ≡ ok m
    → sponsor_change_index s ≡ some i
    → (s ≢ contest_opening_or_replacement
        → ((i ≡ output_slot_count s m false) ↔ ((0 < a) × (0 < b)))
          × ((output_slot_count s m true ≤ i) ↔ ((a ≡ 0) ⊎ (b ≡ 0))))
      × (s ≡ contest_opening_or_replacement → suc i ≡ output_slot_count s m true)
unfolding sponsor_change_index output_slot_count
sponsor_change_index_in_range contest_opening_or_replacement a b total i v h =
    ((λ other. absurd (other refl)), λ _. ground arith)
sponsor_change_index_in_range settlement a b total i v h =
    let slots = participant_output_count-from_values a b total v in (λ _. ground arith, λ e. cc)
sponsor_change_index_in_range coop_close a b total i v h =
    let slots = participant_output_count-from_values a b total v in (λ _. ground arith, λ e. cc)

-- The values that the Rust type holds.
abbrev pub IsSequence : CanonicalSequence → Type 0
IsSequence (settle delta) = IsU32 delta
IsSequence disable_relative_lock = Unit

-- The sequence number that a covenant reads back.
abbrev pub number : CanonicalSequence → ℕ
number (settle delta) = delta
number disable_relative_lock = 2 ^ 63

pub from_le-encode_sequence :
    (s : CanonicalSequence) → IsSequence s → from_le (encode_sequence s) ≡ number s
unfolding encode_sequence
from_le-encode_sequence (settle delta) h = from_le-to_le 8 delta (omega arith)
from_le-encode_sequence disable_relative_lock h = from_le-to_le 8 (2 ^ 63) (omega arith)

-- Two sequences with one encoding are one: no settlement passes for a replacement, and none for a
-- settlement with another window.
encode_sequence-injective :
    (s t : CanonicalSequence)
    → IsSequence s
    → IsSequence t
    → encode_sequence s ≡ encode_sequence t
    → s ≡ t
encode_sequence-injective s t hs ht e =
    numbers s t hs ht
      (sym (from_le-encode_sequence s hs) ∙ ap from_le e ∙ from_le-encode_sequence t ht)
  where
    numbers : (s t : CanonicalSequence) → IsSequence s → IsSequence t → number s ≡ number t → s ≡ t
    numbers (settle x) (settle y) hs ht e = ap settle e
    numbers (settle x) disable_relative_lock hs ht e = absurd (omega arith)
    numbers disable_relative_lock (settle y) hs ht e = absurd (omega arith)
    numbers disable_relative_lock disable_relative_lock hs ht e = refl
