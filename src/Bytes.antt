-- ===== src/Bytes.antt =====
-- Byte vectors: the standard library's `to_le_bytes`, `to_be_bytes` and `from_le_bytes`.
use mathlib.Core.List.{reverse}
use native.Mathlib.Nat.{pow-suc}
use kurrent.Base.{
  All, List, [], ap, append-injective, arith, length, refl, suc, sym, zero, ℕ, ◌%◌, ◌*◌, ◌++◌, ◌+◌,
  ◌/◌, ◌<◌, ◌^◌, ◌∙◌, ◌∷◌, ◌≡◌,
}

abbrev pub Bytes : Type 0
Bytes = List ℕ

abbrev pub IsByte : ℕ → Type 0
IsByte b = b < 256

-- A value of `[u8; n]`.
abbrev pub IsArray : ℕ → Bytes → Type 0
IsArray n bs = (length bs ≡ n) × All IsByte bs

abbrev pub IsU16 : ℕ → Type 0
IsU16 n = n < 2 ^ 16

abbrev pub IsU32 : ℕ → Type 0
IsU32 n = n < 2 ^ 32

abbrev pub IsU64 : ℕ → Type 0
IsU64 n = n < 2 ^ 64

-- `to_le_bytes` of a `width`-byte unsigned integer.
unfoldable pub to_le : ℕ → ℕ → Bytes
to_le zero v = []
to_le (suc width) v = v % 256 ∷ to_le width (v / 256)

-- `to_be_bytes`.
unfoldable pub to_be : ℕ → ℕ → Bytes
unfolding to_le
to_be width v = reverse (to_le width v)

-- `from_le_bytes`.
unfoldable pub from_le : Bytes → ℕ
from_le [] = 0
from_le (b ∷ bs) = b + 256 * from_le bs

pub length-to_le : (width v : ℕ) → length (to_le width v) ≡ width
unfolding to_le
length-to_le zero v = refl
length-to_le (suc width) v = ap suc (length-to_le width (v / 256))

pub to_le-IsByte : (width v : ℕ) → All IsByte (to_le width v)
unfolding to_le
to_le-IsByte zero v = tt
to_le-IsByte (suc width) v = (omega arith, to_le-IsByte width (v / 256))

pub from_le-to_le : (width v : ℕ) → v < 256 ^ width → from_le (to_le width v) ≡ v
unfolding to_le from_le
from_le-to_le zero v h = omega arith
from_le-to_le (suc width) v h =
    omega (arith, from_le-to_le width (v / 256) (omega (arith, pow-suc 256 width)))

pub to_le-from_le : (bs : Bytes) → All IsByte bs → to_le (length bs) (from_le bs) ≡ bs
unfolding to_le from_le
to_le-from_le [] h = refl
to_le-from_le (b ∷ bs) (hb, hs) = ground (arith, to_le-from_le bs hs)

pub from_le-lt : (bs : Bytes) → All IsByte bs → from_le bs < 256 ^ length bs
unfolding from_le
from_le-lt [] h = omega arith
from_le-lt (b ∷ bs) (hb, hs) = omega (arith, from_le-lt bs hs, pow-suc 256 (length bs))

-- Fixed-width encodings of two values in range agree only if the values do.
pub to_le-injective :
    (width v w : ℕ) → v < 256 ^ width → w < 256 ^ width → to_le width v ≡ to_le width w → v ≡ w
to_le-injective width v w hv hw e =
    sym (from_le-to_le width v hv) ∙ ap from_le e ∙ from_le-to_le width w hw

-- A fixed-width integer in front of other bytes is read back, and so is what follows it.
pub to_le-append-injective :
    (width v w : ℕ) (r q : Bytes)
    → v < 256 ^ width
    → w < 256 ^ width
    → to_le width v ++ r ≡ to_le width w ++ q
    → (v ≡ w) × (r ≡ q)
to_le-append-injective width v w r q hv hw e =
    let (same, rest) =
      append-injective (to_le width v) (to_le width w) r q
        (length-to_le width v ∙ sym (length-to_le width w)) e in
    (to_le-injective width v w hv hw same, rest)

-- The same for an array.
pub array-append-injective :
    (n : ℕ) (a b r q : Bytes) → IsArray n a → IsArray n b → a ++ r ≡ b ++ q → (a ≡ b) × (r ≡ q)
array-append-injective n a b r q (ha, _) (hb, _) e = append-injective a b r q (ha ∙ sym hb) e

pub cons-injective : {a b : ℕ} {r q : Bytes} → a ∷ r ≡ b ∷ q → (a ≡ b) × (r ≡ q)
cons-injective e = ground arith
