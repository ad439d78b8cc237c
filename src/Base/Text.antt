-- ===== src/Base/Text.antt =====
-- Texts of the standard library: decimal display of an unsigned integer, and UTF-8 bytes.
use Prim.Native.Nat.{ℕ, zero, suc, ◌+◌, ◌/◌, ◌%◌}
use Prim.Native.Char.{code}
use Prim.Native.Nat.{Ordering}
use mathlib.Core.Bool.{Bool, true, false}
use Prim.Native.String.{String, compare, slice, ◌++◌ as string_append}
use mathlib.Core.List.{List, [], ◌∷◌, ◌++◌}
use kurrent.Base.Tests.{ltb, if◌then◌else◌}
use mathlib.Core.Path.{◌≡◌, refl}

-- One decimal digit.
digit : ℕ → String
digit n = slice "0123456789" n (n + 1)

-- The last `fuel` decimal digits in front of `acc`, with no leading zeros.
decimal : ℕ → ℕ → String → String
unfolding digit
decimal zero n acc = acc
decimal (suc fuel) n acc =
    let more = decimal fuel (n / 10) (string_append (digit (n % 10)) acc) in
    if ltb n 10 then string_append (digit n) acc else more

-- `Display` of a `u64` or `usize`: 20 digits are enough below 2 ^ 64.
unfoldable pub show_u64 : ℕ → String
unfolding decimal
show_u64 n = decimal 20 n ""

-- The UTF-8 bytes of one code point.
abbrev utf8_char : ℕ → List ℕ
utf8_char c =
    if ltb c 0x80
    then c ∷ []
    else (if ltb c 0x800
        then (0xc0 + c / 64) ∷ (0x80 + c % 64) ∷ []
        else (if ltb c 0x10000
            then (0xe0 + c / 4096) ∷ (0x80 + c / 64 % 64) ∷ (0x80 + c % 64) ∷ []
            else ((0xf0 + c / 262144)
                ∷ (0x80 + c / 4096 % 64)
                ∷ (0x80 + c / 64 % 64)
                ∷ (0x80 + c % 64)
                ∷ [])))

-- `str::as_bytes`.
unfoldable pub as_bytes : String → List ℕ
as_bytes String.[] = []
as_bytes (String.◌∷◌ c s) = utf8_char (code c) ++ as_bytes s

-- The largest `u64`.
show_u64_max : show_u64 18446744073709551615 ≡ "18446744073709551615"
unfolding show_u64
show_u64_max = refl

infixr 60 ◌<>◌
abbrev pub ◌<>◌ : String → String → String
s <> t = string_append s t

-- `<=` of texts: by code points, which is the order of their UTF-8 bytes.
abbrev pub str_le : String → String → Bool
str_le s t = elim (compare s t) [ Ordering.gt ↦ false | _ ↦ true ]
