-- ===== src/Normative/Spk/RoundTrip.antt =====
-- `encode_spk` and `decode_spk` are inverse to one another, so the encoding is canonical.
use kurrent.Base.{
  All, All-drop, All-take, [], ap, arith, drop, drop-append, eq_of_not_bne, le_of_not_ltb, length,
  length-append, length-drop, length-take, list_eq, nat_eq, option_eq, refl, string_eq, subst, take,
  take-append, take-append-drop, ◌%◌, ◌++◌, ◌+◌, ◌<◌, ◌^◌, ◌∙◌, ◌∷◌, ◌≡◌, ◌≤◌,
}
use kurrent.Bytes.{
  Bytes, IsByte, from_le, from_le-lt, from_le-to_le, length-to_le, to_le, to_le-from_le,
}
use kurrent.Errors.{fail_if-eq-ok, ok, ok-injective}
use kurrent.Normative.Spk.{EncodedSpk, IsSpk, decode_spk, encode_spk}

pub length-encode_spk : (spk : EncodedSpk) → length (encode_spk spk) ≡ 10 + length spk.script
unfolding encode_spk
length-encode_spk spk = simp (length-append, length-to_le) (omega arith)

-- The three fields that `decode_spk` cuts out of an encoding.
module _ (spk : EncodedSpk) (h : IsSpk spk) where
  encode-version : from_le (take 2 (encode_spk spk)) ≡ spk.version
  unfolding encode_spk
  encode-version =
      rw (take-append 2 (to_le 2 spk.version) _ (length-to_le 2 _))
        (from_le-to_le 2 _ (omega arith))

  encode-len : from_le (take 8 (drop 2 (encode_spk spk))) ≡ length spk.script
  unfolding encode_spk
  encode-len = rw (drop-append 2 (to_le 2 spk.version) _ (length-to_le 2 _)) (
      rw (take-append 8 (to_le 8 (length spk.script % 2 ^ 64)) _ (length-to_le 8 _))
        (from_le-to_le 8 _ (omega arith) ∙ omega arith))

encode-script : (spk : EncodedSpk) → drop 10 (encode_spk spk) ≡ spk.script
unfolding encode_spk to_le
encode-script spk = refl

-- Decoding an encoding gives the script public key back.
pub decode_spk-encode_spk : (spk : EncodedSpk) → IsSpk spk → decode_spk (encode_spk spk) ≡ ok spk
unfolding decode_spk
decode_spk-encode_spk spk h =
    ground (arith, length-encode_spk spk, encode-version spk h, encode-len spk h, encode-script spk)

-- The four parts of a byte vector that the encoding has.
parts : (bytes : Bytes) → take 2 bytes ++ (take 8 (drop 2 bytes) ++ drop 10 bytes) ≡ bytes
parts [] = refl
parts (a ∷ []) = refl
parts (a ∷ b ∷ r) = ap (λ l. a ∷ b ∷ l) (take-append-drop 8 r)

-- The parts of an accepted byte vector, put together again.
module _ (bytes : Bytes) (hb : All IsByte bytes) (hl : length bytes < 2 ^ 63) where
  abbrev version_part : Bytes
  version_part = take 2 bytes

  abbrev len_part : Bytes
  len_part = take 8 (drop 2 bytes)

  abbrev decoded : EncodedSpk
  decoded = record { version = from_le version_part; script = drop 10 bytes }

  module _ (long : 10 ≤ length bytes) (fits : length bytes ≡ (10 + from_le len_part) % 2 ^ 64) where
    length-version_part : length version_part ≡ 2
    length-version_part = length-take 2 bytes (omega arith)

    length-len_part : length len_part ≡ 8
    length-len_part = length-take 8 (drop 2 bytes) (omega (arith, length-drop 2 bytes))

    version_part-lt : from_le version_part < 2 ^ 16
    version_part-lt =
        rw length-version_part at (from_le-lt version_part (All-take IsByte 2 bytes hb))

    len_part-bytes : All IsByte len_part
    len_part-bytes = All-take IsByte 8 (drop 2 bytes) (All-drop IsByte 2 bytes hb)

    len_part-lt : from_le len_part < 2 ^ 64
    len_part-lt = rw length-len_part at (from_le-lt len_part len_part-bytes)

    -- `10 + len` cannot have wrapped.
    len_part_lem : length (drop 10 bytes) % 2 ^ 64 ≡ from_le len_part
    len_part_lem = omega (arith, len_part-lt, length-drop 10 bytes)

    version_part_lem : to_le 2 (from_le version_part) ≡ version_part
    version_part_lem =
        rw length-version_part at (to_le-from_le version_part (All-take IsByte 2 bytes hb))

    len_bytes_lem : to_le 8 (from_le len_part) ≡ len_part
    len_bytes_lem = rw length-len_part at (to_le-from_le len_part len_part-bytes)

    encode_spk-decoded : encode_spk decoded ≡ bytes
    unfolding encode_spk
    encode_spk-decoded = rw (version_part_lem, len_part_lem, len_bytes_lem) (parts bytes)

    decoded-IsSpk : IsSpk decoded
    decoded-IsSpk = record {
      version_fits = version_part-lt;
      script_fits = omega (arith, length-drop 10 bytes);
      script_bytes = All-drop IsByte 10 bytes hb;
    }

-- Whatever decodes is the encoding of the result: no second byte form is accepted.
pub encode_spk-decode_spk :
    (bytes : Bytes) {spk : EncodedSpk}
    → All IsByte bytes
    → length bytes < 2 ^ 63
    → decode_spk bytes ≡ ok spk
    → (encode_spk spk ≡ bytes) × IsSpk spk
unfolding decode_spk
encode_spk-decode_spk bytes hb hl h =
    let (long, r) = fail_if-eq-ok _ _ _ h in
    let (fits, e) = fail_if-eq-ok _ _ _ r in
    let l : 10 ≤ length bytes = le_of_not_ltb _ _ long in
    let f : length bytes ≡ (10 + from_le (take 8 (drop 2 bytes))) % 2 ^ 64 =
      eq_of_not_bne _ _ fits in
    subst (λ s. (encode_spk s ≡ bytes) × IsSpk s) (ok-injective e)
      (encode_spk-decoded bytes hb hl l f, decoded-IsSpk bytes hb hl l f)
