-- ===== src/Normative/Spk/Tests.antt =====
-- Runs of `EncodedSpk` and the theorems at concrete inputs.
use kurrent.Base.{[], arith, refl, ◌∷◌, ◌≡◌}
use kurrent.Bytes.{Bytes, from_le, to_be, to_le}
use kurrent.Errors.{ok}
use kurrent.Normative.Spk.{EncodedSpk, IsSpk, decode_spk, encode_spk, toccata_encode_spk}
use kurrent.Normative.Spk.RoundTrip.{decode_spk-encode_spk, encode_spk-decode_spk}

abbrev script_spk : EncodedSpk
script_spk = record { version = 0x0102; script = 7 ∷ 8 ∷ [] }

abbrev script_spk_bytes : Bytes
script_spk_bytes = 2 ∷ 1 ∷ 2 ∷ 0 ∷ 0 ∷ 0 ∷ 0 ∷ 0 ∷ 0 ∷ 0 ∷ 7 ∷ 8 ∷ []

encode_run : encode_spk script_spk ≡ script_spk_bytes
unfolding encode_spk to_le
encode_run = refl

toccata_encode_run : toccata_encode_spk script_spk ≡ 1 ∷ 2 ∷ 7 ∷ 8 ∷ []
unfolding toccata_encode_spk to_be
toccata_encode_run = refl

decode_run : decode_spk script_spk_bytes ≡ ok script_spk
unfolding decode_spk from_le
decode_run = refl

script_spk-IsSpk : IsSpk script_spk
script_spk-IsSpk = omega arith

decode_spk-encode_spk_example : decode_spk (encode_spk script_spk) ≡ ok script_spk
decode_spk-encode_spk_example = decode_spk-encode_spk script_spk script_spk-IsSpk

encode_spk-decode_spk_example : (encode_spk script_spk ≡ script_spk_bytes) × IsSpk script_spk
encode_spk-decode_spk_example =
    encode_spk-decode_spk script_spk_bytes {spk = script_spk} (omega arith) (omega arith) decode_run
