-- ===== src/Normative/Spk.antt =====
-- `EncodedSpk` of src/lib.rs: the canonical script public key encoding. `usize` has 64 bits.
pub mod RoundTrip
mod Tests
use kurrent.Base.{
  All, drop, length, list_eq, ltb, nat_eq, option_eq, show_u64, string_eq, take, ℕ, ◌!=◌, ◌%◌, ◌++◌,
  ◌+◌, ◌-◌, ◌<>◌, ◌<◌, ◌^◌,
}
use kurrent.Bytes.{Bytes, IsByte, IsU16, from_le, to_be, to_le}
use kurrent.Errors.{KurrentError, Result, fail_if, invalid_spk_encoding, ok, ◌>>=◌, ◌>>◌}

pub record EncodedSpk : Type 0 where
  pub version : ℕ
  pub script : Bytes

-- `EncodedSpk::encode`
unfoldable pub encode_spk : EncodedSpk → Bytes
encode_spk spk = to_le 2 spk.version ++ (to_le 8 (length spk.script % 2 ^ 64) ++ spk.script)

-- `EncodedSpk::toccata_encode`
unfoldable pub toccata_encode_spk : EncodedSpk → Bytes
toccata_encode_spk spk = to_be 2 spk.version ++ spk.script

abbrev truncated_header : ℕ → KurrentError
truncated_header n =
    invalid_spk_encoding ("truncated header: got " <> show_u64 n <> " bytes, header is 10")

abbrev length_mismatch : ℕ → ℕ → KurrentError
length_mismatch len payload =
    invalid_spk_encoding
      ("length field says " <> show_u64 len <> " script bytes, payload has " <> show_u64 payload)

-- `EncodedSpk::decode`; `10 + len` wraps at 64 bits, as it does without overflow checks.
unfoldable pub decode_spk : Bytes → Result EncodedSpk
decode_spk bytes = do
  fail_if (ltb (length bytes) 10) (truncated_header (length bytes))
  let version = from_le (take 2 bytes)
  let len = from_le (take 8 (drop 2 bytes))
  fail_if (length bytes != (10 + len) % 2 ^ 64) (length_mismatch len (length bytes - 10))
  ok (record { version = version; script = drop 10 bytes })

-- The values that the Rust type holds; no vector is longer than 2 ^ 63 - 1 bytes.
pub record IsSpk (spk : EncodedSpk) : Type 0 where
  pub version_fits : IsU16 spk.version
  pub script_fits : length spk.script < 2 ^ 63
  pub script_bytes : All IsByte spk.script
