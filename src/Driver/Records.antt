-- ===== src/Driver/Records.antt =====
-- Files and file records of drivers/kaspa-devnet/src/main.rs: JSON evidence, hex records with their
-- digests, decoded transactions.
use kurrent.Base.{if◌then◌else◌, List, String, [], none, some, string_eq, ◌<>◌, ◌==◌, ◌∷◌}
use kurrent.Bytes.{Bytes}
use kurrent.Driver.{Answer, CheckEntry, Host, Transaction, map_err, ok, require, ◌>>=◌ as and_then}
use kurrent.Driver.Require.{required_str, required_value}
use kurrent.Driver.Verify.{Verify, change, lift, one_check, one_decoded, one_verified, ◌>>=◌, ◌>>◌}
use kurrent.External.{External, sha256_hex}
pub mod Laws
mod Tests
pub mod Writes

module _ (d : Host) where
  unfoldable pub resolve_record_path : String → String
  resolve_record_path path =
      if d.is_absolute path
      then path
      else d.join (elim d.current_dir [ none ↦ "." | some directory ↦ directory ]) path

  unfoldable pub read_hex_file : String → Answer Bytes
  read_hex_file path =
      and_then
        (map_err (d.read_to_string path)
          (λ e. "failed to read hex evidence " <> d.display path <> ": " <> e))
        (λ text.
          map_err (d.decode (d.trim text))
            (λ e. "hex evidence " <> d.display path <> " is not valid hex: " <> e))

  unfoldable pub read_json : String → Answer d.Value
  read_json path =
      and_then (map_err (d.read path) (λ e. "failed to read " <> d.display path <> ": " <> e))
        (λ bytes.
          map_err (d.from_slice bytes) (λ e. "failed to parse " <> d.display path <> ": " <> e))

  module _ (x : External) where
    unfoldable pub verify_hex_record_hash : d.Value → Verify Bytes
    unfolding resolve_record_path read_hex_file
    verify_hex_record_hash file = do
      path ← lift (required_str d file "/path")
      expected_hash ← lift (required_str d file "/sha256")
      bytes ← lift (read_hex_file (resolve_record_path path))
      lift (
          require (sha256_hex x bytes == expected_hash) (
            "hex evidence hash mismatch for "
            <> path
            <> ": expected "
            <> expected_hash
            <> ", actual "
            <> sha256_hex x bytes))
      change one_verified
      lift (ok bytes)

    unfoldable pub transaction_from_record : d.Value → String → Verify Transaction
    unfolding verify_hex_record_hash
    transaction_from_record report pointer = do
      file ← lift (required_value d report pointer)
      bytes ← verify_hex_record_hash file
      lift (
          map_err (d.transaction_from_slice bytes)
            (λ e. "failed to decode transaction at " <> pointer <> ": " <> e))

    -- `transaction_from_record(…)?` and `*decoded_transactions += 1`.
    unfoldable pub decode_transaction : d.Value → String → Verify Transaction
    unfolding transaction_from_record
    decode_transaction report pointer = do
      tx ← transaction_from_record report pointer
      change one_decoded
      lift (ok tx)

    -- `for pointer in […] { verify_hex_record_hash(&required_value(&report, pointer)?, …)?; }`
    unfoldable pub verify_hex_records : d.Value → List String → Verify (Unit {0})
    unfolding verify_hex_record_hash
    verify_hex_records report [] = lift (ok tt)
    verify_hex_records report (pointer ∷ rest) =
        let others = verify_hex_records report rest in
        lift (required_value d report pointer) >>= λ file.
        verify_hex_record_hash file >>= λ bytes. others
