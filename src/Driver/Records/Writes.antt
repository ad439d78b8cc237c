-- ===== src/Driver/Records/Writes.antt =====
-- `write_raw_tx` and `write_bytes_hex` of drivers/kaspa-devnet/src/main.rs: the files that the
-- verifiers read back.
use kurrent.Base.{String, ap, ◌<>◌, ◌≡◌, sym, subst, refl, some}
use kurrent.Bytes.{Bytes}
use kurrent.Driver.{Answer, Host, Progress, Transaction, err, map_err, ok, panic, ◌>>◌}
use kurrent.Driver.Answers.{both_iff, map_err_iff, ok-injective}
use kurrent.Driver.Records.{decode_transaction, resolve_record_path}
use kurrent.Driver.Records.Laws.{Runs-decode_transaction}
use kurrent.Driver.Require.Laws.{Text}
use kurrent.Driver.Verify.{one_decoded, one_verified}
use kurrent.External.{External, sha256_hex}

pub record FileRecord : Type 0 where
  pub path : String
  pub sha256 : String

-- borsh and the file system, as the writers use them: a write leaves another state of the disk, and
-- a text is read from a state.
pub record Files : Type 1 where
  pub State : Type 0
  pub to_vec : Transaction → Answer Bytes
  pub write : String → String → State → Answer (Unit {0}) × State
  pub read_to_string : State → String → Answer String

module _ (d : Host) (x : External) where
  -- `FileRecord::new`
  abbrev pub file_record : String → Bytes → FileRecord
  file_record path original_bytes = record {
    path = d.display path;
    sha256 = sha256_hex x original_bytes;
  }

  module _ (w : Files) where
    -- `fs::write(…).map_err(…)?` and `Ok(FileRecord::new(…))`, beside the state that the write left.
    unfoldable pub write_bytes_hex : String → String → Bytes → w.State → Answer FileRecord × w.State
    write_bytes_hex output_dir name bytes s =
        let path = d.join output_dir name in
        let (result, after) = w.write path (x.hex_encode bytes <> "\n") s in
        (
          map_err result (λ e. "failed to write " <> d.display path <> ": " <> e)
              >> ok (file_record path bytes),
          after,
        )

    unfoldable pub write_raw_tx :
        String → String → Transaction → w.State → Answer FileRecord × w.State
    unfolding write_bytes_hex
    write_raw_tx output_dir name tx s = elim (w.to_vec tx) [
      | ok bytes ↦ write_bytes_hex output_dir name bytes s
      | err e ↦ (err ("failed to serialise transaction " <> tx.id <> ": " <> e), s)
      | panic ↦ (panic, s)
    ]

    -- The host with the disk in this state.
    abbrev pub with_files : w.State → Host
    with_files s = record d { read_to_string = w.read_to_string s }

    -- What a file system documents: after a write that succeeded its path holds the text written.
    abbrev pub WritesOwn : Type 0
    WritesOwn =
        (path text : String) (s : w.State)
        → (w.write path text s).0 ≡ ok tt
        → w.read_to_string (w.write path text s).1 path ≡ ok text

    -- For this transaction borsh and hex give back what they were given, an encoding loses its line
    -- break when trimmed, and the displayed path leads to the file.
    pub record Keeps (tx : Transaction) (path : String) : Type 0 where
      pub parsed : (bytes : Bytes) → w.to_vec tx ≡ ok bytes → d.transaction_from_slice bytes ≡ ok tx
      pub trimmed :
          (bytes : Bytes)
          → w.to_vec tx ≡ ok bytes
          → d.trim (x.hex_encode bytes <> "\n") ≡ x.hex_encode bytes
      pub decoded :
          (bytes : Bytes) → w.to_vec tx ≡ ok bytes → d.decode (x.hex_encode bytes) ≡ ok bytes
      pub named : resolve_record_path d (d.display path) ≡ path

    -- What a write that succeeded has left.
    write_raw_tx-text :
        (output_dir name : String) (tx : Transaction) (r : FileRecord) (before after : w.State)
        → WritesOwn
        → write_raw_tx output_dir name tx before ≡ (ok r, after)
        → (bytes : Bytes) × (w.to_vec tx ≡ ok bytes)
          × (file_record (d.join output_dir name) bytes ≡ r)
          × (w.read_to_string after (d.join output_dir name) ≡ ok (x.hex_encode bytes <> "\n"))
    unfolding write_raw_tx
    write_raw_tx-text output_dir name tx r before after own h = go (w.to_vec tx) refl h
      where
        go :
            (serialised : Answer Bytes)
            → w.to_vec tx ≡ serialised
            → (elim serialised as (λ _. Answer FileRecord × w.State) [
              | ok bytes ↦ write_bytes_hex output_dir name bytes before
              | err e ↦ (err ("failed to serialise transaction " <> tx.id <> ": " <> e), before)
              | panic ↦ (panic, before)
            ])
              ≡ (ok r, after)
            → (bytes : Bytes) × (w.to_vec tx ≡ ok bytes)
              × (file_record (d.join output_dir name) bytes ≡ r)
              × (w.read_to_string after (d.join output_dir name) ≡ ok (x.hex_encode bytes <> "\n"))
        go (ok bytes) e h =
            let path = d.join output_dir name in
            let text = x.hex_encode bytes <> "\n" in
            let (wrote, same) =
              (both_iff (map_err_iff _ tt) ((λ e. ok-injective e), (λ e. ap ok e))).0
                (ap (λ m. m.0) h) in
            (
              bytes,
              e,
              same,
              subst (λ s. w.read_to_string s path ≡ ok text) (ap (λ m. m.1) h)
                  (own path text before wrote),
            )
        go (err e) f h = cc
        go panic f h = cc

    -- On a file system that holds what was written, where borsh and hex give back what they were
    -- given, a transaction whose write succeeded is decoded again, on the disk that the write left,
    -- from a report with the record of its file, and counted as one transaction and one record.
    pub write_raw_tx-decode_transaction :
        (output_dir name pointer : String) (tx : Transaction) (r : FileRecord)
        (before after : w.State) (report file : d.Value) (p : Progress)
        → WritesOwn
        → Keeps tx (d.join output_dir name)
        → write_raw_tx output_dir name tx before ≡ (ok r, after)
        → d.pointer report pointer ≡ some file
        → Text d file "/path" r.path
        → Text d file "/sha256" r.sha256
        → decode_transaction (with_files after) x report pointer p
          ≡ ok (tx, one_decoded (one_verified p))
    unfolding resolve_record_path
    write_raw_tx-decode_transaction output_dir name pointer tx r before after report file p own
          keeps written here path_text sha_text =
        let (bytes, serialised, same, holds) =
          write_raw_tx-text output_dir name tx r before after own written in
        let path = d.join output_dir name in
        let at_path = subst (λ q. Text d file "/path" q.path) (sym same) path_text in
        let at_sha = subst (λ q. Text d file "/sha256" q.sha256) (sym same) sha_text in
        let found =
          subst (λ q. w.read_to_string after q ≡ ok (x.hex_encode bytes <> "\n")) (sym keeps.named)
            holds in
        let back =
          subst (λ t. d.decode t ≡ ok bytes) (sym (keeps.trimmed bytes serialised))
            (keeps.decoded bytes serialised) in
        ((Runs-decode_transaction (with_files after) x report pointer).at p
            (one_decoded (one_verified p)) tx).1
          (
            (
              file,
              here,
              (bytes, (_, at_path, at_sha, (_, found, back)), keeps.parsed bytes serialised),
            ),
            refl,
          )
