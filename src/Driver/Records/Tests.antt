-- ===== src/Driver/Records/Tests.antt =====
-- A transaction that is written and decoded again, and the theorem about it.
use kurrent.Base.{
  Map, String, [], arith, beq_refl, get, if◌then◌else◌, none, refl, some, string_eq, subst, ◌<>◌,
  ◌==◌, ◌∷◌, ◌≡◌,
}
use kurrent.Driver.{Answer, Host, Transaction, err, map_err, ok, ◌>>=◌, ◌>>◌}
use kurrent.Driver.Answers.{ok-injective}
use kurrent.Driver.Records.{decode_transaction, resolve_record_path}
use kurrent.Driver.Records.Writes.{
  Files, Keeps, WritesOwn, with_files, write_raw_tx, write_raw_tx-decode_transaction,
}
use kurrent.Driver.Sample.{machine, start}
use kurrent.Driver.Sample.Places.{Cursor}
use kurrent.Driver.Verify.{one_decoded, one_verified}
use kurrent.External.{sha256_hex}
use kurrent.Fixtures.{decode_marks, digest_text, encode_marks, zero_external}

abbrev transaction : Transaction
transaction = record { id = "f"; inputs = []; outputs = []; payload = []; subnetwork_id = [] }

-- The sample machine, with the trimming and the decoding of the one text that is written.
abbrev host : Host
host = record machine {
  transaction_from_slice = λ bytes. ok transaction;
  trim = λ s. if s == "a,aa,\n" then "a,aa," else s;
  decode = λ s. elim (decode_marks s) [ none ↦ err "hex" | some bytes ↦ ok bytes ];
}

-- A disk as the list of its files, the last written first.
abbrev read_from : Map String String → String → Answer String
read_from disk path = elim (get path disk) [ none ↦ err "no such file" | some text ↦ ok text ]

abbrev files : Files
files = record {
  State = Map String String;
  to_vec = λ tx. ok (1 ∷ 2 ∷ []);
  write = λ path text disk. (ok tt, (path, text) ∷ disk);
  read_to_string = read_from;
}

files-WritesOwn : WritesOwn host zero_external files
unfolding get
files-WritesOwn path text disk h = ground (arith, beq_refl path)

abbrev report : Cursor
report = record {
  texts = ("/tx/path", "f") ∷ ("/tx/sha256", digest_text) ∷ [];
  numbers = [];
  place = "";
}

file_Keeps : Keeps host zero_external files transaction "f"
unfolding encode_marks decode_marks resolve_record_path
file_Keeps = record {
  parsed = λ bytes e. refl;
  trimmed = λ bytes e.
      subst (λ b. host.trim (encode_marks b <> "\n") ≡ encode_marks b) (ok-injective e) refl;
  decoded = λ bytes e. subst (λ b. host.decode (encode_marks b) ≡ ok b) (ok-injective e) refl;
  named = refl;
}

written_run :
    write_raw_tx host zero_external files "out" "f" transaction []
    ≡ (ok (record { path = "f"; sha256 = digest_text }), ("f", "a,aa,\n") ∷ [])
unfolding write_raw_tx encode_marks sha256_hex map_err ◌>>=◌ ◌>>◌
written_run = refl

write_raw_tx-decode_transaction_example :
    decode_transaction
      (with_files host zero_external files (("f", "a,aa,\n") ∷ []))
      zero_external
      report
      "/tx"
      start
    ≡ ok (transaction, one_decoded (one_verified start))
unfolding get
write_raw_tx-decode_transaction_example =
    write_raw_tx-decode_transaction host zero_external files "out" "f" "/tx" transaction
      (record { path = "f"; sha256 = digest_text }) [] (("f", "a,aa,\n") ∷ []) report
      (record report { place = "/tx" }) start files-WritesOwn file_Keeps written_run refl refl refl
