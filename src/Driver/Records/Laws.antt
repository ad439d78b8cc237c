-- ===== src/Driver/Records/Laws.antt =====
-- What the records that drivers/kaspa-devnet/src/main.rs accepts are, and how it counts them.
use kurrent.Base.{
  All, List, String, [], refl, some, string_eq, ℕ, ◌↔◌, ◌≡◌, ◌∷◌, subst, sym, ap, ◌∙◌, ◌+◌, ◌%◌,
  ◌^◌, ◌++◌,
}
use kurrent.Bytes.{Bytes}
use kurrent.Driver.{CheckEntry, Host, Progress, Transaction, ok}
use kurrent.Driver.Answers.{map_err_iff, require_iff, some_iff, ok-injective}
use kurrent.Driver.Records.{
  decode_transaction, read_hex_file, read_json, resolve_record_path, transaction_from_record,
  verify_hex_record_hash, verify_hex_records,
}
use kurrent.Driver.Require.Laws.{Text, required_str_iff, required_value_iff}
use kurrent.Driver.Answers.{iff_trans, beq_true_iff}
use kurrent.Driver.Runs.{Runs, Runs->>, Runs->>=, Runs-change, Runs-lift}
use kurrent.Driver.Verify.{Verify, change, lift, ◌>>◌, one_decoded, one_verified}
use kurrent.External.{External, sha256_hex}

-- The same result with another account of it.
pub Runs-iff :
    {A : Type 0} {m : Verify A} {f : Progress → Progress} {P Q : A → Type 0}
    → Runs m f P
    → ((a : A) → P a ↔ Q a)
    → Runs m f Q
Runs-iff h k = record {
  at = λ p q a.
      let both = h.at p q a in
      ((λ e. let (s, t) = both.0 e in ((k a).0 s, t)), (λ (s, t). both.1 ((k a).1 s, t)));
}

-- A value that is only checked against an equation is that value.
pub Runs-ok : {A : Type 0} (a : A) → Runs (lift (ok a)) (λ p. p) (λ b. a ≡ b)
Runs-ok a = Runs-lift (λ b. ((λ e. ok-injective e), (λ e. cc)))

module _ (d : Host) where
  -- The file at the path holds the bytes as hexadecimal digits.
  abbrev pub HexFile : String → Bytes → Type 0
  HexFile path bytes =
      (text : String) × (d.read_to_string path ≡ ok text) × (d.decode (d.trim text) ≡ ok bytes)

  -- The file at the path holds the document.
  abbrev pub JsonFile : String → d.Value → Type 0
  JsonFile path value = (bytes : Bytes) × (d.read path ≡ ok bytes) × (d.from_slice bytes ≡ ok value)

  read_hex_file_iff :
      (path : String) (bytes : Bytes) → (read_hex_file d path ≡ ok bytes) ↔ HexFile path bytes
  unfolding read_hex_file
  read_hex_file_iff path bytes = some_iff (map_err_iff _) (λ text. map_err_iff _ bytes)

  pub read_json_iff :
      (path : String) (value : d.Value) → (read_json d path ≡ ok value) ↔ JsonFile path value
  unfolding read_json
  read_json_iff path value = some_iff (map_err_iff _) (λ bytes. map_err_iff _ value)

  module _ (x : External) where
    -- The record names a hexadecimal file of the bytes and has their digest.
    abbrev pub HexRecord : d.Value → Bytes → Type 0
    HexRecord file bytes =
        (path : String) × Text d file "/path" path
        × Text d file "/sha256" (sha256_hex x bytes)
        × HexFile (resolve_record_path d path) bytes

    pub Runs-verify_hex_record_hash :
        (file : d.Value) → Runs (verify_hex_record_hash d x file) one_verified (HexRecord file)
    unfolding verify_hex_record_hash
    Runs-verify_hex_record_hash file =
        Runs-iff
          (Runs->>= (Runs-lift (required_str_iff d file "/path")) λ path.
            Runs->>= (Runs-lift (required_str_iff d file "/sha256")) λ hash.
              Runs->>= (Runs-lift (read_hex_file_iff (resolve_record_path d path))) λ bytes.
                Runs->>
                  (Runs-lift
                    (λ _. iff_trans (require_iff _) (beq_true_iff (sha256_hex x bytes) hash)))
                  (Runs->> Runs-change (Runs-ok bytes)))
          λ bytes. (
            (λ (path, p, (hash, h, (found, r, (e, (_, same))))). (
              path,
              p,
              subst (λ s. Text d file "/sha256" s) (sym (ap (sha256_hex x) (sym same) ∙ e)) h,
              subst (HexFile (resolve_record_path d path)) same r,
            )),
            (λ (path, p, h, r). (path, p, (sha256_hex x bytes, h, (bytes, r, (refl, (tt, refl)))))),
          )

    -- The document has, at the pointer, the record of an encoded transaction.
    abbrev pub Decoded : d.Value → String → Transaction → Type 0
    Decoded report pointer tx =
        (file : d.Value) × (d.pointer report pointer ≡ some file)
        × ((bytes : Bytes) × HexRecord file bytes × (d.transaction_from_slice bytes ≡ ok tx))

    pub Runs-decode_transaction :
        (report : d.Value) (pointer : String)
        → Runs
            (decode_transaction d x report pointer)
            (λ p. one_decoded (one_verified p))
            (Decoded report pointer)
    unfolding decode_transaction transaction_from_record
    Runs-decode_transaction report pointer =
        Runs-iff
          (Runs->>=
            (Runs->>= (Runs-lift (required_value_iff d report pointer)) λ file.
              Runs->>= (Runs-verify_hex_record_hash file) λ bytes. Runs-lift (map_err_iff _))
            λ tx. Runs->> Runs-change (Runs-ok tx))
          λ tx. (
            (λ (other, s, (_, same)). subst (Decoded report pointer) same s),
            (λ s. (tx, s, (tt, refl))),
          )

    -- The document has, at each pointer, the record of a hexadecimal file.
    abbrev pub AllRecorded : d.Value → List String → Type 0
    AllRecorded report = All λ pointer.
        (file : d.Value) × (d.pointer report pointer ≡ some file)
        × ((bytes : Bytes) × HexRecord file bytes)

    -- One more verified record for each entry of a list.
    abbrev pub each_verified : List String → Progress → Progress
    each_verified [] p = p
    each_verified (_ ∷ rest) p = each_verified rest (one_verified p)

    pub Runs-verify_hex_records :
        (report : d.Value) (pointers : List String)
        → Runs
            (verify_hex_records d x report pointers)
            (each_verified pointers)
            (λ _. AllRecorded report pointers)
    unfolding verify_hex_records
    Runs-verify_hex_records report [] = Runs-lift (λ _. ((λ _. tt), (λ _. refl)))
    Runs-verify_hex_records report (pointer ∷ rest) =
        Runs-iff
          (Runs->>= (Runs-lift (required_value_iff d report pointer)) λ file.
            Runs->>= (Runs-verify_hex_record_hash file)
              λ bytes. Runs-verify_hex_records report rest)
          λ _. (
            (λ (file, p, (bytes, h, others)). ((file, p, (bytes, h)), others)),
            (λ ((file, p, (bytes, h)), others). (file, p, (bytes, h, others))),
          )

-- The last check of a verifier, and its entry in the list.
pub Runs-last :
    {m : Verify (Unit {0})} {f : Progress → Progress} {P : Type 0} (g : Progress → Progress)
    → Runs m f (λ _. P)
    → Runs (m >> change g) (λ p. g (f p)) (λ _. P)
Runs-last g h = Runs-iff (Runs->> h Runs-change) (λ _. ((λ (s, _). s), (λ s. (s, tt))))

-- So many more transactions and records, and one more check.
abbrev pub counted : ℕ → ℕ → CheckEntry → Progress → Progress
counted transactions records entry p = record {
  checks = p.checks ++ (entry ∷ []);
  decoded_transactions = (p.decoded_transactions + transactions) % 2 ^ 64;
  verified_hex_records = (p.verified_hex_records + records) % 2 ^ 64;
}

pub Runs-counted :
    {A : Type 0} {m : Verify A} {f : Progress → Progress} {P : A → Type 0} (g : Progress → Progress)
    → Runs m f P
    → ((p : Progress) → f p ≡ g p)
    → (p q : Progress) (a : A) → (m p ≡ ok (a, q)) ↔ (P a × (q ≡ g p))
Runs-counted g h same p q a = rw (← same p) (h.at p q a)
