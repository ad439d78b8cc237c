-- ===== src/Client/Capture/Tests.antt =====
-- A captured run on a machine whose state is its files, and the theorem about it.
use kurrent.Base.{
  Map, String, [], ap, get, get-insert_ne, get-insert_self, insert, refl, some, string_eq, subst,
  sym, false, true, ◌<>◌, ◌∷◌, ◌≡◌, ◌≢◌,
}
use kurrent.Bytes.{Bytes}
use kurrent.Client.{CommandReceipt, I32}
use kurrent.Client.Capture.{
  KurrentClient, Machine, Output, continue, default_profile, named_failure, ok, run_capture,
  run_program, unix_now, ◌>>=◌, ◌>>◌,
}
use kurrent.Client.Capture.Outcomes.{Files, Kept, run_capture-Kept}
use kurrent.External.{sha256_hex}
use kurrent.Fixtures.{digest_text, encode_marks, zero_external}

-- Every process ends with status zero; it writes a byte, and an error of two.
abbrev echo : Output
echo = record { code = some (I32.pos 0); stdout = 1 ∷ []; stderr = 2 ∷ 3 ∷ [] }

abbrev machine : Machine
machine = record {
  State = Map String Bytes;
  join = λ directory name. directory <> "/" <> name;
  display = λ path. path;
  create_dir_all = λ path s. (ok tt, s);
  write = λ path bytes s. (ok tt, insert path bytes s);
  output = λ program args s. (ok echo, s);
  since_epoch = λ s. (some 5, s);
}

abbrev files : Files machine
files = record {
  read = λ s path. get path s;
  write_own = λ path bytes s t h.
      subst (λ u. get path u ≡ some bytes) (ap (λ p. p.1) h) (get-insert_self path bytes s);
  write_other = λ path other bytes s t h apart.
      subst (λ u. get other u ≡ get other s) (ap (λ p. p.1) h)
        (get-insert_ne path other bytes s (λ e. apart (sym e)));
  clock_keeps = λ path s. refl;
}

abbrev client : KurrentClient
client = record {
  tools = record {
    kaspad = "kaspad";
    kaspa_cli = "kaspa-cli";
    kaspa_wallet = "kaspa-wallet";
    lnd = "lnd";
    lncli = "lncli";
    bitcoind = "bitcoind";
    bitcoin_cli = "bitcoin-cli";
  };
  profile = default_profile;
  evidence_dir = "out";
}

abbrev receipt : CommandReceipt
receipt = record {
  id = "version";
  command = "lnd" ∷ "--version" ∷ [];
  status_code = some (I32.pos 0);
  stdout_path = "out/version.stdout.log";
  stderr_path = "out/version.stderr.log";
  stdout_sha256 = digest_text;
  stderr_sha256 = digest_text;
  started_at_unix = 5;
  finished_at_unix = 5;
}

abbrev logs : Map String Bytes
logs = ("out/version.stdout.log", 1 ∷ []) ∷ ("out/version.stderr.log", 2 ∷ 3 ∷ []) ∷ []

capture_run :
    run_capture machine zero_external client "version" "lnd" ("--version" ∷ []) []
    ≡ (ok receipt, logs)
unfolding run_capture continue ◌>>=◌ ◌>>◌ named_failure run_program unix_now insert sha256_hex
    encode_marks
capture_run = refl

apart : ◌≢◌ {A = String} "out/version.stdout.log" "out/version.stderr.log"
apart = λ e. let same : false ≡ true = (string_eq.beq_iff _ _).1 e in cc

run_capture-Kept_example :
    Kept machine zero_external client "version" "lnd" ("--version" ∷ []) files receipt logs
run_capture-Kept_example =
    run_capture-Kept machine zero_external client "version" "lnd" ("--version" ∷ []) files apart []
      logs receipt capture_run
