-- ===== src/Client/Capture.antt =====
-- `KurrentClient::run_capture` of src/client.rs: a process whose output is kept on file.
use kurrent.Base.{or_zero, List, Option, String, none, some, ℕ, ◌<>◌, ◌∷◌}
use kurrent.Bytes.{Bytes}
use kurrent.Client.{CommandReceipt, I32, ToolPaths}
use kurrent.External.{External, sha256_hex}
pub mod Outcomes
mod Tests

pub record DevnetProfile : Type 0 where
  pub name : String
  pub kaspa_network : String
  pub kaspa_rpc : String
  pub kaspa_p2p : String
  pub bitcoin_rpc : String
  pub lnd_alice_rpc : String
  pub lnd_bob_rpc : String
  pub data_dir : String

-- `DevnetProfile::default`
abbrev pub default_profile : DevnetProfile
default_profile = record {
  name = "kurrent-local-devnet";
  kaspa_network = "simnet";
  kaspa_rpc = "127.0.0.1:16210";
  kaspa_p2p = "127.0.0.1:16211";
  bitcoin_rpc = "127.0.0.1:18443";
  lnd_alice_rpc = "127.0.0.1:10009";
  lnd_bob_rpc = "127.0.0.1:10010";
  data_dir = ".kurrent-devnet";
}

pub record KurrentClient : Type 0 where
  pub tools : ToolPaths
  pub profile : DevnetProfile
  pub evidence_dir : String

-- A value, or the text of an error, beside the state of the machine that is left.
pub data Outcome (A : Type 0) : Type 0 where
  ok : A → Outcome A
  err : String → Outcome A

-- `std::process::Output`
pub record Output : Type 0 where
  pub code : Option I32
  pub stdout : Bytes
  pub stderr : Bytes

-- Paths, processes, directories, files and the clock, on the states of a machine. The clock gives the
-- seconds since the epoch, none before it.
pub record Machine : Type 1 where
  pub State : Type 0
  pub join : String → String → String
  pub display : String → String
  pub create_dir_all : String → State → Outcome (Unit {0}) × State
  pub write : String → Bytes → State → Outcome (Unit {0}) × State
  pub output : String → List String → State → Outcome Output × State
  pub since_epoch : State → Option ℕ × State

module _ (m : Machine) where
  -- What the code does with the machine: it may fail.
  abbrev pub Action : Type 0 → Type 0
  Action A = m.State → Outcome A × m.State

  infixl 5 ◌>>=◌ ◌>>◌
  unfoldable pub continue :
      {A B : Type 0} → Outcome A × m.State → (A → Action B) → Outcome B × m.State
  continue (ok a, s) next = next a s
  continue (err e, s) next = (err e, s)

  unfoldable pub ◌>>=◌ : {A B : Type 0} → Action A → (A → Action B) → Action B
  unfolding continue
  (first >>= next) s = continue (first s) next

  unfoldable pub ◌>>◌ : {B : Type 0} → Action (Unit {0}) → Action B → Action B
  unfolding ◌>>=◌
  first >> second = first >>= λ _. second

  abbrev pub done : {A : Type 0} → A → Action A
  done a s = (ok a, s)

  -- `unix_now`
  unfoldable pub unix_now : Action ℕ
  unix_now s = let (seconds, after) = m.since_epoch s in (ok (or_zero seconds), after)

  -- `Command::new(program).args(args).output().map_err(…)`
  unfoldable pub named_failure : {A : Type 0} → String → Outcome A → Outcome A
  named_failure program (ok a) = ok a
  named_failure program (err e) = err ("failed to run " <> m.display program <> ": " <> e)

  unfoldable pub run_program : String → List String → Action Output
  unfolding named_failure
  run_program program args s =
      let (result, after) = m.output program args s in (named_failure program result, after)

  unfoldable pub run_capture :
      External → KurrentClient → String → String → List String → Action CommandReceipt
  run_capture x client id program args = do
    m.create_dir_all client.evidence_dir
    let stdout_path = m.join client.evidence_dir (id <> ".stdout.log")
    let stderr_path = m.join client.evidence_dir (id <> ".stderr.log")
    started_at_unix ← unix_now
    output ← run_program program args
    m.write stdout_path output.stdout
    m.write stderr_path output.stderr
    finished_at_unix ← unix_now
    done (record {
      id = id;
      command = m.display program ∷ args;
      status_code = output.code;
      stdout_path = stdout_path;
      stderr_path = stderr_path;
      stdout_sha256 = sha256_hex x output.stdout;
      stderr_sha256 = sha256_hex x output.stderr;
      started_at_unix = started_at_unix;
      finished_at_unix = finished_at_unix;
    })
