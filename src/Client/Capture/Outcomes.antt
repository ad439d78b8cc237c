-- ===== src/Client/Capture/Outcomes.antt =====
-- What a successful `run_capture` of src/client.rs leaves on file.
use kurrent.Base.{List, Option, String, ap, refl, some, subst, ℕ, ◌<>◌, ◌∙◌, ◌∷◌, ◌≡◌, ◌≢◌}
use kurrent.Bytes.{Bytes}
use kurrent.Client.{CommandReceipt}
use kurrent.Client.Capture.{
  KurrentClient, Machine, Outcome, Output, continue, err, named_failure, ok, run_capture,
  run_program, unix_now, ◌>>=◌, ◌>>◌,
}
use kurrent.External.{External, sha256_hex}

module _ (m : Machine) where
  -- What stands in a file of the machine; a written file keeps its bytes, and neither another write
  -- nor a look at the clock changes it.
  pub record Files : Type 0 where
    pub read : m.State → String → Option Bytes
    pub write_own :
        (path : String) (bytes : Bytes) (s t : m.State)
        → m.write path bytes s ≡ (ok tt, t)
        → read t path ≡ some bytes
    pub write_other :
        (path other : String) (bytes : Bytes) (s t : m.State)
        → m.write path bytes s ≡ (ok tt, t)
        → other ≢ path
        → read t other ≡ read s other
    pub clock_keeps : (path : String) (s : m.State) → read (m.since_epoch s).1 path ≡ read s path

  ok-injective : {A : Type 0} {a b : A} → ok a ≡ ok b → a ≡ b
  ok-injective h = cc

  continue-ok :
      {A B : Type 0} (r : Outcome A × m.State) (next : A → m.State → Outcome B × m.State) (b : B)
      (t : m.State)
      → continue m r next ≡ (ok b, t)
      → (a : A) × (s : m.State) × (r ≡ (ok a, s)) × (next a s ≡ (ok b, t))
  unfolding continue
  continue-ok (ok a, s) next b t h = (a, s, refl, h)
  continue-ok (err e, s) next b t h = let wrong = ap (λ p. p.0) h in cc

  >>=-ok :
      {A B : Type 0} (first : m.State → Outcome A × m.State)
      (next : A → m.State → Outcome B × m.State) (b : B) (s t : m.State)
      → ◌>>=◌ m first next s ≡ (ok b, t)
      → (a : A) × (mid : m.State) × (first s ≡ (ok a, mid)) × (next a mid ≡ (ok b, t))
  unfolding ◌>>=◌
  >>=-ok first next b s t h = continue-ok (first s) next b t h

  >>-ok :
      {B : Type 0} (first : m.State → Outcome (Unit {0}) × m.State)
      (second : m.State → Outcome B × m.State) (b : B) (s t : m.State)
      → ◌>>◌ m first second s ≡ (ok b, t)
      → (mid : m.State) × (first s ≡ (ok tt, mid)) × (second mid ≡ (ok b, t))
  unfolding ◌>>◌
  >>-ok first second b s t h =
      let (a, mid, p, q) = >>=-ok first (λ _. second) b s t h in (mid, p, q)

  named_failure-ok :
      {A : Type 0} (program : String) (o : Outcome A) (a : A)
      → named_failure m program o ≡ ok a
      → o ≡ ok a
  unfolding named_failure
  named_failure-ok program (ok b) a h = h
  named_failure-ok program (err e) a h = cc

  run_program-ok :
      (program : String) (args : List String) (output : Output) (s t : m.State)
      → run_program m program args s ≡ (ok output, t)
      → m.output program args s ≡ (ok output, t)
  unfolding run_program
  run_program-ok program args output s t h =
      let ran = named_failure-ok program (m.output program args s).0 output (ap (λ p. p.0) h) in
      let ends = ap (λ p. p.1) h in λ i. (ran i, ends i)

  -- A look at the clock leaves every file as it was.
  unix_now-keeps :
      (files : Files) (path : String) (n : ℕ) (s t : m.State)
      → unix_now m s ≡ (ok n, t)
      → files.read t path ≡ files.read s path
  unfolding unix_now
  unix_now-keeps files path n s t h =
      subst (λ u. files.read u path ≡ files.read s path) (ap (λ p. p.1) h)
        (files.clock_keeps path s)

  -- The receipt of a run, with what the machine gave.
  abbrev pub receipt_of :
      External → KurrentClient → String → String → List String → ℕ → Output → ℕ → CommandReceipt
  receipt_of x client id program args started output finished = record {
    id = id;
    command = m.display program ∷ args;
    status_code = output.code;
    stdout_path = m.join client.evidence_dir (id <> ".stdout.log");
    stderr_path = m.join client.evidence_dir (id <> ".stderr.log");
    stdout_sha256 = sha256_hex x output.stdout;
    stderr_sha256 = sha256_hex x output.stderr;
    started_at_unix = started;
    finished_at_unix = finished;
  }

  -- The process ran between two looks at the clock, the second of which ends the run, and the receipt
  -- is of its output; the receipt's files hold what it wrote.
  abbrev pub Kept :
      External
      → KurrentClient
      → String
      → String
      → List String
      → Files
      → CommandReceipt
      → m.State
      → Type 0
  Kept x client id program args files receipt t =
      (output : Output) × (before : m.State) × (after : m.State) × (m.output program args before
        ≡ (ok output, after))
      × (first : m.State) × (started : ℕ) × (unix_now m first ≡ (ok started, before))
      × (last : m.State) × (finished : ℕ) × (unix_now m last ≡ (ok finished, t))
      × (receipt ≡ receipt_of x client id program args started output finished)
      × (files.read t receipt.stdout_path ≡ some output.stdout)
      × (files.read t receipt.stderr_path ≡ some output.stderr)

  -- The parts of a run that succeeds, put together.
  end_Kept :
      (x : External) (client : KurrentClient) (id program : String) (args : List String)
      (files : Files)
      → m.join client.evidence_dir (id <> ".stdout.log")
        ≢ m.join client.evidence_dir (id <> ".stderr.log")
      → (s1 s2 s3 s4 s5 s6 t : m.State) (started finished : ℕ) (output : Output)
        (receipt : CommandReceipt)
      → unix_now m s1 ≡ (ok started, s2)
      → run_program m program args s2 ≡ (ok output, s3)
      → m.write (m.join client.evidence_dir (id <> ".stdout.log")) output.stdout s3 ≡ (ok tt, s4)
      → m.write (m.join client.evidence_dir (id <> ".stderr.log")) output.stderr s4 ≡ (ok tt, s5)
      → unix_now m s5 ≡ (ok finished, s6)
      → ◌≡◌ {A = Outcome CommandReceipt × m.State}
          (ok (receipt_of x client id program args started output finished), s6)
          (ok receipt, t)
      → Kept x client id program args files receipt t
  end_Kept x client id program args files apart s1 s2 s3 s4 s5 s6 t started finished output receipt
        began ran out errors ended done =
      let same : receipt_of x client id program args started output finished ≡ receipt =
        ok-injective (ap (λ p. p.0) done) in
      let left = unix_now-keeps files _ finished s5 s6 ended in
      let right = unix_now-keeps files _ finished s5 s6 ended in
      subst (λ u. Kept x client id program args files receipt u) (ap (λ p. p.1) done)
        (subst (λ r. Kept x client id program args files r s6) same
          (
            output,
            s2,
            s3,
            run_program-ok program args output s2 s3 ran,
            s1,
            started,
            began,
            s5,
            finished,
            ended,
            refl,
            left ∙ files.write_other _ _ _ s4 s5 errors apart ∙ files.write_own _ _ s3 s4 out,
            right ∙ files.write_own _ _ s4 s5 errors,
          ))

  -- Where files keep what is written and the two logs are different files, a run that succeeds
  -- returns the receipt of a process that the machine ran between the two recorded times: its command
  -- and status, the digests of its two outputs, and the paths at which these stand in the end.
  pub run_capture-Kept :
      (x : External) (client : KurrentClient) (id program : String) (args : List String)
      (files : Files)
      → m.join client.evidence_dir (id <> ".stdout.log")
        ≢ m.join client.evidence_dir (id <> ".stderr.log")
      → (s t : m.State) (receipt : CommandReceipt)
      → run_capture m x client id program args s ≡ (ok receipt, t)
      → Kept x client id program args files receipt t
  unfolding run_capture
  run_capture-Kept x client id program args files apart s t receipt h =
      let (s1, made, h1) = >>-ok _ _ receipt s t h in
      let (started, s2, began, h2) = >>=-ok _ _ receipt s1 t h1 in
      let (output, s3, ran, h3) = >>=-ok _ _ receipt s2 t h2 in
      let (s4, out, h4) = >>-ok _ _ receipt s3 t h3 in
      let (s5, errors, h5) = >>-ok _ _ receipt s4 t h4 in
      let (finished, s6, ended, h6) = >>=-ok _ _ receipt s5 t h5 in
      end_Kept x client id program args files apart s1 s2 s3 s4 s5 s6 t started finished output
        receipt began ran out errors ended h6
