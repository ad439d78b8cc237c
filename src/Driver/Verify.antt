-- ===== src/Driver/Verify.antt =====
-- The verifiers of drivers/kaspa-devnet/src/main.rs take their list of checks and their counters by
-- reference: an action on `Progress` that may fail.
use kurrent.Base.{[], ◌%◌, ◌+◌, ◌++◌, ◌^◌, ◌∷◌}
use kurrent.Driver.{Answer, CheckEntry, Progress, err, ok, panic}

-- A verifier: it returns with the changed progress, or fails and the run ends.
abbrev pub Verify : Type 0 → Type 0
Verify A = Progress → Answer (A × Progress)

-- A call that does not change the progress.
unfoldable pub lift : {A : Type 0} → Answer A → Verify A
lift (ok a) p = ok (a, p)
lift (err e) p = err e
lift panic p = panic

-- `*decoded_transactions += 1`
abbrev pub one_decoded : Progress → Progress
one_decoded p = record {
  checks = p.checks;
  decoded_transactions = (p.decoded_transactions + 1) % 2 ^ 64;
  verified_hex_records = p.verified_hex_records;
}

-- `*verified_hex_records += 1`
abbrev pub one_verified : Progress → Progress
one_verified p = record {
  checks = p.checks;
  decoded_transactions = p.decoded_transactions;
  verified_hex_records = (p.verified_hex_records + 1) % 2 ^ 64;
}

-- `checks.push(…)`
abbrev pub one_check : CheckEntry → Progress → Progress
one_check entry p = record {
  checks = p.checks ++ (entry ∷ []);
  decoded_transactions = p.decoded_transactions;
  verified_hex_records = p.verified_hex_records;
}

unfoldable pub change : (Progress → Progress) → Verify (Unit {0})
change f p = ok (tt, f p)

unfoldable pub continue :
    {A B : Type 0} → Answer (A × Progress) → (A → Verify B) → Answer (B × Progress)
continue (ok (a, p)) next = next a p
continue (err e) next = err e
continue panic next = panic

infixl 5 ◌>>=◌ ◌>>◌
-- Two verifiers one after the other.
unfoldable pub ◌>>=◌ : {A B : Type 0} → Verify A → (A → Verify B) → Verify B
unfolding continue
(m >>= next) p = continue (m p) next

unfoldable pub ◌>>◌ : {B : Type 0} → Verify (Unit {0}) → Verify B → Verify B
unfolding ◌>>=◌
first >> second = first >>= λ _. second
