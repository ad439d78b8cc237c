-- ===== src/Driver/Runs.antt =====
-- When a verifier of drivers/kaspa-devnet/src/main.rs succeeds, and what it changes then.
use kurrent.Base.{ap, refl, subst, sym, ◌↔◌, ◌≡◌}
use kurrent.Driver.{Answer, Progress, err, ok, panic}
use kurrent.Driver.Answers.{ok-injective}
use kurrent.Driver.Verify.{Verify, change, continue, lift, ◌>>=◌, ◌>>◌}

-- A verifier succeeds exactly with a result that has the property, and changes the progress so.
pub record Runs {A : Type 0} (m : Verify A) (f : Progress → Progress) (P : A → Type 0)
    : Type 0 where
  pub at : (p q : Progress) (a : A) → (m p ≡ ok (a, q)) ↔ (P a × (q ≡ f p))

pub Runs-lift :
    {A : Type 0} {m : Answer A} {P : A → Type 0}
    → ((a : A) → (m ≡ ok a) ↔ P a)
    → Runs (lift m) (λ p. p) P
unfolding lift
Runs-lift {m = ok b} h = record {
  at = λ p q a. (
    (λ e.
        let (same, ends) : (b ≡ a) × (p ≡ q) =
          (ap (λ r. r.0) (ok-injective e), ap (λ r. r.1) (ok-injective e)) in
        ((h a).0 (ap ok same), sym ends)),
    (λ (s, e). let same : b ≡ a = ok-injective ((h a).1 s) in cc),
  );
}
Runs-lift {m = err e} h = record { at = λ p q a. ((λ t. cc), (λ (s, _). let t = (h a).1 s in cc)) }
Runs-lift {m = panic} h = record { at = λ p q a. ((λ t. cc), (λ (s, _). let t = (h a).1 s in cc)) }

pub Runs-change : {f : Progress → Progress} → Runs (change f) f (λ _. Unit {0})
unfolding change
Runs-change {f} = record {
  at = λ p q a.
      ((λ e. (tt, sym (ap (λ r. r.1) (ok-injective e)))), (λ (_, e). ap (λ r. ok (tt, r)) (sym e)));
}

Runs-continue :
    {A B : Type 0} (r : Answer (A × Progress)) {next : A → Verify B} (f g : Progress → Progress)
    {P : A → Type 0} {Q : A → B → Type 0} (p : Progress)
    → ((a : A) (s : Progress) → (r ≡ ok (a, s)) ↔ (P a × (s ≡ f p)))
    → ((a : A) → Runs (next a) g (Q a))
    → (q : Progress) (b : B)
    → (continue r next ≡ ok (b, q)) ↔ (((a : A) × P a × Q a b) × (q ≡ g (f p)))
unfolding continue
Runs-continue {A} (ok (c, s)) {next} f g p h k q b = (
  (λ e.
      let (holds, at) = (h c s).0 refl in
      let (rest, ends) = ((k c).at s q b).0 e in ((c, holds, rest), subst (λ t. q ≡ g t) at ends)),
  (λ ((a, holds, rest), ends).
      let same : (c, s) ≡ (a, f p) = ok-injective ((h a (f p)).1 (holds, refl)) in
      subst (λ (t : A × Progress). next t.0 t.1 ≡ ok (b, q)) (sym same)
        (((k a).at (f p) q b).1 (rest, ends))),
)
Runs-continue (err e) f g p h k q b =
    ((λ t. cc), (λ ((a, holds, _), _). let t = (h a _).1 (holds, refl) in cc))
Runs-continue panic f g p h k q b =
    ((λ t. cc), (λ ((a, holds, _), _). let t = (h a _).1 (holds, refl) in cc))

pub Runs->>= :
    {A B : Type 0} {m : Verify A} {next : A → Verify B} {f g : Progress → Progress} {P : A → Type 0}
    {Q : A → B → Type 0}
    → Runs m f P
    → ((a : A) → Runs (next a) g (Q a))
    → Runs (m >>= next) (λ p. g (f p)) (λ b. (a : A) × P a × Q a b)
unfolding ◌>>=◌
Runs->>= {m} {f} {g} h k = record {
  at = λ p q b. Runs-continue (m p) f g p (λ a s. h.at p s a) k q b;
}

pub Runs->> :
    {B : Type 0} {m : Verify (Unit {0})} {next : Verify B} {f g : Progress → Progress} {P : Type 0}
    {Q : B → Type 0}
    → Runs m f (λ _. P)
    → Runs next g Q
    → Runs (m >> next) (λ p. g (f p)) (λ b. P × Q b)
unfolding ◌>>◌
Runs->> {P} {Q} h k = record {
  at = λ p q b.
      let both = (Runs->>= h (λ _. k)).at p q b in
      (
        (λ e. let ((_, s, t), ends) = both.0 e in ((s, t), ends)),
        (λ ((s, t), ends). both.1 ((tt, s, t), ends)),
      );
}
