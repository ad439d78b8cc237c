-- ===== src/Driver/Answers.antt =====
-- When a check of drivers/kaspa-devnet/src/main.rs succeeds: one rule for each way to build it.
use kurrent.Base.{Eq, nat_eq, string_eq, ◌!=◌, ◌==◌, ◌≢◌, beq_of_eq, eq_of_beq, arith}
use kurrent.Base.{
  List, [], ◌∷◌, Bool, Option, String, false, none, refl, some, subst, sym, true, ◌↔◌, ◌≡◌,
}
use kurrent.Driver.{Answer, err, map_err, ok, ok_or, panic, require, ◌>>=◌, ◌>>◌}

pub ok-injective : {A : Type 0} {a b : A} → ok a ≡ ok b → a ≡ b
ok-injective h = cc

pub both_iff {ℓ} :
    {B : Type 0} {m : Answer (Unit {0})} {k : Answer B} {b : B} {P : Type ℓ} {Q : Type ℓ}
    → (m ≡ ok tt) ↔ P
    → (k ≡ ok b) ↔ Q
    → ((m >> k) ≡ ok b) ↔ (P × Q)
unfolding ◌>>◌ ◌>>=◌
both_iff {m = ok tt} p q = ((λ h. (p.0 refl, q.0 h)), (λ (_, h). q.1 h))
both_iff {m = err e} p q = ((λ h. cc), (λ (h, _). let e = p.1 h in cc))
both_iff {m = panic} p q = ((λ h. cc), (λ (h, _). let e = p.1 h in cc))

pub some_iff {ℓ} :
    {A B : Type 0} {m : Answer A} {f : A → Answer B} {b : B} {P : A → Type ℓ} {Q : A → Type ℓ}
    → ((a : A) → (m ≡ ok a) ↔ P a)
    → ((a : A) → (f a ≡ ok b) ↔ Q a)
    → ((m >>= f) ≡ ok b) ↔ ((a : A) × P a × Q a)
unfolding ◌>>=◌
some_iff {m = ok c} {f} {b} p q = (
  (λ h. (c, (p c).0 refl, (q c).0 h)),
  (λ (a, s, t).
      let same : c ≡ a = ok-injective ((p a).1 s) in
      subst (λ d. f d ≡ ok b) (sym same) ((q a).1 t)),
)
some_iff {m = err e} p q = ((λ h. cc), (λ (a, s, _). let e = (p a).1 s in cc))
some_iff {m = panic} p q = ((λ h. cc), (λ (a, s, _). let e = (p a).1 s in cc))

pub ok_or_iff : {A : Type 0} {o : Option A} (e : String) (a : A) → (ok_or o e ≡ ok a) ↔ (o ≡ some a)
unfolding ok_or
ok_or_iff {o = none} e a = ((λ h. cc), (λ h. cc))
ok_or_iff {o = some b} e a = ((λ h. cc), (λ h. cc))

pub map_err_iff :
    {A : Type 0} {m : Answer A} (f : String → String) (a : A) → (map_err m f ≡ ok a) ↔ (m ≡ ok a)
unfolding map_err
map_err_iff {m = ok b} f a = ((λ h. h), (λ h. h))
map_err_iff {m = err e} f a = ((λ h. cc), (λ h. cc))
map_err_iff {m = panic} f a = ((λ h. cc), (λ h. cc))

pub require_iff : {c : Bool} (e : String) → (require c e ≡ ok tt) ↔ (c ≡ true)
unfolding require
require_iff {c = true} e = ((λ h. refl), (λ h. refl))
require_iff {c = false} e = ((λ h. cc), (λ h. cc))

-- All of them hold.
abbrev pub AllOf : List (Type 0) → Type 0
AllOf [] = Unit {0}
AllOf (P ∷ []) = P
AllOf (P ∷ Q ∷ rest) = P × AllOf (Q ∷ rest)

-- Two equivalences one after the other.
pub iff_trans {ℓ} : {P Q R : Type ℓ} → P ↔ Q → Q ↔ R → P ↔ R
iff_trans p q = ((λ h. q.0 (p.0 h)), (λ h. p.1 (q.1 h)))

pub beq_true_iff : {K : Type 0} ⦃eq : Eq K⦄ (a b : K) → ((a == b) ≡ true) ↔ (a ≡ b)
beq_true_iff a b = (eq_of_beq a b, beq_of_eq a b)

pub bne_true_iff : (a b : String) → ((a != b) ≡ true) ↔ (a ≢ b)
bne_true_iff a b = ground (arith, beq_true_iff a b)
