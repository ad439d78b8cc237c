-- ===== src/Base/Equality.antt =====
-- Equality tests as an interface, with the instances that the program's `==` uses.
use Prim.Native.Nat.{ℕ}
use Prim.Native.String.{String}
use mathlib.Core.Path.{◌≡◌, refl}
use mathlib.Core.Logic.{◌↔◌, ◌≢◌, ◌⊎◌, inl, inr}
use mathlib.Core.Bool.{Bool, true, false, not, ◌&&◌}
use mathlib.Core.Option.{Option, none, some}
use mathlib.Core.List.{List, [], ◌∷◌}
use native.Mathlib.Omega.{arith}
use text.Mathlib.Text.{◌==◌ as str_eq}
use text.Mathlib.TextEquality.{eq_iff}
use kurrent.Base.Tests.{eqb, eqb_iff, Bool-cases}

-- `PartialEq` with `Eq`: a test that decides equality.
pub record Eq {ℓ} (K : Type ℓ) : Type ℓ where
  pub beq : K → K → Bool
  pub beq_iff : (j k : K) → (beq j k ≡ true) ↔ (j ≡ k)

infix 50 ◌!=◌
abbrev pub ◌!=◌ {ℓ} : {K : Type ℓ} ⦃eq : Eq K⦄ → K → K → Bool
◌!=◌ ⦃eq⦄ j k = not (eq.beq j k)

infix 50 ◌==◌
abbrev pub ◌==◌ {ℓ} : {K : Type ℓ} ⦃eq : Eq K⦄ → K → K → Bool
◌==◌ ⦃eq⦄ = eq.beq

module _ {ℓ} {A : Type ℓ} ⦃e : Eq A⦄ where
  pub eq_of_beq : (a b : A) → (a == b) ≡ true → a ≡ b
  eq_of_beq a b h = (e.beq_iff a b).0 h

  pub beq_of_eq : (a b : A) → a ≡ b → (a == b) ≡ true
  beq_of_eq a b h = (e.beq_iff a b).1 h

  pub beq_refl : (a : A) → (a == a) ≡ true
  beq_refl a = (e.beq_iff a a).1 refl

  pub beq_of_ne : (a b : A) → a ≢ b → (a == b) ≡ false
  beq_of_ne a b h = elim (Bool-cases (a == b)) [
    | inl same ↦ absurd (h (eq_of_beq a b same))
    | inr other ↦ other
  ]

  pub ne_of_beq : (a b : A) → (a == b) ≡ false → a ≢ b
  ne_of_beq a b h p = cc (beq_of_eq a b p)

  pub eq_of_not_bne : (a b : A) → (a != b) ≡ false → a ≡ b
  eq_of_not_bne a b h = eq_of_beq a b (ground arith)

  pub bne_of_eq : (a b : A) → a ≡ b → (a != b) ≡ false
  bne_of_eq a b h = ground (arith, beq_of_eq a b h)

  pub bne_iff : (a b : A) → ((a != b) ≡ false) ↔ (a ≡ b)
  bne_iff a b = (eq_of_not_bne a b, bne_of_eq a b)

  pub Eq-dec : (a b : A) → (a ≡ b) ⊎ (a ≢ b)
  Eq-dec a b = elim (Bool-cases (a == b)) [
    | inl same ↦ inl (eq_of_beq a b same)
    | inr other ↦ inr (ne_of_beq a b other)
  ]

instance abbrev pub nat_eq : Eq ℕ
nat_eq = record { beq = eqb; beq_iff = eqb_iff }

instance abbrev pub string_eq : Eq String
string_eq = record { beq = str_eq; beq_iff = eq_iff }

abbrev pub option_beq {ℓ} : {A : Type ℓ} ⦃e : Eq A⦄ → Option A → Option A → Bool
option_beq none none = true
option_beq none (some b) = false
option_beq (some a) none = false
option_beq (some a) (some b) = a == b

abbrev pub list_beq {ℓ} : {A : Type ℓ} ⦃e : Eq A⦄ → List A → List A → Bool
list_beq [] [] = true
list_beq [] (y ∷ ys) = false
list_beq (x ∷ xs) [] = false
list_beq (x ∷ xs) (y ∷ ys) = (x == y) && list_beq xs ys

module _ {ℓ} {A : Type ℓ} ⦃e : Eq A⦄ where
  pub option_beq_iff : (a b : Option A) → (option_beq a b ≡ true) ↔ (a ≡ b)
  option_beq_iff none none = ground arith
  option_beq_iff none (some b) = ground arith
  option_beq_iff (some a) none = ground arith
  option_beq_iff (some a) (some b) = ground (arith, e.beq_iff a b)

  pub list_beq_iff : (a b : List A) → (list_beq a b ≡ true) ↔ (a ≡ b)
  list_beq_iff [] [] = ground arith
  list_beq_iff [] (y ∷ ys) = ground arith
  list_beq_iff (x ∷ xs) [] = ground arith
  list_beq_iff (x ∷ xs) (y ∷ ys) = ground (arith, e.beq_iff x y, list_beq_iff xs ys)

abbrev pub pair_beq {ℓ κ} : {A : Type ℓ} {B : Type κ} ⦃e : Eq A⦄ ⦃f : Eq B⦄ → A × B → A × B → Bool
pair_beq (a, b) (c, d) = (a == c) && (b == d)

pub pair_beq_iff {ℓ κ} :
    {A : Type ℓ} {B : Type κ} ⦃e : Eq A⦄ ⦃f : Eq B⦄ (p q : A × B) → (pair_beq p q ≡ true) ↔ (p ≡ q)
pair_beq_iff ⦃e⦄ ⦃f⦄ (a, b) (c, d) = ground (arith, e.beq_iff a c, f.beq_iff b d)

instance abbrev pub pair_eq {ℓ κ} : {A : Type ℓ} {B : Type κ} ⦃e : Eq A⦄ ⦃f : Eq B⦄ → Eq (A × B)
pair_eq = record { beq = pair_beq; beq_iff = pair_beq_iff }

instance abbrev pub option_eq {ℓ} : {A : Type ℓ} ⦃e : Eq A⦄ → Eq (Option A)
option_eq = record { beq = option_beq; beq_iff = option_beq_iff }

instance abbrev pub list_eq {ℓ} : {A : Type ℓ} ⦃e : Eq A⦄ → Eq (List A)
list_eq = record { beq = list_beq; beq_iff = list_beq_iff }
