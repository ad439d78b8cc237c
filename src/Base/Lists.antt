-- ===== src/Base/Lists.antt =====
-- Lists measured by native numbers, under the library's names.
use Prim.Native.Nat.{ℕ, zero, suc, ◌+◌, ◌-◌, ◌≤◌}
use mathlib.Core.Option.{Option, none, some}
use mathlib.Core.Path.{◌≡◌, refl, ap}
use mathlib.Core.List.{List, [], ◌∷◌, ◌++◌}
use mathlib.Core.Logic.{◌↔◌}
use native.Mathlib.Omega.{arith}

module _ {ℓ} {A : Type ℓ} where
  abbrev pub length : List A → ℕ
  length [] = 0
  length (x ∷ xs) = suc (length xs)

  abbrev pub take : ℕ → List A → List A
  take zero xs = []
  take (suc n) [] = []
  take (suc n) (x ∷ xs) = x ∷ take n xs

  abbrev pub drop : ℕ → List A → List A
  drop zero xs = xs
  drop (suc n) [] = []
  drop (suc n) (x ∷ xs) = drop n xs

  abbrev pub replicate : ℕ → A → List A
  replicate zero a = []
  replicate (suc n) a = a ∷ replicate n a

  abbrev pub All {κ} : (A → Type κ) → List A → Type κ
  All P [] = Unit {κ}
  All P (x ∷ xs) = P x × All P xs

  pub All-weaken {κ μ} :
      {P : A → Type κ} {Q : A → Type μ}
      → ((a : A) → P a → Q a)
      → (xs : List A) → All P xs
      → All Q xs
  All-weaken f [] h = tt
  All-weaken f (x ∷ xs) (p, h) = (f x p, All-weaken f xs h)

  pub All-iff {κ μ} :
      (P : A → Type κ) (Q : A → Type μ) (xs : List A) → ((a : A) → P a ↔ Q a) → All P xs ↔ All Q xs
  All-iff P Q xs e = (All-weaken (λ a. (e a).0) xs, All-weaken (λ a. (e a).1) xs)

  pub length-append : (xs ys : List A) → length (xs ++ ys) ≡ length xs + length ys
  length-append [] ys = omega arith
  length-append (x ∷ xs) ys = omega (arith, length-append xs ys)

  pub length-replicate : (n : ℕ) (a : A) → length (replicate n a) ≡ n
  length-replicate zero a = refl
  length-replicate (suc n) a = ap suc (length-replicate n a)

  pub take-append-drop : (n : ℕ) (xs : List A) → take n xs ++ drop n xs ≡ xs
  take-append-drop zero xs = refl
  take-append-drop (suc n) [] = refl
  take-append-drop (suc n) (x ∷ xs) = ap (λ l. x ∷ l) (take-append-drop n xs)

  pub length-take : (n : ℕ) (xs : List A) → n ≤ length xs → length (take n xs) ≡ n
  length-take zero xs h = refl
  length-take (suc n) [] h = absurd (omega arith)
  length-take (suc n) (x ∷ xs) h = ap suc (length-take n xs (omega arith))

  pub length-drop : (n : ℕ) (xs : List A) → length (drop n xs) ≡ length xs - n
  length-drop zero xs = omega arith
  length-drop (suc n) [] = omega arith
  length-drop (suc n) (x ∷ xs) = omega (arith, length-drop n xs)

  -- Two concatenations that agree, with first parts of one length, agree part by part.
  pub append-injective :
      (a b c d : List A) → length a ≡ length b → a ++ c ≡ b ++ d → (a ≡ b) × (c ≡ d)
  append-injective [] [] c d h e = (refl, e)
  append-injective [] (y ∷ b) c d h e = absurd (omega arith)
  append-injective (x ∷ a) [] c d h e = absurd (omega arith)
  append-injective (x ∷ a) (y ∷ b) c d h e = ground (arith, append-injective a b c d)

  pub All-append {κ} : (P : A → Type κ) (xs ys : List A) → All P xs → All P ys → All P (xs ++ ys)
  All-append P [] ys p q = q
  All-append P (x ∷ xs) ys (h, p) q = (h, All-append P xs ys p q)

  pub All-drop {κ} : (P : A → Type κ) (n : ℕ) (xs : List A) → All P xs → All P (drop n xs)
  All-drop P zero xs p = p
  All-drop P (suc n) [] p = tt
  All-drop P (suc n) (x ∷ xs) (h, p) = All-drop P n xs p

  pub take-append : (n : ℕ) (a b : List A) → length a ≡ n → take n (a ++ b) ≡ a
  take-append zero [] b h = refl
  take-append zero (x ∷ a) b h = absurd (omega arith)
  take-append (suc n) [] b h = absurd (omega arith)
  take-append (suc n) (x ∷ a) b h = ap (λ l. x ∷ l) (take-append n a b (omega arith))

  pub drop-append : (n : ℕ) (a b : List A) → length a ≡ n → drop n (a ++ b) ≡ b
  drop-append zero [] b h = refl
  drop-append zero (x ∷ a) b h = absurd (omega arith)
  drop-append (suc n) [] b h = absurd (omega arith)
  drop-append (suc n) (x ∷ a) b h = drop-append n a b (omega arith)

  pub All-take {κ} : (P : A → Type κ) (n : ℕ) (xs : List A) → All P xs → All P (take n xs)
  All-take P zero xs p = tt
  All-take P (suc n) [] p = tt
  All-take P (suc n) (x ∷ xs) (h, p) = (h, All-take P n xs p)

-- `unwrap_or(0)`
abbrev pub or_zero : Option ℕ → ℕ
or_zero none = 0
or_zero (some n) = n
