-- ===== src/Eligibility/Search.antt =====
-- The response window of a candidate in src/lib.rs, and the search for one that displaces it.
use kurrent.Base.{
  Bool-cases, List, [], arith, inl, inr, list_eq, ltb, nat_eq, none, option_eq, refl, some,
  string_eq, true, ℕ, ◌&&◌, ◌+◌, ◌<◌, ◌↔◌, ◌∷◌, ◌≡◌, Option,
}
use kurrent.Bytes.{IsU64}
use kurrent.Eligibility.Decide.{finalisation_daa, find_displacing}
use kurrent.Eligibility.Evidence.{Candidate, daa_of, state_of}
use kurrent.Eligibility.Order.{Any}

-- The end of the candidate's response window, as a true sum.
abbrev pub deadline : ℕ → ℕ → Candidate → ℕ
deadline window tolerance c = daa_of c + window + tolerance

-- A higher state that was accepted before the window's end.
abbrev pub Displaces : ℕ → Candidate → Candidate → Type 0
Displaces end c higher = (state_of c < state_of higher) × (daa_of higher < end)

pub finalisation_daa_iff :
    (window tolerance : ℕ) (c : Candidate) (end : ℕ)
    → (finalisation_daa window tolerance c ≡ some end)
      ↔ ((deadline window tolerance c ≡ end) × IsU64 end)
unfolding finalisation_daa
finalisation_daa_iff window tolerance c end = ground arith

-- What the search finds.
abbrev pub Found : ℕ → Candidate → List Candidate → Option Candidate → Type 0
Found end c rest none = ¬ Any (Displaces end c) rest
Found end c rest (some h) = Any (λ k. Displaces end c k × (k ≡ h)) rest

Displaces-iff :
    (end : ℕ) (c h : Candidate)
    → ((ltb (state_of c) (state_of h) && ltb (daa_of h) end) ≡ true) ↔ Displaces end c h
Displaces-iff end c h = ground arith

pub find_displacing-Found :
    (end : ℕ) (c : Candidate) (rest : List Candidate)
    → Found end c rest (find_displacing end c rest)
unfolding find_displacing
find_displacing-Found end c [] = λ a. a
find_displacing-Found end c (h ∷ rest) =
    elim (Bool-cases (ltb (state_of c) (state_of h) && ltb (daa_of h) end)) [
      | inl yes_it ↦ rw yes_it (inl ((Displaces-iff end c h).0 yes_it, refl))
      | inr not_it ↦ rw not_it (
          later (find_displacing end c rest) (find_displacing-Found end c rest) (λ p. ground arith))
    ]
  where
    later :
        (o : Option Candidate) → Found end c rest o → ¬ Displaces end c h → Found end c (h ∷ rest) o
    later none n away = λ a. elim a [ inl p ↦ away p | inr q ↦ n q ]
    later (some k) a away = inr a

pub Any-map :
    (P Q : Candidate → Type 0) (cs : List Candidate)
    → ((c : Candidate) → P c → Q c)
    → Any P cs
    → Any Q cs
Any-map P Q [] f a = absurd a
Any-map P Q (c ∷ cs) f (inl p) = inl (f c p)
Any-map P Q (c ∷ cs) f (inr a) = inr (Any-map P Q cs f a)

pub some_inj : {A : Type 0} {a b : A} → some a ≡ some b → a ≡ b
some_inj h = cc
