-- ===== src/Registry/State.antt =====
-- The registry's state, and its `&mut self` methods as actions on it.
use kurrent.Base.{List, Map, String, [], ap, refl, ℕ, ◌≡◌}
use kurrent.Errors.{Result, err, ok, panic}
use kurrent.Types.{LatestStateHeader}

pub record SettlementRegistry : Type 0 where
  pub latest_by_channel : Map String LatestStateHeader
  pub seen_commitments : Map (String × ℕ) String
  pub settled_channels : List String
  pub receipts : List String
  pub claims : List String

-- `SettlementRegistry::default`
abbrev pub empty_registry : SettlementRegistry
empty_registry = record {
  latest_by_channel = [];
  seen_commitments = [];
  settled_channels = [];
  receipts = [];
  claims = [];
}

-- What a method returns, and the registry that it leaves, also after an error.
abbrev pub Action : Type 0 → Type 0
Action A = SettlementRegistry → Result A × SettlementRegistry

infixl 5 ◌>>=◌ ◌>>◌
abbrev pub ◌>>=◌ : {A B : Type 0} → Action A → (A → Action B) → Action B
◌>>=◌ m f r =
    let (a, r') = m r in elim a [ ok v ↦ f v r' | err e ↦ (err e, r') | panic ↦ (panic, r') ]

abbrev pub ◌>>◌ : {B : Type 0} → Action (Unit {0}) → Action B → Action B
m >> k = m >>= λ _. k

abbrev pub lift : {A : Type 0} → Result A → Action A
lift a r = (a, r)

abbrev pub read : Action SettlementRegistry
read r = (ok r, r)

abbrev pub check_with : (SettlementRegistry → Result (Unit {0})) → Action (Unit {0})
check_with f r = (f r, r)

abbrev pub modify : (SettlementRegistry → SettlementRegistry) → Action (Unit {0})
modify f r = (ok tt, f r)

-- A sequence that returned a value: so did its first step, and the rest ran after it.
pub then-eq-ok :
    {A B : Type 0} (m : Action A) (k : A → Action B) (r : SettlementRegistry) {b : B}
    → ((m >>= k) r).0 ≡ ok b
    → (v : A) × ((m r).0 ≡ ok v) × ((m >>= k) r ≡ k v (m r).1)
then-eq-ok {A} {B} m k r {b} = go (m r)
  where
    go :
        (n : Result A × SettlementRegistry)
        → (elim n.0 as (λ _. Result B × SettlementRegistry) [
          | ok v ↦ k v n.1
          | err e ↦ (err e, n.1)
          | panic ↦ (panic, n.1)
        ]).0
          ≡ ok b
        → (v : A) × (n.0 ≡ ok v)
          × (◌≡◌ {A = Result B × SettlementRegistry}
              (elim n.0 as (λ _. Result B × SettlementRegistry) [
                | ok v ↦ k v n.1
                | err e ↦ (err e, n.1)
                | panic ↦ (panic, n.1)
              ])
              (k v n.1))
    go (ok v, s) h = (v, refl, refl)
    go (err e, s) h = cc
    go (panic, s) h = cc

pub then_of :
    {A B : Type 0} (m : Action A) (k : A → Action B) (r : SettlementRegistry) (v : A)
    (s : SettlementRegistry)
    → m r ≡ (ok v, s)
    → (m >>= k) r ≡ k v s
then_of {A} {B} m k r v s h =
    ap
      (λ (n : Result A × SettlementRegistry). elim n.0 as (λ _. Result B × SettlementRegistry) [
        | ok v ↦ k v n.1
        | err e ↦ (err e, n.1)
        | panic ↦ (panic, n.1)
      ])
      h
