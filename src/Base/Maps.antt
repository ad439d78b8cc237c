-- ===== src/Base/Maps.antt =====
-- `BTreeMap` and `BTreeSet` of the standard library, as lists in iteration order.
-- A map value is given with each key once; `insert` and `from_keys` keep that.
use mathlib.Core.Path.{◌≡◌, refl, subst}
use mathlib.Core.Logic.{◌≢◌, ◌↔◌, ◌⊎◌, inl, inr}
use mathlib.Core.Bool.{Bool, true, false, ◌&&◌, ◌||◌}
use mathlib.Core.Option.{Option, none, some}
use mathlib.Core.List.{List, [], ◌∷◌}
use native.Mathlib.Omega.{arith}
use kurrent.Base.Tests.{if◌then◌else◌, Bool-cases}
use kurrent.Base.Equality.{Eq, ◌==◌, eq_of_beq, beq_refl, beq_of_ne, Eq-dec}

abbrev pub Map {ℓ κ} : Type ℓ → Type κ → Type (ℓ ⊔ κ)
Map K V = List (K × V)

module _ {ℓ κ} {K : Type ℓ} {V : Type κ} ⦃e : Eq K⦄ where
  -- `get`
  unfoldable pub get : K → Map K V → Option V
  get key [] = none
  get key ((j, found) ∷ rest) = if j == key then some found else get key rest

  -- `insert`
  unfoldable pub insert : K → V → Map K V → Map K V
  insert key v [] = (key, v) ∷ []
  insert key v ((j, old) ∷ rest) =
      if j == key then (key, v) ∷ rest else (j, old) ∷ insert key v rest

  -- `contains_key`
  abbrev pub contains_key : K → Map K V → Bool
  contains_key k m = elim (get k m) [ none ↦ false | some _ ↦ true ]

  pub get-insert :
      (k j : K) (v : V) (m : Map K V) → get j (insert k v m) ≡ (if k == j then some v else get j m)
  unfolding get insert
  get-insert k j v [] = refl
  get-insert k j v ((i, old) ∷ rest) =
      ground (arith, get-insert k j v rest, e.beq_iff k j, e.beq_iff i k, e.beq_iff i j)

  pub get-insert_self : (k : K) (v : V) (m : Map K V) → get k (insert k v m) ≡ some v
  get-insert_self k v m = ground (arith, get-insert k k v m, beq_refl k)

  pub get-insert_ne : (k j : K) (v : V) (m : Map K V) → k ≢ j → get j (insert k v m) ≡ get j m
  get-insert_ne k j v m h = ground (arith, get-insert k j v m, beq_of_ne k j h)

  -- The inserted key, or another one.
  pub get-insert-cases :
      (k j : K) (v : V) (m : Map K V)
      → ((k ≡ j) × (get j (insert k v m) ≡ some v)) ⊎ ((k ≢ j) × (get j (insert k v m) ≡ get j m))
  get-insert-cases k j v m = elim (Eq-dec k j) [
    | inl same ↦ inl (same, subst (λ i. get i (insert k v m) ≡ some v) same (get-insert_self k v m))
    | inr other ↦ inr (other, get-insert_ne k j v m other)
  ]

-- `keys()` and `values()`
abbrev pub keys {ℓ κ} : {K : Type ℓ} {V : Type κ} → Map K V → List K
keys [] = []
keys ((k, v) ∷ m) = k ∷ keys m

abbrev pub values {ℓ κ} : {K : Type ℓ} {V : Type κ} → Map K V → List V
values [] = []
values ((k, v) ∷ m) = v ∷ values m

module _ {ℓ} {K : Type ℓ} ⦃e : Eq K⦄ where
  -- `contains`
  unfoldable pub contains : K → List K → Bool
  contains k [] = false
  contains k (j ∷ s) = (j == k) || contains k s

  -- `BTreeSet::insert`, with whether the key was new.
  unfoldable pub insert_key : K → List K → Bool × List K
  unfolding contains
  insert_key k s = if contains k s then (false, s) else (true, k ∷ s)

  -- `collect()` into a set.
  unfoldable pub from_keys : List K → List K
  unfolding insert_key
  from_keys [] = []
  from_keys (k ∷ ks) = (insert_key k (from_keys ks)).1

  -- `is_superset`, with the smaller set first.
  unfoldable pub is_subset : List K → List K → Bool
  unfolding contains
  is_subset [] t = true
  is_subset (k ∷ s) t = contains k t && is_subset s t

  -- `==` of sets.
  unfoldable pub same_keys : List K → List K → Bool
  unfolding is_subset
  same_keys s t = is_subset s t && is_subset t s

  pub is_subset-contains :
      (s t : List K) (k : K) → is_subset s t ≡ true → contains k s ≡ true → contains k t ≡ true
  unfolding is_subset contains
  is_subset-contains [] t k h c = cc
  is_subset-contains (j ∷ s) t k h c = elim (Bool-cases (j == k)) [
    | inl same ↦ ground (arith, eq_of_beq j k same)
    | inr other ↦ ground (arith, is_subset-contains s t k)
  ]

  pub contains-insert_key :
      (k j : K) (s : List K) → contains j (insert_key k s).1 ≡ ((k == j) || contains j s)
  unfolding insert_key contains
  contains-insert_key k j s = ground (arith, e.beq_iff k j)

  -- A set holds the elements that it was collected from.
  pub contains-from_keys : (k : K) (s : List K) → contains k (from_keys s) ≡ contains k s
  unfolding from_keys contains
  contains-from_keys k [] = refl
  contains-from_keys k (j ∷ s) =
      ground (arith, contains-from_keys k s, contains-insert_key j k (from_keys s))

-- A key that is listed is found.
pub get-contains-keys {ℓ κ} :
    {K : Type ℓ} {V : Type κ} ⦃e : Eq K⦄ (k : K) (m : Map K V)
    → contains k (keys m) ≡ true
    → (v : V) × (get k m ≡ some v)
unfolding contains get
get-contains-keys k [] h = cc
get-contains-keys k ((j, v) ∷ m) h = elim (Bool-cases (j == k)) [
  | inl same ↦ (v, rw same)
  | inr other ↦ (let (w, found) = get-contains-keys k m (rw other at h) in (w, rw other found))
]

module _ {ℓ} {K : Type ℓ} ⦃e : Eq K⦄ where
  pub same_keys-contains :
      (s t : List K) (k : K) → same_keys s t ≡ true → (contains k s ≡ true) ↔ (contains k t ≡ true)
  unfolding same_keys
  same_keys-contains s t k h = (
    (λ c. is_subset-contains s t k (ground arith) c),
    (λ c. is_subset-contains t s k (ground arith) c),
  )
