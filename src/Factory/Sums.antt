-- ===== src/Factory/Sums.antt =====
-- The principal of a factory in src/lib.rs as a true sum.
use kurrent.Base.{
  List, [], arith, list_eq, none, some, string_eq, sym, values, ℕ, ◌+◌, ◌↔◌, ◌∙◌, ◌∷◌, ◌≡◌,
  eq_of_not_bne, ◌⊎◌, ◌≤◌, ◌<◌, ◌^◌, inl, inr, refl, ap, Option, nat_eq, option_eq,
}
use kurrent.Bytes.{IsU64}
use kurrent.Channel.{checked_sum}
use kurrent.Channel.Sums.{checked_sum_iff, sum}
use kurrent.Errors.{>>=-eq-ok, IsOk, fail_if_iff, ok_or, ok_or_iff}
use kurrent.Factory.{check_total, factory_principal_sum, principal_from}
use kurrent.Types.{FactoryState, VirtualChannelState}

-- The balances of one channel, and of all.
abbrev pub channel_sum : VirtualChannelState → ℕ
channel_sum c = sum (values c.balance_by_participant)

unfoldable pub principal : List VirtualChannelState → ℕ
principal [] = 0
principal (c ∷ cs) = channel_sum c + principal cs

le_or_lt : (a b : ℕ) → (a ≤ b) ⊎ (b < a)
le_or_lt a b = omega arith

pub checked_sum-cases :
    (vs : List ℕ)
    → ((checked_sum vs ≡ some (sum vs)) × IsU64 (sum vs))
      ⊎ ((checked_sum vs ≡ none) × (2 ^ 64 ≤ sum vs))
checked_sum-cases vs = go (checked_sum vs) refl
  where
    go :
        (o : Option ℕ)
        → checked_sum vs ≡ o
        → ((checked_sum vs ≡ some (sum vs)) × IsU64 (sum vs))
          ⊎ ((checked_sum vs ≡ none) × (2 ^ 64 ≤ sum vs))
    go none e = elim (le_or_lt (2 ^ 64) (sum vs)) [
      | inl l ↦ inr (e, l)
      | inr l ↦ absurd (let k = (checked_sum_iff vs (sum vs)).1 (refl, l) in cc)
    ]
    go (some s) e =
        let (same, fits) = (checked_sum_iff vs s).0 e in inl (e ∙ ap some (sym same), omega arith)

principal_from_iff :
    (acc : ℕ) (cs : List VirtualChannelState) (s : ℕ)
    → IsU64 acc
    → (principal_from acc cs ≡ some s) ↔ ((acc + principal cs ≡ s) × IsU64 s)
unfolding principal_from principal
principal_from_iff acc [] s h = ground arith
principal_from_iff acc (c ∷ cs) s h = elim (checked_sum-cases (values c.balance_by_participant)) [
  | inl (found, fits) ↦
      rw (principal_from, found) (ground (arith, principal_from_iff (acc + channel_sum c) cs s))
  | inr (missing, large) ↦ rw (principal_from, missing) (ground arith)
]

pub check_total_iff :
    (f : FactoryState)
    → IsU64 f.total_principal
    → IsOk (check_total f) ↔ (principal (values f.virtual_channels) ≡ f.total_principal)
unfolding check_total factory_principal_sum
check_total_iff f h = (forward, backward)
  where
    found :
        (s : ℕ)
        → (principal_from 0 (values f.virtual_channels) ≡ some s)
          ↔ ((0 + principal (values f.virtual_channels) ≡ s) × IsU64 s)
    found s = principal_from_iff 0 (values f.virtual_channels) s (omega arith)

    forward : IsOk (check_total f) → principal (values f.virtual_channels) ≡ f.total_principal
    forward p =
        let (s, e, r) = >>=-eq-ok (ok_or (principal_from 0 (values f.virtual_channels)) _) _ p in
        let (same, _) = (found s).0 ((ok_or_iff _ _ _).0 e) in
        let total = eq_of_not_bne f.total_principal s ((fail_if_iff _ _).0 r) in omega arith

    backward : principal (values f.virtual_channels) ≡ f.total_principal → IsOk (check_total f)
    backward e = rw ((found f.total_principal).1 (omega arith, h)) (ground arith)
