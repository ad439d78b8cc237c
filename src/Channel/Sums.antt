-- ===== src/Channel/Sums.antt =====
-- Checked sums are true sums: no wrap-around hides in an accepted total.
use kurrent.Base.{
  List, [], arith, eq_of_not_bne, list_eq, nat_eq, option_eq, some, string_eq, ℕ, ◌+◌, ◌↔◌, ◌∙◌,
  ◌∷◌, ◌≡◌,
}
use kurrent.Bytes.{IsU64}
use kurrent.Channel.{checked_sum, checked_sum_from, sum_is}
use kurrent.Errors.{>>=-eq-ok, IsOk, fail_if_iff, ok_or, ok_or_iff}

unfoldable pub sum : List ℕ → ℕ
sum [] = 0
sum (v ∷ vs) = v + sum vs

checked_sum_from_iff :
    (acc : ℕ) (vs : List ℕ) (s : ℕ)
    → IsU64 acc
    → (checked_sum_from acc vs ≡ some s) ↔ ((acc + sum vs ≡ s) × IsU64 s)
unfolding checked_sum_from sum
checked_sum_from_iff acc [] s h = ground arith
checked_sum_from_iff acc (v ∷ vs) s h = ground (arith, checked_sum_from_iff (acc + v) vs s)

-- `checked_sum` finds the true sum exactly if that fits 64 bits.
pub checked_sum_iff : (vs : List ℕ) (s : ℕ) → (checked_sum vs ≡ some s) ↔ ((sum vs ≡ s) × IsU64 s)
unfolding checked_sum
checked_sum_iff vs s =
    let h = checked_sum_from_iff 0 vs s (omega arith) in
    ((λ p. let (e, u) = h.0 p in (omega arith, u)), (λ (e, u). h.1 (omega arith, u)))

-- A sum passes the comparison exactly if the true sum is the total.
pub sum_is_iff : (vs : List ℕ) (total : ℕ) → IsU64 total → IsOk (sum_is vs total) ↔ (sum vs ≡ total)
unfolding sum_is
sum_is_iff vs total h = (forward, λ e. rw ((checked_sum_iff vs total).1 (e, h)) (ground arith))
  where
    forward : IsOk (sum_is vs total) → sum vs ≡ total
    forward p =
        let (s, e, r) = >>=-eq-ok (ok_or (checked_sum vs) _) _ p in
        ((checked_sum_iff vs s).0 ((ok_or_iff _ _ _).0 e)).0
        ∙ eq_of_not_bne s total ((fail_if_iff _ _).0 r)
