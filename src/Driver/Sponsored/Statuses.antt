-- ===== src/Driver/Sponsored/Statuses.antt =====
-- The recorded sponsored decisions that drivers/kaspa-devnet/src/main.rs compares and looks up.
use kurrent.Base.{List, [], arith, refl, some, string_eq, true, ℕ, ◌↔◌, ◌∷◌, ◌≡◌}
use kurrent.Driver.{ok}
use kurrent.Driver.Answers.{ok_or_iff, require_iff, some_iff}
use kurrent.Driver.Eligibility.Statuses.{same_decision_iff, same_status_iff}
use kurrent.Driver.Answers.{iff_trans}
use kurrent.Driver.Sponsored.{
  all_sponsored, find_sponsored, require_fee_sponsored_decision_status, same_sponsored,
}
use kurrent.Eligibility.Decide.{SettlementEligibilityStatus}
use kurrent.Sponsor.{FeeSponsoredSettlementDecision}

pub same_sponsored_iff :
    (a b : FeeSponsoredSettlementDecision) → (same_sponsored a b ≡ true) ↔ (a ≡ b)
same_sponsored_iff a b = ground (
  arith,
  same_decision_iff a.eligibility b.eligibility,
  string_eq.beq_iff a.fee_policy_hash b.fee_policy_hash,
  string_eq.beq_iff a.settlement_distribution_hash b.settlement_distribution_hash,
)

pub all_sponsored_iff :
    (recomputed bs : List FeeSponsoredSettlementDecision)
    → (all_sponsored recomputed bs ≡ true) ↔ (recomputed ≡ bs)
all_sponsored_iff [] [] = ((λ h. refl), (λ h. refl))
all_sponsored_iff [] (b ∷ bs) = ((λ h. cc), (λ h. cc))
all_sponsored_iff (a ∷ rest) [] = ((λ h. cc), (λ h. cc))
all_sponsored_iff (a ∷ rest) (b ∷ bs) =
    ground (arith, same_sponsored_iff a b, all_sponsored_iff rest bs)

-- The first decision on the state number has the status.
abbrev pub SponsoredDecided :
    List FeeSponsoredSettlementDecision → ℕ → SettlementEligibilityStatus → Type 0
SponsoredDecided decisions n status =
    (decision : FeeSponsoredSettlementDecision) × (find_sponsored n decisions ≡ some decision)
    × (decision.eligibility.status ≡ status)

pub require_status_of_iff :
    (decisions : List FeeSponsoredSettlementDecision) (n : ℕ) (status : SettlementEligibilityStatus)
    → (require_fee_sponsored_decision_status decisions n status ≡ ok tt)
      ↔ SponsoredDecided decisions n status
unfolding require_fee_sponsored_decision_status
require_status_of_iff decisions n status =
    some_iff (ok_or_iff _)
      λ decision. iff_trans (require_iff _) (same_status_iff decision.eligibility.status status)
