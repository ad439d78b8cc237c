-- ===== src/Driver/Eligibility/Statuses.antt =====
-- The recorded settlement decisions that drivers/kaspa-devnet/src/main.rs compares and looks up.
use kurrent.Base.{
  Eq, List, Option, String, [], ap, arith, eqb_iff, list_eq, nat_eq, option_eq, refl, some,
  string_eq, suc, sym, true, zero, ℕ, ◌↔◌, ◌∙◌, ◌∷◌, ◌≡◌,
}
use kurrent.Driver.{ok}
use kurrent.Driver.Answers.{ok_or_iff, require_iff, some_iff}
use kurrent.Driver.Eligibility.{
  find_decision, require_decision_status, same_decision, same_decisions, same_status, status_number,
}
use kurrent.Driver.Answers.{iff_trans}
use kurrent.Eligibility.Decide.{
  SettlementEligibilityDecision, SettlementEligibilityStatus, displaced, eligible_to_finalise,
  not_yet_eligible, provisional,
}

abbrev status_at : ℕ → SettlementEligibilityStatus
status_at zero = provisional
status_at (suc zero) = displaced
status_at (suc (suc zero)) = eligible_to_finalise
status_at (suc (suc (suc n))) = not_yet_eligible

status_at-status_number : (s : SettlementEligibilityStatus) → status_at (status_number s) ≡ s
status_at-status_number provisional = refl
status_at-status_number displaced = refl
status_at-status_number eligible_to_finalise = refl
status_at-status_number not_yet_eligible = refl

pub same_status_iff : (s t : SettlementEligibilityStatus) → (same_status s t ≡ true) ↔ (s ≡ t)
same_status_iff s t = (
  (λ h.
      sym (status_at-status_number s)
      ∙ (ap status_at ((eqb_iff _ _).0 h) ∙ status_at-status_number t)),
  (λ h. (eqb_iff _ _).1 (ap status_number h)),
)

pub same_decision_iff : (a b : SettlementEligibilityDecision) → (same_decision a b ≡ true) ↔ (a ≡ b)
same_decision_iff a b = ground (
  arith,
  string_eq.beq_iff a.candidate_txid b.candidate_txid,
  same_status_iff a.status b.status,
  text_eq.beq_iff a.displaced_by b.displaced_by,
)
  where
    text_eq : Eq (Option String)
    text_eq = option_eq

pub same_decisions_iff :
    (recomputed bs : List SettlementEligibilityDecision)
    → (same_decisions recomputed bs ≡ true) ↔ (recomputed ≡ bs)
same_decisions_iff [] [] = ((λ h. refl), (λ h. refl))
same_decisions_iff [] (b ∷ bs) = ((λ h. cc), (λ h. cc))
same_decisions_iff (a ∷ rest) [] = ((λ h. cc), (λ h. cc))
same_decisions_iff (a ∷ rest) (b ∷ bs) =
    ground (arith, same_decision_iff a b, same_decisions_iff rest bs)

-- The first decision on the state number has the status.
abbrev pub Decided : List SettlementEligibilityDecision → ℕ → SettlementEligibilityStatus → Type 0
Decided decisions n status =
    (decision : SettlementEligibilityDecision) × (find_decision n decisions ≡ some decision)
    × (decision.status ≡ status)

pub require_decision_status_iff :
    (decisions : List SettlementEligibilityDecision) (n : ℕ) (status : SettlementEligibilityStatus)
    → (require_decision_status decisions n status ≡ ok tt) ↔ Decided decisions n status
unfolding require_decision_status
require_decision_status_iff decisions n status =
    some_iff (ok_or_iff _)
      λ decision. iff_trans (require_iff _) (same_status_iff decision.status status)
