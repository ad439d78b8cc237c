-- ===== src/Eligibility/Decide.antt =====
-- The decisions of `evaluate_settlement_eligibility` in src/lib.rs.
use kurrent.Base.{
  Bool, List, Option, String, [], false, if◌then◌else◌, leb, list_eq, ltb, nat_eq, none, option_eq,
  some, string_eq, true, ℕ, ◌&&◌, ◌∷◌,
}
use kurrent.Channel.{validate_channel_update}
use kurrent.Errors.{Result, for_each, ok, ok_or, panic, ◌>>=◌, ◌>>◌}
use kurrent.External.{External}
use kurrent.Normative.Amounts.{checked_add}
use kurrent.Types.{
  FundingState, KurrentChannelConfig, SettlementEligibilityPolicy, SettlementTemplate,
}
use kurrent.Eligibility.Evidence.{
  Candidate, daa_of, index_of, mismatch, state_of, validate_response_window_daa,
  validate_settlement_candidate_evidence,
}
use kurrent.Eligibility.Accepted.{check_pairs, choose, sort_by_index, strictly_ordered}

pub data SettlementEligibilityStatus : Type 0 where
  provisional displaced eligible_to_finalise not_yet_eligible : SettlementEligibilityStatus

pub record SettlementEligibilityDecision : Type 0 where
  pub candidate_txid : String
  pub state_number : ℕ
  pub status : SettlementEligibilityStatus
  pub displaced_by : Option String
  pub accepted_order_index : ℕ
  pub accepted_daa_score : ℕ
  pub eligible_after_daa : ℕ
  pub observed_daa_score : ℕ

-- When the candidate may finalise: both additions are checked.
unfoldable pub finalisation_daa : ℕ → ℕ → Candidate → Option ℕ
finalisation_daa window tolerance c = elim (checked_add (daa_of c) window) [
  | none ↦ none
  | some deadline ↦ checked_add deadline tolerance
]

-- The `find` over `ordered[index + 1..]`.
unfoldable pub find_displacing : ℕ → Candidate → List Candidate → Option Candidate
find_displacing finalisation c [] = none
find_displacing finalisation c (higher ∷ rest) =
    if ltb (state_of c) (state_of higher) && ltb (daa_of higher) finalisation
    then some higher
    else find_displacing finalisation c rest

-- Status and `displaced_by`, from the displacement, whether the score is mature, and whether the
-- candidate is the first in accepted order.
unfoldable pub status_of :
    Option Candidate → Bool → Bool → SettlementEligibilityStatus × Option String
status_of (some higher) mature first = (displaced, some higher.evidence.candidate_txid)
status_of none mature first = (
  if mature then eligible_to_finalise else (if first then provisional else not_yet_eligible),
  none,
)

-- The body of the decision loop: the candidate, and those behind it in accepted order.
unfoldable pub decide :
    ℕ → ℕ → ℕ → Bool → Candidate → List Candidate → Result SettlementEligibilityDecision
unfolding finalisation_daa find_displacing status_of
decide window tolerance current_daa first c rest = do
  finalisation ←
      ok_or (finalisation_daa window tolerance c)
        (mismatch "candidate response-window DAA overflows u64")
  let verdict = status_of (find_displacing finalisation c rest) (leb finalisation current_daa) first
  ok (record {
    candidate_txid = c.evidence.candidate_txid;
    state_number = state_of c;
    status = verdict.0;
    displaced_by = verdict.1;
    accepted_order_index = index_of c;
    accepted_daa_score = daa_of c;
    eligible_after_daa = finalisation;
    observed_daa_score = current_daa;
  })

unfoldable pub decide_all :
    ℕ → ℕ → ℕ → Bool → List Candidate → Result (List SettlementEligibilityDecision)
decide_all window tolerance current_daa first [] = ok []
decide_all window tolerance current_daa first (c ∷ rest) =
    let later = decide_all window tolerance current_daa false rest in
    decide window tolerance current_daa first c rest >>= λ d. later >>= λ ds. ok (d ∷ ds)

-- `debug_assert!`, which a release build leaves out.
unfoldable pub debug_assert : Bool → Bool → Result (Unit {0})
debug_assert true false = panic
debug_assert _ _ = ok tt

-- The whole evaluation. The flag says whether debug assertions are compiled in.
unfoldable pub evaluate_settlement_eligibility :
    External
    → Bool
    → KurrentChannelConfig
    → FundingState
    → SettlementTemplate
    → SettlementEligibilityPolicy
    → List Candidate
    → ℕ
    → Result (List SettlementEligibilityDecision)
evaluate_settlement_eligibility x debug config funding template policy candidates current_daa = do
  window ← validate_response_window_daa policy.response_window_daa
  for_each
      (λ c.
        validate_channel_update x config funding c.update template
        >> validate_settlement_candidate_evidence x config funding c)
      candidates
  chosen ← choose config.challenge_policy.same_number_conflict_rule candidates
  let ordered = sort_by_index chosen
  debug_assert debug (strictly_ordered ordered)
  check_pairs ordered
  decide_all window policy.reorg_tolerance_daa current_daa true ordered
