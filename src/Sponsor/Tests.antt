-- ===== src/Sponsor/Tests.antt =====
-- Runs of the sponsored evaluation on the sample candidates, and the theorems about it there.
use kurrent.Base.{
  All, List, String, [], arith, contains, from_keys, get, insert, list_eq, map, nat_eq, option_eq,
  pair_eq, refl, same_keys, some, string_eq, ℕ, ◌∷◌, ◌≡◌, ◌+◌, false,
}
use kurrent.Channel.{
  check_conservation, check_header, check_participants, check_signature, check_signatures,
  collect_signatures, participant_set_hash, state_update_signing_digest, state_update_signing_hash,
  sum_is, validate_channel_update, verify_participant_signature,
}
use kurrent.Eligibility.Accepted.{check_pairs, choose, sort_by_index, strictly_ordered}
use kurrent.Eligibility.Decide.{
  SettlementEligibilityDecision, debug_assert, decide, decide_all, evaluate_settlement_eligibility,
}
use kurrent.Eligibility.Evidence.{
  check_scope, expected_lane, validate_response_window_daa, validate_settlement_candidate_evidence,
}
use kurrent.Errors.{IsOk, for_each, ok}
use kurrent.External.{
  fee_policy_hash, hash_json, header_hash, settlement_distribution_hash, template_hash,
}
use kurrent.Fixtures.{
  candidate, config, decode_marks, digest_text, encode_marks, first_update, funding, policy,
  second_update, template, zero_external,
}
use kurrent.Lane.{
  decode_fixed_hex, is_valid_kurrent_user_lane_id, validate_lane_binding, validate_lane_id_field,
}
use kurrent.Sponsor.{
  FeeSponsoredSettlementDecision, attach_sponsors, check_sponsor_fee,
  evaluate_fee_sponsored_settlement_eligibility, insert_sponsors, validate_sponsor_evidence,
}
use kurrent.Sponsor.Outcomes.{Paid, evaluate_fee_sponsored_ok_iff, evaluate_fee_sponsored-Paid}
use kurrent.Types.{FeeSponsoredSettlementCandidate, SettlementFeePolicy, StateUpdate}

abbrev fee_policy : SettlementFeePolicy
fee_policy = record { policy_id = "p"; max_sponsor_fee = 9; sponsor_mode = "external" }

-- The update commits to the fee policy; its sponsor brings 20 and pays the fee.
abbrev with_sponsor : StateUpdate → String → ℕ → ℕ → ℕ → FeeSponsoredSettlementCandidate
with_sponsor update txid index score fee = record {
  eligibility =
      candidate
        (record update { header = record update.header { fee_policy_hash = some digest_text } })
        txid index score;
  sponsor = record {
    candidate_txid = txid;
    sponsor_input_outpoints = "s:1" ∷ [];
    sponsor_input_total = 20 + fee;
    sponsor_change_total = 20;
    sponsor_fee = fee;
    settlement_template_hash = digest_text;
    settlement_distribution_hash = digest_text;
  };
}

abbrev sponsored_candidates : List FeeSponsoredSettlementCandidate
sponsored_candidates =
    with_sponsor second_update "t1" 5 104 4 ∷ with_sponsor first_update "t0" 3 100 2 ∷ []

evidence_run : IsOk (
    validate_sponsor_evidence zero_external funding template fee_policy digest_text digest_text
      (with_sponsor first_update "t0" 3 100 2))
unfolding validate_sponsor_evidence check_sponsor_fee template_hash hash_json encode_marks contains
evidence_run = refl

sponsored_run :
    (fs : List FeeSponsoredSettlementDecision) × (evaluate_fee_sponsored_settlement_eligibility
        zero_external false config funding template policy fee_policy sponsored_candidates 120
      ≡ ok fs)
unfolding evaluate_fee_sponsored_settlement_eligibility validate_sponsor_evidence insert_sponsors
    attach_sponsors check_sponsor_fee fee_policy_hash settlement_distribution_hash contains insert
    evaluate_settlement_eligibility validate_channel_update check_header check_participants
    check_conservation check_signatures state_update_signing_digest state_update_signing_hash
    participant_set_hash validate_lane_binding template_hash hash_json encode_marks same_keys
    from_keys for_each get sum_is decode_marks collect_signatures check_signature
    verify_participant_signature decode_fixed_hex validate_lane_id_field
    is_valid_kurrent_user_lane_id validate_response_window_daa
    validate_settlement_candidate_evidence check_scope header_hash expected_lane choose
    sort_by_index debug_assert strictly_ordered check_pairs decide_all decide
sponsored_run = (_, refl)

evaluate_fee_sponsored_ok_iff_example :
    ((ds : List SettlementEligibilityDecision) × (evaluate_settlement_eligibility zero_external
          false config funding template policy
          (map (λ c. c.eligibility) sponsored_candidates)
          120
        ≡ ok ds))
    × All
        (λ c. IsOk (
          validate_sponsor_evidence zero_external funding template fee_policy
            (fee_policy_hash zero_external fee_policy)
            (settlement_distribution_hash zero_external template)
            c))
        sponsored_candidates
evaluate_fee_sponsored_ok_iff_example =
    (evaluate_fee_sponsored_ok_iff zero_external false config funding template policy fee_policy
        sponsored_candidates 120).0
      sponsored_run

evaluate_fee_sponsored-Paid_example :
    (evaluate_settlement_eligibility zero_external false config funding template policy
        (map (λ c. c.eligibility) sponsored_candidates)
        120
      ≡ ok (map (λ f. f.eligibility) sponsored_run.0))
    × All (Paid zero_external template fee_policy sponsored_candidates) sponsored_run.0
evaluate_fee_sponsored-Paid_example =
    evaluate_fee_sponsored-Paid zero_external false config funding template policy fee_policy
      sponsored_candidates 120 sponsored_run.0 (omega arith, (omega arith, tt)) sponsored_run.1
