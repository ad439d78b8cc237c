-- ===== src/Eligibility/Tests.antt =====
-- Runs of the settlement evaluation on two states of the sample channel, and the theorems about it
-- there.
use kurrent.Base.{
  List, [], arith, from_keys, get, list_eq, nat_eq, none, option_eq, pair_eq, refl, same_keys, some,
  string_eq, ℕ, ◌∷◌, ◌≡◌, ◌↔◌, All, true,
}
use kurrent.Channel.{
  check_conservation, check_header, check_participants, check_signature, check_signatures,
  collect_signatures, participant_set_hash, state_update_signing_digest, state_update_signing_hash,
  sum_is, validate_channel_update, verify_participant_signature,
}
use kurrent.Eligibility.Accepted.{
  check_pairs, choose, dedup_candidates_prefer_later, dedup_from, sort_by_index, strictly_ordered,
}
use kurrent.Eligibility.Decide.{
  SettlementEligibilityDecision, debug_assert, decide, decide_all, displaced, eligible_to_finalise,
  evaluate_settlement_eligibility,
}
use kurrent.Eligibility.Dedup.{Latest, Rising, dedup_candidates_prefer_later-Latest}
use kurrent.Eligibility.Evidence.{
  Candidate, check_scope, expected_lane, validate_response_window_daa,
  validate_settlement_candidate_evidence,
}
use kurrent.Eligibility.Kept.{In}
use kurrent.Eligibility.Outcomes.{AllStay, evaluate-Decisions, evaluate_ok_iff, evaluate_stays}
use kurrent.Bytes.{IsU64}
use kurrent.Eligibility.Evaluate.{Decisions, InRange, Validated}
use kurrent.Eligibility.Order.{Chain}
use kurrent.Eligibility.Search.{deadline}
use kurrent.Errors.{err, same_number_conflict, for_each, ok}
use kurrent.External.{hash_json, template_hash, header_hash}
use kurrent.Fixtures.{
  candidate, policy, config, decode_marks, encode_marks, first_update, funding, second_update,
  template, zero_external,
}
use kurrent.Lane.{
  decode_fixed_hex, is_valid_kurrent_user_lane_id, validate_lane_binding, validate_lane_id_field,
}

abbrev old : Candidate
old = candidate first_update "t0" 3 100

abbrev new : Candidate
new = candidate second_update "t1" 5 104

-- The two decisions at a time: the new state displaces the old one.
abbrev decisions : ℕ → List SettlementEligibilityDecision
decisions now =
    record {
      candidate_txid = "t0";
      state_number = 0;
      status = displaced;
      displaced_by = some "t1";
      accepted_order_index = 3;
      accepted_daa_score = 100;
      eligible_after_daa = 112;
      observed_daa_score = now;
    }
    ∷ record {
      candidate_txid = "t1";
      state_number = 1;
      status = eligible_to_finalise;
      displaced_by = none;
      accepted_order_index = 5;
      accepted_daa_score = 104;
      eligible_after_daa = 116;
      observed_daa_score = now;
    }
    ∷ []

abbrev candidates : List Candidate
candidates = new ∷ old ∷ []

evaluation_run :
    evaluate_settlement_eligibility zero_external true config funding template policy candidates 120
    ≡ ok (decisions 120)
unfolding evaluate_settlement_eligibility validate_channel_update check_header check_participants
    check_conservation check_signatures state_update_signing_digest state_update_signing_hash
    participant_set_hash validate_lane_binding template_hash hash_json encode_marks same_keys
    from_keys for_each get sum_is decode_marks collect_signatures check_signature
    verify_participant_signature decode_fixed_hex validate_lane_id_field
    is_valid_kurrent_user_lane_id validate_response_window_daa
    validate_settlement_candidate_evidence check_scope header_hash expected_lane choose
    sort_by_index debug_assert strictly_ordered check_pairs decide_all decide
evaluation_run = refl

evaluate-Decisions_example :
    (chosen : List Candidate) × (choose config.challenge_policy.same_number_conflict_rule candidates
      ≡ ok chosen)
    × Decisions 10 2 120 chosen (sort_by_index chosen) (decisions 120)
evaluate-Decisions_example =
    evaluate-Decisions zero_external true config funding template policy candidates 120
      (decisions 120) evaluation_run

evaluate_ok_iff_example :
    InRange 10
    × All (Validated zero_external config funding template) candidates
    × ((chosen : List Candidate) × (choose config.challenge_policy.same_number_conflict_rule
            candidates
          ≡ ok chosen)
        × Chain (sort_by_index chosen)
        × All (λ c. IsU64 (deadline 10 2 c)) (sort_by_index chosen))
evaluate_ok_iff_example =
    (evaluate_ok_iff zero_external true config funding template policy candidates 120).0
      (decisions 120, evaluation_run)

evaluate_stays_example :
    (es : List SettlementEligibilityDecision) × (evaluate_settlement_eligibility zero_external true
        config funding template policy candidates 500
      ≡ ok es)
    × AllStay (decisions 120) es
evaluate_stays_example =
    evaluate_stays zero_external true config funding template policy candidates 120 500
      (decisions 120) (omega arith) evaluation_run

-- Two candidates for one state number: the one that was accepted last is kept.
abbrev retry : Candidate
retry = candidate first_update "t2" 4 102

selection_run : dedup_candidates_prefer_later (old ∷ new ∷ retry ∷ []) ≡ ok (retry ∷ new ∷ [])
unfolding dedup_candidates_prefer_later dedup_from get
selection_run = refl

dedup_candidates_prefer_later-Latest_example :
    ((c : Candidate) → In c (retry ∷ new ∷ []) ↔ Latest c (old ∷ new ∷ retry ∷ []))
    × Rising (retry ∷ new ∷ [])
dedup_candidates_prefer_later-Latest_example =
    dedup_candidates_prefer_later-Latest (old ∷ new ∷ retry ∷ []) (retry ∷ new ∷ []) selection_run

-- Two candidates for one state with one index are refused when they meet, and not when a later one
-- was kept in between.
abbrev latest : Candidate
latest = candidate first_update "t3" 5 104

meeting_run : dedup_candidates_prefer_later (old ∷ old ∷ latest ∷ []) ≡ err (same_number_conflict 0)
unfolding dedup_candidates_prefer_later dedup_from get
meeting_run = refl

parted_run : dedup_candidates_prefer_later (old ∷ latest ∷ old ∷ []) ≡ ok (latest ∷ [])
unfolding dedup_candidates_prefer_later dedup_from get
parted_run = refl
