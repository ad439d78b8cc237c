-- ===== src/Driver/Sample/Candidates.antt =====
-- The settlement candidates of the driver's sample evidence, and the decisions on them.
use kurrent.Base.{List, String, [], none, some, ℕ, ◌+◌, ◌∷◌}
use kurrent.Eligibility.Decide.{SettlementEligibilityDecision, displaced, eligible_to_finalise}
use kurrent.Eligibility.Evidence.{Candidate}
use kurrent.Fixtures.{candidate, digest_text, first_header, first_update, second_header}
use kurrent.Sponsor.{FeeSponsoredSettlementDecision}
use kurrent.Types.{FeeSponsoredSettlementCandidate, SettlementFeePolicy, StateUpdate}

-- The two states of the sample channel, with the numbers one and two.
abbrev pub candidates : List Candidate
candidates =
    candidate (record first_update { header = record first_header { state_number = 1 } }) "t0" 4 100
    ∷ candidate (record first_update { header = record second_header { state_number = 2 } }) "t1" 5
        104
    ∷ []

abbrev pub decisions : List SettlementEligibilityDecision
decisions =
    record {
      candidate_txid = "t0";
      state_number = 1;
      status = displaced;
      displaced_by = some "t1";
      accepted_order_index = 4;
      accepted_daa_score = 100;
      eligible_after_daa = 112;
      observed_daa_score = 120;
    }
    ∷ record {
      candidate_txid = "t1";
      state_number = 2;
      status = eligible_to_finalise;
      displaced_by = none;
      accepted_order_index = 5;
      accepted_daa_score = 104;
      eligible_after_daa = 116;
      observed_daa_score = 120;
    }
    ∷ []

abbrev pub the_policy : SettlementFeePolicy
the_policy = record { policy_id = "p"; max_sponsor_fee = 9; sponsor_mode = "external" }

-- The update commits to the fee policy; its sponsor brings 20 and pays the fee.
abbrev with_sponsor : StateUpdate → String → ℕ → ℕ → ℕ → FeeSponsoredSettlementCandidate
with_sponsor update txid index score fee = record {
  eligibility =
      candidate
        (record update { header = record update.header { fee_policy_hash = some digest_text } })
        txid index score;
  sponsor = record {
    candidate_txid = txid;
    sponsor_input_outpoints = "s:1" ∷ [];
    sponsor_input_total = 20 + fee;
    sponsor_change_total = 20;
    sponsor_fee = fee;
    settlement_template_hash = digest_text;
    settlement_distribution_hash = digest_text;
  };
}

-- The two states of the sample channel, with the numbers one and two.
abbrev pub sponsored_candidates : List FeeSponsoredSettlementCandidate
sponsored_candidates =
    with_sponsor (record first_update { header = record first_header { state_number = 1 } }) "t0" 4
      100 4
    ∷ with_sponsor (record first_update { header = record second_header { state_number = 2 } }) "t1"
        5 104 2
    ∷ []

abbrev pub sponsored_decisions : List FeeSponsoredSettlementDecision
sponsored_decisions =
    record {
      eligibility = record {
        candidate_txid = "t0";
        state_number = 1;
        status = displaced;
        displaced_by = some "t1";
        accepted_order_index = 4;
        accepted_daa_score = 100;
        eligible_after_daa = 112;
        observed_daa_score = 120;
      };
      sponsor_fee = 4;
      fee_policy_hash = digest_text;
      settlement_distribution_hash = digest_text;
    }
    ∷ record {
      eligibility = record {
        candidate_txid = "t1";
        state_number = 2;
        status = eligible_to_finalise;
        displaced_by = none;
        accepted_order_index = 5;
        accepted_daa_score = 104;
        eligible_after_daa = 116;
        observed_daa_score = 120;
      };
      sponsor_fee = 2;
      fee_policy_hash = digest_text;
      settlement_distribution_hash = digest_text;
    }
    ∷ []
