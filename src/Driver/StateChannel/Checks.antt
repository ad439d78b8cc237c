-- ===== src/Driver/StateChannel/Checks.antt =====
-- When each group of checks of `verify_state_channel_semantics` of drivers/kaspa-devnet/src/main.rs
-- is passed.
use kurrent.Base.{String, [], ◌<>◌, ◌↔◌, ◌∷◌, ◌≡◌, ◌≢◌}
use kurrent.Driver.{Host, Transaction, ok}
use kurrent.Driver.Answers.{AllOf, both_iff}
use kurrent.Driver.Factory.{two_outputs}
use kurrent.Driver.Require.{tx_subnetwork_id_hex}
use kurrent.Driver.Require.Laws.{
  Funding, Hashed, ModelPassed, Named, Outpoint, Paid, Same, Says, Spent, require_json_hash_iff,
  require_model_passed_iff, require_recorded_funding_iff, require_recorded_outpoint_iff,
  require_recorded_spend_iff, require_recorded_txid_iff, require_recorded_value_iff,
  require_same_iff, require_text_iff, require_tx_lane_iff,
}
use kurrent.Driver.Require.Transactions.{require_not_eq_iff}
use kurrent.Driver.StateChannel.{
  check_rejected_settlement, check_rejected_update, check_settled, check_settlement_outputs,
  check_stale, check_state_funding, check_state_hashes, check_state_model, check_state_update,
  check_wrong_lane,
}
use kurrent.External.{External, domain_channel_receipt, domain_settlement_template, domain_state}

module _ (d : Host) (x : External) where
  -- The model has passed, and the recorded hashes are those of the recorded values.
  abbrev pub StateHashes : d.Value → Type 0
  StateHashes report = AllOf (
      ModelPassed d report
      ∷ Says d report "/model_validation/validation_layer" "typed-kurrent-protocol-model"
      ∷ Hashed d x report domain_settlement_template "/settlement_template/template"
          "/settlement_template/hash"
      ∷ Hashed d x report domain_state "/state_header/header" "/state_header/hash"
      ∷ Hashed d x report domain_channel_receipt "/channel_receipt/scope" "/channel_receipt/hash"
      ∷ [])

  -- The transaction is on the lane, as recorded.
  abbrev pub OnLane : d.Value → String → String → Transaction → Type 0
  OnLane report lane pointer tx = (tx_subnetwork_id_hex d x tx ≡ lane) × Says d report pointer lane

  abbrev pub StateFunding : d.Value → String → Transaction → Type 0
  StateFunding report lane tx = AllOf (
      Funding d report tx
      ∷ Paid d report tx 0 "/funding/value"
      ∷ OnLane report lane "/funding/observed_lane_id" tx
      ∷ [])

  abbrev pub Update : d.Value → String → Transaction → Type 0
  Update report lane tx = AllOf (
      Named d report tx "/state_update/txid"
      ∷ Spent d report tx "/funding/outpoint"
      ∷ Outpoint d report tx "/state_update/outpoint" 0
      ∷ Paid d report tx 0 "/state_update/value"
      ∷ OnLane report lane "/state_update/observed_lane_id" tx
      ∷ [])

  -- The transaction is not on the lane, and was rejected.
  abbrev pub OffLane : d.Value → String → String → Transaction → Type 0
  OffLane report lane pointer tx = AllOf (
      (tx_subnetwork_id_hex d x tx ≢ lane)
      ∷ Says d report (pointer <> "/observed_lane_id") (tx_subnetwork_id_hex d x tx)
      ∷ Says d report (pointer <> "/status") "rejected"
      ∷ [])

  abbrev pub RejectedUpdate : d.Value → String → String → Transaction → Type 0
  RejectedUpdate report lane pointer tx = AllOf (
      Named d report tx (pointer <> "/attempted_txid")
      ∷ Spent d report tx "/funding/outpoint"
      ∷ OffLane report lane pointer tx
      ∷ [])

  -- The transaction spends the updated state into the outputs of both participants.
  abbrev pub PaysBoth : d.Value → Transaction → Type 0
  PaysBoth report tx = AllOf (
      Spent d report tx "/state_update/outpoint"
      ∷ Paid d report tx 0 "/settlement/outputs/alice"
      ∷ Paid d report tx 1 "/settlement/outputs/bob"
      ∷ [])

  abbrev pub RejectedSettlement : d.Value → String → String → Transaction → Type 0
  RejectedSettlement report lane pointer tx = AllOf (
      Named d report tx (pointer <> "/attempted_txid")
      ∷ PaysBoth report tx
      ∷ OffLane report lane pointer tx
      ∷ [])

  abbrev pub Stale : d.Value → String → Transaction → Type 0
  Stale report lane tx = AllOf (
      Named d report tx "/stale_state_rejection/attempted_txid"
      ∷ Spent d report tx "/state_update/outpoint"
      ∷ Says d report "/stale_state_rejection/status" "rejected"
      ∷ OnLane report lane "/stale_state_rejection/observed_lane_id" tx
      ∷ [])

  abbrev pub Settled : d.Value → String → Transaction → Type 0
  Settled report lane tx = AllOf (
      Named d report tx "/settlement/txid"
      ∷ PaysBoth report tx
      ∷ OnLane report lane "/settlement/observed_lane_id" tx
      ∷ [])

  abbrev pub StateModel : d.Value → String → Transaction → Type 0
  StateModel report lane tx = AllOf (
      Same d report "/model_validation/funding_state/funding_outpoint" "/funding/outpoint"
      ∷ Same d report "/model_validation/latest_state_header/funding_outpoint" "/funding/outpoint"
      ∷ Says d report "/model_validation/funding_state/expected_lane_id" lane
      ∷ Says d report "/model_validation/latest_state_header/expected_lane_id" lane
      ∷ Says d report "/model_validation/receipt/output_id" (two_outputs tx)
      ∷ Same d report "/state_header/header/script_covenant_hash"
          "/settlement/state_2_redeem_script/sha256"
      ∷ Same d report "/model_validation/settlement_template/script_covenant_hash"
          "/settlement/state_2_redeem_script/sha256"
      ∷ [])

  module _ (report : d.Value) where
    pub check_state_hashes_iff : (check_state_hashes d x report ≡ ok tt) ↔ StateHashes report
    unfolding check_state_hashes
    check_state_hashes_iff = both_iff (require_model_passed_iff d report _ _) (
        both_iff (require_text_iff d report _ _ _) (
          both_iff (require_json_hash_iff d x report _ _ _ _) (
            both_iff (require_json_hash_iff d x report _ _ _ _)
              (require_json_hash_iff d x report _ _ _ _))))

    module _ (lane : String) (tx : Transaction) where
      pub check_state_funding_iff :
          (check_state_funding d x report lane tx ≡ ok tt) ↔ StateFunding report lane tx
      unfolding check_state_funding
      check_state_funding_iff = both_iff (require_recorded_funding_iff d report tx _) (
          both_iff (require_recorded_value_iff d report tx 0 _ _)
            (both_iff (require_tx_lane_iff d x tx lane _) (require_text_iff d report _ _ _)))

      pub check_state_update_iff :
          (check_state_update d x report lane tx ≡ ok tt) ↔ Update report lane tx
      unfolding check_state_update
      check_state_update_iff = both_iff (require_recorded_txid_iff d report tx _ _) (
          both_iff (require_recorded_spend_iff d report tx _ _) (
            both_iff (require_recorded_outpoint_iff d report tx _ 0 _) (
              both_iff (require_recorded_value_iff d report tx 0 _ _)
                (both_iff (require_tx_lane_iff d x tx lane _) (require_text_iff d report _ _ _)))))

      check_wrong_lane_iff :
          (pointer label : String)
          → (check_wrong_lane d x report lane pointer label tx ≡ ok tt)
            ↔ OffLane report lane pointer tx
      unfolding check_wrong_lane
      check_wrong_lane_iff pointer label =
          both_iff (require_not_eq_iff _ _ _)
            (both_iff (require_text_iff d report _ _ _) (require_text_iff d report _ _ _))

      pub check_rejected_update_iff :
          (pointer label : String)
          → (check_rejected_update d x report lane pointer label tx ≡ ok tt)
            ↔ RejectedUpdate report lane pointer tx
      unfolding check_rejected_update
      check_rejected_update_iff pointer label =
          both_iff (require_recorded_txid_iff d report tx _ _) (
            both_iff (require_recorded_spend_iff d report tx _ _)
              (check_wrong_lane_iff pointer label))

      check_settlement_outputs_iff :
          (label : String)
          → (check_settlement_outputs d x report label tx ≡ ok tt) ↔ PaysBoth report tx
      unfolding check_settlement_outputs
      check_settlement_outputs_iff label = both_iff (require_recorded_spend_iff d report tx _ _) (
          both_iff (require_recorded_value_iff d report tx 0 _ _)
            (require_recorded_value_iff d report tx 1 _ _))

      pub check_rejected_settlement_iff :
          (pointer label : String)
          → (check_rejected_settlement d x report lane pointer label tx ≡ ok tt)
            ↔ RejectedSettlement report lane pointer tx
      unfolding check_rejected_settlement
      check_rejected_settlement_iff pointer label =
          both_iff (require_recorded_txid_iff d report tx _ _)
            (both_iff (check_settlement_outputs_iff label) (check_wrong_lane_iff pointer label))

      pub check_stale_iff : (check_stale d x report lane tx ≡ ok tt) ↔ Stale report lane tx
      unfolding check_stale
      check_stale_iff = both_iff (require_recorded_txid_iff d report tx _ _) (
          both_iff (require_recorded_spend_iff d report tx _ _) (
            both_iff (require_text_iff d report _ _ _)
              (both_iff (require_tx_lane_iff d x tx lane _) (require_text_iff d report _ _ _))))

      pub check_settled_iff : (check_settled d x report lane tx ≡ ok tt) ↔ Settled report lane tx
      unfolding check_settled
      check_settled_iff = both_iff (require_recorded_txid_iff d report tx _ _) (
          both_iff (check_settlement_outputs_iff "settlement")
            (both_iff (require_tx_lane_iff d x tx lane _) (require_text_iff d report _ _ _)))

      pub check_state_model_iff :
          (check_state_model d x report lane tx ≡ ok tt) ↔ StateModel report lane tx
      unfolding check_state_model
      check_state_model_iff = both_iff (require_same_iff d report _ _ _) (
          both_iff (require_same_iff d report _ _ _) (
            both_iff (require_text_iff d report _ _ _) (
              both_iff (require_text_iff d report _ _ _) (
                both_iff (require_text_iff d report _ _ _)
                  (both_iff (require_same_iff d report _ _ _) (require_same_iff d report _ _ _))))))
