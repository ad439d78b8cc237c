-- ===== src/Driver/StateChannel/Evidence.antt =====
-- What state-channel evidence is accepted by `verify_state_channel_semantics` of
-- drivers/kaspa-devnet/src/main.rs.
use kurrent.Base.{String, arith, refl, subst, ◌↔◌, ◌≡◌}
use kurrent.Driver.{Answer, Host, Progress, Transaction, ok}
use kurrent.Driver.Records.Laws.{
  AllRecorded, Decoded, JsonFile, Runs-counted, Runs-decode_transaction, Runs-iff, Runs-last,
  Runs-ok, Runs-verify_hex_records, counted, read_json_iff,
}
use kurrent.Driver.Require.Laws.{Text, required_str_iff}
use kurrent.Driver.Runs.{Runs, Runs->>, Runs->>=, Runs-lift}
use kurrent.Driver.StateChannel.{state_channel_entry, state_channel_records}
use kurrent.Driver.StateChannel.Checks.{
  RejectedSettlement, RejectedUpdate, Settled, Stale, StateFunding, StateHashes, StateModel, Update,
  check_rejected_settlement_iff, check_rejected_update_iff, check_settled_iff, check_stale_iff,
  check_state_funding_iff, check_state_hashes_iff, check_state_model_iff, check_state_update_iff,
}
use kurrent.Driver.StateChannel.Verifier.{checked_transaction, verify_state_channel_semantics}
use kurrent.Driver.Verify.{one_decoded, one_verified}
use kurrent.External.{External}

module _ (d : Host) (x : External) where
  pub Runs-checked_transaction :
      (report : d.Value) (pointer : String) {check : Transaction → Answer (Unit {0})}
      {P : Transaction → Type 0}
      → ((tx : Transaction) → (check tx ≡ ok tt) ↔ P tx)
      → Runs
          (checked_transaction d x report pointer check)
          (λ p. one_decoded (one_verified p))
          (λ tx. Decoded d x report pointer tx × P tx)
  unfolding checked_transaction
  Runs-checked_transaction report pointer {P} h =
      Runs-iff
        (Runs->>= (Runs-decode_transaction d x report pointer)
          λ tx. Runs->> (Runs-lift (λ _. h tx)) (Runs-ok tx))
        λ tx. (
          (λ (other, s, (t, same)). subst (λ a. Decoded d x report pointer a × P a) same (s, t)),
          (λ (s, t). (tx, s, (t, refl))),
        )

  -- The transaction recorded at the pointer, with the property.
  abbrev pub At : d.Value → String → (Transaction → Type 0) → Transaction → Type 0
  At report pointer P tx = Decoded d x report pointer tx × P tx

  -- The state-channel evidence in the directory: the document, its lane, and the eight transactions
  -- that it records.
  abbrev pub StateChannelEvidence : String → Type 0
  StateChannelEvidence output_dir =
      (report : d.Value) × JsonFile d (d.join output_dir "kurrent-live-state-channel-evidence.json")
        report
      × (StateHashes d x report
          × ((lane : String) × Text d report "/lane_binding/expected_lane_id" lane
              × ((funding : Transaction) × At report "/funding/raw_tx"
                    (StateFunding d x report lane) funding
                  × ((update : Transaction) × At report "/state_update/raw_tx"
                        (Update d x report lane) update
                      × ((native_update : Transaction) × At report
                            "/wrong_lane_rejections/native_state_update/attempted_tx"
                            (RejectedUpdate d x report lane
                              "/wrong_lane_rejections/native_state_update")
                            native_update
                          × ((user_update : Transaction) × At report
                                "/wrong_lane_rejections/wrong_user_state_update/attempted_tx"
                                (RejectedUpdate d x report lane
                                  "/wrong_lane_rejections/wrong_user_state_update")
                                user_update
                              × ((native_settlement : Transaction) × At report
                                    "/wrong_lane_rejections/native_settlement/attempted_tx"
                                    (RejectedSettlement d x report lane
                                      "/wrong_lane_rejections/native_settlement")
                                    native_settlement
                                  × ((user_settlement : Transaction) × At report
                                        "/wrong_lane_rejections/wrong_user_settlement/attempted_tx"
                                        (RejectedSettlement d x report lane
                                          "/wrong_lane_rejections/wrong_user_settlement")
                                        user_settlement
                                      × ((stale : Transaction) × At report
                                            "/stale_state_rejection/attempted_tx"
                                            (Stale d x report lane) stale
                                          × ((settlement : Transaction) × At report
                                                "/settlement/raw_tx" (Settled d x report lane)
                                                settlement
                                              × (StateModel d x report lane settlement
                                                  × AllRecorded d x report
                                                      state_channel_records)))))))))))

  -- The state-channel verifier succeeds exactly on evidence whose recorded hashes are those of the
  -- recorded values and whose eight recorded transactions decode from files with their digests and
  -- have the recorded ids: the update spends the funding and the settlement spends the update on the
  -- expected lane, the two updates and two settlements off the lane and the stale attempt were
  -- rejected, and the model names the same outpoints, lane and script; it then has counted eight
  -- transactions and thirteen records, and adds its entry.
  pub verify_state_channel_semantics_iff :
      (output_dir : String) (p q : Progress) (u : Unit {0})
      → (verify_state_channel_semantics d x output_dir p ≡ ok (u, q))
        ↔ (StateChannelEvidence output_dir × (q ≡ counted 8 13 state_channel_entry p))
  unfolding verify_state_channel_semantics
  verify_state_channel_semantics_iff output_dir =
      Runs-counted (counted 8 13 state_channel_entry)
        (Runs->>= (Runs-lift (read_json_iff d _)) λ report.
          Runs->> (Runs-lift (λ _. check_state_hashes_iff d x report)) (
            Runs->>= (Runs-lift (required_str_iff d report _)) λ lane.
              Runs->>= (Runs-checked_transaction report _ (check_state_funding_iff d x report lane))
                λ _.
                  Runs->>=
                    (Runs-checked_transaction report _ (check_state_update_iff d x report lane))
                    λ _.
                      Runs->>=
                        (Runs-checked_transaction report _
                          (λ tx. check_rejected_update_iff d x report lane tx _ _))
                        λ _.
                          Runs->>=
                            (Runs-checked_transaction report _
                              (λ tx. check_rejected_update_iff d x report lane tx _ _))
                            λ _.
                              Runs->>=
                                (Runs-checked_transaction report _
                                  (λ tx. check_rejected_settlement_iff d x report lane tx _ _))
                                λ _.
                                  Runs->>=
                                    (Runs-checked_transaction report _
                                      (λ tx. check_rejected_settlement_iff d x report lane tx _ _))
                                    λ _.
                                      Runs->>=
                                        (Runs-checked_transaction report _
                                          (check_stale_iff d x report lane))
                                        λ _.
                                          Runs->>=
                                            (Runs-checked_transaction report _
                                              (check_settled_iff d x report lane))
                                            λ settlement.
                                              Runs->>
                                                (Runs-lift (λ _.
                                                  check_state_model_iff d x report lane settlement))
                                                (Runs-last _ (
                                                  Runs-verify_hex_records d x report
                                                    state_channel_records))))
        λ p. ground arith
