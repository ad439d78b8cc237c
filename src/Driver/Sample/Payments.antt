-- ===== src/Driver/Sample/Payments.antt =====
-- The sample evidence of factory, hashlock and refund.
use kurrent.Base.{String, [], list_eq, nat_eq, ◌++◌, ◌∷◌}
use kurrent.Fixtures.{digest_text}
use kurrent.Driver.Sample.Places.{Cursor, digest_a, digest_b, filed}

abbrev pub factory_document : Cursor
factory_document = record {
  texts =
      ("/status", "passed")
      ∷ ("/model_validation/status", "passed")
      ∷ ("/funding/txid", "f")
      ∷ ("/funding/outpoint", "f:0")
      ∷ ("/materialisation/txid", "m")
      ∷ ("/model_validation/plan/principal_input_ids/0", "f:0")
      ∷ ("/model_validation/redeem_script_sha256", digest_text)
      ∷ ("/model_validation/plan/materialisation_id", "m:0,m:1")
      ∷ (filed "/funding/raw_tx" "f"
          ++ (filed "/materialisation/raw_tx" "m"
              ++ (filed "/materialisation/witness" "w"
                  ++ filed "/materialisation/redeem_script" "s")));
  numbers = ("/materialisation/outputs/alice", 3) ∷ ("/materialisation/outputs/bob", 5) ∷ [];
  place = "";
}

-- The documents of the two directions; the one of the first also has the Lightning side.
abbrev pub hashlock_document : String → Cursor
hashlock_document payment_hash = record {
  texts =
      ("/status", "passed")
      ∷ ("/model_validation/status", "passed")
      ∷ ("/funding/txid", "f")
      ∷ ("/swaps/ln-to-kaspa/preimage", digest_a)
      ∷ ("/swaps/ln-to-kaspa/payment_hash", digest_a)
      ∷ ("/swaps/kaspa-to-ln/preimage", digest_b)
      ∷ ("/swaps/kaspa-to-ln/payment_hash", digest_b)
      ∷ ("/preimage_sha256", payment_hash)
      ∷ ("/ln_payment_hash", payment_hash)
      ∷ ("/funding/outpoint", "f:0")
      ∷ ("/settlement/txid", "r")
      ∷ ("/model_validation/swap_evidence/kaspa_funding_outpoint", "f:0")
      ∷ ("/model_validation/swap_evidence/kaspa_settlement_outpoint", "r:0")
      ∷ ("/model_validation/swap_evidence/script_hash", digest_text)
      ∷ (filed "/funding/raw_tx" "f"
          ++ (filed "/settlement/raw_tx" "r"
              ++ (filed "/settlement/witness" "w" ++ filed "/settlement/redeem_script" "s")));
  numbers =
      ("/swaps/ln-to-kaspa/amount_sat", 7)
      ∷ ("/swaps/kaspa-to-ln/amount_sat", 7)
      ∷ ("/ln_amount_sat", 7)
      ∷ ("/settlement/output_value", 8)
      ∷ [];
  place = "";
}

abbrev pub refund_document : Cursor
refund_document = record {
  texts =
      ("/status", "passed")
      ∷ ("/model_validation/status", "passed")
      ∷ ("/funding/txid", "f")
      ∷ ("/funding/outpoint", "f:0")
      ∷ ("/early_refund_rejection/attempted_txid", "e")
      ∷ ("/early_refund_rejection/status", "rejected")
      ∷ ("/refund/txid", "r")
      ∷ ("/model_validation/claim_scope/funding_outpoint", "f:0")
      ∷ ("/model_validation/claim_scope/output_id", "r:0")
      ∷ ("/model_validation/redeem_script_sha256", digest_text)
      ∷ (filed "/funding/raw_tx" "f"
          ++ (filed "/early_refund_rejection/attempted_tx" "e"
              ++ (filed "/refund/raw_tx" "r"
                  ++ (filed "/early_refund_rejection/witness" "w"
                      ++ (filed "/refund/witness" "w" ++ filed "/refund/redeem_script" "s")))));
  numbers = ("/refund/output_value", 8) ∷ [];
  place = "";
}
