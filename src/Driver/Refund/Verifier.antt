-- ===== src/Driver/Refund/Verifier.antt =====
-- The whole of `verify_refund_semantics` of drivers/kaspa-devnet/src/main.rs.
use kurrent.Base.{List, String, [], ◌∷◌}
use kurrent.Driver.{Host}
use kurrent.Driver.Records.{decode_transaction, read_json, verify_hex_records}
use kurrent.Driver.Refund.{
  check_early_refund, check_mature_refund, check_refund_model, refund_entry,
}
use kurrent.Driver.Require.{require_model_passed, require_recorded_funding}
use kurrent.Driver.Verify.{Verify, change, lift, one_check, ◌>>=◌, ◌>>◌}
use kurrent.External.{External}

abbrev pub refund_records : List String
refund_records =
    "/early_refund_rejection/witness" ∷ "/refund/witness" ∷ "/refund/redeem_script" ∷ []

unfoldable pub verify_refund_semantics : Host → External → String → Verify (Unit {0})
verify_refund_semantics d x output_dir = do
  report ← lift (read_json d (d.join output_dir "kurrent-live-refund-evidence.json"))
  lift (require_model_passed d report "refund live evidence" "refund model validation")
  funding_tx ← decode_transaction d x report "/funding/raw_tx"
  lift (require_recorded_funding d report funding_tx "refund funding")
  early_tx ← decode_transaction d x report "/early_refund_rejection/attempted_tx"
  lift (check_early_refund d report early_tx)
  refund_tx ← decode_transaction d x report "/refund/raw_tx"
  lift (check_mature_refund d report refund_tx)
  verify_hex_records d x report refund_records
  lift (check_refund_model d report refund_tx)
  change (one_check refund_entry)
