-- ===== src/Driver/Factory/Verifier.antt =====
-- The whole of `verify_factory_semantics` of drivers/kaspa-devnet/src/main.rs.
use kurrent.Base.{String}
use kurrent.Driver.{Host}
use kurrent.Driver.Factory.{
  check_factory_model, check_materialisation, factory_entry, factory_records,
}
use kurrent.Driver.Records.{decode_transaction, read_json, verify_hex_records}
use kurrent.Driver.Require.{require_model_passed, require_recorded_funding}
use kurrent.Driver.Verify.{Verify, change, lift, one_check, ◌>>=◌, ◌>>◌}
use kurrent.External.{External}

unfoldable pub verify_factory_semantics : Host → External → String → Verify (Unit {0})
verify_factory_semantics d x output_dir = do
  report ← lift (read_json d (d.join output_dir "kurrent-live-factory-evidence.json"))
  lift (require_model_passed d report "factory live evidence" "factory model validation")
  funding_tx ← decode_transaction d x report "/funding/raw_tx"
  lift (require_recorded_funding d report funding_tx "factory funding")
  materialisation_tx ← decode_transaction d x report "/materialisation/raw_tx"
  lift (check_materialisation d report materialisation_tx)
  verify_hex_records d x report factory_records
  lift (check_factory_model d report materialisation_tx)
  change (one_check factory_entry)
