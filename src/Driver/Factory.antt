-- ===== src/Driver/Factory.antt =====
-- `verify_factory_semantics` of drivers/kaspa-devnet/src/main.rs.
use kurrent.Base.{List, String, [], ◌<>◌, ◌∷◌}
use kurrent.Driver.{Answer, CheckEntry, Host, Transaction, ◌>>=◌, ◌>>◌}
use kurrent.Driver.Require.{
  require_output_count, require_recorded_spend, require_recorded_txid, require_recorded_value,
  require_same, require_text,
}
pub mod Evidence
pub mod Verifier

abbrev pub factory_entry : CheckEntry
factory_entry = record {
  id = "factory_transactions";
  status = "passed";
  details =
      "factory funding and materialisation transactions decode and preserve recorded txid, spend, output semantics, script hash, and typed factory materialisation bindings";
}

abbrev pub factory_records : List String
factory_records = "/materialisation/witness" ∷ "/materialisation/redeem_script" ∷ []

-- The text that names the first two outputs.
abbrev pub two_outputs : Transaction → String
two_outputs tx = tx.id <> ":0," <> tx.id <> ":1"

module _ (d : Host) where
  unfoldable pub check_materialisation : d.Value → Transaction → Answer (Unit {0})
  check_materialisation report tx = do
    require_recorded_txid d report tx "/materialisation/txid" "factory materialisation"
    require_recorded_spend d report tx "/funding/outpoint" "materialisation spends factory funding"
    require_output_count tx 2 "factory materialisation output count"
    require_recorded_value d report tx 0 "/materialisation/outputs/alice"
        "factory materialisation Alice output"
    require_recorded_value d report tx 1 "/materialisation/outputs/bob"
        "factory materialisation Bob output"

  unfoldable pub check_factory_model : d.Value → Transaction → Answer (Unit {0})
  check_factory_model report tx = do
    require_same d report "/model_validation/plan/principal_input_ids/0" "/funding/outpoint"
        "factory model funding input binding"
    require_same d report "/model_validation/redeem_script_sha256"
        "/materialisation/redeem_script/sha256" "factory model redeem script hash"
    require_text d report "/model_validation/plan/materialisation_id" (two_outputs tx)
        "factory model materialisation output binding"
