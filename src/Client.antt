-- ===== src/Client.antt =====
-- The readiness audit of src/client.rs.
use kurrent.Base.{
  Bool, Eq, List, Map, Option, String, [], false, if◌then◌else◌, insert, list_eq, none, not,
  option_eq, some, string_eq, true, ℕ, ◌&&◌, ◌++◌, ◌==◌, ◌∷◌,
}
use kurrent.Bundle.{EvidenceFile}
pub mod Capture
pub mod Outcomes
mod Tests

-- A path as its text.
pub record ToolPaths : Type 0 where
  pub kaspad : String
  pub kaspa_cli : String
  pub kaspa_wallet : String
  pub lnd : String
  pub lncli : String
  pub bitcoind : String
  pub bitcoin_cli : String

pub data BusinessFlow : Type 0 where
  kaspa_state_channel kaspa_factory ln_to_kaspa kaspa_to_ln refund_timeout evidence_verifier :
      BusinessFlow

-- `i32`
pub data I32 : Type 0 where
  pos negsuc : ℕ → I32

pub record CommandReceipt : Type 0 where
  pub id : String
  pub command : List String
  pub status_code : Option I32
  pub stdout_path : String
  pub stderr_path : String
  pub stdout_sha256 : String
  pub stderr_sha256 : String
  pub started_at_unix : ℕ
  pub finished_at_unix : ℕ

pub record FlowEvidence : Type 0 where
  pub flow : BusinessFlow
  pub status : String
  pub command_receipts : List CommandReceipt
  pub required_evidence : List EvidenceFile
  pub blockers : List String

pub record ProductionReadinessAudit : Type 0 where
  pub status : String
  pub tool_blockers : List String
  pub flow_status : Map String String
  pub missing_flow_evidence : List String

-- `BusinessFlow::id`
abbrev pub flow_id : BusinessFlow → String
flow_id kaspa_state_channel = "kaspa_state_channel_flow"
flow_id kaspa_factory = "kaspa_factory_flow"
flow_id ln_to_kaspa = "ln_to_kaspa_atomic_settlement"
flow_id kaspa_to_ln = "kaspa_to_ln_atomic_settlement"
flow_id refund_timeout = "refund_timeout_flow"
flow_id evidence_verifier = "evidence_verifier_flow"

-- `BusinessFlow::all`
abbrev pub all_flows : List BusinessFlow
all_flows =
    kaspa_state_channel ∷ kaspa_factory ∷ ln_to_kaspa ∷ kaspa_to_ln ∷ refund_timeout
    ∷ evidence_verifier ∷ []

-- `==` of flows.
unfoldable pub same_flow : BusinessFlow → BusinessFlow → Bool
same_flow kaspa_state_channel kaspa_state_channel = true
same_flow kaspa_factory kaspa_factory = true
same_flow ln_to_kaspa ln_to_kaspa = true
same_flow kaspa_to_ln kaspa_to_ln = true
same_flow refund_timeout refund_timeout = true
same_flow evidence_verifier evidence_verifier = true
same_flow _ _ = false

abbrev pub is_empty {ℓ} : {A : Type ℓ} → List A → Bool
is_empty [] = true
is_empty (a ∷ rest) = false

-- `FlowEvidence::is_passed`
unfoldable pub is_passed : FlowEvidence → Bool
is_passed e = e.status == "passed" && is_empty e.blockers && not (is_empty e.required_evidence)

-- `ToolPaths::missing`, with `Path::is_file` as a parameter.
unfoldable pub missing_from : (String → Bool) → List (String × String) → List String
missing_from is_file [] = []
missing_from is_file ((name, path) ∷ tools) =
    let rest = missing_from is_file tools in if is_file path then rest else name ∷ rest

abbrev pub named_tools : ToolPaths → List (String × String)
named_tools t =
    ("kaspad", t.kaspad)
    ∷ ("kaspa-cli", t.kaspa_cli)
    ∷ ("kaspa-wallet", t.kaspa_wallet)
    ∷ ("lnd", t.lnd)
    ∷ ("lncli", t.lncli)
    ∷ ("bitcoind", t.bitcoind)
    ∷ ("bitcoin-cli", t.bitcoin_cli)
    ∷ []

unfoldable pub missing : (String → Bool) → ToolPaths → List String
unfolding missing_from
missing is_file tools = missing_from is_file (named_tools tools)

-- `ToolPaths::is_complete`
unfoldable pub is_complete : (String → Bool) → ToolPaths → Bool
unfolding missing
is_complete is_file tools = is_empty (missing is_file tools)

-- `find` of the first evidence for the flow.
unfoldable pub find_flow : BusinessFlow → List FlowEvidence → Option FlowEvidence
unfolding same_flow
find_flow flow [] = none
find_flow flow (e ∷ es) = if same_flow e.flow flow then some e else find_flow flow es

-- One round of the loop: the status of the flow, and whether its evidence is missing.
unfoldable pub round_of : Option FlowEvidence → String × Bool
unfolding is_passed
round_of (some e) = if is_passed e then ("passed", false) else (e.status, true)
round_of none = ("missing", true)

unfoldable pub audit_loop :
    List FlowEvidence
    → List BusinessFlow
    → Map String String
    → List String
    → Map String String × List String
unfolding find_flow round_of
audit_loop evidence [] flow_status missing_flows = (flow_status, missing_flows)
audit_loop evidence (flow ∷ flows) flow_status missing_flows =
    let found = round_of (find_flow flow evidence) in
    audit_loop evidence flows (insert (flow_id flow) found.0 flow_status)
      (if found.1 then missing_flows ++ (flow_id flow ∷ []) else missing_flows)

-- `KurrentClient::audit_readiness`, of the client's tools.
unfoldable pub audit_readiness :
    (String → Bool) → ToolPaths → List FlowEvidence → ProductionReadinessAudit
unfolding audit_loop missing
audit_readiness is_file tools evidence =
    let tool_blockers = missing is_file tools in
    let flows = audit_loop evidence all_flows [] [] in
    record {
      status = if is_empty tool_blockers && is_empty flows.1 then "passed" else "failed/blocked";
      tool_blockers = tool_blockers;
      flow_status = flows.0;
      missing_flow_evidence = flows.1;
    }
