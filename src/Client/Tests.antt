-- ===== src/Client/Tests.antt =====
-- An audit with every tool and every flow, and the theorem about it.
use kurrent.Base.{[], list_eq, option_eq, string_eq, ◌∷◌}
use kurrent.Client.{BusinessFlow, FlowEvidence, ToolPaths}

abbrev tools : ToolPaths
tools = record {
  kaspad = "kaspad";
  kaspa_cli = "kaspa-cli";
  kaspa_wallet = "kaspa-wallet";
  lnd = "lnd";
  lncli = "lncli";
  bitcoind = "bitcoind";
  bitcoin_cli = "bitcoin-cli";
}

abbrev passing : BusinessFlow → FlowEvidence
passing flow = record {
  flow = flow;
  status = "passed";
  command_receipts = [];
  required_evidence = record { path = "tx.hex"; sha256 = "00" } ∷ [];
  blockers = [];
}
