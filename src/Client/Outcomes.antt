-- ===== src/Client/Outcomes.antt =====
-- What the audit of src/client.rs reports.
use kurrent.Base.{List, [], list_eq, option_eq, some, ◌≡◌, ◌≢◌}
use kurrent.Client.{BusinessFlow, FlowEvidence, find_flow}

-- The first evidence for the flow has passed, with no blocker and with some evidence file.
abbrev pub Passed : List FlowEvidence → BusinessFlow → Type 0
Passed evidence flow =
    (e : FlowEvidence) × (find_flow flow evidence ≡ some e)
    × (e.status ≡ "passed")
    × (e.blockers ≡ [])
    × (e.required_evidence ≢ [])
