-- ===== src/Registry.antt =====
-- `SettlementRegistry` of src/lib.rs: its state, its methods, and what holds of them.
pub mod State
pub mod Receipt
pub mod Checks
pub mod Methods
pub mod Calls
pub mod Validity
pub mod Preservation
pub mod History
pub mod Admission
pub mod Outcomes
pub mod Settled
pub mod Settlement
pub mod Claims
mod Tests
