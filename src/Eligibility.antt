-- ===== src/Eligibility.antt =====
-- `evaluate_settlement_eligibility` of src/lib.rs, and what holds of it.
pub mod Evidence
pub mod Scoped
pub mod Accepted
pub mod Decide
pub mod Order
pub mod Search
pub mod Verdicts
pub mod Evaluate
pub mod Named
pub mod Outcomes
pub mod Kept
pub mod Dedup
mod Tests
