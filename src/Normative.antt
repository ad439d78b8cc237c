-- ===== src/Normative.antt =====
-- The normative bilateral construction of src/lib.rs: commitments, encodings and their checks.
pub mod Hash
pub mod Spk
pub mod Amounts
pub mod Shape
pub mod Commitments
pub mod Signature
