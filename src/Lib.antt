-- ===== src/Lib.antt =====
-- Kurrent: off-chain bilateral state channels on Kaspa, with settlement by displacement.
--
-- The crate (src/lib.rs, src/client.rs) has two parts. The marker harness validates signed state
-- updates, keeps a registry of accepted states, receipts and claims, decides which settlement
-- candidates may finalise, and checks factory materialisations, Lightning swaps and evidence
-- bundles. The normative construction encodes and hashes the commitments that a covenant checks.
-- Settlement calls the update validation and the lane checks; the registry, the factory and the
-- swap share the receipts.
--
-- Files, by the part of src/lib.rs that they model:
-- Base, Bytes: the standard library as the code uses it: text, ordered maps and sets as lists,
-- little-endian integers.
-- Errors: `KurrentError` and `Result`; a panic is a third way to return.
-- External: serde_json, sha2, hex and secp256k1 as one parameter, with the laws that they
-- document; `hash_json`.
-- Types: the records that several parts of the harness share, with the source's field names.
-- Lane: lane identifiers. Channel: `validate_channel_update`.
-- Registry: `SettlementRegistry`; State (its fields), Checks, Methods (each method), Calls (what
-- a client may call), then what holds of them.
-- Eligibility: `evaluate_settlement_eligibility`; Evidence (one candidate), Accepted (accepted
-- order and `dedup_candidates_prefer_later`), Decide (the decisions), then what holds of them.
-- Sponsor: `validate_sponsor_evidence`, `evaluate_fee_sponsored_settlement_eligibility`.
-- Factory: `validate_materialisation`. Swap: `validate_ln_swap` and preimages.
-- Bundle: `verify_evidence_bundle`, with the file system as a parameter.
-- Normative: Hash (keyed BLAKE2b), Spk (`EncodedSpk`), Amounts (masks, conservation, sponsor
-- invariant), Commitments (state root, certificate, cooperative close, scope, policy), Signature
-- (MuSig2), Shape (transaction shapes, sequences).
-- Client: `audit_readiness` of src/client.rs, with `Path::is_file` as a parameter; Capture: its
-- `run_capture`, as a function on the states of a machine that runs processes and keeps files.
-- Review: the security-review gate of src/bin/kurrentctl.rs, with the workspace it reads as a
-- parameter; Root: `root` of the same file, the search for the repository above the program.
-- Driver: the evidence verifiers of drivers/kaspa-devnet/src/main.rs: Verify (what they change),
-- Require (the `require_*` helpers), Records (files, hex records, transactions, and their writers),
-- Refund, Factory, Hashlock, StateChannel, Lane (blocks and the KIP-21 proof), Monitor, Markers,
-- Eligibility and Sponsored (the verifiers, and what evidence each accepts), and Run (all seven, the
-- report, and what a successful run shows). serde_json, borsh, hex, the file system, the clock and the
-- KIP-21 crates are parameters. Sample: one machine with the evidence of a whole run, for the tests.
-- Fixtures: stand-ins for the crates and a sample channel, for the tests.
--
-- Correspondence: a `&mut self` method is a function from the registry to its result and the
-- registry that is left. A long function is cut into its groups of checks, in the order of the
-- code. Unsigned integers are natural numbers; `checked_add` and the casts that wrap are written
-- out, and theorems carry the range of a 64-bit field as a hypothesis where they need it.
-- `[u8; N]` is a list of numbers with its length and range in a predicate. A `BTreeMap` is an
-- association list with each key once. The counters and plain sums of the driver
-- wrap, as in a release build. `debug_assert!` depends on a flag that says whether debug
-- assertions are compiled in. `hash_json` gets its value serialised: serde_json is taken to succeed on
-- these types, as it documents, so the `expect` on it is not a panic of the model.
--
-- Fuel: the coefficient loop of the key aggregation runs for the 2 ^ 32 rounds after which its
-- counter overflows and the code panics. `root` runs one round per byte of the program's path and
-- one more, which is enough since a parent is a shorter path. All other loops are over lists.
--
-- Not modelled: the rest of the command line and of the devnet driver, and the test runner (src/bin,
-- drivers), which move files, processes and transactions; the report records that only they fill;
-- hexadecimal wrappers of digests. What a failed write leaves on file is not said; the verifiers are
-- taken to read files that the run itself does not change.
pub mod Driver
pub mod Base
pub mod Errors
pub mod Bytes
pub mod Normative
pub mod Types
pub mod External
pub mod Lane
pub mod Channel
pub mod Registry
pub mod Eligibility
pub mod Sponsor
pub mod Factory
pub mod Swap
pub mod Bundle
pub mod Client
pub mod Review
mod Fixtures
