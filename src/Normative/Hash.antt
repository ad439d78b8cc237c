-- ===== src/Normative/Hash.antt =====
-- Keyed BLAKE2b-256 as src/lib.rs calls it. The `blake2` crate is a parameter.
use kurrent.Base.{
  Eq-dec, Option, String, arith, as_bytes, inl, inr, length, list_eq, ltb, nat_eq, option_eq, some,
  string_eq, ℕ, ◌↔◌, ◌≡◌, ◌≢◌, ◌≤◌, ◌⊎◌,
}
use kurrent.Bytes.{Bytes}
use kurrent.Errors.{
  KurrentError, Result, err, fail_if, invalid_policy_field, ok, ok_or, panic, ◌>>◌,
}

-- `Blake2bMac::new_from_slice(key)` with `update` and `finalize_fixed`: none if the key is refused.
abbrev pub Mac : Type 0
Mac = Bytes → Bytes → Option Bytes

abbrev pub domain_kurrent_scope : String
domain_kurrent_scope = "KurrentScope/v1"

abbrev pub domain_kurrent_state : String
domain_kurrent_state = "KurrentState/v1"

abbrev pub domain_kurrent_state_cert : String
domain_kurrent_state_cert = "KurrentStateCert/v1"

abbrev pub domain_kurrent_coop_close_outputs : String
domain_kurrent_coop_close_outputs = "KurrentCoopCloseOutputs/v1"

abbrev pub domain_kurrent_coop_close : String
domain_kurrent_coop_close = "KurrentCoopClose/v1"

abbrev pub domain_kurrent_policy : String
domain_kurrent_policy = "KurrentPolicy/v1"

abbrev pub max_blake2b_key_bytes : ℕ
max_blake2b_key_bytes = 64

-- Both refusals carry the same field name and length.
abbrev bad_tag : String → KurrentError
bad_tag tag = invalid_policy_field "blake2b_domain_tag" (length (as_bytes tag))

module _ (mac : Mac) where
  unfoldable pub try_blake2b_256_keyed : String → Bytes → Result Bytes
  try_blake2b_256_keyed domain_tag payload = do
    fail_if (ltb max_blake2b_key_bytes (length (as_bytes domain_tag))) (bad_tag domain_tag)
    ok_or (mac (as_bytes domain_tag) payload) (bad_tag domain_tag)

  -- `.expect(…)` turns both errors into a panic.
  unfoldable pub blake2b_256_keyed : String → Bytes → Result Bytes
  unfolding try_blake2b_256_keyed
  blake2b_256_keyed domain_tag payload = elim (try_blake2b_256_keyed domain_tag payload) [
    | ok d ↦ ok d
    | err e ↦ panic
    | panic ↦ panic
  ]

  -- A digest that comes back is the MAC of the payload under the tag.
  pub blake2b_256_keyed-eq-ok :
      (tag : String) (payload : Bytes) {d : Bytes}
      → blake2b_256_keyed tag payload ≡ ok d
      → mac (as_bytes tag) payload ≡ some d
  unfolding blake2b_256_keyed
  blake2b_256_keyed-eq-ok tag payload h = ground arith

  -- Under a tag of at most 64 bytes the digest is the MAC, where there is one.
  pub blake2b_256_keyed_iff :
      (tag : String) (payload d : Bytes)
      → length (as_bytes tag) ≤ 64
      → (blake2b_256_keyed tag payload ≡ ok d) ↔ (mac (as_bytes tag) payload ≡ some d)
  unfolding blake2b_256_keyed
  blake2b_256_keyed_iff tag payload d h = ground arith

  -- These two payloads break the hash: they differ, and have one digest under the tag.
  abbrev pub Collision : String → Bytes → Bytes → Type 0
  Collision tag p q =
      (d : Bytes) × (p ≢ q) × (mac (as_bytes tag) p ≡ some d) × (mac (as_bytes tag) q ≡ some d)

  -- Equal digests under one tag bind the payloads, short of a collision of just these payloads.
  pub blake2b_256_keyed_binding :
      (tag : String) (p q : Bytes) {d : Bytes}
      → blake2b_256_keyed tag p ≡ ok d
      → blake2b_256_keyed tag q ≡ ok d
      → (p ≡ q) ⊎ Collision tag p q
  blake2b_256_keyed_binding tag p q {d} hp hq = elim (Eq-dec p q) [
    | inl same ↦ inl same
    | inr other ↦ inr (d, other, blake2b_256_keyed-eq-ok tag p hp, blake2b_256_keyed-eq-ok tag q hq)
  ]

  -- Documented for the `blake2` crate: every key of at most 64 bytes is accepted.
  abbrev pub AcceptsShortKeys : Type 0
  AcceptsShortKeys =
      (key payload : Bytes) → length key ≤ 64 → (d : Bytes) × (mac key payload ≡ some d)

  -- With a key of at most 64 bytes the hash does not panic.
  pub blake2b_256_keyed_total :
      AcceptsShortKeys
      → (tag : String) (payload : Bytes) → length (as_bytes tag) ≤ 64
      → (d : Bytes) × (blake2b_256_keyed tag payload ≡ ok d)
  unfolding blake2b_256_keyed
  blake2b_256_keyed_total accepts tag payload h =
      let (d, e) = accepts (as_bytes tag) payload h in (d, ground arith)
