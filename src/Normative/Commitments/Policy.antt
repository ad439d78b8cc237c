-- ===== src/Normative/Commitments/Policy.antt =====
-- `PolicyEncoding` of src/lib.rs.
use kurrent.Base.{
  Bool, append-injective, arith, bne_of_eq, eq_of_not_bne, false, if◌then◌else◌, inl, inr, length,
  list_eq, nat_eq, option_eq, refl, replicate, string_eq, sym, true, ℕ, ◌!=◌, ◌++◌, ◌<◌, ◌==◌, ◌↔◌,
  ◌∙◌, ◌∷◌, ◌≡◌, ◌⊎◌,
}
use kurrent.Bytes.{Bytes, IsU32, cons-injective, length-to_le, to_le, to_le-append-injective}
use kurrent.Errors.{
  IsOk, Result, err, fail_if, fail_if-eq-ok, fail_if_iff, invalid_policy_field, ok, panic,
  wrong_protocol_version, ◌>>◌,
}
use kurrent.Normative.Hash.{
  Collision, Mac, blake2b_256_keyed, blake2b_256_keyed_binding, domain_kurrent_policy,
}

abbrev pub policy_version_v1 : ℕ
policy_version_v1 = 1

abbrev pub sponsor_policy_external_only : ℕ
sponsor_policy_external_only = 0

abbrev pub settlement_shape_two_party_fixed : ℕ
settlement_shape_two_party_fixed = 1

abbrev pub default_reorg_tolerance_daa : ℕ
default_reorg_tolerance_daa = 1

abbrev pub policy_reserved_64_must_be_zero : Bytes
policy_reserved_64_must_be_zero = replicate 64 0

pub record PolicyEncoding : Type 0 where
  pub policy_version : ℕ
  pub sponsor_policy_id : ℕ
  pub settlement_shape_id : ℕ
  pub coop_close_enabled : Bool
  pub reorg_tolerance_daa : ℕ
  pub reserved_64 : Bytes

-- `PolicyEncoding::v1`
abbrev pub v1 : PolicyEncoding
v1 = record {
  policy_version = policy_version_v1;
  sponsor_policy_id = sponsor_policy_external_only;
  settlement_shape_id = settlement_shape_two_party_fixed;
  coop_close_enabled = true;
  reorg_tolerance_daa = default_reorg_tolerance_daa;
  reserved_64 = policy_reserved_64_must_be_zero;
}

-- `PolicyEncoding::canonical_payload`
unfoldable pub policy_payload : PolicyEncoding → Bytes
policy_payload p =
    to_le 2 p.policy_version
    ++ (to_le 4 p.sponsor_policy_id
        ++ (to_le 4 p.settlement_shape_id
            ++ ((if p.coop_close_enabled then 1 else 0)
                ∷ (to_le 4 p.reorg_tolerance_daa ++ p.reserved_64))))

-- `PolicyEncoding::validate_v1`
unfoldable pub validate_v1 : PolicyEncoding → Result (Unit {0})
validate_v1 p = do
  fail_if (p.policy_version != policy_version_v1)
      (wrong_protocol_version policy_version_v1 p.policy_version)
  fail_if (p.sponsor_policy_id != sponsor_policy_external_only)
      (invalid_policy_field "sponsor_policy_id" p.sponsor_policy_id)
  fail_if (p.settlement_shape_id != settlement_shape_two_party_fixed)
      (invalid_policy_field "settlement_shape_id" p.settlement_shape_id)
  fail_if (p.reorg_tolerance_daa == 0)
      (invalid_policy_field "reorg_tolerance_daa" p.reorg_tolerance_daa)
  fail_if (p.reserved_64 != policy_reserved_64_must_be_zero) (invalid_policy_field "reserved_64" 1)

-- `PolicyEncoding::compute_policy_hash`: `.expect(…)` panics on a policy that is not v1.
unfoldable pub compute_policy_hash : Mac → PolicyEncoding → Result Bytes
compute_policy_hash mac p = elim (validate_v1 p) [
  | ok _ ↦ blake2b_256_keyed mac domain_kurrent_policy (policy_payload p)
  | err e ↦ panic
  | panic ↦ panic
]

-- The fixed assignments of version 1; only cooperative closing and the tolerance are free.
pub record IsV1 (p : PolicyEncoding) : Type 0 where
  pub version_is_1 : p.policy_version ≡ 1
  pub external_sponsor : p.sponsor_policy_id ≡ 0
  pub two_party : p.settlement_shape_id ≡ 1
  pub tolerant : 0 < p.reorg_tolerance_daa
  pub nothing_reserved : p.reserved_64 ≡ policy_reserved_64_must_be_zero

tolerance : (n : ℕ) → (n == 0) ≡ false → 0 < n
tolerance n h = ground arith

positive : {n : ℕ} → 0 < n → (n == 0) ≡ false
positive h = ground arith

widths : (width v w : ℕ) → length (to_le width v) ≡ length (to_le width w)
widths width v w = length-to_le width v ∙ sym (length-to_le width w)

-- A policy validates exactly if it has the fixed assignments of version 1.
pub validate_v1_iff : (p : PolicyEncoding) → IsOk (validate_v1 p) ↔ IsV1 p
unfolding validate_v1
validate_v1_iff p = (forward, backward)
  where
    forward : IsOk (validate_v1 p) → IsV1 p
    forward h =
        let (e1, h1) = fail_if-eq-ok _ _ _ h in
        let (e2, h2) = fail_if-eq-ok _ _ _ h1 in
        let (e3, h3) = fail_if-eq-ok _ _ _ h2 in
        let (e4, h4) = fail_if-eq-ok _ _ _ h3 in
        record {
          version_is_1 = eq_of_not_bne _ _ e1;
          external_sponsor = eq_of_not_bne _ _ e2;
          two_party = eq_of_not_bne _ _ e3;
          tolerant = tolerance p.reorg_tolerance_daa e4;
          nothing_reserved = eq_of_not_bne _ _ ((fail_if_iff _ _).0 h4);
        }

    backward : IsV1 p → IsOk (validate_v1 p)
    backward v =
        rw (v.version_is_1, v.external_sponsor, v.two_party, positive v.tolerant)
          ((fail_if_iff _ _).1 (bne_of_eq _ _ v.nothing_reserved))

-- The fields that `IsV1` leaves open.
IsV1-eq :
    (p q : PolicyEncoding)
    → IsV1 p
    → IsV1 q
    → p.coop_close_enabled ≡ q.coop_close_enabled
    → p.reorg_tolerance_daa ≡ q.reorg_tolerance_daa
    → p ≡ q
IsV1-eq p q vp vq close tolerance =
    let version = vp.version_is_1 ∙ sym vq.version_is_1 in
    let sponsor = vp.external_sponsor ∙ sym vq.external_sponsor in
    let shape = vp.two_party ∙ sym vq.two_party in
    let reserved = vp.nothing_reserved ∙ sym vq.nothing_reserved in
    λ i. record {
      policy_version = version i;
      sponsor_policy_id = sponsor i;
      settlement_shape_id = shape i;
      coop_close_enabled = close i;
      reorg_tolerance_daa = tolerance i;
      reserved_64 = reserved i;
    }

flag-injective : (a b : Bool) → ◌≡◌ {A = ℕ} (if a then 1 else 0) (if b then 1 else 0) → a ≡ b
flag-injective a b e = ground arith

-- Two version 1 policies with one payload are one.
policy_payload-injective :
    (p q : PolicyEncoding)
    → IsV1 p
    → IsV1 q
    → IsU32 p.reorg_tolerance_daa
    → IsU32 q.reorg_tolerance_daa
    → policy_payload p ≡ policy_payload q
    → p ≡ q
unfolding policy_payload
policy_payload-injective p q vp vq hp hq e =
    let (_, e1) =
      append-injective (to_le 2 p.policy_version) (to_le 2 q.policy_version) _ _ (widths 2 _ _) e in
    let (_, e2) =
      append-injective (to_le 4 p.sponsor_policy_id) (to_le 4 q.sponsor_policy_id) _ _
        (widths 4 _ _) e1 in
    let (_, e3) =
      append-injective (to_le 4 p.settlement_shape_id) (to_le 4 q.settlement_shape_id) _ _
        (widths 4 _ _) e2 in
    let (ec, e4) = cons-injective e3 in
    let (et, _) = to_le-append-injective 4 _ _ _ _ hp hq e4 in
    IsV1-eq p q vp vq (flag-injective _ _ ec) et

-- The hash is computed only of a policy that validates; any other panics.
compute_policy_hash-IsV1 :
    (mac : Mac) (p : PolicyEncoding) {d : Bytes}
    → compute_policy_hash mac p ≡ ok d
    → IsV1 p × (blake2b_256_keyed mac domain_kurrent_policy (policy_payload p) ≡ ok d)
unfolding compute_policy_hash
compute_policy_hash-IsV1 mac p {d} h = go (validate_v1 p) refl h
  where
    go :
        (r : Result (Unit {0}))
        → validate_v1 p ≡ r
        → (elim r as (λ _. Result Bytes) [
          | ok _ ↦ blake2b_256_keyed mac domain_kurrent_policy (policy_payload p)
          | err e ↦ panic
          | panic ↦ panic
        ])
          ≡ ok d
        → IsV1 p × (blake2b_256_keyed mac domain_kurrent_policy (policy_payload p) ≡ ok d)
    go (ok tt) e h = ((validate_v1_iff p).0 e, h)
    go (err x) e h = cc
    go panic e h = cc

-- A policy hash exists only for a version 1 policy, and it binds the policy, short of a collision.
pub compute_policy_hash_binding :
    (mac : Mac) (p q : PolicyEncoding) {d : Bytes}
    → IsU32 p.reorg_tolerance_daa
    → IsU32 q.reorg_tolerance_daa
    → compute_policy_hash mac p ≡ ok d
    → compute_policy_hash mac q ≡ ok d
    → (IsV1 p × (p ≡ q)) ⊎ Collision mac domain_kurrent_policy (policy_payload p) (policy_payload q)
compute_policy_hash_binding mac p q hp hq dp dq =
    let (vp, ep) = compute_policy_hash-IsV1 mac p dp in
    let (vq, eq) = compute_policy_hash-IsV1 mac q dq in
    elim (blake2b_256_keyed_binding mac domain_kurrent_policy _ _ ep eq) [
      | inl same ↦ inl (vp, policy_payload-injective p q vp vq hp hq same)
      | inr broken ↦ inr broken
    ]
