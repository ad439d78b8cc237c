-- ===== src/Errors.antt =====
-- `KurrentError` and `Result` of src/lib.rs.
use kurrent.Base.{
  All, Bool, Eq, List, Option, String, [], bne_of_eq, eq_of_not_bne, false, list_eq, nat_eq, none,
  option_eq, refl, some, string_eq, true, ℕ, ◌!=◌, ◌↔◌, ◌∷◌, ◌≡◌, ◌≢◌,
}

-- One constructor for each variant, with the variant's fields. `u64::MAX` and saturated sums in
-- the fields are written out where the error is raised.
pub data KurrentError : Type 0 where
  non_monotonic_state : ℕ → ℕ → KurrentError
  same_number_conflict : ℕ → KurrentError
  wrong_domain_separator : String → String → KurrentError
  wrong_protocol_version : ℕ → ℕ → KurrentError
  wrong_network_profile : String → String → KurrentError
  wrong_genesis_or_devnet_id : KurrentError
  wrong_channel_id : String → String → KurrentError
  wrong_funding_outpoint : String → String → KurrentError
  previous_state_mismatch : String → String → KurrentError
  unknown_channel : String → KurrentError
  stale_state : ℕ → ℕ → KurrentError
  settlement_template_mismatch : KurrentError
  duplicate_settlement : String → KurrentError
  duplicate_receipt : String → KurrentError
  receipt_hash_mismatch : KurrentError
  wrong_factory_id : String → String → KurrentError
  wrong_virtual_channel_id : String → KurrentError
  double_materialisation : String → KurrentError
  materialised_channel_still_active : String → KurrentError
  materialisation_amount_mismatch : ℕ → ℕ → KurrentError
  mutated_untouched_virtual_channel : String → KurrentError
  fee_principal_not_separated : KurrentError
  conservation_failure : ℕ → ℕ → KurrentError
  invalid_sponsor_invariant : ℕ → ℕ → ℕ → KurrentError
  participant_set_mismatch : KurrentError
  unauthorized_participant : String → KurrentError
  invalid_participant_public_key : String → KurrentError
  invalid_participant_signature : String → KurrentError
  insufficient_signatures : ℕ → ℕ → KurrentError
  invalid_signature_quorum : ℕ → ℕ → ℕ → KurrentError
  wrong_preimage : KurrentError
  wrong_settlement_outpoint : String → String → KurrentError
  wrong_script_hash : String → String → KurrentError
  wrong_covenant_id : Option String → Option String → KurrentError
  invalid_lane_id : String → String → KurrentError
  wrong_lane_id : Option String → Option String → KurrentError
  settlement_eligibility_evidence_mismatch : String → KurrentError
  invalid_swap_evidence : String → KurrentError
  receipt_replay : KurrentError
  refund_not_mature : ℕ → ℕ → KurrentError
  double_claim : String → KurrentError
  channel_already_settled : String → KurrentError
  wrong_challenge_policy_hash : KurrentError
  refund_not_configured : KurrentError
  injected_virtual_channel : String → KurrentError
  factory_principal_invariant : ℕ → ℕ → KurrentError
  materialised_receipts_not_preserved : KurrentError
  missing_evidence_file : String → KurrentError
  evidence_hash_mismatch : String → String → String → KurrentError
  invalid_spk_encoding : String → KurrentError
  invalid_policy_field : String → ℕ → KurrentError
  invalid_settlement_mask : ℕ → ℕ → ℕ → KurrentError
  state_number_out_of_range : ℕ → ℕ → KurrentError
  invalid_outpoint_length : ℕ → KurrentError

-- A call returns a value, returns an error, or panics (`expect`, an index out of range).
pub data Result {ℓ} (A : Type ℓ) : Type ℓ where
  ok : A → Result A
  err : KurrentError → Result A
  panic : Result A

infixl 5 ◌>>=◌ ◌>>◌
abbrev pub ◌>>=◌ {ℓ κ} : {T : Type ℓ} {U : Type κ} → Result T → (T → Result U) → Result U
panic >>= next = panic
err e >>= next = err e
ok v >>= next = next v

abbrev pub ◌>>◌ {ℓ} : {U : Type ℓ} → Result (Unit {0}) → Result U → Result U
first >> second = first >>= λ _. second

-- `if c { return Err(e) }`
abbrev pub fail_if : Bool → KurrentError → Result (Unit {0})
fail_if true e = err e
fail_if false e = ok tt

-- `o.ok_or(e)?`
abbrev pub ok_or {ℓ} : {A : Type ℓ} → Option A → KurrentError → Result A
ok_or Option.none e = err e
ok_or (Option.some a) e = ok a

-- `o.expect(…)` and indexing of a map.
abbrev pub expect {ℓ} : {A : Type ℓ} → Option A → Result A
expect Option.none = panic
expect (Option.some a) = ok a

-- `r.is_ok()`, for a result with no value.
abbrev pub IsOk : Result (Unit {0}) → Type 0
IsOk r = r ≡ ok tt

pub >>=-eq-ok {ℓ κ} :
    {T : Type ℓ} {U : Type κ} (m : Result T) (next : T → Result U) {u : U}
    → (m >>= next) ≡ ok u
    → (v : T) × (m ≡ ok v) × (next v ≡ ok u)
>>=-eq-ok panic next h = cc
>>=-eq-ok (err e) next h = cc
>>=-eq-ok (ok v) next h = (v, refl, h)

pub >>-eq-ok {ℓ} :
    {B : Type ℓ} (m : Result (Unit {0})) (k : Result B) {b : B}
    → (m >> k) ≡ ok b
    → IsOk m × (k ≡ ok b)
>>-eq-ok (ok tt) k h = (refl, h)
>>-eq-ok (err e) k h = cc
>>-eq-ok panic k h = cc

-- A guard that was passed, and what follows it.
pub fail_if-eq-ok {ℓ} :
    {B : Type ℓ} (c : Bool) (e : KurrentError) (k : Result B) {b : B}
    → (fail_if c e >> k) ≡ ok b
    → (c ≡ false) × (k ≡ ok b)
fail_if-eq-ok true e k h = cc
fail_if-eq-ok false e k h = (refl, h)

pub ok-injective {ℓ} : {A : Type ℓ} {a b : A} → ok a ≡ ok b → a ≡ b
ok-injective h = cc

pub fail_if_iff : (c : Bool) (e : KurrentError) → IsOk (fail_if c e) ↔ (c ≡ false)
fail_if_iff true e = ((λ h. cc), (λ h. cc))
fail_if_iff false e = ((λ h. refl), (λ h. refl))

-- A chain of guards succeeds exactly if each of them is passed.
pub >>_iff : (m k : Result (Unit {0})) → IsOk (m >> k) ↔ (IsOk m × IsOk k)
>>_iff (ok tt) k = ((λ h. (refl, h)), (λ h. h.1))
>>_iff (err e) k = ((λ h. cc), (λ h. cc))
>>_iff panic k = ((λ h. cc), (λ h. cc))

pub guard_iff :
    (c : Bool) (e : KurrentError) (k : Result (Unit {0}))
    → IsOk (fail_if c e >> k) ↔ ((c ≡ false) × IsOk k)
guard_iff c e k = ((λ h. fail_if-eq-ok c e k h), (λ (p, q). rw p q))

-- A guard on an equation, and what follows it.
pub fail_if_ne_iff {ℓ} :
    {A : Type ℓ} ⦃e : Eq A⦄ (a b : A) (x : KurrentError) (k : Result (Unit {0}))
    → IsOk (fail_if (a != b) x >> k) ↔ ((a ≡ b) × IsOk k)
fail_if_ne_iff a b x k = (
  (λ h. let (t, r) = fail_if-eq-ok _ _ _ h in (eq_of_not_bne a b t, r)),
  (λ (h, r). rw (bne_of_eq a b h) r),
)

-- `for a in xs { f(a)?; }`
unfoldable pub for_each {ℓ} : {A : Type ℓ} → (A → Result (Unit {0})) → List A → Result (Unit {0})
for_each f [] = ok tt
for_each f (a ∷ xs) = f a >> for_each f xs

-- Such a loop succeeds exactly if every round does.
pub for_each_iff {ℓ} :
    {A : Type ℓ} (f : A → Result (Unit {0})) (xs : List A)
    → IsOk (for_each f xs) ↔ All (λ a. IsOk (f a)) xs
unfolding for_each
for_each_iff f [] = ((λ h. tt), (λ h. refl))
for_each_iff f (a ∷ xs) = (
  (λ h. let (p, q) = (>>_iff (f a) (for_each f xs)).0 h in (p, (for_each_iff f xs).0 q)),
  (λ (p, q). (>>_iff (f a) (for_each f xs)).1 (p, (for_each_iff f xs).1 q)),
)

pub ok_or_iff {ℓ} :
    {A : Type ℓ} (o : Option A) (e : KurrentError) (a : A) → (ok_or o e ≡ ok a) ↔ (o ≡ some a)
ok_or_iff none e a = ((λ h. cc), (λ h. cc))
ok_or_iff (some b) e a = ((λ h. cc), (λ h. cc))

pub expect-eq-ok {ℓ} : {A : Type ℓ} {o : Option A} {a : A} → expect o ≡ ok a → o ≡ some a
expect-eq-ok {o = none} h = cc
expect-eq-ok {o = some b} h = cc

pub fail_if-ne-panic : (c : Bool) (e : KurrentError) → fail_if c e ≢ panic
fail_if-ne-panic true e h = cc
fail_if-ne-panic false e h = cc

-- A panic behind a guard comes from what follows it.
pub guard-eq-panic :
    (c : Bool) (e : KurrentError) (k : Result (Unit {0}))
    → (fail_if c e >> k) ≡ panic
    → (c ≡ false) × (k ≡ panic)
guard-eq-panic true e k h = cc
guard-eq-panic false e k h = (refl, h)

-- A panic of two steps is one of the first, or one of the second behind a success of the first.
pub >>-eq-panic : (m k : Result (Unit {0})) → (m >> k) ≡ panic → m ≢ panic → IsOk m × (k ≡ panic)
>>-eq-panic (ok tt) k h n = (refl, h)
>>-eq-panic (err e) k h n = cc
>>-eq-panic panic k h n = absurd (n refl)

pub for_each-ne-panic {ℓ} :
    {A : Type ℓ} (f : A → Result (Unit {0})) (xs : List A)
    → ((a : A) → f a ≢ panic)
    → for_each f xs ≢ panic
unfolding for_each
for_each-ne-panic f [] h e = cc
for_each-ne-panic f (a ∷ xs) h e =
    for_each-ne-panic f xs h (>>-eq-panic (f a) (for_each f xs) e (h a)).1
