-- ===== src/Channel/Checks.antt =====
-- The checks on participants, sums and signatures, against their meaning.
use kurrent.Base.{
  All, Bool, List, Map, String, [], ap, arith, contains, contains_key, from_keys, get, insert_key,
  keys, le_of_not_ltb, length, list_eq, ltb_of_le, nat_eq, not, eq_true_of_not, option_eq, or-false,
  or_false, refl, same_keys, some, string_eq, true, values, ◌↔◌, ◌∷◌, ◌≡◌, ◌≤◌,
}
use kurrent.Bytes.{Bytes, IsU64}
use kurrent.Channel.{
  check_conservation, check_participants, check_signature, collect_signatures,
  min_required_signatures, verify_participant_signature,
}
use kurrent.Channel.Sums.{sum, sum_is_iff}
use kurrent.Errors.{
  >>-eq-ok, >>=-eq-ok, >>_iff, IsOk, KurrentError, expect-eq-ok, fail_if, fail_if-eq-ok,
  fail_if_iff, for_each, ok, ok-injective,
}
use kurrent.External.{External}
use kurrent.Types.{
  AccessManifest, FundingState, KurrentChannelConfig, SettlementTemplate, StateUpdate,
}

-- Participants, authorised participants, key holders and balance holders are one set, and the
-- quorum is between 2 and its size.
pub record ParticipantsAgree (config : KurrentChannelConfig) (update : StateUpdate) : Type 0 where
  pub authorised_agree :
      same_keys
        (from_keys config.participants)
        (from_keys config.access_manifest.authorised_participants)
      ≡ true
  pub key_holders_agree :
      same_keys
        (keys config.access_manifest.participant_public_keys)
        (from_keys config.participants)
      ≡ true
  pub quorum_low : min_required_signatures ≤ config.access_manifest.required_signatures
  pub quorum_high :
      config.access_manifest.required_signatures ≤ length (from_keys config.participants)
  pub holders_known :
      All (λ p. contains p (from_keys config.participants) ≡ true) (keys update.balances)
  pub holders_complete :
      All (λ p. contains_key p update.balances ≡ true) (from_keys config.participants)

-- A loop whose rounds are guards.
for_each-guard {ℓ} :
    {A : Type ℓ} (test : A → Bool) (e : A → KurrentError) (xs : List A)
    → IsOk (for_each (λ a. fail_if (not (test a)) (e a)) xs) ↔ All (λ a. test a ≡ true) xs
unfolding for_each
for_each-guard test e [] = ((λ h. tt), (λ h. refl))
for_each-guard test e (a ∷ xs) =
    let ih = for_each-guard test e xs in
    (
      (λ h. let (p, q) = fail_if-eq-ok _ _ _ h in (eq_true_of_not _ p, ih.0 q)),
      (λ (p, q). rw p (ih.1 q)),
    )

guard_of_true : {b : Bool} (e : KurrentError) → b ≡ true → IsOk (fail_if (not b) e)
guard_of_true e h = ground arith

-- The participant checks pass exactly if the sets agree and the quorum fits.
pub check_participants_iff :
    (config : KurrentChannelConfig) (update : StateUpdate)
    → IsOk (check_participants config update) ↔ ParticipantsAgree config update
unfolding check_participants
check_participants_iff config update = (forward, backward)
  where
    forward : IsOk (check_participants config update) → ParticipantsAgree config update
    forward h =
        let (e1, h) = fail_if-eq-ok _ _ _ h in
        let (e2, h) = fail_if-eq-ok _ _ _ h in
        let (e3, h) = fail_if-eq-ok _ _ _ h in
        let (known, complete) = (>>_iff _ _).0 h in
        let (low, high) = or-false _ _ e3 in
        record {
          authorised_agree = eq_true_of_not _ e1;
          key_holders_agree = eq_true_of_not _ e2;
          quorum_low = le_of_not_ltb _ _ low;
          quorum_high = le_of_not_ltb _ _ high;
          holders_known = (for_each-guard _ _ _).0 known;
          holders_complete = (for_each-guard _ _ _).0 complete;
        }

    backward : ParticipantsAgree config update → IsOk (check_participants config update)
    backward a =
        let low = ltb_of_le a.quorum_low in
        let high = ltb_of_le a.quorum_high in
        (>>_iff _ _).1 (
          guard_of_true _ a.authorised_agree,
          (>>_iff _ _).1 (
            guard_of_true _ a.key_holders_agree,
            (>>_iff _ _).1 (
              (fail_if_iff _ _).1 (or_false low high),
              (>>_iff _ _).1 (
                (for_each-guard _ _ _).1 a.holders_known,
                (for_each-guard _ _ _).1 a.holders_complete,
              ),
            ),
          ),
        )

-- Principal, balances and outputs each add up to the funded total, as true sums.
pub record Conserves (funding : FundingState) (update : StateUpdate) (template : SettlementTemplate)
    : Type 0 where
  pub principal : sum (values funding.principal_by_participant) ≡ funding.total_principal
  pub balances : sum (values update.balances) ≡ funding.total_principal
  pub outputs : sum (values template.outputs) ≡ funding.total_principal

-- The conservation checks pass exactly if the three true sums are the funded total.
pub check_conservation_iff :
    (funding : FundingState) (update : StateUpdate) (template : SettlementTemplate)
    → IsU64 funding.total_principal
    → IsOk (check_conservation funding update template) ↔ Conserves funding update template
unfolding check_conservation
check_conservation_iff funding update template fits = (forward, backward)
  where
    forward : IsOk (check_conservation funding update template) → Conserves funding update template
    forward h =
        let (p, h) = (>>_iff _ _).0 h in
        let (b, o) = (>>_iff _ _).0 h in
        record {
          principal = (sum_is_iff _ _ fits).0 p;
          balances = (sum_is_iff _ _ fits).0 b;
          outputs = (sum_is_iff _ _ fits).0 o;
        }

    backward : Conserves funding update template → IsOk (check_conservation funding update template)
    backward c = (>>_iff _ _).1 (
      (sum_is_iff _ _ fits).1 c.principal,
      (>>_iff _ _).1 ((sum_is_iff _ _ fits).1 c.balances, (sum_is_iff _ _ fits).1 c.outputs),
    )

-- The signers of the entries, added to those so far.
abbrev pub signers : Map String String → List String → List String
signers [] valid = valid
signers ((p, s) ∷ rest) valid = signers rest (insert_key p valid).1

module _ (x : External) (manifest : AccessManifest) (digest : Bytes) where
  -- An authorised participant with a key under which the signature verifies.
  pub record IsSigned (entry : String × String) : Type 0 where
    pub is_authorised : contains entry.0 (from_keys manifest.authorised_participants) ≡ true
    pub public_key : String
    pub key_found : get entry.0 manifest.participant_public_keys ≡ some public_key
    pub verifies : IsOk (verify_participant_signature x entry.0 public_key entry.1 digest)

  check_signature_iff :
      (entry : String × String)
      → (IsOk (check_signature x manifest digest entry) → IsSigned entry)
        × (IsSigned entry → IsOk (check_signature x manifest digest entry))
  unfolding check_signature
  check_signature_iff (p, s) = (forward, λ h. rw (h.is_authorised, h.key_found) h.verifies)
    where
      forward : IsOk (check_signature x manifest digest (p, s)) → IsSigned (p, s)
      forward h =
          let (e1, h) = fail_if-eq-ok _ _ _ h in
          let (k, e2, h) = >>=-eq-ok _ _ h in
          record {
            is_authorised = eq_true_of_not _ e1;
            public_key = k;
            key_found = expect-eq-ok e2;
            verifies = h;
          }

  -- The loop ends with a set exactly if every entry is signed, and then it is the set of signers.
  pub collect_signatures_iff :
      (sigs : Map String String) (valid out : List String)
      → (collect_signatures x manifest digest sigs valid ≡ ok out)
        ↔ (All IsSigned sigs × (signers sigs valid ≡ out))
  unfolding collect_signatures
  collect_signatures_iff [] valid out = ((λ h. (tt, ok-injective h)), (λ (_, e). ap ok e))
  collect_signatures_iff ((p, s) ∷ rest) valid out =
      let ih = collect_signatures_iff rest (insert_key p valid).1 out in
      (
        (λ h.
            let (c, r) = >>-eq-ok _ _ h in
            let (a, e) = ih.0 r in (((check_signature_iff (p, s)).0 c, a), e)),
        (λ ((c, a), e). rw ((check_signature_iff (p, s)).1 c) (ih.1 (a, e))),
      )
