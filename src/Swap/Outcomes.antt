-- ===== src/Swap/Outcomes.antt =====
-- The properties of `validate_ln_swap` in src/lib.rs.
use kurrent.Base.{
  not-false_iff, String, arith, bne_iff, list_eq, nat_eq, not, option_eq, refl, some, string_eq,
  sym, true, ◌↔◌, ◌∙◌, ◌≡◌, ◌≢◌, ◌≤◌, ◌⊎◌,
}
use kurrent.Bytes.{Bytes}
use kurrent.Errors.{
  >>=-eq-ok, >>_iff, IsOk, fail_if-eq-ok, fail_if_iff, fail_if_ne_iff, ok, ok_or_iff,
}
use kurrent.External.{External, sha256_hex}
use kurrent.Registry.Receipt.{scope_key, validate_hash}
use kurrent.Swap.{
  LnSwapEvidence, check_swap_fields, check_swap_receipt, decode_preimage, is_hex_digest,
  validate_ln_swap, validate_preimage, validate_preimage_bytes,
}
use kurrent.Types.{ChannelReceipt}

-- The evidence and the receipt belong together.
pub record IsSwap (x : External) (e : LnSwapEvidence) (r : ChannelReceipt) : Type 0 where
  pub receipt_hash : r.receipt_hash ≡ scope_key x r
  pub positive : (1 ≤ e.amount) × (1 ≤ e.ln_amount_sat)
  pub one_amount : e.amount ≡ e.kaspa_amount_sompi
  pub has_recipient : (e.recipient ≢ "") × (e.script_hash ≢ "")
  pub spk_hash : is_hex_digest e.recipient_spk_sha256 ≡ true
  pub known_direction : (e.direction ≡ "ln-to-kaspa") ⊎ (e.direction ≡ "kaspa-to-ln")
  pub preimage_form : is_hex_digest e.preimage ≡ true
  pub opens :
      (bytes : Bytes) × (x.hex_decode e.preimage ≡ some bytes)
      × (sha256_hex x bytes ≡ e.ln_payment_hash)
  pub one_hash : e.preimage_hash ≡ e.ln_payment_hash
  pub same_version : r.protocol_version ≡ e.protocol_version
  pub same_network : r.network_profile ≡ e.network_profile
  pub same_funding : r.funding_outpoint ≡ e.kaspa_funding_outpoint
  pub same_output : r.output_id ≡ e.kaspa_settlement_outpoint
  pub same_script : r.settlement_template_hash ≡ e.script_hash
  pub same_swap : r.swap_id ≡ some e.swap_id
  pub same_direction : r.direction ≡ some e.direction

validate_preimage_iff :
    (x : External) (preimage hash : String)
    → IsOk (validate_preimage x preimage hash) ↔ (
        (is_hex_digest preimage ≡ true)
        × ((bytes : Bytes) × (x.hex_decode preimage ≡ some bytes) × (sha256_hex x bytes ≡ hash)))
unfolding validate_preimage decode_preimage validate_preimage_bytes
validate_preimage_iff x preimage hash = (
  (λ h.
      let (bytes, p, q) = >>=-eq-ok (decode_preimage x preimage) _ h in
      let (form, r) = fail_if-eq-ok (not (is_hex_digest preimage)) _ _ p in
      ((not-false_iff _).0 form, (bytes, (ok_or_iff _ _ _).0 r, hash_same bytes q))),
  (λ (form, (bytes, decoded, same)).
      rw (decoded_ok form decoded) ((fail_if_iff _ _).1 ((bne_iff _ _).1 same))),
)
  where
    hash_same :
        (bytes : Bytes) → IsOk (validate_preimage_bytes x bytes hash) → sha256_hex x bytes ≡ hash
    hash_same bytes q = (bne_iff _ _).0 ((fail_if_iff _ _).0 q)

    decoded_ok :
        {bytes : Bytes}
        → is_hex_digest preimage ≡ true
        → x.hex_decode preimage ≡ some bytes
        → decode_preimage x preimage ≡ ok bytes
    decoded_ok form decoded = rw (form, decoded) refl

some-injective : {a b : String} → some a ≡ some b → a ≡ b
some-injective h = cc

check_swap_fields_iff :
    (x : External) (e : LnSwapEvidence)
    → IsOk (check_swap_fields x e) ↔ (
        ((1 ≤ e.amount) × (1 ≤ e.ln_amount_sat))
        × (e.amount ≡ e.kaspa_amount_sompi)
        × ((e.recipient ≢ "") × (e.script_hash ≢ ""))
        × (is_hex_digest e.recipient_spk_sha256 ≡ true)
        × ((e.direction ≡ "ln-to-kaspa") ⊎ (e.direction ≡ "kaspa-to-ln")))
unfolding check_swap_fields
check_swap_fields_iff x e = ground (
  arith,
  string_eq.beq_iff e.recipient "",
  string_eq.beq_iff e.script_hash "",
  string_eq.beq_iff e.direction "ln-to-kaspa",
  string_eq.beq_iff e.direction "kaspa-to-ln",
)

check_swap_receipt_iff :
    (x : External) (e : LnSwapEvidence) (r : ChannelReceipt)
    → IsOk (check_swap_receipt x e r) ↔ (
        (r.protocol_version ≡ e.protocol_version)
        × (r.network_profile ≡ e.network_profile)
        × (r.funding_outpoint ≡ e.kaspa_funding_outpoint)
        × (r.output_id ≡ e.kaspa_settlement_outpoint)
        × (r.settlement_template_hash ≡ e.script_hash)
        × (r.swap_id ≡ some e.swap_id)
        × (r.direction ≡ some e.direction))
unfolding check_swap_receipt
check_swap_receipt_iff x e r = ground (
  arith,
  bne_iff r.protocol_version e.protocol_version,
  bne_iff r.network_profile e.network_profile,
  bne_iff r.funding_outpoint e.kaspa_funding_outpoint,
  bne_iff r.output_id e.kaspa_settlement_outpoint,
  bne_iff r.settlement_template_hash e.script_hash,
  bne_iff r.swap_id (some e.swap_id),
  bne_iff r.direction (some e.direction),
)

-- Swap evidence is accepted with a receipt exactly if the receipt's hash is that of its scope, the
-- amounts are positive and agree, recipient, script hash and recipient hash are given, the direction
-- is one of the two, the preimage has 64 hexadecimal digits and its bytes hash to the payment hash,
-- which is also the one recorded, and the receipt names the evidence's version, network, outpoints,
-- script hash, swap and direction.
pub validate_ln_swap_iff :
    (x : External) (e : LnSwapEvidence) (r : ChannelReceipt)
    → IsOk (validate_ln_swap x e r) ↔ IsSwap x e r
unfolding validate_ln_swap validate_hash
validate_ln_swap_iff x e r = (
  (λ h.
      let (p1, h1) = (fail_if_ne_iff _ _ _ _).0 h in
      let (p2, h2) = (>>_iff (check_swap_fields x e) _).0 h1 in
      let (p3, h3) = (>>_iff (validate_preimage x e.preimage e.ln_payment_hash) _).0 h2 in
      let (p4, p5) = (fail_if_ne_iff _ _ _ _).0 h3 in
      let (positive, one, given, spk, direction) = (check_swap_fields_iff x e).0 p2 in
      let (form, opens) = (validate_preimage_iff x e.preimage e.ln_payment_hash).0 p3 in
      let (version, network, funding, output, script, swap, way) =
        (check_swap_receipt_iff x e r).0 p5 in
      record {
        receipt_hash = p1;
        positive = positive;
        one_amount = one;
        has_recipient = given;
        spk_hash = spk;
        known_direction = direction;
        preimage_form = form;
        opens = opens;
        one_hash = p4;
        same_version = version;
        same_network = network;
        same_funding = funding;
        same_output = output;
        same_script = script;
        same_swap = swap;
        same_direction = way;
      }),
  (λ v. (fail_if_ne_iff _ _ _ _).1 (
    v.receipt_hash,
    (>>_iff (check_swap_fields x e) _).1 (
      (check_swap_fields_iff x e).1
          (v.positive, v.one_amount, v.has_recipient, v.spk_hash, v.known_direction),
      (>>_iff (validate_preimage x e.preimage e.ln_payment_hash) _).1 (
        (validate_preimage_iff x e.preimage e.ln_payment_hash).1 (v.preimage_form, v.opens),
        (fail_if_ne_iff _ _ _ _).1 (
          v.one_hash,
          (check_swap_receipt_iff x e r).1 (
            v.same_version, v.same_network, v.same_funding, v.same_output, v.same_script,
            v.same_swap, v.same_direction,
          ),
        ),
      ),
    ),
  )),
)

-- One receipt is accepted with evidence for one swap only: in one direction, with one funding and one
-- settlement outpoint and one script hash.
pub swap_receipt_exclusive :
    (x : External) (e f : LnSwapEvidence) (r : ChannelReceipt)
    → IsOk (validate_ln_swap x e r)
    → IsOk (validate_ln_swap x f r)
    → (e.swap_id ≡ f.swap_id)
      × (e.direction ≡ f.direction)
      × (e.kaspa_funding_outpoint ≡ f.kaspa_funding_outpoint)
      × (e.kaspa_settlement_outpoint ≡ f.kaspa_settlement_outpoint)
      × (e.script_hash ≡ f.script_hash)
swap_receipt_exclusive x e f r h k =
    let v = (validate_ln_swap_iff x e r).0 h in
    let u = (validate_ln_swap_iff x f r).0 k in
    (
      some-injective (sym v.same_swap ∙ u.same_swap),
      some-injective (sym v.same_direction ∙ u.same_direction),
      sym v.same_funding ∙ u.same_funding,
      sym v.same_output ∙ u.same_output,
      sym v.same_script ∙ u.same_script,
    )
