-- ===== src/Registry/Settled.antt =====
-- Which header `settle` of `SettlementRegistry` in src/lib.rs takes for the latest state, and what its
-- receipt says.
use kurrent.Base.{
  String, as_bytes, bne_of_eq, eq_of_not_bne, false, list_eq, nat_eq, none, option_eq, or-false,
  or_false, refl, string_eq, subst, sym, ◌++◌, ◌↔◌, ◌∷◌, ◌≡◌,
}
use kurrent.External.{External, hash_json}
use kurrent.Registry.Checks.{is_stale}
use kurrent.Registry.Receipt.{scope_key, settlement_receipt}
use kurrent.Types.{ChannelReceipt, ChannelReceiptScope, LatestStateHeader, SettlementTemplate}

-- Two headers that agree in the ten fields that `settle` compares.
pub record SameState (latest header : LatestStateHeader) : Type 0 where
  pub number : latest.state_number ≡ header.state_number
  pub commitment : latest.new_state_commitment ≡ header.new_state_commitment
  pub outpoint : latest.funding_outpoint ≡ header.funding_outpoint
  pub network : latest.network_profile ≡ header.network_profile
  pub version : latest.protocol_version ≡ header.protocol_version
  pub template : latest.settlement_template_hash ≡ header.settlement_template_hash
  pub fee_policy : latest.fee_policy_hash ≡ header.fee_policy_hash
  pub covenant : latest.covenant_id ≡ header.covenant_id
  pub script : latest.script_covenant_hash ≡ header.script_covenant_hash
  pub participants : latest.participant_set_hash ≡ header.participant_set_hash

pub is_stale_iff :
    (latest header : LatestStateHeader) → (is_stale latest header ≡ false) ↔ SameState latest header
unfolding is_stale
is_stale_iff latest header = (forward, backward)
  where
    forward : is_stale latest header ≡ false → SameState latest header
    forward h =
        let (e1, h) = or-false _ _ h in
        let (e2, h) = or-false _ _ h in
        let (e3, h) = or-false _ _ h in
        let (e4, h) = or-false _ _ h in
        let (e5, h) = or-false _ _ h in
        let (e6, h) = or-false _ _ h in
        let (e7, h) = or-false _ _ h in
        let (e8, h) = or-false _ _ h in
        let (e9, e10) = or-false _ _ h in
        record {
          number = eq_of_not_bne _ _ e1;
          commitment = eq_of_not_bne _ _ e2;
          outpoint = eq_of_not_bne _ _ e3;
          network = eq_of_not_bne _ _ e4;
          version = eq_of_not_bne _ _ e5;
          template = eq_of_not_bne _ _ e6;
          fee_policy = eq_of_not_bne _ _ e7;
          covenant = eq_of_not_bne _ _ e8;
          script = eq_of_not_bne _ _ e9;
          participants = eq_of_not_bne _ _ e10;
        }

    backward : SameState latest header → is_stale latest header ≡ false
    backward s = or_false (bne_of_eq _ _ s.number) (
        or_false (bne_of_eq _ _ s.commitment) (
          or_false (bne_of_eq _ _ s.outpoint) (
            or_false (bne_of_eq _ _ s.network) (
              or_false (bne_of_eq _ _ s.version) (
                or_false (bne_of_eq _ _ s.template) (
                  or_false (bne_of_eq _ _ s.fee_policy) (
                    or_false (bne_of_eq _ _ s.covenant)
                      (or_false (bne_of_eq _ _ s.script) (bne_of_eq _ _ s.participants)))))))))

module _ (x : External) where
  -- What a receipt for a settled state says: the scope that its hash covers, and the hash.
  abbrev pub settled_scope : String → LatestStateHeader → SettlementTemplate → ChannelReceiptScope
  settled_scope channel_id latest template = record {
    protocol_version = latest.protocol_version;
    network_profile = latest.network_profile;
    channel_id = channel_id;
    factory_id = none;
    virtual_channel_id = none;
    funding_outpoint = latest.funding_outpoint;
    output_id = template.template_id;
    state_number = latest.state_number;
    settlement_template_hash = latest.settlement_template_hash;
    fee_policy_hash = latest.fee_policy_hash;
    swap_id = none;
    direction = none;
  }

  pub record IsReceiptFor (channel_id : String) (latest : LatestStateHeader)
      (template : SettlementTemplate) (receipt : ChannelReceipt) : Type 0 where
    pub of_version : receipt.protocol_version ≡ latest.protocol_version
    pub of_network : receipt.network_profile ≡ latest.network_profile
    pub of_channel : receipt.channel_id ≡ channel_id
    pub no_factory : receipt.factory_id ≡ none
    pub no_virtual_channel : receipt.virtual_channel_id ≡ none
    pub of_outpoint : receipt.funding_outpoint ≡ latest.funding_outpoint
    pub of_output : receipt.output_id ≡ template.template_id
    pub of_state : receipt.state_number ≡ latest.state_number
    pub of_template : receipt.settlement_template_hash ≡ latest.settlement_template_hash
    pub of_fee_policy : receipt.fee_policy_hash ≡ latest.fee_policy_hash
    pub no_swap : receipt.swap_id ≡ none
    pub no_direction : receipt.direction ≡ none
    pub hashed :
        receipt.receipt_hash
        ≡ x.hex_encode (
            x.sha256 (
              as_bytes "KURRENT_CHANNEL_RECEIPT_V1"
              ++ (0 ∷ x.to_vec_receipt_scope (settled_scope channel_id latest template))))

  pub settlement_receipt_iff :
      (channel_id : String) (latest : LatestStateHeader) (template : SettlementTemplate)
      (receipt : ChannelReceipt)
      → (receipt ≡ settlement_receipt x channel_id latest template)
        ↔ IsReceiptFor channel_id latest template receipt
  unfolding settlement_receipt scope_key hash_json
  settlement_receipt_iff channel_id latest template receipt = (
    (λ same. subst (IsReceiptFor channel_id latest template) (sym same) (record {
      of_version = refl;
      of_network = refl;
      of_channel = refl;
      no_factory = refl;
      no_virtual_channel = refl;
      of_outpoint = refl;
      of_output = refl;
      of_state = refl;
      of_template = refl;
      of_fee_policy = refl;
      no_swap = refl;
      no_direction = refl;
      hashed = refl;
    })),
    (λ r i. record {
      protocol_version = r.of_version i;
      network_profile = r.of_network i;
      channel_id = r.of_channel i;
      factory_id = r.no_factory i;
      virtual_channel_id = r.no_virtual_channel i;
      funding_outpoint = r.of_outpoint i;
      output_id = r.of_output i;
      state_number = r.of_state i;
      settlement_template_hash = r.of_template i;
      fee_policy_hash = r.of_fee_policy i;
      swap_id = r.no_swap i;
      direction = r.no_direction i;
      receipt_hash = r.hashed i;
    }),
  )
