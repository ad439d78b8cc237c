-- ===== src/Registry/Settlement.antt =====
-- When `settle` of `SettlementRegistry` in src/lib.rs issues a receipt, and which one.
use kurrent.Base.{
  Bool-cases, String, ap, arith, bne_of_eq, contains, false, get, inl, inr, list_eq, nat_eq,
  option_eq, pair_eq, refl, some, string_eq, subst, sym, ◌↔◌, ◌∙◌, ◌≡◌,
}
use kurrent.Errors.{ok, ok-injective}
use kurrent.External.{External, template_hash}
use kurrent.Registry.Calls.{with_receipt, with_settled}
use kurrent.Registry.Checks.{check_settlement, is_stale}
use kurrent.Registry.Methods.{register_receipt, settle}
use kurrent.Registry.Receipt.{scope_key, settlement_receipt}
use kurrent.Registry.Settled.{IsReceiptFor, SameState, is_stale_iff, settlement_receipt_iff}
use kurrent.Registry.State.{
  Action, SettlementRegistry, lift, modify, then-eq-ok, then_of, ◌>>=◌, ◌>>◌,
}
use kurrent.Registry.Validity.{check_settlement-latest}
use kurrent.Types.{ChannelReceipt, LatestStateHeader, SettlementTemplate, StateUpdate}

module _ (x : External) where
  -- What a settlement finds, returns and leaves.
  pub record Settles (r : SettlementRegistry) (update : StateUpdate) (template : SettlementTemplate)
      (receipt : ChannelReceipt) (r' : SettlementRegistry) : Type 0 where
    pub latest : LatestStateHeader
    pub is_latest : get update.header.channel_id r.latest_by_channel ≡ some latest
    pub is_current : SameState latest update.header
    pub for_template : update.header.settlement_template_hash ≡ template_hash x template
    pub not_settled : contains update.header.channel_id r.settled_channels ≡ false
    pub issued : IsReceiptFor x update.header.channel_id latest template receipt
    pub receipt_new : contains receipt.receipt_hash r.receipts ≡ false
    pub left : r' ≡ with_settled update.header.channel_id (with_receipt receipt.receipt_hash r)

  -- A refreshed receipt carries the hash of its own scope.
  settlement_receipt_hash :
      (channel_id : String) (latest : LatestStateHeader) (template : SettlementTemplate)
      → (settlement_receipt x channel_id latest template).receipt_hash
        ≡ scope_key x (settlement_receipt x channel_id latest template)
  unfolding settlement_receipt scope_key
  settlement_receipt_hash channel_id latest template = refl

  register_receipt_iff :
      (receipt : ChannelReceipt) (r r' : SettlementRegistry)
      → receipt.receipt_hash ≡ scope_key x receipt
      → (register_receipt x receipt r ≡ (ok tt, r')) ↔ (
          (contains receipt.receipt_hash r.receipts ≡ false)
          × (r' ≡ with_receipt receipt.receipt_hash r))
  unfolding register_receipt
  register_receipt_iff receipt r r' own =
      let agrees = bne_of_eq ⦃e = string_eq⦄ receipt.receipt_hash (scope_key x receipt) own in
      elim (Bool-cases (contains receipt.receipt_hash r.receipts)) [
        | inl old ↦ ground (arith, agrees)
        | inr new ↦ ground (arith, agrees)
      ]

  -- What follows the registration, and what follows the checks.
  abbrev finish : StateUpdate → ChannelReceipt → Unit {0} → Action ChannelReceipt
  finish update receipt v = modify (with_settled update.header.channel_id) >> lift (ok receipt)

  abbrev issue : StateUpdate → SettlementTemplate → LatestStateHeader → Action ChannelReceipt
  issue update template latest =
      let receipt = settlement_receipt x update.header.channel_id latest template in
      register_receipt x receipt >>= finish update receipt

  check_settlement_complete :
      (r : SettlementRegistry) (update : StateUpdate) (template : SettlementTemplate)
      (latest : LatestStateHeader)
      → get update.header.channel_id r.latest_by_channel ≡ some latest
      → is_stale latest update.header ≡ false
      → update.header.settlement_template_hash ≡ template_hash x template
      → contains update.header.channel_id r.settled_channels ≡ false
      → check_settlement x r update template ≡ ok latest
  unfolding check_settlement
  check_settlement_complete r update template latest found current same new =
      rw (found, current, bne_of_eq _ _ same, new)

  -- `settle` returns a receipt exactly if the update's header agrees with the latest header of its
  -- channel in the ten compared fields and names the template's hash, the channel is not settled,
  -- and the receipt's hash is new. The receipt then has the fields of the latest header, the
  -- template's id as its output and the hash of this scope, and the registry differs only in this receipt and this settled channel.
  pub settle_iff :
      (update : StateUpdate) (template : SettlementTemplate) (r r' : SettlementRegistry)
      (receipt : ChannelReceipt)
      → (settle x update template r ≡ (ok receipt, r')) ↔ Settles r update template receipt r'
  unfolding settle
  settle_iff update template r r' receipt = (forward, backward)
    where
      forward : settle x update template r ≡ (ok receipt, r') → Settles r update template receipt r'
      forward h =
          let (latest, found, rest) =
            then-eq-ok (lift (check_settlement x r update template)) (issue update template) r
              (ap (λ m. m.0) h) in
          let issued = settlement_receipt x update.header.channel_id latest template in
          let (v, did, last) =
            then-eq-ok (register_receipt x issued) (finish update issued) r
              (ap (λ m. m.0) (sym rest ∙ h)) in
          let (new, stored) =
            (register_receipt_iff issued r (register_receipt x issued r).1
                (settlement_receipt_hash update.header.channel_id latest template)).0
              (ap (λ a. (a, (register_receipt x issued r).1)) did) in
          let (a, b, c, d) = check_settlement-latest x r update template latest found in
          let whole = sym last ∙ (sym rest ∙ h) in
          let returned : receipt ≡ issued = sym (ok-injective (ap (λ m. m.0) whole)) in
          record {
            latest = latest;
            is_latest = a;
            is_current = (is_stale_iff latest update.header).0 b;
            for_template = c;
            not_settled = d;
            issued =
                (settlement_receipt_iff x update.header.channel_id latest template receipt).0
                  returned;
            receipt_new =
                subst (λ i. contains i.receipt_hash r.receipts ≡ false) (sym returned) new;
            left =
                sym (ap (λ m. m.1) whole)
                ∙ (ap (with_settled update.header.channel_id) stored
                    ∙ ap
                        (λ i. with_settled update.header.channel_id (with_receipt i.receipt_hash r))
                        (sym returned));
          }

      backward :
          Settles r update template receipt r' → settle x update template r ≡ (ok receipt, r')
      backward s =
          let latest = s.latest in
          let issued = settlement_receipt x update.header.channel_id latest template in
          let same : receipt ≡ issued =
            (settlement_receipt_iff x update.header.channel_id latest template receipt).1
              s.issued in
          let found =
            check_settlement_complete r update template latest s.is_latest
              ((is_stale_iff latest update.header).1 s.is_current) s.for_template s.not_settled in
          let stored =
            (register_receipt_iff issued r (with_receipt issued.receipt_hash r)
                (settlement_receipt_hash update.header.channel_id latest template)).1
              (subst (λ i. contains i.receipt_hash r.receipts ≡ false) same s.receipt_new, refl) in
          then_of (lift (check_settlement x r update template)) (issue update template) r latest r
            (ap (λ a. (a, r)) found)
          ∙ (then_of (register_receipt x issued) (finish update issued) r tt _ stored
              ∙ (ap
                    (λ i.
                      (ok i, with_settled update.header.channel_id (with_receipt i.receipt_hash r)))
                    (sym same)
                  ∙ ap (λ q. (ok receipt, q)) (sym s.left)))
