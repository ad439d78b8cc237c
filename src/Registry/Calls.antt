-- ===== src/Registry/Calls.antt =====
-- The calls that a client makes of `SettlementRegistry` in src/lib.rs, and what each may change.
use kurrent.Base.{
  List, String, [], contains, false, insert_key, list_eq, ltb, nat_eq, option_eq, pair_eq, refl,
  string_eq, ℕ, ◌∷◌, ◌≡◌,
}
use kurrent.Channel.{validate_channel_update}
use kurrent.Errors.{
  KurrentError, Result, double_claim, duplicate_receipt, err, fail_if, fail_if_iff, ok, ok_or,
  panic, refund_not_configured, refund_not_mature,
}
use kurrent.External.{External, exclusive_key}
use kurrent.Registry.Checks.{check_settlement, check_update}
use kurrent.Registry.Methods.{
  accept_update_with_rule, record_update, refund_claim, refund_claim_with_template,
  refund_scoped_claim, refund_scoped_claim_with_template, register_receipt, settle, settle_claim,
  settle_scoped_claim, validate_and_accept_update,
}
use kurrent.Registry.Receipt.{scope_key, settlement_receipt, validate_hash}
use kurrent.Registry.State.{Action, SettlementRegistry, lift, ◌>>=◌}
use kurrent.Types.{
  ChannelReceipt, ClaimScope, FundingState, KurrentChannelConfig, LatestStateHeader,
  SameNumberConflictRule, SettlementTemplate, StateUpdate,
}

-- One constructor for each `&mut self` method.
pub data Call : Type 0 where
  accepting : StateUpdate → SameNumberConflictRule → Call
  validating : KurrentChannelConfig → FundingState → StateUpdate → SettlementTemplate → Call
  settling : StateUpdate → SettlementTemplate → Call
  registering : ChannelReceipt → Call
  claiming : String → Call
  refunding : String → ℕ → ℕ → Call
  refunding_with_template : String → SettlementTemplate → ℕ → Call
  claiming_scoped : ClaimScope → Call
  refunding_scoped : ClaimScope → ℕ → ℕ → Call
  refunding_scoped_with_template : ClaimScope → SettlementTemplate → ℕ → Call

-- The fields that a claim, a registration and a settlement write.
abbrev pub with_claim : String → SettlementRegistry → SettlementRegistry
with_claim claim_id r = record r { claims = (insert_key claim_id r.claims).1 }

abbrev pub with_receipt : String → SettlementRegistry → SettlementRegistry
with_receipt key r = record r { receipts = (insert_key key r.receipts).1 }

abbrev pub with_settled : String → SettlementRegistry → SettlementRegistry
with_settled channel_id r = record r {
  settled_channels = (insert_key channel_id r.settled_channels).1;
}

-- A change of the registry, with the checks that the code made before it.
pub data Change (x : External) (r : SettlementRegistry) : SettlementRegistry → Type 0 where
  recorded :
      (update : StateUpdate) (rule : SameNumberConflictRule)
      → check_update r update rule ≡ ok tt
      → Change x r (record_update update r)
  claimed :
      (claim_id : String) → contains claim_id r.claims ≡ false → Change x r (with_claim claim_id r)
  registered : (key : String) → contains key r.receipts ≡ false → Change x r (with_receipt key r)
  settled :
      (update : StateUpdate) (template : SettlementTemplate) (latest : LatestStateHeader)
      (key : String)
      → check_settlement x r update template ≡ ok latest
      → contains key r.receipts ≡ false
      → Change x r (with_settled update.header.channel_id (with_receipt key r))

-- A call that returns a value made a change `P`; one that does not left the registry as it was.
pub data Effect (P : SettlementRegistry → Type 0) (r : SettlementRegistry) {A : Type 0}
    : Result A × SettlementRegistry → Type 0 where
  done : (v : A) (r' : SettlementRegistry) → P r' → Effect P r (ok v, r')
  failed : (e : KurrentError) → Effect P r (err e, r)
  panicked : Effect P r (panic, r)

-- A step that reads only, and what follows it on a success.
after-Effect :
    {A B : Type 0} (P : SettlementRegistry → Type 0) (r : SettlementRegistry) (a : Result A)
    (k : A → Result B × SettlementRegistry)
    → ((v : A) → a ≡ ok v → Effect P r (k v))
    → Effect P r {A = B} (elim a as (λ _. Result B × SettlementRegistry) [
      | ok v ↦ k v
      | err e ↦ (err e, r)
      | panic ↦ (panic, r)
    ])
after-Effect P r (ok v) k h = h v refl
after-Effect P r (err e) k h = failed e
after-Effect P r panic k h = panicked

-- A step that changes, and what follows it and cannot fail.
then-Effect :
    {A B : Type 0} (P Q : SettlementRegistry → Type 0) (r : SettlementRegistry)
    (m : Result A × SettlementRegistry) (k : A → SettlementRegistry → Result B × SettlementRegistry)
    → Effect P r m
    → ((v : A) (r' : SettlementRegistry) → P r' → Effect Q r (k v r'))
    → Effect Q r {A = B} (elim m.0 as (λ _. Result B × SettlementRegistry) [
      | ok v ↦ k v m.1
      | err e ↦ (err e, m.1)
      | panic ↦ (panic, m.1)
    ])
then-Effect P Q r m k (done v r' p) h = h v r' p
then-Effect P Q r m k (failed e) h = failed e
then-Effect P Q r m k panicked h = panicked

weaken-Effect :
    {A : Type 0} (P Q : SettlementRegistry → Type 0) (r : SettlementRegistry)
    (m : Result A × SettlementRegistry)
    → ((r' : SettlementRegistry) → P r' → Q r')
    → Effect P r m
    → Effect Q r m
weaken-Effect P Q r _ h (done v r' p) = done v r' (h r' p)
weaken-Effect P Q r _ h (failed e) = failed e
weaken-Effect P Q r _ h panicked = panicked

-- A registration: its key was new.
data Registers (r : SettlementRegistry) : SettlementRegistry → Type 0 where
  registers : (key : String) → contains key r.receipts ≡ false → Registers r (with_receipt key r)

module _ (x : External) where
  -- What the call does to the registry, without the value that it returns.
  unfoldable pub perform : Call → Action (Unit {0})
  perform (accepting update rule) = accept_update_with_rule update rule
  perform (validating config funding update template) =
      validate_and_accept_update x config funding update template
  perform (settling update template) = settle x update template >>= λ receipt. lift (ok tt)
  perform (registering receipt) = register_receipt x receipt
  perform (claiming claim_id) = settle_claim claim_id
  perform (refunding claim_id current_daa required_daa) =
      refund_claim claim_id current_daa required_daa
  perform (refunding_with_template claim_id template current_daa) =
      refund_claim_with_template claim_id template current_daa
  perform (claiming_scoped s) = settle_scoped_claim x s
  perform (refunding_scoped s current_daa required_daa) =
      refund_scoped_claim x s current_daa required_daa
  perform (refunding_scoped_with_template s template current_daa) =
      refund_scoped_claim_with_template x s template current_daa

  -- Calls one after the other, whatever each of them returns.
  unfoldable pub run : List Call → SettlementRegistry → SettlementRegistry
  unfolding perform
  run [] r = r
  run (c ∷ calls) r = run calls (perform c r).1

  accept_update_with_rule-Effect :
      (update : StateUpdate) (rule : SameNumberConflictRule) (r : SettlementRegistry)
      → Effect (Change x r) r (accept_update_with_rule update rule r)
  unfolding accept_update_with_rule
  accept_update_with_rule-Effect update rule r =
      after-Effect _ r (check_update r update rule) _ (λ v h. done _ _ (recorded update rule h))

  settle_claim-Effect :
      (claim_id : String) (r : SettlementRegistry) → Effect (Change x r) r (settle_claim claim_id r)
  unfolding settle_claim
  settle_claim-Effect claim_id r =
      after-Effect _ r (fail_if (contains claim_id r.claims) (double_claim claim_id)) _
        (λ v h. done _ _ (claimed claim_id ((fail_if_iff _ _).0 h)))

  refund_claim-Effect :
      (claim_id : String) (current_daa required_daa : ℕ) (r : SettlementRegistry)
      → Effect (Change x r) r (refund_claim claim_id current_daa required_daa r)
  unfolding refund_claim
  refund_claim-Effect claim_id current_daa required_daa r =
      after-Effect _ r
        (fail_if (ltb current_daa required_daa) (refund_not_mature current_daa required_daa)) _
        (λ v h. settle_claim-Effect claim_id r)

  refund_claim_with_template-Effect :
      (claim_id : String) (template : SettlementTemplate) (current_daa : ℕ) (r : SettlementRegistry)
      → Effect (Change x r) r (refund_claim_with_template claim_id template current_daa r)
  unfolding refund_claim_with_template
  refund_claim_with_template-Effect claim_id template current_daa r =
      after-Effect _ r (ok_or template.refund_after_daa refund_not_configured) _
        (λ required_daa h. refund_claim-Effect claim_id current_daa required_daa r)

  register_receipt-Effect :
      (receipt : ChannelReceipt) (r : SettlementRegistry)
      → Effect (Registers r) r (register_receipt x receipt r)
  unfolding register_receipt
  register_receipt-Effect receipt r = after-Effect _ r (validate_hash x receipt) _ (λ v h.
      after-Effect _ r
        (fail_if (contains (scope_key x receipt) r.receipts)
          (duplicate_receipt (scope_key x receipt)))
        _ (λ w g. done _ _ (registers _ ((fail_if_iff _ _).0 g))))

  marked :
      (update : StateUpdate) (template : SettlementTemplate) (latest : LatestStateHeader)
      (r r' : SettlementRegistry)
      → check_settlement x r update template ≡ ok latest
      → Registers r r'
      → Change x r (with_settled update.header.channel_id r')
  marked update template latest r _ h (registers key new) = settled update template latest key h new

  Registers-Change : (r r' : SettlementRegistry) → Registers r r' → Change x r r'
  Registers-Change r _ (registers key new) = registered key new

  settle-Effect :
      (update : StateUpdate) (template : SettlementTemplate) (r : SettlementRegistry)
      → Effect (Change x r) r (settle x update template r)
  unfolding settle
  settle-Effect update template r =
      after-Effect _ r (check_settlement x r update template) _ (λ latest h.
        let receipt = settlement_receipt x update.header.channel_id latest template in
        then-Effect (Registers r) (Change x r) r (register_receipt x receipt r)
          (λ v r'. (ok receipt, with_settled update.header.channel_id r'))
          (register_receipt-Effect receipt r)
          (λ v r' g. done receipt _ (marked update template latest r r' h g)))

  -- What each call may change, and that one that fails changes nothing.
  pub perform-Effect : (c : Call) (r : SettlementRegistry) → Effect (Change x r) r (perform c r)
  unfolding perform validate_and_accept_update settle_scoped_claim refund_scoped_claim
      refund_scoped_claim_with_template
  perform-Effect (accepting update rule) r = accept_update_with_rule-Effect update rule r
  perform-Effect (validating config funding update template) r =
      after-Effect _ r (validate_channel_update x config funding update template) _
        (λ v h. accept_update_with_rule-Effect update _ r)
  perform-Effect (settling update template) r =
      then-Effect (Change x r) (Change x r) r _ _ (settle-Effect update template r)
        (λ v r' p. done tt r' p)
  perform-Effect (registering receipt) r =
      weaken-Effect _ _ r _ (Registers-Change r) (register_receipt-Effect receipt r)
  perform-Effect (claiming claim_id) r = settle_claim-Effect claim_id r
  perform-Effect (refunding claim_id current_daa required_daa) r =
      refund_claim-Effect claim_id current_daa required_daa r
  perform-Effect (refunding_with_template claim_id template current_daa) r =
      refund_claim_with_template-Effect claim_id template current_daa r
  perform-Effect (claiming_scoped s) r = settle_claim-Effect (exclusive_key x s) r
  perform-Effect (refunding_scoped s current_daa required_daa) r =
      refund_claim-Effect (exclusive_key x s) current_daa required_daa r
  perform-Effect (refunding_scoped_with_template s template current_daa) r =
      after-Effect _ r (ok_or template.refund_after_daa refund_not_configured) _
        (λ required_daa h. refund_claim-Effect (exclusive_key x s) current_daa required_daa r)
