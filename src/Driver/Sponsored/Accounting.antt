-- ===== src/Driver/Sponsored/Accounting.antt =====
-- The sponsors' accounting that `require_sponsor_accounting` of drivers/kaspa-devnet/src/main.rs
-- accepts.
use kurrent.Base.{
  List, String, [], length, ltb→lt, lt→ltb, nat_eq, refl, string_eq, ℕ, ◌+◌, ◌<>◌, ◌<◌, ◌^◌, ◌∙◌,
  ◌↔◌, ◌∷◌, ◌≡◌, ◌≢◌,
}
use kurrent.Driver.{Host, Transaction, ok}
use kurrent.Driver.Answers.{both_iff, require_iff, some_iff}
use kurrent.Driver.Eligibility.{Models}
use kurrent.Driver.Lane.{SeqCommit}
use kurrent.Driver.Markers.Windows.{checked_u64_sum_iff}
use kurrent.Driver.Require.Laws.{
  Number, Text, Typed, required_str_iff, required_typed_iff, required_u64_iff,
}
use kurrent.Driver.Require.Transactions.{
  Pays, Spends, require_input_outpoint_iff, require_output_count_iff, require_output_value_iff,
}
use kurrent.Driver.Answers.{beq_true_iff, bne_true_iff, iff_trans}
use kurrent.Driver.Sponsored.{check_sponsors, require_sponsor_accounting, sponsor_inputs}
use kurrent.External.{External}

-- Each outpoint is spent by the input at its place, and none is the channel's funding.
abbrev pub SponsorInputs : Transaction → String → ℕ → List String → Type 0
SponsorInputs tx funding index [] = Unit {0}
SponsorInputs tx funding index (outpoint ∷ rest) =
    (outpoint ≢ funding) × (Spends tx index outpoint × SponsorInputs tx funding (index + 1) rest)

sponsor_inputs_iff :
    (tx : Transaction) (funding label : String) (index : ℕ) (outpoints : List String)
    → (sponsor_inputs tx funding label index outpoints ≡ ok tt)
      ↔ SponsorInputs tx funding index outpoints
unfolding sponsor_inputs
sponsor_inputs_iff tx funding label index [] = ((λ h. tt), (λ h. refl))
sponsor_inputs_iff tx funding label index (outpoint ∷ rest) =
    both_iff (iff_trans (require_iff _) (bne_true_iff outpoint funding)) (
      both_iff (require_input_outpoint_iff tx index outpoint _)
        (sponsor_inputs_iff tx funding label (index + 1) rest))

module _ (d : Host) (k : SeqCommit) (x : External) (ms : Models d) where
  -- The marker's inputs are the recorded sponsor outpoints, all outside the channel; its one output is
  -- the change; and input is change plus fee, in the 64-bit range.
  pub record Accounts (tx : Transaction) (report : d.Value) (marker funding : String) : Type 0 where
    pub outpoints : List String
    pub change : ℕ
    pub input : ℕ
    pub fee : ℕ
    pub has_outpoints :
        Typed d ms.outpoints report (marker <> "/sponsor/sponsor_input_outpoints") outpoints
    pub all_inputs : length outpoints ≡ length tx.inputs
    pub external_inputs : SponsorInputs tx funding 0 outpoints
    pub one_output : length tx.outputs ≡ 1
    pub has_change : Number d report (marker <> "/sponsor/sponsor_change_total") change
    pub pays_change : Pays tx 0 change
    pub has_input : Number d report (marker <> "/sponsor/sponsor_input_total") input
    pub has_fee : Number d report (marker <> "/sponsor/sponsor_fee") fee
    pub range : change + fee < 2 ^ 64
    pub balanced : change + fee ≡ input

  require_sponsor_accounting_iff :
      (tx : Transaction) (report : d.Value) (marker funding label : String)
      → (require_sponsor_accounting d k x ms tx report marker funding label ≡ ok tt)
        ↔ Accounts tx report marker funding
  unfolding require_sponsor_accounting
  require_sponsor_accounting_iff tx report marker funding label =
      iff_trans
        (some_iff (required_typed_iff d _ report _) λ outpoints.
          both_iff (iff_trans (require_iff _) (beq_true_iff (length outpoints) (length tx.inputs)))
            (both_iff (sponsor_inputs_iff tx funding label 0 outpoints) (
              both_iff (require_output_count_iff tx 1 _) (
                some_iff (required_u64_iff d report _) λ change.
                  both_iff (require_output_value_iff tx 0 change _) (
                    some_iff (required_u64_iff d report _) λ input.
                      some_iff (required_u64_iff d report _) λ fee.
                        some_iff (checked_u64_sum_iff change fee _)
                          λ sum. iff_trans (require_iff _) (beq_true_iff sum input))))))
        (
          (λ (os, a, (b, (c, (e, (ch, f, (g, (i, h, (fe, j, (s, (l, m), n))))))))). record {
            outpoints = os;
            change = ch;
            input = i;
            fee = fe;
            has_outpoints = a;
            all_inputs = b;
            external_inputs = c;
            one_output = e;
            has_change = f;
            pays_change = g;
            has_input = h;
            has_fee = j;
            range = l;
            balanced = m ∙ n;
          }),
          (λ r. (
            r.outpoints,
            r.has_outpoints,
            (
              r.all_inputs,
              (
                r.external_inputs,
                (
                  r.one_output,
                  (
                    r.change,
                    r.has_change,
                    (
                      r.pays_change,
                      (r.input, r.has_input, (r.fee, r.has_fee, (_, (r.range, refl), r.balanced))),
                    ),
                  ),
                ),
              ),
            ),
          )),
        )

  -- Both markers are accounted for, and the lower one pays the higher fee.
  abbrev pub Sponsors : d.Value → d.Value → Transaction → Transaction → Type 0
  Sponsors state report lower higher =
      (funding : String) × Text d state "/funding/outpoint" funding
      × (Accounts lower report "/sponsored_markers/lower" funding
          × (Accounts higher report "/sponsored_markers/higher" funding
              × ((lower_fee : ℕ) × Number d report "/sponsored_markers/lower/sponsor/sponsor_fee"
                    lower_fee
                  × ((higher_fee : ℕ) × Number d report
                        "/sponsored_markers/higher/sponsor/sponsor_fee" higher_fee
                      × (higher_fee < lower_fee)))))

  pub check_sponsors_iff :
      (state report : d.Value) (lower higher : Transaction)
      → (check_sponsors d k x ms state report lower higher ≡ ok tt)
        ↔ Sponsors state report lower higher
  unfolding check_sponsors
  check_sponsors_iff state report lower higher = some_iff (required_str_iff d state _) λ funding.
      both_iff (require_sponsor_accounting_iff lower report _ funding _) (
        both_iff (require_sponsor_accounting_iff higher report _ funding _) (
          some_iff (required_u64_iff d report _) λ m.
            some_iff (required_u64_iff d report _)
              λ n. iff_trans (require_iff _) (ltb→lt n m, lt→ltb n m)))
