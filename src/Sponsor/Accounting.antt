-- ===== src/Sponsor/Accounting.antt =====
-- What `validate_sponsor_evidence` in src/lib.rs accepts.
use kurrent.Base.{
  List, String, [], arith, bne_iff, contains, false, list_eq, nat_eq, option_eq, some, string_eq, ℕ,
  refl, ◌∷◌, ◌!=◌, ◌+◌, ◌||◌, ◌↔◌, ◌≡◌, ◌≢◌, ◌≤◌,
}
use kurrent.Bytes.{IsU64}
use kurrent.Errors.{IsOk, >>_iff, fail_if_iff, guard_iff, fail_if_ne_iff}
use kurrent.External.{External, template_hash}
use kurrent.Sponsor.{check_sponsor_fee, no_outpoints, validate_sponsor_evidence}
use kurrent.Types.{
  FeeSponsoredSettlementCandidate, FundingState, SettlementFeePolicy, SettlementSponsorEvidence,
  SettlementTemplate,
}

-- The fee is positive and within the maximum, and the inputs are the change and the fee.
pub record Balances (max_sponsor_fee : ℕ) (s : SettlementSponsorEvidence) : Type 0 where
  pub positive : 1 ≤ s.sponsor_fee
  pub bounded : s.sponsor_fee ≤ max_sponsor_fee
  pub conserved : s.sponsor_input_total ≡ s.sponsor_change_total + s.sponsor_fee

check_sponsor_fee_iff :
    (max_sponsor_fee : ℕ) (s : SettlementSponsorEvidence)
    → IsU64 s.sponsor_input_total
    → IsOk (check_sponsor_fee max_sponsor_fee s) ↔ Balances max_sponsor_fee s
unfolding check_sponsor_fee
check_sponsor_fee_iff m s h = (
  (λ e. record { positive = ground arith; bounded = ground arith; conserved = ground arith }),
  (λ b. let p = b.positive in let q = b.bounded in let r = b.conserved in ground arith),
)

-- What valid sponsor evidence of a candidate says.
pub record IsSponsored (x : External) (funding : FundingState) (template : SettlementTemplate)
    (fee_policy : SettlementFeePolicy) (fee_hash distribution_hash : String)
    (c : FeeSponsoredSettlementCandidate) : Type 0 where
  pub fee_policy_bound : c.eligibility.update.header.fee_policy_hash ≡ some fee_hash
  pub of_candidate : c.sponsor.candidate_txid ≡ c.eligibility.evidence.candidate_txid
  pub has_input : c.sponsor.sponsor_input_outpoints ≢ []
  pub external : contains funding.funding_outpoint c.sponsor.sponsor_input_outpoints ≡ false
  pub balances : Balances fee_policy.max_sponsor_fee c.sponsor
  pub of_template : c.sponsor.settlement_template_hash ≡ template_hash x template
  pub of_header :
      c.sponsor.settlement_template_hash ≡ c.eligibility.update.header.settlement_template_hash
  pub of_distribution : c.sponsor.settlement_distribution_hash ≡ distribution_hash

no_outpoints_iff : (os : List String) → (no_outpoints os ≡ false) ↔ (os ≢ [])
no_outpoints_iff [] = ((λ h. cc), (λ n. absurd (n refl)))
no_outpoints_iff (o ∷ os) = ((λ h e. cc), (λ n. refl))

both_equal : (a b c : String) → ((a != b || a != c) ≡ false) ↔ ((a ≡ b) × (a ≡ c))
both_equal a b c = ground (arith, bne_iff a b, bne_iff a c)

-- Sponsor evidence is accepted exactly if the signed header commits to the fee policy, the evidence is
-- for the candidate, has an input and none of the channel's funding, its fee is positive and within
-- the maximum, its inputs are the change and the fee, and its hashes are those of the template, the
-- header and the distribution. The sponsor's input total is one of 64 bits.
pub validate_sponsor_evidence_iff :
    (x : External) (funding : FundingState) (template : SettlementTemplate)
    (fee_policy : SettlementFeePolicy) (fee_hash distribution_hash : String)
    (c : FeeSponsoredSettlementCandidate)
    → IsU64 c.sponsor.sponsor_input_total
    → IsOk (validate_sponsor_evidence x funding template fee_policy fee_hash distribution_hash c)
      ↔ IsSponsored x funding template fee_policy fee_hash distribution_hash c
unfolding validate_sponsor_evidence
validate_sponsor_evidence_iff x funding template fee_policy fee_hash distribution_hash c fits =
    (forward, backward)
  where
    forward :
        IsOk (validate_sponsor_evidence x funding template fee_policy fee_hash distribution_hash c)
        → IsSponsored x funding template fee_policy fee_hash distribution_hash c
    forward h =
        let (p1, h1) = (fail_if_ne_iff _ _ _ _).0 h in
        let (p2, h2) = (fail_if_ne_iff _ _ _ _).0 h1 in
        let (p3, h3) = (guard_iff _ _ _).0 h2 in
        let (p4, h4) = (guard_iff _ _ _).0 h3 in
        let (p5, h5) = (>>_iff (check_sponsor_fee fee_policy.max_sponsor_fee c.sponsor) _).0 h4 in
        let (p6, h6) = (guard_iff _ _ _).0 h5 in
        let (p7, p8) = (both_equal _ _ _).0 p6 in
        record {
          fee_policy_bound = p1;
          of_candidate = p2;
          has_input = (no_outpoints_iff _).0 p3;
          external = p4;
          balances = (check_sponsor_fee_iff _ _ fits).0 p5;
          of_template = p7;
          of_header = p8;
          of_distribution = (bne_iff _ _).0 ((fail_if_iff _ _).0 h6);
        }

    backward :
        IsSponsored x funding template fee_policy fee_hash distribution_hash c
        → IsOk
            (validate_sponsor_evidence x funding template fee_policy fee_hash distribution_hash c)
    backward v = (fail_if_ne_iff _ _ _ _).1 (
      v.fee_policy_bound,
      (fail_if_ne_iff _ _ _ _).1 (
        v.of_candidate,
        (guard_iff _ _ _).1 (
          (no_outpoints_iff _).1 v.has_input,
          (guard_iff _ _ _).1 (
            v.external,
            (>>_iff (check_sponsor_fee fee_policy.max_sponsor_fee c.sponsor) _).1 (
              (check_sponsor_fee_iff _ _ fits).1 v.balances,
              (guard_iff _ _ _).1 (
                (both_equal _ _ _).1 (v.of_template, v.of_header),
                (fail_if_iff _ _).1 ((bne_iff _ _).1 v.of_distribution),
              ),
            ),
          ),
        ),
      ),
    )
