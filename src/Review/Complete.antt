-- ===== src/Review/Complete.antt =====
-- What the security-review gate of src/bin/kurrentctl.rs asks of the review itself.
use kurrent.Base.{
  All, Bool, List, String, [], arith, as_bytes, contains, false, length, list_eq, ltb, nat_eq, not,
  refl, string_eq, true, ℕ, ◌&&◌, ◌↔◌, ◌∷◌, ◌≡◌, ◌≤◌,
}
use kurrent.Review.{
  SecurityReviewEvidence, all_contained, is_blank, is_complete_review, is_signed_review, no_blank,
  nothing_listed, security_review_required_scopes,
}

-- The texts that may not be blank.
abbrev named_texts : SecurityReviewEvidence → List String
named_texts r =
    r.completed_at ∷ r.reviewer_name ∷ r.reviewer_organisation ∷ r.reviewer_contact
    ∷ r.reviewer_independence_attestation ∷ r.reviewed_git_commit ∷ []

-- The review is an independent external one, has passed, and is signed and attested.
pub record IsSigned (r : SecurityReviewEvidence) : Type 0 where
  pub of_schema : r.schema_version ≡ "kurrent-security-review-v1"
  pub passed : r.status ≡ "passed"
  pub independent : r.review_type ≡ "independent_external_security_review"
  pub texts : All (λ s. is_blank s ≡ false) (named_texts r)
  pub attested : 40 ≤ length (as_bytes r.reviewer_independence_attestation)

-- The review covers every required scope, names three methods or more, and leaves nothing open.
pub record IsComplete (r : SecurityReviewEvidence) : Type 0 where
  pub scopes : All (λ s. contains s r.scope ≡ true) security_review_required_scopes
  pub methods : 3 ≤ length r.methodology
  pub method_texts : All (λ s. is_blank s ≡ false) r.methodology
  pub no_critical : r.finding_summary.critical_open ≡ 0
  pub no_high : r.finding_summary.high_open ≡ 0
  pub no_medium : r.finding_summary.medium_open ≡ 0
  pub no_low : r.finding_summary.low_open ≡ 0
  pub none_blocking : r.unresolved_blocking_findings ≡ []

pub and_iff : (a b : Bool) → ((a && b) ≡ true) ↔ ((a ≡ true) × (b ≡ true))
and_iff true b = ((λ h. (refl, h)), (λ h. h.1))
and_iff false b = ((λ h. cc), (λ h. cc))

at_least_iff : (n m : ℕ) → (not (ltb n m) ≡ true) ↔ (m ≤ n)
at_least_iff n m = ground arith

no_blank_iff : (ss : List String) → (no_blank ss ≡ true) ↔ All (λ s. is_blank s ≡ false) ss
no_blank_iff [] = ((λ h. tt), (λ h. refl))
no_blank_iff (s ∷ ss) = ground (arith, no_blank_iff ss)

all_contained_iff :
    (ss scopes : List String)
    → (all_contained ss scopes ≡ true) ↔ All (λ s. contains s scopes ≡ true) ss
all_contained_iff [] scopes = ((λ h. tt), (λ h. refl))
all_contained_iff (s ∷ ss) scopes = ground (arith, all_contained_iff ss scopes)

nothing_listed_iff : (ss : List String) → (nothing_listed ss ≡ true) ↔ (ss ≡ [])
nothing_listed_iff [] = ((λ h. refl), (λ h. refl))
nothing_listed_iff (s ∷ ss) = ((λ h. cc), (λ h. cc))

pub is_signed_review_iff : (r : SecurityReviewEvidence) → (is_signed_review r ≡ true) ↔ IsSigned r
unfolding is_signed_review
is_signed_review_iff r = (
  (λ h.
      let (h1, e) = (and_iff _ _).0 h in
      let (h2, d) = (and_iff _ _).0 h1 in
      let (h3, c) = (and_iff _ _).0 h2 in
      let (a, b) = (and_iff _ _).0 h3 in
      record {
        of_schema = (string_eq.beq_iff _ _).0 a;
        passed = (string_eq.beq_iff _ _).0 b;
        independent = (string_eq.beq_iff _ _).0 c;
        texts = (no_blank_iff (named_texts r)).0 d;
        attested = (at_least_iff _ _).0 e;
      }),
  (λ v.
      let a =
        (and_iff _ _).1
          ((string_eq.beq_iff _ _).1 v.of_schema, (string_eq.beq_iff _ _).1 v.passed) in
      let b = (and_iff _ _).1 (a, (string_eq.beq_iff _ _).1 v.independent) in
      let c = (and_iff _ _).1 (b, (no_blank_iff (named_texts r)).1 v.texts) in
      (and_iff _ _).1 (c, (at_least_iff _ _).1 v.attested)),
)

pub is_complete_review_iff :
    (r : SecurityReviewEvidence) → (is_complete_review r ≡ true) ↔ IsComplete r
unfolding is_complete_review
is_complete_review_iff r = (
  (λ h.
      let (h1, k) = (and_iff _ _).0 h in
      let (h2, g) = (and_iff _ _).0 h1 in
      let (h3, f) = (and_iff _ _).0 h2 in
      let (h4, e) = (and_iff _ _).0 h3 in
      let (h5, d) = (and_iff _ _).0 h4 in
      let (h6, c) = (and_iff _ _).0 h5 in
      let (a, b) = (and_iff _ _).0 h6 in
      record {
        scopes = (all_contained_iff security_review_required_scopes r.scope).0 a;
        methods = (at_least_iff _ _).0 b;
        method_texts = (no_blank_iff _).0 c;
        no_critical = (nat_eq.beq_iff _ _).0 d;
        no_high = (nat_eq.beq_iff _ _).0 e;
        no_medium = (nat_eq.beq_iff _ _).0 f;
        no_low = (nat_eq.beq_iff _ _).0 g;
        none_blocking = (nothing_listed_iff _).0 k;
      }),
  (λ v.
      let a = (and_iff _ _).1 (
        (all_contained_iff security_review_required_scopes r.scope).1 v.scopes,
        (at_least_iff _ _).1 v.methods,
      ) in
      let b = (and_iff _ _).1 (a, (no_blank_iff _).1 v.method_texts) in
      let c = (and_iff _ _).1 (b, (nat_eq.beq_iff _ _).1 v.no_critical) in
      let d = (and_iff _ _).1 (c, (nat_eq.beq_iff _ _).1 v.no_high) in
      let e = (and_iff _ _).1 (d, (nat_eq.beq_iff _ _).1 v.no_medium) in
      let f = (and_iff _ _).1 (e, (nat_eq.beq_iff _ _).1 v.no_low) in
      (and_iff _ _).1 (f, (nothing_listed_iff _).1 v.none_blocking)),
)
