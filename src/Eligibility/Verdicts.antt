-- ===== src/Eligibility/Verdicts.antt =====
-- What each decision of `evaluate_settlement_eligibility` in src/lib.rs says, stated over the set of
-- candidates, with no order.
use kurrent.Base.{
  Bool, List, String, arith, inl, inr, leb, list_eq, nat_eq, none, option_eq, refl, subst,
  if◌then◌else◌, leb→le, ◌∙◌, ap, some, string_eq, true, ℕ, ◌<◌, ◌↔◌, ◌∷◌, ◌≡◌, ◌≢◌, ◌≤◌, false,
  Option,
}
use kurrent.Bytes.{IsU64}
use kurrent.Eligibility.Decide.{
  SettlementEligibilityDecision, decide, displaced, eligible_to_finalise, finalisation_daa,
  find_displacing, status_of, provisional, not_yet_eligible,
}
use kurrent.Eligibility.Evidence.{Candidate, daa_of, index_of, state_of}
use kurrent.Eligibility.Order.{Any}
use kurrent.Errors.{>>=-eq-ok, ok, ok-injective, ok_or, ok_or_iff}
use kurrent.Eligibility.Search.{
  Any-map, Displaces, Found, deadline, finalisation_daa_iff, find_displacing-Found, some_inj,
}

-- The decision `d` on `c` among the candidates `all`.
pub record Decides (window tolerance current_daa : ℕ) (all : List Candidate) (c : Candidate)
    (d : SettlementEligibilityDecision) : Type 0 where
  pub of_candidate : d.candidate_txid ≡ c.evidence.candidate_txid
  pub of_state : d.state_number ≡ state_of c
  pub of_index : d.accepted_order_index ≡ index_of c
  pub of_score : d.accepted_daa_score ≡ daa_of c
  pub observed : d.observed_daa_score ≡ current_daa
  pub matures : d.eligible_after_daa ≡ deadline window tolerance c
  pub displaced_iff : (d.status ≡ displaced) ↔ Any (Displaces (deadline window tolerance c) c) all
  pub eligible_iff : (d.status ≡ eligible_to_finalise) ↔ (
      (¬ Any (Displaces (deadline window tolerance c) c) all)
      × (deadline window tolerance c ≤ current_daa))
  pub named_iff : (d.displaced_by ≡ none) ↔ (d.status ≢ displaced)
  pub named :
      (txid : String)
      → d.displaced_by ≡ some txid
      → Any
          (λ h. Displaces (deadline window tolerance c) c h × (h.evidence.candidate_txid ≡ txid))
          all

-- Another list of candidates that agrees on those with a higher state.
pub Decides-along :
    (window tolerance current_daa : ℕ) (all other : List Candidate) (c : Candidate)
    (d : SettlementEligibilityDecision)
    → ((P : Candidate → Type 0)
        → ((h : Candidate) → P h → state_of c < state_of h)
        → Any P all ↔ Any P other)
    → Decides window tolerance current_daa all c d
    → Decides window tolerance current_daa other c d
Decides-along window tolerance current_daa all other c d agree v =
    let end = deadline window tolerance c in
    let same = agree (Displaces end c) (λ h p. p.0) in
    record {
      of_candidate = v.of_candidate;
      of_state = v.of_state;
      of_index = v.of_index;
      of_score = v.of_score;
      observed = v.observed;
      matures = v.matures;
      displaced_iff = ((λ e. same.0 (v.displaced_iff.0 e)), (λ a. v.displaced_iff.1 (same.1 a)));
      eligible_iff = (
        (λ e. let (n, l) = v.eligible_iff.0 e in ((λ a. n (same.1 a)), l)),
        (λ (n, l). v.eligible_iff.1 ((λ a. n (same.0 a)), l)),
      );
      named_iff = v.named_iff;
      named = λ txid e.
          (agree (λ h. Displaces end c h × (h.evidence.candidate_txid ≡ txid)) (λ h p. p.0.0)).0
            (v.named txid e);
    }

-- A candidate with no higher state changes nothing.
pub Decides-behind :
    (window tolerance current_daa : ℕ) (b : Candidate) (all : List Candidate) (c : Candidate)
    (d : SettlementEligibilityDecision)
    → state_of b ≤ state_of c
    → Decides window tolerance current_daa all c d
    → Decides window tolerance current_daa (b ∷ all) c d
Decides-behind window tolerance current_daa b all c d low =
    Decides-along window tolerance current_daa all (b ∷ all) c d (λ P higher.
      ((λ a. inr a), (λ a. elim a [ inl p ↦ absurd (omega (arith, higher b p)) | inr q ↦ q ])))

-- The status of a candidate that nothing displaces.
free_status :
    (mature first : Bool)
    → (if mature then eligible_to_finalise else (if first then provisional else not_yet_eligible))
      ≢ displaced
free_status true first e = cc
free_status false true e = cc
free_status false false e = cc

mature_status :
    (mature first : Bool)
    → ((if mature then eligible_to_finalise else (if first then provisional else not_yet_eligible))
        ≡ eligible_to_finalise)
      ↔ (mature ≡ true)
mature_status true first = ((λ e. refl), (λ e. refl))
mature_status false true = ((λ e. cc), (λ e. cc))
mature_status false false = ((λ e. cc), (λ e. cc))

module _ (window tolerance current_daa : ℕ) where
  -- The decision from the window's end and what the search found.
  abbrev outcome : ℕ → Bool → Candidate → Option Candidate → SettlementEligibilityDecision
  outcome end first c found =
      let verdict = status_of found (leb end current_daa) first in
      record {
        candidate_txid = c.evidence.candidate_txid;
        state_number = state_of c;
        status = verdict.0;
        displaced_by = verdict.1;
        accepted_order_index = index_of c;
        accepted_daa_score = daa_of c;
        eligible_after_daa = end;
        observed_daa_score = current_daa;
      }

  -- A decision is made exactly if the end of the window fits 64 bits, and it is this one.
  decide_iff :
      (first : Bool) (c : Candidate) (rest : List Candidate) (d : SettlementEligibilityDecision)
      → (decide window tolerance current_daa first c rest ≡ ok d) ↔ (
          IsU64 (deadline window tolerance c)
          × (outcome
                (deadline window tolerance c)
                first
                c
                (find_displacing (deadline window tolerance c) c rest)
              ≡ d))
  unfolding decide
  decide_iff first c rest d = (forward, backward)
    where
      end : ℕ
      end = deadline window tolerance c

      made : ℕ → SettlementEligibilityDecision
      made n = outcome n first c (find_displacing n c rest)

      forward : decide window tolerance current_daa first c rest ≡ ok d → IsU64 end × (made end ≡ d)
      forward h =
          let (e, p, q) = >>=-eq-ok (ok_or (finalisation_daa window tolerance c) _) _ h in
          let (same, fits) =
            (finalisation_daa_iff window tolerance c e).0 ((ok_or_iff _ _ _).0 p) in
          (rw same fits, ap made same ∙ ok-injective q)

      backward :
          IsU64 end × (made end ≡ d) → decide window tolerance current_daa first c rest ≡ ok d
      backward (fits, same) =
          rw ((finalisation_daa_iff window tolerance c end).1 (refl, fits)) (ap ok same)

  outcome-Decides :
      (first : Bool) (c : Candidate) (rest : List Candidate) (found : Option Candidate)
      → Found (deadline window tolerance c) c rest found
      → Decides window tolerance current_daa rest c
          (outcome (deadline window tolerance c) first c found)
  unfolding status_of
  outcome-Decides first c rest (some h) f = record {
    of_candidate = refl;
    of_state = refl;
    of_index = refl;
    of_score = refl;
    observed = refl;
    matures = refl;
    displaced_iff = ((λ e. Any-map _ _ rest (λ k p. p.0) f), (λ a. refl));
    eligible_iff = ((λ e. cc), (λ (n, _). absurd (n (Any-map _ _ rest (λ k p. p.0) f))));
    named_iff = ((λ e. cc), (λ n. absurd (n refl)));
    named = λ txid e.
        Any-map _ _ rest (λ k p. (p.0, ap (λ j. j.evidence.candidate_txid) p.1 ∙ some_inj e)) f;
  }
  outcome-Decides first c rest none f = record {
    of_candidate = refl;
    of_state = refl;
    of_index = refl;
    of_score = refl;
    observed = refl;
    matures = refl;
    displaced_iff = ((λ e. absurd (free_status (leb _ current_daa) first e)), (λ a. absurd (f a)));
    eligible_iff = (
      (λ e. (f, leb→le _ _ ((mature_status (leb _ current_daa) first).0 e))),
      (λ (_, l). (mature_status (leb _ current_daa) first).1 (ground arith)),
    );
    named_iff = ((λ _. free_status (leb _ current_daa) first), (λ _. refl));
    named = λ txid e. cc;
  }

  pub decide-Decides :
      (first : Bool) (c : Candidate) (rest : List Candidate) (d : SettlementEligibilityDecision)
      → decide window tolerance current_daa first c rest ≡ ok d
      → Decides window tolerance current_daa rest c d
  decide-Decides first c rest d h =
      let end = deadline window tolerance c in
      subst (Decides window tolerance current_daa rest c) ((decide_iff first c rest d).0 h).1 (
        outcome-Decides first c rest (find_displacing end c rest)
          (find_displacing-Found end c rest))

  pub decide_fits :
      (first : Bool) (c : Candidate) (rest : List Candidate)
      → ((d : SettlementEligibilityDecision) × (decide window tolerance current_daa first c rest
            ≡ ok d))
        ↔ IsU64 (deadline window tolerance c)
  decide_fits first c rest = (
    (λ (d, h). ((decide_iff first c rest d).0 h).0),
    (λ fits. (_, (decide_iff first c rest _).1 (fits, refl))),
  )
