-- ===== src/Eligibility/Outcomes.antt =====
-- The properties of `evaluate_settlement_eligibility` in src/lib.rs.
use kurrent.Base.{All, Bool, List, [], arith, true, ℕ, ◌↔◌, ◌∷◌, ◌≡◌, ◌≤◌, ◌∙◌, sym, subst}
use kurrent.Bytes.{IsU64}
use kurrent.Eligibility.Accepted.{choose, sort_by_index}
use kurrent.Eligibility.Decide.{
  SettlementEligibilityDecision, decide_all, displaced, eligible_to_finalise,
  evaluate_settlement_eligibility,
}
use kurrent.Eligibility.Evaluate.{
  Decisions, InRange, Validated, decide_all-Decisions, decide_all_fits, evaluate_backward,
  evaluate_forward,
}
use kurrent.Eligibility.Evidence.{Candidate}
use kurrent.Eligibility.Named.{AllNamed, decide_all-AllNamed}
use kurrent.Eligibility.Order.{Any-sort_by_index, Chain, Chain-Ordered}
use kurrent.Eligibility.Search.{deadline}
use kurrent.Eligibility.Verdicts.{Decides-along}
use kurrent.Errors.{ok, ok-injective}
use kurrent.External.{External}
use kurrent.Types.{
  FundingState, KurrentChannelConfig, SettlementEligibilityPolicy, SettlementTemplate,
}

-- What was decided at a time and what is decided later: a displaced candidate stays displaced, by
-- the same transaction, one that is not displaced stays so, and an eligible one stays eligible.
abbrev pub Stays : SettlementEligibilityDecision → SettlementEligibilityDecision → Type 0
Stays d e =
    (d.candidate_txid ≡ e.candidate_txid)
    × (d.status ≡ displaced ↔ e.status ≡ displaced)
    × (d.displaced_by ≡ e.displaced_by)
    × (d.status ≡ eligible_to_finalise → e.status ≡ eligible_to_finalise)

abbrev pub AllStay :
    List SettlementEligibilityDecision → List SettlementEligibilityDecision → Type 0
AllStay [] [] = Unit
AllStay (d ∷ ds) (e ∷ es) = Stays d e × AllStay ds es
AllStay _ _ = ⊥

-- Another order of the candidates in view.
Decisions-resorted :
    (window tolerance current_daa : ℕ) (all cs : List Candidate)
    (ds : List SettlementEligibilityDecision)
    → Decisions window tolerance current_daa (sort_by_index all) cs ds
    → Decisions window tolerance current_daa all cs ds
Decisions-resorted w t now all [] [] v = tt
Decisions-resorted w t now all [] (d ∷ ds) v = absurd v
Decisions-resorted w t now all (c ∷ cs) [] v = absurd v
Decisions-resorted w t now all (c ∷ cs) (d ∷ ds) (v, vs) = (
  Decides-along w t now (sort_by_index all) all c d (λ P _. Any-sort_by_index P all) v,
  Decisions-resorted w t now all cs ds vs,
)

Decisions-AllStay :
    (window tolerance now later : ℕ) (all cs : List Candidate)
    (ds es : List SettlementEligibilityDecision)
    → now ≤ later
    → AllNamed ds es
    → Decisions window tolerance now all cs ds
    → Decisions window tolerance later all cs es
    → AllStay ds es
Decisions-AllStay w t now later all [] [] [] l n v u = tt
Decisions-AllStay w t now later all [] [] (e ∷ es) l n v u = u
Decisions-AllStay w t now later all [] (d ∷ ds) es l n v u = absurd v
Decisions-AllStay w t now later all (c ∷ cs) [] es l n v u = absurd v
Decisions-AllStay w t now later all (c ∷ cs) (d ∷ ds) [] l n v u = u
Decisions-AllStay w t now later all (c ∷ cs) (d ∷ ds) (e ∷ es) l (n, ns) (v, vs) (u, us) = (
  (
    v.of_candidate ∙ sym u.of_candidate,
    (
      (λ p. u.displaced_iff.1 (v.displaced_iff.0 p)),
      (λ p. v.displaced_iff.1 (u.displaced_iff.0 p)),
    ),
    n,
    (λ p. let (n, m) = v.eligible_iff.0 p in u.eligible_iff.1 (n, omega arith)),
  ),
  Decisions-AllStay w t now later all cs ds es l ns vs us,
)

module _ (x : External) (debug : Bool) (config : KurrentChannelConfig) (funding : FundingState)
    (template : SettlementTemplate) (policy : SettlementEligibilityPolicy)
    (candidates : List Candidate) where
  -- If the evaluation returns decisions, then they are those of the chosen candidates in the order of
  -- their indices: each is displaced exactly if a chosen candidate with a higher state was accepted
  -- before the end of its window, and names such a candidate; else it is eligible exactly if the
  -- window has ended.
  pub evaluate-Decisions :
      (current_daa : ℕ) (ds : List SettlementEligibilityDecision)
      → evaluate_settlement_eligibility x debug config funding template policy candidates
          current_daa
        ≡ ok ds
      → (chosen : List Candidate) × (choose config.challenge_policy.same_number_conflict_rule
            candidates
          ≡ ok chosen)
        × Decisions policy.response_window_daa policy.reorg_tolerance_daa current_daa chosen
            (sort_by_index chosen)
            ds
  evaluate-Decisions current_daa ds h =
      let (_, _, (chosen, c, chain, e)) =
        evaluate_forward x debug config funding template policy candidates current_daa ds h in
      (
        chosen,
        c,
        Decisions-resorted _ _ _ _ _ ds
            (decide_all-Decisions _ _ _ true (sort_by_index chosen) ds (Chain-Ordered _ chain) e),
      )

  -- The evaluation returns decisions exactly if the response window is in its range, every candidate
  -- has an update that passes the channel's validation and evidence that names the scope of header,
  -- funding and channel, the header's hash and a valid lane, the header's and the configured one, and the chosen candidates, sorted by index, rise strictly
  -- in index and state, do not go back in DAA score, link to their predecessors, and have windows
  -- that end within 64 bits.
  pub evaluate_ok_iff :
      (current_daa : ℕ)
      → ((ds : List SettlementEligibilityDecision) × (evaluate_settlement_eligibility x debug config
              funding template policy candidates current_daa
            ≡ ok ds))
        ↔ (InRange policy.response_window_daa
            × All (Validated x config funding template) candidates
            × ((chosen : List Candidate) × (choose config.challenge_policy.same_number_conflict_rule
                    candidates
                  ≡ ok chosen)
                × Chain (sort_by_index chosen)
                × All
                    (λ c. IsU64 (deadline policy.response_window_daa policy.reorg_tolerance_daa c))
                    (sort_by_index chosen)))
  evaluate_ok_iff now = (
    (λ (ds, h).
        let (range, valid, (chosen, c, chain, e)) =
          evaluate_forward x debug config funding template policy candidates now ds h in
        (range, valid, (chosen, c, chain, (decide_all_fits _ _ _ true _).0 (ds, e)))),
    (λ (range, valid, (chosen, c, chain, fits)).
        let (ds, e) = (decide_all_fits _ _ now true (sort_by_index chosen)).1 fits in
        (
          ds,
          evaluate_backward x debug config funding template policy candidates now chosen range valid
                c chain
              ∙ e,
        )),
  )

  -- If the evaluation returns decisions, then it also does at any later time, on the same candidates;
  -- the same of them are displaced, by the same transactions, and one that was eligible still is.
  pub evaluate_stays :
      (now later : ℕ) (ds : List SettlementEligibilityDecision)
      → now ≤ later
      → evaluate_settlement_eligibility x debug config funding template policy candidates now
        ≡ ok ds
      → (es : List SettlementEligibilityDecision) × (evaluate_settlement_eligibility x debug config
            funding template policy candidates later
          ≡ ok es)
        × AllStay ds es
  evaluate_stays now later ds l h =
      let (es, k) = (evaluate_ok_iff later).1 ((evaluate_ok_iff now).0 (ds, h)) in
      let (chosen, c, v) = evaluate-Decisions now ds h in
      let (others, o, u) = evaluate-Decisions later es k in
      let same = ok-injective (sym c ∙ o) in
      let (_, _, (first, f, _, p)) =
        evaluate_forward x debug config funding template policy candidates now ds h in
      let (_, _, (second, g, _, q)) =
        evaluate_forward x debug config funding template policy candidates later es k in
      let one : second ≡ first = ok-injective (sym g ∙ f) in
      let named =
        decide_all-AllNamed policy.response_window_daa policy.reorg_tolerance_daa now later true
          (sort_by_index first) ds es p
          (subst
            (λ cs.
              decide_all policy.response_window_daa policy.reorg_tolerance_daa later true
                (sort_by_index cs)
              ≡ ok es)
            one q) in
      let w = policy.response_window_daa in
      let t = policy.reorg_tolerance_daa in
      (
        es,
        k,
        Decisions-AllStay w t now later chosen (sort_by_index chosen) ds es l named v
            (subst (λ cs. Decisions w t later cs (sort_by_index cs) es) (sym same) u),
      )
