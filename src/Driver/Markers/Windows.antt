-- ===== src/Driver/Markers/Windows.antt =====
-- How the marker transactions of drivers/kaspa-devnet/src/main.rs stand to their response windows.
use kurrent.Base.{
  String, arith, ap, if◌then◌else◌, leb→le, le→leb, ltb, none, refl, some, string_eq, ℕ, ◌+◌, ◌<◌,
  ◌≤◌, ◌^◌, ◌↔◌, ◌≡◌, ◌∙◌,
}
use kurrent.Driver.{Host, ok}
use kurrent.Driver.Answers.{both_iff, ok_or_iff, require_iff, some_iff}
use kurrent.Driver.Lane.{SeqCommit}
use kurrent.Driver.Lane.Leaves.{ok_iff}
use kurrent.Driver.Markers.{MarkerTexts, checked_u64_sum, proof_after_windows}
use kurrent.Driver.Require.Laws.{Number, required_u64_iff}
use kurrent.Driver.Answers.{iff_trans}

pub checked_u64_sum_iff :
    (a b : ℕ) (e : String) (n : ℕ)
    → (checked_u64_sum a b e ≡ ok n) ↔ ((a + b < 2 ^ 64) × (a + b ≡ n))
unfolding checked_u64_sum
checked_u64_sum_iff a b e n = iff_trans (ok_or_iff e n) (sum_some_iff (a + b))
  where
    sum_some_iff :
        (s : ℕ) → ((if ltb s (2 ^ 64) then some s else none) ≡ some n) ↔ ((s < 2 ^ 64) × (s ≡ n))
    sum_some_iff s = ground arith

module _ (d : Host) where
  module _ (k : SeqCommit) where
    -- The higher marker was accepted at or before the score at which the lower one's window ends, and
    -- the proof stands at or behind the end of the higher one's, with no sum out of the 64-bit range.
    -- The docs of src/lib.rs put a marker at the very end outside the window; this check does not.
    pub record InWindows (report : d.Value) (window : ℕ) (lower higher : d.Value) (proof_daa : ℕ)
        : Type 0 where
      pub lower_daa : ℕ
      pub higher_daa : ℕ
      pub has_lower_daa : Number d lower "/daa_score" lower_daa
      pub has_higher_daa : Number d higher "/daa_score" higher_daa
      pub has_proof_daa : Number d report "/proof_header/daa_score" proof_daa
      pub lower_range : lower_daa + window < 2 ^ 64
      pub higher_range : higher_daa + window < 2 ^ 64
      pub in_window : higher_daa ≤ lower_daa + window
      pub behind : higher_daa + window ≤ proof_daa

    pub proof_after_windows_iff :
        (t : MarkerTexts) (report : d.Value) (window : ℕ) (lower higher : d.Value) (proof_daa : ℕ)
        → (proof_after_windows d k t report window lower higher ≡ ok proof_daa)
          ↔ InWindows report window lower higher proof_daa
    unfolding proof_after_windows
    proof_after_windows_iff t report window lower higher proof_daa =
        iff_trans
          (some_iff (required_u64_iff d lower _) λ m. some_iff (required_u64_iff d higher _) λ n.
            some_iff (checked_u64_sum_iff m window _) λ s.
              both_iff (iff_trans (require_iff _) (leb→le n s, le→leb n s)) (
                some_iff (checked_u64_sum_iff n window _) λ t.
                  some_iff (required_u64_iff d report _) λ p.
                    both_iff (iff_trans (require_iff _) (leb→le t p, le→leb t p))
                      (ok_iff p proof_daa)))
          (
            (λ (m, a, (n, b, (s, (c, e), (f, (t, (g, h), (p, i, (j, same))))))). record {
              lower_daa = m;
              higher_daa = n;
              has_lower_daa = a;
              has_higher_daa = b;
              has_proof_daa = i ∙ ap some same;
              lower_range = c;
              higher_range = g;
              in_window = omega arith;
              behind = omega arith;
            }),
            (λ r. (
              r.lower_daa,
              r.has_lower_daa,
              (
                r.higher_daa,
                r.has_higher_daa,
                (
                  _,
                  (r.lower_range, refl),
                  (
                    r.in_window,
                    (_, (r.higher_range, refl), (proof_daa, r.has_proof_daa, (r.behind, refl))),
                  ),
                ),
              ),
            )),
          )
