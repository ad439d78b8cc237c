-- ===== src/Driver/Lane/Proof.antt =====
-- The lane of a report of drivers/kaspa-devnet/src/main.rs, and the proof of the lane's tip.
use kurrent.Base.{String, length, nat_eq, option_eq, refl, some, subst, sym, ap, ◌∙◌, ℕ, ◌↔◌, ◌≡◌}
use kurrent.Bytes.{Bytes}
use kurrent.Driver.{Host, ok}
use kurrent.Driver.Answers.{both_iff, map_err_iff, require_iff, some_iff}
use kurrent.Driver.Lane.{
  LaneTip, SeqCommit, lane_id_bytes, report_lane, verify_lane_proof_material, verify_lane_tip,
}
use kurrent.Driver.Lane.Leaves.{HashAt, ok_iff, required_hash_iff}
use kurrent.Driver.Require.Laws.{Number, Text, require_text_iff, required_str_iff, required_u64_iff}
use kurrent.Driver.Require.Transactions.{require_eq_iff}
use kurrent.Driver.Answers.{beq_true_iff, iff_trans}

module _ (d : Host) (k : SeqCommit) where
  -- The text is the lane's twenty bytes in hexadecimal digits.
  abbrev pub LaneId : String → Bytes → Type 0
  LaneId value bytes = (d.decode value ≡ ok bytes) × (length bytes ≡ 20)

  lane_id_bytes_iff :
      (value label : String) (bytes : Bytes)
      → (lane_id_bytes d k value label ≡ ok bytes) ↔ LaneId value bytes
  unfolding lane_id_bytes
  lane_id_bytes_iff value label bytes =
      iff_trans
        (some_iff (map_err_iff _) λ found.
          both_iff (iff_trans (require_iff _) (beq_true_iff (length found) 20))
            (ok_iff found bytes))
        (
          (λ (found, a, (b, same)). subst (LaneId value) same (a, b)),
          (λ (a, b). (bytes, a, (b, refl))),
        )

  -- The report and the state evidence name one lane, and the report has its key.
  abbrev pub LaneOf : d.Value → d.Value → String → k.Hash → Type 0
  LaneOf state report lane key =
      Text d report "/expected_lane_id" lane
      × Text d state "/lane_binding/expected_lane_id" lane
      × ((bytes : Bytes) × LaneId lane bytes
          × (k.lane_key bytes ≡ key)
          × Text d report "/lane_key" (k.to_string key))

  pub report_lane_iff :
      (state report : d.Value) (label id_label lane : String) (key : k.Hash)
      → (report_lane d k state report label id_label ≡ ok (lane, key))
        ↔ LaneOf state report lane key
  unfolding report_lane
  report_lane_iff state report label id_label lane key =
      iff_trans
        (some_iff (required_str_iff d report _) λ l. some_iff (required_str_iff d state _) λ bound.
          both_iff (require_eq_iff l bound _) (
            some_iff (lane_id_bytes_iff l _) λ bytes.
              both_iff (require_text_iff d report _ _ _)
                (ok_iff (l, k.lane_key bytes) (lane, key))))
        (
          (λ (l, a, (bound, b, (same, (bytes, c, ((s, e, f), g))))).
              let at : l ≡ lane = ap (λ r. r.0) g in
              let of : k.lane_key bytes ≡ key = ap (λ r. r.1) g in
              (
                subst (Text d report "/expected_lane_id") at a,
                subst (Text d state "/lane_binding/expected_lane_id") (sym same ∙ at) b,
                (
                  bytes,
                  subst (λ z. LaneId z bytes) at c,
                  of,
                  subst (Text d report "/lane_key") (f ∙ ap k.to_string of) e,
                ),
              )),
          (λ (a, b, (bytes, c, of, e)). (
            lane,
            a,
            (
              lane,
              b,
              (
                refl,
                (bytes, c, ((k.to_string key, e, ap k.to_string (sym of)), ap (λ z. (lane, z)) of)),
              ),
            ),
          )),
        )

  -- The proof leads from the leaf of the tip and score to the root that the header commits to.
  pub record Proves (key tip : k.Hash) (blue_score : ℕ) (smt_proof : Bytes)
      (digest parent inactivity merkle_root : k.Hash) : Type 0 where
    pub proof : k.Proof
    pub lanes_root : k.Hash
    pub parses : k.proof_from_bytes smt_proof ≡ ok proof
    pub has_root : k.compute_root proof key (some (k.smt_leaf_hash tip blue_score)) ≡ ok lanes_root
    pub chains :
        k.verify_smt_metadata lanes_root digest parent inactivity merkle_root parent ≡ ok tt

  verify_lane_proof_material_iff :
      (key tip : k.Hash) (blue_score : ℕ) (smt_proof : Bytes) (g p i m : k.Hash)
      → (verify_lane_proof_material d k key tip blue_score smt_proof g p i m ≡ ok tt)
        ↔ Proves key tip blue_score smt_proof g p i m
  unfolding verify_lane_proof_material
  verify_lane_proof_material_iff key tip blue_score smt_proof g p i m =
      iff_trans
        (some_iff (map_err_iff _) λ proof. some_iff (map_err_iff _) λ root. map_err_iff _ tt)
        (
          (λ (proof, a, (root, b, c)). record {
            proof = proof;
            lanes_root = root;
            parses = a;
            has_root = b;
            chains = c;
          }),
          (λ r. (r.proof, r.parses, (r.lanes_root, r.has_root, r.chains))),
        )

  -- The report proves the reconstructed tip and score of the lane.
  pub record ProvesTip (key : k.Hash) (report : d.Value) (reconstructed : LaneTip d k)
      : Type 0 where
    pub tip : k.Hash
    pub blue_score : ℕ
    pub text : String
    pub smt_proof : Bytes
    pub digest : k.Hash
    pub parent : k.Hash
    pub inactivity : k.Hash
    pub merkle_root : k.Hash
    pub has_tip : HashAt d k report "/proof/lane/tip" tip
    pub has_blue_score : Number d report "/proof/lane/blue_score" blue_score
    pub is_tip : some tip ≡ reconstructed.tip
    pub is_blue_score : some blue_score ≡ reconstructed.blue_score
    pub has_text : Text d report "/proof/smt_proof" text
    pub has_proof : d.decode text ≡ ok smt_proof
    pub has_digest : HashAt d k report "/proof/payload_and_ctx_digest" digest
    pub has_parent : HashAt d k report "/proof/parent_seq_commit" parent
    pub has_inactivity : HashAt d k report "/proof/inactivity_shortcut" inactivity
    pub has_root : HashAt d k report "/proof_header/accepted_id_merkle_root" merkle_root
    pub proves : Proves key tip blue_score smt_proof digest parent inactivity merkle_root

  pub verify_lane_tip_iff :
      (label smt_label : String) (key : k.Hash) (report : d.Value) (reconstructed : LaneTip d k)
      → (verify_lane_tip d k label smt_label key report reconstructed ≡ ok tt)
        ↔ ProvesTip key report reconstructed
  unfolding verify_lane_tip
  verify_lane_tip_iff label smt_label key report reconstructed =
      iff_trans
        (some_iff (required_hash_iff d k report _) λ tip.
          some_iff (required_u64_iff d report _) λ blue.
            both_iff
              (iff_trans (require_iff _)
                ((option_eq ⦃e = k.hash_eq⦄).beq_iff (some tip) reconstructed.tip))
              (both_iff
                (iff_trans (require_iff _) (beq_true_iff (some blue) reconstructed.blue_score))
                (some_iff (required_str_iff d report _) λ text. some_iff (map_err_iff _) λ smt.
                  some_iff (required_hash_iff d k report _) λ digest.
                    some_iff (required_hash_iff d k report _) λ parent.
                      some_iff (required_hash_iff d k report _) λ inactivity.
                        some_iff (required_hash_iff d k report _) λ root.
                          verify_lane_proof_material_iff key tip blue smt digest parent inactivity
                            root)))
        (
          (λ (t, a, (u, b, (c, (e, (s, f, (smt, g, (di, h, (p, i, (n, j, (m, l, q)))))))))).
              record {
                tip = t;
                blue_score = u;
                text = s;
                smt_proof = smt;
                digest = di;
                parent = p;
                inactivity = n;
                merkle_root = m;
                has_tip = a;
                has_blue_score = b;
                is_tip = c;
                is_blue_score = e;
                has_text = f;
                has_proof = g;
                has_digest = h;
                has_parent = i;
                has_inactivity = j;
                has_root = l;
                proves = q;
              }),
          (λ r. (
            r.tip,
            r.has_tip,
            (
              r.blue_score,
              r.has_blue_score,
              (
                r.is_tip,
                (
                  r.is_blue_score,
                  (
                    r.text,
                    r.has_text,
                    (
                      r.smt_proof,
                      r.has_proof,
                      (
                        r.digest,
                        r.has_digest,
                        (
                          r.parent,
                          r.has_parent,
                          (r.inactivity, r.has_inactivity, (r.merkle_root, r.has_root, r.proves)),
                        ),
                      ),
                    ),
                  ),
                ),
              ),
            ),
          )),
        )
