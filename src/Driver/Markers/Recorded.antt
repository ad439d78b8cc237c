-- ===== src/Driver/Markers/Recorded.antt =====
-- The recorded blocks and lane proof that the settlement verifiers of
-- drivers/kaspa-devnet/src/main.rs accept.
use kurrent.Base.{List, String, ◌↔◌, ◌≡◌}
use kurrent.Driver.{Host, ok}
use kurrent.Driver.Answers.{some_iff}
use kurrent.Driver.Lane.{LaneTip, SeqCommit, checked_order}
use kurrent.Driver.Lane.Chain.{Chain, next_blocks_iff}
use kurrent.Driver.Lane.Leaves.{ListAt, required_array_iff}
use kurrent.Driver.Lane.Proof.{ProvesTip, verify_lane_tip_iff}
use kurrent.Driver.Markers.{check_recorded_lane, initial_lane}

module _ (d : Host) (k : SeqCommit) where
  -- The blocks link from the recorded tip to one that the proof proves.
  abbrev pub RecordedLane : String → d.Value → String → k.Hash → Type 0
  RecordedLane label report lane key =
      (before : LaneTip d k) × (initial_lane d k report ≡ ok before)
      × ((blocks : List d.Value) × ListAt d k report "/lane_activity_blocks" blocks
          × ((reconstructed : LaneTip d k) × Chain d k (checked_order label) label lane key before
                blocks reconstructed
              × ProvesTip d k key report reconstructed))

  pub check_recorded_lane_iff :
      (label : String) (report : d.Value) (lane : String) (key : k.Hash)
      → (check_recorded_lane d k label report lane key ≡ ok tt) ↔ RecordedLane label report lane key
  unfolding check_recorded_lane
  check_recorded_lane_iff label report lane key =
      some_iff (λ before. ((λ h. h), (λ h. h)))
        λ before. some_iff (required_array_iff d k report _) λ blocks.
          some_iff (next_blocks_iff d k _ _ lane key before blocks)
            λ reconstructed. verify_lane_tip_iff d k _ _ key report reconstructed
