-- ===== src/Driver/Monitor/Verifier.antt =====
-- The whole of `verify_lane_monitor_semantics` of drivers/kaspa-devnet/src/main.rs.
use kurrent.Base.{String}
use kurrent.Driver.{Host}
use kurrent.Driver.Lane.{SeqCommit}
use kurrent.Driver.Monitor.{check_lane_monitor, lane_monitor_entry}
use kurrent.Driver.Records.{read_json}
use kurrent.Driver.Verify.{Verify, change, lift, one_check, ◌>>=◌, ◌>>◌}

unfoldable pub verify_lane_monitor_semantics : Host → SeqCommit → String → Verify (Unit {0})
verify_lane_monitor_semantics d k output_dir = do
  state ← lift (read_json d (d.join output_dir "kurrent-live-state-channel-evidence.json"))
  report ← lift (read_json d (d.join output_dir "kurrent-live-lane-monitor-evidence.json"))
  lift (check_lane_monitor d k state report)
  change (one_check lane_monitor_entry)
