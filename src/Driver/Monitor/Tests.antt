-- ===== src/Driver/Monitor/Tests.antt =====
-- A run of the lane monitor.
use kurrent.Base.{as_bytes, contains, get, insert, list_eq, nat_eq, option_eq, refl, string_eq, ◌≡◌}
use kurrent.Driver.{map_err, ok, ok_or, require, ◌>>=◌ as answer_then, ◌>>◌ as answer_next}
use kurrent.Driver.Lane.{
  event_leaf, event_leaves, lane_id_bytes, next_block, next_blocks, report_lane, required_array,
  required_hash, verify_lane_proof_material, verify_lane_tip,
}
use kurrent.Driver.Monitor.{
  check_absence, check_events, check_lane_monitor, check_order, lane_monitor_entry, observe,
  required_bool,
}
use kurrent.Driver.Monitor.Verifier.{verify_lane_monitor_semantics}
use kurrent.Driver.Records.{read_json}
use kurrent.Driver.Require.{require_eq, require_status, require_text, required_str, required_u64}
use kurrent.Driver.Sample.{commitments, machine, start}
use kurrent.Driver.Verify.{change, continue, lift, one_check, ◌>>=◌, ◌>>◌}

pub monitor_run :
    verify_lane_monitor_semantics machine commitments "out" start
    ≡ ok (tt, one_check lane_monitor_entry start)
unfolding verify_lane_monitor_semantics check_lane_monitor check_events check_absence check_order
    observe required_bool event_leaf event_leaves lane_id_bytes next_block next_blocks report_lane
    required_array required_hash verify_lane_proof_material verify_lane_tip read_json require_eq
    require_status require_text required_str required_u64 change continue lift ◌>>=◌ ◌>>◌
    answer_then answer_next map_err ok_or require as_bytes get insert contains
monitor_run = refl
