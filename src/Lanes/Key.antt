-- ===== src/Lanes/Key.antt =====
-- internal/runtime/lanes/key.go: the lane of a work item.
use simiclaw.Base.{String, if◌then◌else◌}
use simiclaw.Base.Text.{trim_space, is_empty}
use simiclaw.Model.{WorkItem}
use Prim.Native.String.{◌++◌}

unfoldable pub resolve : WorkItem → String
resolve work =
    let lane = trim_space work.lane_key in
    let session = trim_space work.session_key in
    let event = trim_space work.event_id in
    if is_empty lane
    then if is_empty session
      then if is_empty event then "work:global" else "event:" ++ event
      else "session:" ++ session
    else lane
