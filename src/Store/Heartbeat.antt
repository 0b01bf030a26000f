-- ===== src/Store/Heartbeat.antt =====
-- internal/store/jobs.go: the workers' heartbeats.
use simiclaw.Base.{ℕ, String, Bool, Option, none, some, ◌∷◌, ◌==ˢ◌, if◌then◌else◌}
use simiclaw.Base.Time.{at, parse_time}
use simiclaw.Store.Tables.{Db, HeartbeatRow}
use simiclaw.Store.Sql.{find_where, exists_where, update_where}

abbrev beat_row : String → ℕ → HeartbeatRow
beat_row worker_name now = record {
  worker_name = worker_name;
  beat_at = at now;
  status = "alive";
  details = "";
}

-- BeatHeartbeat: INSERT … ON CONFLICT(worker_name) DO UPDATE
unfoldable pub beat_heartbeat : String → ℕ → Db → Db
unfolding update_where exists_where
beat_heartbeat worker_name now db =
    let named : HeartbeatRow → Bool = λ h. h.worker_name ==ˢ worker_name in
    record db {
      heartbeats =
          if exists_where named db.heartbeats
          then update_where named (λ h. beat_row worker_name now) db.heartbeats
          else beat_row worker_name now ∷ db.heartbeats;
    }

abbrev beat_of : Option HeartbeatRow → Option ℕ
beat_of none = none
beat_of (some h) = some (parse_time h.beat_at)

-- HeartbeatAt
unfoldable pub heartbeat_at : String → Db → Option ℕ
unfolding find_where
heartbeat_at worker_name db =
    beat_of (find_where (λ (h : HeartbeatRow). h.worker_name ==ˢ worker_name) db.heartbeats)
