-- ===== src/Monitors/Rows.antt =====
-- internal/store/monitors.go: the monitors and their check-ins, each statement but the lists as a
-- function on the rows. Times are nanoseconds.
use crashcart.Base.{
  ℕ, Bool, true, false, not, ◌&&◌, List, [], ◌∷◌, ◌++◌, Option, none, some, if◌then◌else◌, ◌==◌,
  keep, find_row, update_where, count,
}
use crashcart.Base.Int.{ℤ, pos, ◌+ℤ◌, ◌*ℤ◌, ltb_ℤ, eqb_ℤ}
use crashcart.Base.Text.{Bytes, str_eq}
use crashcart.Monitors.Schedule.{Time}

pub data CheckinStatus : Type 0 where
  in_progress ok_status error_status missed timeout : CheckinStatus

abbrev pub is_in_progress : CheckinStatus → Bool
is_in_progress in_progress = true
is_in_progress _ = false

pub record Monitor : Type 0 where
  pub project_id : ℕ
  pub slug : Bytes
  pub schedule_type : Bytes
  pub schedule_value : Bytes
  pub schedule_unit : Option Bytes
  pub timezone : Bytes
  pub checkin_margin_min : ℤ
  pub max_runtime_min : ℤ
  pub failure_threshold : ℤ
  pub recovery_threshold : ℤ
  pub last_status : Option CheckinStatus
  pub consecutive_failures : ℤ
  pub consecutive_successes : ℤ
  pub alerting : Bool
  pub next_expected_at : Option Time
  pub last_checkin_at : Option Time
  pub created_at : Time

pub record UpsertMonitorParams : Type 0 where
  pub project_id : ℕ
  pub slug : Bytes
  pub schedule_type : Bytes
  pub schedule_value : Bytes
  pub schedule_unit : Option Bytes
  pub timezone : Bytes
  pub checkin_margin_min : ℤ
  pub max_runtime_min : ℤ
  pub failure_threshold : ℤ
  pub recovery_threshold : ℤ

-- The primary key.
unfoldable pub same_monitor : ℕ → Bytes → Monitor → Bool
same_monitor project slug m = (project == m.project_id) && str_eq slug m.slug

unfoldable pub new_monitor : Time → UpsertMonitorParams → Monitor
new_monitor now p = record {
  project_id = p.project_id;
  slug = p.slug;
  schedule_type = p.schedule_type;
  schedule_value = p.schedule_value;
  schedule_unit = p.schedule_unit;
  timezone = p.timezone;
  checkin_margin_min = p.checkin_margin_min;
  max_runtime_min = p.max_runtime_min;
  failure_threshold = p.failure_threshold;
  recovery_threshold = p.recovery_threshold;
  last_status = none;
  consecutive_failures = pos 0;
  consecutive_successes = pos 0;
  alerting = false;
  next_expected_at = none;
  last_checkin_at = none;
  created_at = now;
}

-- The columns that a new configuration replaces; the state stays.
unfoldable pub configured : UpsertMonitorParams → Monitor → Monitor
configured p m = record m {
  schedule_type = p.schedule_type;
  schedule_value = p.schedule_value;
  schedule_unit = p.schedule_unit;
  timezone = p.timezone;
  checkin_margin_min = p.checkin_margin_min;
  max_runtime_min = p.max_runtime_min;
  failure_threshold = p.failure_threshold;
  recovery_threshold = p.recovery_threshold;
}

abbrev pub write_monitor :
    Time → UpsertMonitorParams → List Monitor → Option Monitor → List Monitor × Monitor
write_monitor now p rows none = (rows ++ new_monitor now p ∷ [], new_monitor now p)
write_monitor now p rows (some m) =
    (update_where (same_monitor p.project_id p.slug) (configured p) rows, configured p m)

-- `UpsertMonitor`, and the row that it returns.
unfoldable pub upsert_monitor : Time → UpsertMonitorParams → List Monitor → List Monitor × Monitor
unfolding same_monitor new_monitor configured
upsert_monitor now p rows =
    write_monitor now p rows (find_row (same_monitor p.project_id p.slug) rows)

-- `GetMonitor`.
unfoldable pub get_monitor : ℕ → Bytes → List Monitor → Option Monitor
unfolding same_monitor
get_monitor project slug rows = find_row (same_monitor project slug) rows

-- `DeleteMonitor`, and how many rows it deleted.
unfoldable pub delete_monitor : ℕ → Bytes → List Monitor → List Monitor × ℕ
unfolding same_monitor
delete_monitor project slug rows =
    (keep (λ m. not (same_monitor project slug m)) rows, count (same_monitor project slug) rows)

pub record RecordMonitorResultParams : Type 0 where
  pub project_id : ℕ
  pub slug : Bytes
  pub last_status : CheckinStatus
  pub consecutive_failures : ℤ
  pub consecutive_successes : ℤ
  pub alerting : Bool
  pub next_expected_at : Time
  pub last_checkin_at : Time

unfoldable pub with_result : RecordMonitorResultParams → Monitor → Monitor
with_result p m = record m {
  last_status = some p.last_status;
  consecutive_failures = p.consecutive_failures;
  consecutive_successes = p.consecutive_successes;
  alerting = p.alerting;
  next_expected_at = some p.next_expected_at;
  last_checkin_at = some p.last_checkin_at;
}

-- `RecordMonitorResult`.
unfoldable pub record_monitor_result : RecordMonitorResultParams → List Monitor → List Monitor
unfolding same_monitor with_result
record_monitor_result p rows = update_where (same_monitor p.project_id p.slug) (with_result p) rows

abbrev pub is_before : Time → Option Time → Bool
is_before now none = false
is_before now (some t) = ltb_ℤ t now

-- `DueMonitors`.
unfoldable pub due_monitors : Time → List Monitor → List Monitor
due_monitors now rows = keep (λ m. is_before now m.next_expected_at) rows

pub record MonitorCheckin : Type 0 where
  pub started_at : Time
  pub project_id : ℕ
  pub monitor_slug : Bytes
  pub check_in_id : Bytes
  pub status : CheckinStatus
  pub duration_s : Option ℕ
  pub release : Option Bytes
  pub environment : Option Bytes

abbrev pub minute_ns : ℤ
minute_ns = pos 60_000_000_000

unfoldable pub is_timed_out : Time → MonitorCheckin → Option Monitor → Bool
is_timed_out now c none = false
is_timed_out now c (some m) =
    is_in_progress c.status && ltb_ℤ (c.started_at +ℤ (m.max_runtime_min *ℤ minute_ns)) now

-- `TimedOutCheckIns`, over the join with the check-in's monitor.
unfoldable pub timed_out_check_ins : Time → List Monitor → List MonitorCheckin → List MonitorCheckin
unfolding get_monitor is_timed_out
timed_out_check_ins now monitors rows =
    keep (λ c. is_timed_out now c (get_monitor c.project_id c.monitor_slug monitors)) rows

-- The rows of a monitor that a check-in may be an update of: those in progress, for the all-zero id, or
-- those of its own id.
unfoldable pub may_update : ℕ → Bytes → Bool → Bytes → MonitorCheckin → Bool
may_update project slug zero id c =
    (project == c.project_id)
    && str_eq slug c.monitor_slug
    && (if zero then is_in_progress c.status else str_eq id c.check_in_id)

abbrev pub newer : MonitorCheckin → Option MonitorCheckin → Option MonitorCheckin
newer c none = some c
newer c (some d) = if ltb_ℤ c.started_at d.started_at then some d else some c

-- `ORDER BY started_at DESC LIMIT 1`.
unfoldable pub latest_row : List MonitorCheckin → Option MonitorCheckin
latest_row [] = none
latest_row (c ∷ rows) = newer c (latest_row rows)

-- `FindOpenCheckIn`.
unfoldable pub find_open_check_in :
    ℕ → Bytes → Bool → Bytes → List MonitorCheckin → Option MonitorCheckin
unfolding latest_row may_update
find_open_check_in project slug zero id rows =
    latest_row (keep (may_update project slug zero id) rows)

-- `InsertCheckIn`.
unfoldable pub insert_check_in : MonitorCheckin → List MonitorCheckin → List MonitorCheckin
insert_check_in c rows = rows ++ c ∷ []

abbrev coalesce {ℓ} : {A : Type ℓ} → Option A → Option A → Option A
coalesce none b = b
coalesce (some a) b = some a

unfoldable pub same_check_in : MonitorCheckin → MonitorCheckin → Bool
same_check_in p c =
    (p.project_id == c.project_id)
    && str_eq p.monitor_slug c.monitor_slug
    && str_eq p.check_in_id c.check_in_id
    && eqb_ℤ p.started_at c.started_at

unfoldable pub updated_check_in : MonitorCheckin → MonitorCheckin → MonitorCheckin
updated_check_in p c = record c {
  status = p.status;
  duration_s = coalesce p.duration_s c.duration_s;
  release = coalesce p.release c.release;
  environment = coalesce p.environment c.environment;
}

-- `UpdateCheckIn`: the parameters are those of a row.
unfoldable pub update_check_in : MonitorCheckin → List MonitorCheckin → List MonitorCheckin
unfolding same_check_in updated_check_in
update_check_in p rows = update_where (same_check_in p) (updated_check_in p) rows
