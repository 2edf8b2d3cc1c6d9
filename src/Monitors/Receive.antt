-- ===== src/Monitors/Receive.antt =====
-- internal/ingest/ingest.go: a check-in item against its monitor. The crontab parser is a parameter, as
-- is what the time package makes of a zone: a schedule on the instants shown in it (UTC if unknown).
use crashcart.Base.{ℕ, Bool, ◌||◌, List, [], Option, none, some, if◌then◌else◌}
use crashcart.Base.Int.{ℤ, int64, ◌+ℤ◌, ◌*ℤ◌}
use crashcart.Base.Text.{Bytes, codes, str_eq, or_else}
use crashcart.Sentry.Reports.{CheckIn, MonitorConfig}
use crashcart.Sentry.Json.{Number}
use crashcart.Ingest.Prepare.{nil_if_empty}
use crashcart.Monitors.Schedule.{Time, Schedule, Parsed, ok, err, parse_schedule}
use crashcart.Monitors.State.{Transition, record_outcome}
use crashcart.Monitors.Thresholds.{Notice, notices}
use crashcart.Monitors.Rows.{
  Monitor, MonitorCheckin, UpsertMonitorParams, RecordMonitorResultParams, CheckinStatus,
  in_progress, ok_status, error_status, minute_ns, upsert_monitor, get_monitor,
  record_monitor_result, find_open_check_in, insert_check_in, update_check_in,
}

-- What the code calls outside: the crontab parser, the time zones, and the rounding to a float32.
pub record World : Type 0 where
  pub parse_cron : Bytes → Option Schedule
  pub located : Bytes → Schedule → Schedule
  pub to_float32 : Number → ℕ

pub record MonitorTables : Type 0 where
  pub monitors : List Monitor
  pub check_ins : List MonitorCheckin

-- `ZeroCheckInID`.
abbrev pub zero_check_in_id : Bytes
zero_check_in_id = codes "00000000000000000000000000000000"

unfoldable pub checkin_status : Bytes → CheckinStatus
checkin_status s =
    if str_eq s (codes "in_progress")
    then in_progress
    else if str_eq s (codes "ok")
    then ok_status
    else error_status

unfoldable pub upsert_params : ℕ → CheckIn → MonitorConfig → UpsertMonitorParams
upsert_params project ci cfg = record {
  project_id = project;
  slug = ci.monitor_slug;
  schedule_type = cfg.schedule_type;
  schedule_value = cfg.schedule_value;
  schedule_unit = nil_if_empty cfg.schedule_unit;
  timezone = cfg.timezone;
  checkin_margin_min = cfg.checkin_margin_min;
  max_runtime_min = cfg.max_runtime_min;
  failure_threshold = cfg.failure_threshold;
  recovery_threshold = cfg.recovery_threshold;
}

-- The monitor of a check-in: upserted from its configuration, or looked up.
unfoldable pub monitor_for : ℕ → Time → CheckIn → List Monitor → List Monitor × Option Monitor
unfolding upsert_params
monitor_for project now ci rows = elim ci.config [
  | none ↦ (rows, get_monitor project ci.monitor_slug rows)
  | some cfg ↦
      let (after, m) = upsert_monitor now (upsert_params project ci cfg) rows in (after, some m)
]

-- The row of a check-in that began at some time.
unfoldable pub check_in_row : World → ℕ → Time → Bytes → CheckIn → MonitorCheckin
unfolding checkin_status
check_in_row w project started id ci = record {
  started_at = started;
  project_id = project;
  monitor_slug = ci.monitor_slug;
  check_in_id = id;
  status = checkin_status ci.status;
  duration_s = elim ci.duration_s [ none ↦ none | some d ↦ some (w.to_float32 d) ];
  release = nil_if_empty ci.release;
  environment = nil_if_empty ci.environment;
}

-- A later check-in of a run updates its row; the first one of a run makes it, unless its id is zero.
abbrev pub store_check_in :
    World
    → ℕ
    → Time
    → Bool
    → CheckIn
    → List MonitorCheckin
    → Option MonitorCheckin
    → List MonitorCheckin
store_check_in w project now zero ci rows (some row) =
    update_check_in (check_in_row w project row.started_at row.check_in_id ci) rows
store_check_in w project now zero ci rows none =
    if zero then rows else insert_check_in (check_in_row w project now ci.check_in_id ci) rows

unfoldable pub write_check_in :
    World → ℕ → Time → CheckIn → List MonitorCheckin → List MonitorCheckin
unfolding check_in_row
write_check_in w project now ci rows =
    let zero = str_eq ci.check_in_id zero_check_in_id in
    store_check_in w project now zero ci rows
      (find_open_check_in project ci.monitor_slug zero ci.check_in_id rows)

abbrev pub is_terminal : CheckIn → Bool
is_terminal ci = str_eq ci.status (codes "ok") || str_eq ci.status (codes "error")

abbrev pub deref : Option Bytes → Bytes
deref s = or_else s []

unfoldable pub result_params :
    Monitor → CheckinStatus → Transition → Time → Time → RecordMonitorResultParams
result_params m status tr next now = record {
  project_id = m.project_id;
  slug = m.slug;
  last_status = status;
  consecutive_failures = tr.consecutive_failures;
  consecutive_successes = tr.consecutive_successes;
  alerting = tr.alerting;
  next_expected_at = next;
  last_checkin_at = now;
}

abbrev pub outcome_of : Monitor → Bool → Transition
outcome_of m good =
    record_outcome m.consecutive_failures m.consecutive_successes m.alerting m.failure_threshold
      m.recovery_threshold good

-- A `time.Duration`, an int64: a margin above 153722867 minutes wraps.
abbrev pub margin_of : Monitor → ℤ
margin_of m = int64 (m.checkin_margin_min *ℤ minute_ns)

-- What a check-in comes to: the tables and the alerts to enqueue, or the error that rolls the request
-- back.
pub data Received : Type 0 where
  received : MonitorTables → List Notice → Received
  schedule_broken : Received

abbrev pub advance_monitor :
    World → Time → CheckIn → Monitor → List Monitor → List MonitorCheckin → Parsed → Received
advance_monitor w now ci m monitors rows (err e) = schedule_broken
advance_monitor w now ci m monitors rows (ok sched) =
    let tr = outcome_of m (str_eq ci.status (codes "ok")) in
    let next = w.located m.timezone sched now +ℤ margin_of m in
    received
      (record {
        monitors =
            record_monitor_result (result_params m (checkin_status ci.status) tr next now) monitors;
        check_ins = rows;
      })
      (notices tr)

abbrev pub stored_schedule : World → Monitor → Parsed
stored_schedule w m =
    parse_schedule w.parse_cron m.schedule_type m.schedule_value (deref m.schedule_unit)

abbrev pub receive_for :
    World → ℕ → Time → CheckIn → List Monitor → List MonitorCheckin → Option Monitor → Received
receive_for w project now ci monitors rows none =
    received (record { monitors = monitors; check_ins = rows }) []
receive_for w project now ci monitors rows (some m) =
    let written = write_check_in w project now ci rows in
    if is_terminal ci
    then advance_monitor w now ci m monitors written (stored_schedule w m)
    else received (record { monitors = monitors; check_ins = written }) []

-- The check-in part of `Ingest`.
unfoldable pub receive_check_in : World → ℕ → Time → CheckIn → MonitorTables → Received
unfolding monitor_for write_check_in result_params
receive_check_in w project now ci t =
    let (monitors, m) = monitor_for project now ci t.monitors in
    receive_for w project now ci monitors t.check_ins m
