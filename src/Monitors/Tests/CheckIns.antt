-- ===== src/Monitors/Tests/CheckIns.antt =====
-- Runs of the check-ins' model, and each of its theorems at a concrete input.
use crashcart.Base.{ℕ, ◌*◌, ◌≡◌, ◌≢◌, refl, true, false, [], ◌∷◌, none, some, arith, count}
use crashcart.Base.Int.{pos, ◌+ℤ◌, ◌*ℤ◌, ◌≤ℤ◌, +ℤ_parts}
use crashcart.Base.Text.{codes, str_eq, trim_space, drop_spaces}
use crashcart.Sentry.Json.{Library, Number, RawMonitorConfig, malformed}
use crashcart.Sentry.Reports.{
  CheckIn, MonitorConfig, parse_monitor_config, schedule_texts, config_of,
}
use crashcart.Sentry.Clean.{clean, truncate}
use crashcart.Base.Print.{itoa, decimal, digits_before}
use crashcart.Monitors.Schedule.{
  Time, ok, parse_schedule, parse_interval, interval_case, interval_unit, interval_next, atoi,
}
use crashcart.Monitors.Rows.{
  Monitor, same_monitor, due_monitors, new_monitor, upsert_monitor, find_open_check_in, latest_row,
  insert_check_in,
}
use crashcart.Monitors.Receive.{
  World, MonitorTables, received, schedule_broken, receive_check_in, stored_schedule, monitor_for,
  upsert_params, check_in_row, write_check_in, margin_of,
}
use crashcart.Ingest.Prepare.{nil_if_empty}
use crashcart.Monitors.Check.{monitor_missed, missed_row}
use crashcart.Monitors.Runs.{HasOneRow, receive_check_in-one_row}
use crashcart.Monitors.Accepted.{accepted-never_broken}
use crashcart.Monitors.Missed.{monitor_missed-not_due}

-- Numbers are texts of the form "5" only.
abbrev five : Number
five = record { positive = true; whole = 5; nanos = 0 }

abbrev decoders : Library
decoders = record {
  text_of = λ s. none;
  number_of = λ s. some five;
  formatted_of = λ s. none;
  object_of = λ s. none;
  arrays_of = λ s. none;
  envelope_header_of = λ s. none;
  item_header_of = λ s. none;
  event_of = λ s. malformed;
  session_of = λ s. none;
  sessions_of = λ s. none;
  user_report_of = λ s. none;
  client_report_of = λ s. none;
  check_in_of = λ s. none;
  parse_time = λ layout s. none;
  format_rfc3339 = λ t. [];
  load_location = λ s. false;
  sha256 = λ s. s;
  parse_cron = λ s. none;
  to_int = λ n. pos 5;
  to_int32 = λ n. pos 5;
}

abbrev every_five_minutes : RawMonitorConfig
every_five_minutes = record {
  schedule_type = codes "interval";
  schedule_value = codes "5";
  schedule_unit = codes "minute";
  checkin_margin = none;
  max_runtime = none;
  failure_issue_threshold = none;
  recovery_threshold = none;
  timezone = [];
}

abbrev config : MonitorConfig
config =
    config_of decoders every_five_minutes (codes "interval") (codes "5") (codes "minute")
      (codes "UTC")

config_parses : parse_monitor_config decoders every_five_minutes ≡ some config
unfolding parse_monitor_config schedule_texts clean truncate trim_space drop_spaces str_eq itoa
    decimal digits_before parse_schedule parse_interval interval_case interval_unit atoi
config_parses = refl

abbrev world : World
world = record { parse_cron = λ s. none; located = λ zone s. s; to_float32 = λ d. 0 }

abbrev check_in : CheckIn
check_in = record {
  check_in_id = codes "a1b2c3d4e5f6a1b2c3d4e5f6a1b2c3d4";
  monitor_slug = codes "nightly";
  status = codes "ok";
  duration_s = none;
  release = [];
  environment = [];
  config = some config;
}

abbrev empty : MonitorTables
empty = record { monitors = []; check_ins = [] }

accepted-never_broken_example : receive_check_in world 3 (pos 7) check_in empty ≢ schedule_broken
accepted-never_broken_example =
    accepted-never_broken decoders every_five_minutes config world 3 (pos 7) check_in empty refl
      config_parses refl

-- The start of the run.
abbrev start : CheckIn
start = record check_in { status = codes "in_progress" }

abbrev started : MonitorTables
started = record {
  monitors = new_monitor (pos 7) (upsert_params 3 start config) ∷ [];
  check_ins = check_in_row world 3 (pos 7) start.check_in_id start ∷ [];
}

start_received : receive_check_in world 3 (pos 7) start empty ≡ received started []
unfolding receive_check_in monitor_for upsert_monitor write_check_in find_open_check_in latest_row
    insert_check_in str_eq
start_received = refl

no_rows-HasOneRow : HasOneRow []
no_rows-HasOneRow project slug id = omega arith

receive_check_in-one_row_example : HasOneRow started.check_ins
receive_check_in-one_row_example =
    receive_check_in-one_row world 3 (pos 7) start empty started [] no_rows-HasOneRow start_received

-- A monitor whose slot was missed.
abbrev late : Monitor
late = record (new_monitor (pos 7) (upsert_params 3 start config)) {
  next_expected_at = some (pos 9);
}

abbrev step : ℕ
step = 5 * 60_000_000_000

late_schedule : stored_schedule world late ≡ ok (interval_next (pos step))
unfolding new_monitor upsert_params nil_if_empty trim_space drop_spaces str_eq parse_schedule
    parse_interval interval_case interval_unit atoi ◌*ℤ◌ config_of
late_schedule = refl

abbrev late_tables : MonitorTables
late_tables = record { monitors = late ∷ []; check_ins = [] }

step_apart : (at : Time) → at +ℤ pos step ≤ℤ interval_next (pos step) at
unfolding interval_next
step_apart at = omega (arith, +ℤ_parts at (pos step))

late_margin : pos 0 ≤ℤ margin_of late
unfolding new_monitor upsert_params config_of ◌*ℤ◌
late_margin = omega arith

monitor_missed-not_due_example :
    (count (same_monitor late.project_id late.slug) (
        due_monitors
          (pos 100)
          (monitor_missed world (pos 100) (codes "id") late late_tables).tables.monitors)
      ≡ 0)
    × ((monitor_missed world (pos 100) (codes "id") late late_tables).tables.check_ins
        ≡ missed_row (pos 100) (codes "id") late ∷ [])
monitor_missed-not_due_example =
    monitor_missed-not_due world (pos 100) (pos 9) (codes "id") late late_tables
      (interval_next (pos step)) step late_schedule refl step_apart late_margin
      (omega (arith, +ℤ_parts (pos 9) (pos (10000 * step))))
