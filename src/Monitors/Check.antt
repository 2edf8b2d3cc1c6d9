-- ===== src/Monitors/Check.antt =====
-- internal/alerts/monitors.go: the scheduler's check of the monitors. The ids of the check-ins that it
-- writes are random, a parameter; an alert is delivered through Monitor, of which the notice stands here.
use crashcart.Base.{ℕ, false, List, [], ◌∷◌, ◌++◌, map, Option, none, some}
use crashcart.Base.Text.{Bytes, or_else}
use crashcart.Monitors.Schedule.{Time, Schedule, Parsed, ok, err}
use crashcart.Monitors.Thresholds.{Notice, notices}
use crashcart.Monitors.Slots.{advance_slots, max_rounds}
use crashcart.Monitors.Rows.{
  Monitor, MonitorCheckin, CheckinStatus, missed, timeout, get_monitor, record_monitor_result,
  insert_check_in, update_check_in, due_monitors, timed_out_check_ins,
}
use crashcart.Monitors.Receive.{
  World, MonitorTables, outcome_of, margin_of, result_params, stored_schedule,
}

-- A notice with its monitor.
abbrev pub Alert : Type 0
Alert = ℕ × Bytes × Notice

-- The tables after a step, the alerts delivered and the monitors whose stored schedule no longer parses.
pub record Checked : Type 0 where
  pub tables : MonitorTables
  pub alerts : List Alert
  pub broken : List (ℕ × Bytes)

abbrev pub alert_for : Monitor → Notice → Alert
alert_for m n = (m.project_id, m.slug, n)

-- `recordAndAlert`; a status of the scheduler is never "ok".
unfoldable pub record_and_alert : Monitor → CheckinStatus → Time → Time → MonitorTables → Checked
record_and_alert m status next now t =
    let tr = outcome_of m false in
    record {
      tables = record t {
        monitors = record_monitor_result (result_params m status tr next now) t.monitors;
      };
      alerts = map (alert_for m) (notices tr);
      broken = [];
    }

abbrev pub missed_row : Time → Bytes → Monitor → MonitorCheckin
missed_row now id m = record {
  started_at = now;
  project_id = m.project_id;
  monitor_slug = m.slug;
  check_in_id = id;
  status = missed;
  duration_s = none;
  release = none;
  environment = none;
}

-- The first slot of a monitor after now.
abbrev pub next_slot : World → Time → Monitor → Schedule → Time
next_slot w now m sched =
    advance_slots max_rounds (w.located m.timezone sched) (margin_of m) now
      (or_else m.next_expected_at now)

abbrev pub missed_by : World → Time → Bytes → Monitor → MonitorTables → Parsed → Checked
missed_by w now id m t (err e) = record {
  tables = t;
  alerts = [];
  broken = (m.project_id, m.slug) ∷ [];
}
missed_by w now id m t (ok sched) =
    record_and_alert m missed (next_slot w now m sched) now
      (record t { check_ins = insert_check_in (missed_row now id m) t.check_ins })

-- `monitorMissed`.
unfoldable pub monitor_missed : World → Time → Bytes → Monitor → MonitorTables → Checked
unfolding record_and_alert
monitor_missed w now id m t = missed_by w now id m t (stored_schedule w m)

abbrev timed_out_row : MonitorCheckin → MonitorCheckin
timed_out_row c = record c {
  status = timeout;
  duration_s = none;
  release = none;
  environment = none;
}

abbrev pub timeout_for : Time → MonitorTables → Option Monitor → Checked
timeout_for now t none = record { tables = t; alerts = []; broken = [] }
timeout_for now t (some m) = record_and_alert m timeout (or_else m.next_expected_at now) now t

-- `monitorTimeout`.
unfoldable pub monitor_timeout : Time → MonitorCheckin → MonitorTables → Checked
unfolding record_and_alert
monitor_timeout now c t =
    let marked = record t { check_ins = update_check_in (timed_out_row c) t.check_ins } in
    timeout_for now marked (get_monitor c.project_id c.monitor_slug t.monitors)

abbrev pub and_then : Checked → (MonitorTables → Checked) → Checked
and_then first next =
    let second = next first.tables in
    record {
      tables = second.tables;
      alerts = first.alerts ++ second.alerts;
      broken = first.broken ++ second.broken;
    }

unfoldable pub all_missed :
    World → Time → (Monitor → Bytes) → List Monitor → MonitorTables → Checked
unfolding monitor_missed
all_missed w now id_for [] t = record { tables = t; alerts = []; broken = [] }
all_missed w now id_for (m ∷ due) t =
    and_then (monitor_missed w now (id_for m) m t) (λ t'. all_missed w now id_for due t')

unfoldable pub all_timed_out : Time → List MonitorCheckin → MonitorTables → Checked
unfolding monitor_timeout
all_timed_out now [] t = record { tables = t; alerts = []; broken = [] }
all_timed_out now (c ∷ cs) t = and_then (monitor_timeout now c t) (λ t'. all_timed_out now cs t')

-- `CheckMonitors`: the monitors that are due, then the runs that are over time.
unfoldable pub check_monitors : World → Time → (Monitor → Bytes) → MonitorTables → Checked
unfolding all_missed all_timed_out
check_monitors w now id_for t =
    and_then (all_missed w now id_for (due_monitors now t.monitors) t)
      (λ t'. all_timed_out now (timed_out_check_ins now t'.monitors t'.check_ins) t')
