-- ===== src/Monitors/Missed.antt =====
-- A missed slot: when the check of a monitor leaves it no longer due.
use crashcart.Base.{
  ℕ, ◌*◌, ◌≡◌, refl, false, List, [], ◌∷◌, ◌++◌, some, arith, count, Bool-cases, inl, inr,
}
use crashcart.Base.Int.{pos, ◌+ℤ◌, ◌≤ℤ◌, ◌<ℤ◌}
use crashcart.Base.Text.{Bytes}
use crashcart.Monitors.Schedule.{Time, Schedule, ok}
use crashcart.Monitors.Slots.{advance_slots, advance_slots-first, max_rounds}
use crashcart.Monitors.Rows.{
  Monitor, RecordMonitorResultParams, same_monitor, with_result, record_monitor_result,
  due_monitors, is_before, missed, insert_check_in,
}
use crashcart.Monitors.Receive.{
  World, MonitorTables, stored_schedule, margin_of, result_params, outcome_of,
}
use crashcart.Monitors.Check.{monitor_missed, missed_row, record_and_alert}

same_monitor-with_result :
    (p : RecordMonitorResultParams) (project : ℕ) (slug : Bytes) (m : Monitor)
    → same_monitor project slug (with_result p m) ≡ same_monitor project slug m
unfolding same_monitor with_result
same_monitor-with_result p project slug m = refl

later_not_due :
    (p : RecordMonitorResultParams) (now : Time) (m : Monitor)
    → now <ℤ p.next_expected_at
    → is_before now (with_result p m).next_expected_at ≡ false
unfolding with_result
later_not_due p now m h = ground arith

result-not_due :
    (p : RecordMonitorResultParams) (now : Time) (rows : List Monitor)
    → now <ℤ p.next_expected_at
    → count (same_monitor p.project_id p.slug) (due_monitors now (record_monitor_result p rows)) ≡ 0
unfolding due_monitors record_monitor_result
result-not_due p now [] h = refl
result-not_due p now (m ∷ rows) h = elim (Bool-cases (same_monitor p.project_id p.slug m)) [
  | inl e ↦ rw (e, later_not_due p now m h) (result-not_due p now rows h)
  | inr e ↦ elim (Bool-cases (is_before now m.next_expected_at)) [
    | inl b ↦ rw (e, b, e) (result-not_due p now rows h)
    | inr b ↦ rw (e, b) (result-not_due p now rows h)
  ]
]

-- After `monitorMissed` the monitor is no longer due, and its history has one more row, for every
-- stored schedule whose times lie at least a step apart, if 10000 steps cover the time since the slot
-- that was missed and the margin, as the int64 that it wraps to, is not negative.
pub monitor_missed-not_due :
    (w : World) (now next : Time) (id : Bytes) (m : Monitor) (t : MonitorTables) (sched : Schedule)
    (step : ℕ)
    → stored_schedule w m ≡ ok sched
    → m.next_expected_at ≡ some next
    → ((at : Time) → at +ℤ pos step ≤ℤ w.located m.timezone sched at)
    → pos 0 ≤ℤ margin_of m
    → now <ℤ next +ℤ pos (10000 * step)
    → let after = (monitor_missed w now id m t).tables in
      (count (same_monitor m.project_id m.slug) (due_monitors now after.monitors) ≡ 0)
      × (after.check_ins ≡ t.check_ins ++ missed_row now id m ∷ [])
unfolding monitor_missed record_and_alert insert_check_in result_params
monitor_missed-not_due w now next id m t sched step h n grows margin reach =
    let (later, more) =
      advance_slots-first (w.located m.timezone sched) (margin_of m) now step 10000 next grows
        margin reach in
    rw (h, n)
      (
        result-not_due
            (result_params m missed (outcome_of m false)
              (advance_slots max_rounds (w.located m.timezone sched) (margin_of m) now next) now)
            now t.monitors later,
        refl,
      )
