-- ===== src/Monitors/Runs.antt =====
-- The rows of check-ins: receiving a check-in keeps those of one run in one row.
use mathlib.Core.Path.{subst}
use crashcart.Base.{
  ℕ, suc, length, ◌≤◌, ◌≡◌, refl, sym, ap, ◌∙◌, Bool, true, false, List, [], ◌∷◌, Option, none,
  some, arith, keep, count, Bool-cases, inl, inr, count-append,
}
use crashcart.Base.Text.{Bytes, str_eq, str_eq_iff, str_eq_refl}
use crashcart.Sentry.Reports.{CheckIn}
use crashcart.Monitors.Schedule.{Time, Parsed, ok, err}
use crashcart.Monitors.Thresholds.{Notice}
use crashcart.Monitors.Rows.{
  Monitor, MonitorCheckin, same_check_in, updated_check_in, update_check_in, insert_check_in,
  may_update, latest_row, newer, find_open_check_in,
}
use crashcart.Monitors.Receive.{
  World, MonitorTables, Received, received, schedule_broken, check_in_row, store_check_in,
  write_check_in, zero_check_in_id, receive_check_in, receive_for, advance_monitor, is_terminal,
  stored_schedule, monitor_for,
}

-- A row of one run of a monitor.
unfoldable pub same_run : ℕ → Bytes → Bytes → MonitorCheckin → Bool
unfolding may_update
same_run project slug id c = may_update project slug false id c

-- At most one row per run.
abbrev pub HasOneRow : List MonitorCheckin → Type 0
HasOneRow rows = (project : ℕ) (slug id : Bytes) → count (same_run project slug id) rows ≤ 1

same_run-updated :
    (p : MonitorCheckin) (project : ℕ) (slug id : Bytes) (c : MonitorCheckin)
    → same_run project slug id (updated_check_in p c) ≡ same_run project slug id c
unfolding same_run updated_check_in
same_run-updated p project slug id c = refl

count-update_check_in :
    (p : MonitorCheckin) (project : ℕ) (slug id : Bytes) (rows : List MonitorCheckin)
    → count (same_run project slug id) (update_check_in p rows)
      ≡ count (same_run project slug id) rows
unfolding update_check_in
count-update_check_in p project slug id [] = refl
count-update_check_in p project slug id (c ∷ rows) = elim (Bool-cases (same_check_in p c)) [
  | inl e ↦
      rw (e, same_run-updated p project slug id c, count-update_check_in p project slug id rows)
        refl
  | inr e ↦ rw (e, count-update_check_in p project slug id rows) refl
]

newer-none :
    (c : MonitorCheckin) (o : Option MonitorCheckin) (rows : List MonitorCheckin)
    → newer c o ≡ none
    → rows ≡ []
newer-none c none rows h = ground arith
newer-none c (some d) rows h = ground arith

latest_row-none : (rows : List MonitorCheckin) → latest_row rows ≡ none → rows ≡ []
unfolding latest_row
latest_row-none [] h = refl
latest_row-none (c ∷ rows) h = newer-none c (latest_row rows) (c ∷ rows) h

length-keep :
    (q : MonitorCheckin → Bool) (rows : List MonitorCheckin) → length (keep q rows) ≡ count q rows
length-keep q [] = refl
length-keep q (c ∷ rows) = elim (Bool-cases (q c)) [
  | inl e ↦ rw e (ap suc (length-keep q rows))
  | inr e ↦ rw e (length-keep q rows)
]

-- A run that no row is found for has none.
no_run :
    (project : ℕ) (slug id : Bytes) (rows : List MonitorCheckin)
    → find_open_check_in project slug false id rows ≡ none
    → count (same_run project slug id) rows ≡ 0
unfolding find_open_check_in same_run
no_run project slug id rows h =
    sym (length-keep (may_update project slug false id) rows)
    ∙ ap length (latest_row-none (keep (may_update project slug false id) rows) h)

-- Two keys that one row has are the same key.
same_run-agree :
    (project other : ℕ) (slug thing id key : Bytes) (c : MonitorCheckin)
    → same_run project slug id c ≡ true
    → same_run other thing key c ≡ true
    → (project ≡ other) × (slug ≡ thing) × (id ≡ key)
unfolding same_run may_update
same_run-agree project other slug thing id key c h k = ground (
  arith,
  str_eq_iff slug c.monitor_slug,
  str_eq_iff thing c.monitor_slug,
  str_eq_iff id c.check_in_id,
  str_eq_iff key c.check_in_id,
)

module _ (w : World) (project : ℕ) (now : Time) (ci : CheckIn) where
  own_run :
      same_run project ci.monitor_slug ci.check_in_id (check_in_row w project now ci.check_in_id ci)
      ≡ true
  unfolding same_run may_update check_in_row
  own_run = rw (str_eq_refl ci.monitor_slug, str_eq_refl ci.check_in_id) (ground arith)

  insert-HasOneRow :
      (rows : List MonitorCheckin)
      → HasOneRow rows
      → find_open_check_in project ci.monitor_slug false ci.check_in_id rows ≡ none
      → HasOneRow (insert_check_in (check_in_row w project now ci.check_in_id ci) rows)
  unfolding insert_check_in
  insert-HasOneRow rows one h other slug id =
      let row = check_in_row w project now ci.check_in_id ci in
      rw count-append (elim (Bool-cases (same_run other slug id row)) [
        | inl mine ↦
            let (p, s, i) =
              same_run-agree other project slug ci.monitor_slug id ci.check_in_id row mine
                own_run in
            let nothing : count (same_run other slug id) rows ≡ 0 =
              rw (p, s, i) (no_run project ci.monitor_slug ci.check_in_id rows h) in
            ground (arith, nothing)
        | inr elsewhere ↦ ground (arith, one other slug id)
      ])

  store_check_in-HasOneRow :
      (zero : Bool) (rows : List MonitorCheckin) (o : Option MonitorCheckin)
      → find_open_check_in project ci.monitor_slug zero ci.check_in_id rows ≡ o
      → HasOneRow rows
      → HasOneRow (store_check_in w project now zero ci rows o)
  store_check_in-HasOneRow zero rows (some c) h one other slug id =
      rw
        (count-update_check_in (check_in_row w project c.started_at c.check_in_id ci) other slug id
          rows)
        (one other slug id)
  store_check_in-HasOneRow true rows none h one other slug id = one other slug id
  store_check_in-HasOneRow false rows none h one other slug id =
      insert-HasOneRow rows one h other slug id

  write_check_in-HasOneRow :
      (rows : List MonitorCheckin)
      → HasOneRow rows
      → HasOneRow (write_check_in w project now ci rows)
  unfolding write_check_in
  write_check_in-HasOneRow rows one =
      let zero = str_eq ci.check_in_id zero_check_in_id in
      store_check_in-HasOneRow zero rows
        (find_open_check_in project ci.monitor_slug zero ci.check_in_id rows) refl one

-- The tables after a check-in that was received.
abbrev Kept : Received → Type 0
Kept (received t ns) = HasOneRow t.check_ins
Kept schedule_broken = Unit

module _ (w : World) (project : ℕ) (now : Time) (ci : CheckIn) where
  advance_monitor-Kept :
      (m : Monitor) (monitors : List Monitor) (rows : List MonitorCheckin) (s : Parsed)
      → HasOneRow rows
      → Kept (advance_monitor w now ci m monitors rows s)
  advance_monitor-Kept m monitors rows (err e) one = tt
  advance_monitor-Kept m monitors rows (ok s) one = one

  receive_for-Kept :
      (monitors : List Monitor) (rows : List MonitorCheckin) (o : Option Monitor)
      → HasOneRow rows
      → Kept (receive_for w project now ci monitors rows o)
  receive_for-Kept monitors rows none one = one
  receive_for-Kept monitors rows (some m) one =
      let written = write_check_in w project now ci rows in
      let kept = write_check_in-HasOneRow w project now ci rows one in
      elim (Bool-cases (is_terminal ci)) [
        | inl e ↦ rw e (advance_monitor-Kept m monitors written (stored_schedule w m) kept)
        | inr e ↦ rw e kept
      ]

-- The check-ins of one run stand in one row: if no run of a monitor has two rows, none has after a
-- check-in is received, whatever its id (also the all-zero one), its status and its configuration.
pub receive_check_in-one_row :
    (w : World) (project : ℕ) (now : Time) (ci : CheckIn) (t after : MonitorTables)
    (ns : List Notice)
    → HasOneRow t.check_ins
    → receive_check_in w project now ci t ≡ received after ns
    → HasOneRow after.check_ins
unfolding receive_check_in
receive_check_in-one_row w project now ci t after ns one h =
    let found = monitor_for project now ci t.monitors in
    subst Kept h (
      receive_for-Kept w project now ci (monitor_for project now ci t.monitors).0 t.check_ins
        (monitor_for project now ci t.monitors).1 one)
