-- ===== src/Monitors/Accepted.antt =====
-- What the parser of a monitor's configuration accepts, the stored monitor computes with.
use mathlib.Core.Path.{subst}
use crashcart.Base.{
  ℕ, zero, suc, ◌≡◌, ◌≢◌, refl, sym, ◌∙◌, true, false, List, [], map, Option, none, some, arith,
  Bool-cases, inl, inr, find_row,
}
use crashcart.Base.Int.{ℤ}
use crashcart.Base.Text.{Bytes, codes, str_eq, str_eq_iff, trim_space, drop_spaces, lower_byte}
use crashcart.Sentry.Json.{Library, RawMonitorConfig}
use crashcart.Sentry.Clean.{clean}
use crashcart.Sentry.Reports.{
  CheckIn, MonitorConfig, parse_monitor_config, schedule_texts, config_of, zoned, if_scheduled,
  max_schedule_value, max_timezone,
}
use crashcart.Ingest.Prepare.{nil_if_empty}
use crashcart.Monitors.Schedule.{
  Time, Schedule, Parsed, ok, err, parse_schedule, parse_interval, interval_case, interval_unit,
  atoi, bad_schedule_type,
}
use crashcart.Monitors.Rows.{
  Monitor, MonitorCheckin, UpsertMonitorParams, upsert_monitor, write_monitor, new_monitor,
  configured, same_monitor,
}
use crashcart.Monitors.Receive.{
  World, MonitorTables, Received, received, schedule_broken, receive_check_in, receive_for,
  monitor_for, upsert_params, stored_schedule, deref, write_check_in, advance_monitor, is_terminal,
}

-- An optional column gives back the text, which is empty or no blank.
abbrev IsKeptUnit : Bytes → Type 0
IsKeptUnit unit = deref (nil_if_empty unit) ≡ unit

unnamed_unit :
    (unit : Bytes)
    → str_eq unit (codes "minute") ≡ false
    → str_eq unit (codes "hour") ≡ false
    → str_eq unit (codes "day") ≡ false
    → str_eq unit (codes "week") ≡ false
    → interval_unit unit ≡ none
unfolding interval_unit
unnamed_unit unit minute hour day week = rw (minute, hour, day, week) refl

-- The units that are known are not blank.
minute_unit : IsKeptUnit (codes "minute")
unfolding nil_if_empty trim_space drop_spaces str_eq
minute_unit = refl

hour_unit : IsKeptUnit (codes "hour")
unfolding nil_if_empty trim_space drop_spaces str_eq
hour_unit = refl

day_unit : IsKeptUnit (codes "day")
unfolding nil_if_empty trim_space drop_spaces str_eq
day_unit = refl

week_unit : IsKeptUnit (codes "week")
unfolding nil_if_empty trim_space drop_spaces str_eq
week_unit = refl

blank_unit : IsKeptUnit []
unfolding nil_if_empty trim_space drop_spaces str_eq
blank_unit = refl

kept_as : (unit known : Bytes) → str_eq unit known ≡ true → IsKeptUnit known → IsKeptUnit unit
kept_as unit known e k = subst IsKeptUnit (sym ((str_eq_iff unit known).0 e)) k

absurd_unit :
    (unit : Bytes) (d : ℤ)
    → interval_unit unit ≡ none
    → interval_unit unit ≡ some d
    → IsKeptUnit unit
absurd_unit unit d e h = let bad : none ≡ some d = sym e ∙ h in ground arith

named_unit : (unit : Bytes) (d : ℤ) → interval_unit unit ≡ some d → IsKeptUnit unit
named_unit unit d h = elim (Bool-cases (str_eq unit (codes "minute"))) [
  | inl e ↦ kept_as unit (codes "minute") e minute_unit
  | inr minute ↦ elim (Bool-cases (str_eq unit (codes "hour"))) [
    | inl e ↦ kept_as unit (codes "hour") e hour_unit
    | inr hour ↦ elim (Bool-cases (str_eq unit (codes "day"))) [
      | inl e ↦ kept_as unit (codes "day") e day_unit
      | inr day ↦ elim (Bool-cases (str_eq unit (codes "week"))) [
        | inl e ↦ kept_as unit (codes "week") e week_unit
        | inr week ↦ absurd_unit unit d (unnamed_unit unit minute hour day week) h
      ]
    ]
  ]
]

no_schedule : (n : ℤ) (s : Schedule) → interval_case (some n) none ≡ ok s → zero ≡ suc zero
unfolding interval_case
no_schedule n s h = ground arith

interval_unit-found :
    (n o : Option ℤ) (unit : Bytes) (s : Schedule)
    → interval_unit unit ≡ o
    → interval_case n o ≡ ok s
    → IsKeptUnit unit
interval_unit-found none o unit s e h = unfold interval_case in ground arith
interval_unit-found (some n) none unit s e h = ground (arith, no_schedule n s h)
interval_unit-found (some n) (some d) unit s e h = named_unit unit d e

-- The unit of a schedule that parses is kept: a crontab has none.
parsed_unit :
    (cron : Bytes → Option Schedule) (typ value unit : Bytes) (s : Schedule)
    → (str_eq typ (codes "crontab") ≡ true → unit ≡ [])
    → parse_schedule cron typ value unit ≡ ok s
    → IsKeptUnit unit
parsed_unit cron typ value unit s blank h = elim (Bool-cases (str_eq typ (codes "crontab"))) [
  | inl e ↦ subst IsKeptUnit (sym (blank e)) blank_unit
  | inr not_cron ↦ elim (Bool-cases (str_eq typ (codes "interval"))) [
    | inl e ↦
        let as_interval : parse_schedule cron typ value unit
            ≡ interval_case (atoi value) (interval_unit unit) =
          unfold parse_schedule parse_interval in rw (not_cron, e) refl in
        interval_unit-found (atoi value) (interval_unit unit) unit s refl (sym as_interval ∙ h)
    | inr e ↦
        let as_error : parse_schedule cron typ value unit ≡ err bad_schedule_type =
          unfold parse_schedule in rw (not_cron, e) refl in
        not_ok unit (sym as_error ∙ h)
  ]
]
  where
    not_ok : (unit : Bytes) → err bad_schedule_type ≡ ok s → IsKeptUnit unit
    not_ok unit bad = ground arith

-- A configuration whose schedule parses, with a unit that a column keeps.
abbrev IsUsable : (Bytes → Option Schedule) → MonitorConfig → Type 0
IsUsable cron cfg =
    ((s : Schedule) × (parse_schedule cron cfg.schedule_type cfg.schedule_value cfg.schedule_unit
        ≡ ok s))
    × IsKeptUnit cfg.schedule_unit

abbrev Usable : (Bytes → Option Schedule) → Option MonitorConfig → Type 0
Usable cron none = Unit
Usable cron (some cfg) = IsUsable cron cfg

module _ (lib : Library) (raw : RawMonitorConfig) where
  zoned-Usable :
      (typ value unit tz : Bytes) (s : Schedule)
      → parse_schedule lib.parse_cron typ value unit ≡ ok s
      → IsKeptUnit unit
      → Usable lib.parse_cron (zoned lib (λ tz. config_of lib raw typ value unit tz) tz)
  unfolding config_of
  zoned-Usable typ value unit tz s e k = elim (Bool-cases (str_eq tz [])) [
    | inl b ↦ rw b ((s, e), k)
    | inr b ↦ elim (Bool-cases (lib.load_location tz)) [
      | inl l ↦ rw (b, l) ((s, e), k)
      | inr l ↦ rw (b, l) tt
    ]
  ]

  if_scheduled-Usable :
      (typ value unit tz : Bytes) (r : Parsed)
      → parse_schedule lib.parse_cron typ value unit ≡ r
      → (str_eq typ (codes "crontab") ≡ true → unit ≡ [])
      → Usable lib.parse_cron
          (if_scheduled r (zoned lib (λ tz. config_of lib raw typ value unit tz) tz))
  if_scheduled-Usable typ value unit tz (err e) h blank = tt
  if_scheduled-Usable typ value unit tz (ok s) h blank =
      zoned-Usable typ value unit tz s h (parsed_unit lib.parse_cron typ value unit s blank h)

  crontab_unit :
      (typ : Bytes) → str_eq typ (codes "crontab") ≡ true → (schedule_texts lib typ raw).1 ≡ []
  unfolding schedule_texts
  crontab_unit typ e = rw e refl

  parse_monitor_config-Usable : Usable lib.parse_cron (parse_monitor_config lib raw)
  unfolding parse_monitor_config
  parse_monitor_config-Usable =
      let typ = map lower_byte (trim_space raw.schedule_type) in
      let texts = schedule_texts lib typ raw in
      let value = clean texts.0 max_schedule_value in
      if_scheduled-Usable typ value texts.1 (clean raw.timezone max_timezone)
        (parse_schedule lib.parse_cron typ value texts.1) refl (crontab_unit typ)

-- The row of a configuration has its schedule.
abbrev HasSchedule : UpsertMonitorParams → Monitor → Type 0
HasSchedule p m =
    (m.schedule_type ≡ p.schedule_type)
    × (m.schedule_value ≡ p.schedule_value)
    × (m.schedule_unit ≡ p.schedule_unit)

write_monitor-HasSchedule :
    (now : Time) (p : UpsertMonitorParams) (rows : List Monitor) (o : Option Monitor)
    → HasSchedule p (write_monitor now p rows o).1
unfolding new_monitor configured
write_monitor-HasSchedule now p rows none = (refl, refl, refl)
write_monitor-HasSchedule now p rows (some m) = (refl, refl, refl)

upsert_monitor-HasSchedule :
    (now : Time) (p : UpsertMonitorParams) (rows : List Monitor)
    → HasSchedule p (upsert_monitor now p rows).1
unfolding upsert_monitor
upsert_monitor-HasSchedule now p rows =
    write_monitor-HasSchedule now p rows (find_row (same_monitor p.project_id p.slug) rows)

same_schedule :
    (w : World) (project : ℕ) (ci : CheckIn) (cfg : MonitorConfig) (m : Monitor)
    → HasSchedule (upsert_params project ci cfg) m
    → IsKeptUnit cfg.schedule_unit
    → stored_schedule w m
      ≡ parse_schedule w.parse_cron cfg.schedule_type cfg.schedule_value cfg.schedule_unit
unfolding upsert_params
same_schedule w project ci cfg m (ty, v, u) k = rw (ty, v, u, k) refl

IsReceived : Received → Type 0
IsReceived (received t ns) = Unit
IsReceived schedule_broken = zero ≡ suc zero

module _ (w : World) (project : ℕ) (now : Time) (ci : CheckIn) where
  advance_monitor-IsReceived :
      (m : Monitor) (monitors : List Monitor) (rows : List MonitorCheckin) (r : Parsed)
      (s : Schedule)
      → r ≡ ok s
      → IsReceived (advance_monitor w now ci m monitors rows r)
  unfolding IsReceived
  advance_monitor-IsReceived m monitors rows (ok r) s h = tt
  advance_monitor-IsReceived m monitors rows (err e) s h = ground arith

  receive_for-IsReceived :
      (monitors : List Monitor) (rows : List MonitorCheckin) (m : Monitor) (s : Schedule)
      → stored_schedule w m ≡ ok s
      → IsReceived (receive_for w project now ci monitors rows (some m))
  receive_for-IsReceived monitors rows m s h =
      let written = write_check_in w project now ci rows in
      elim (Bool-cases (is_terminal ci)) [
        | inl e ↦ rw e (advance_monitor-IsReceived m monitors written (stored_schedule w m) s h)
        | inr e ↦ rw e (unfold IsReceived in tt)
      ]

  configured-IsReceived :
      (cfg : MonitorConfig) (t : MonitorTables)
      → ci.config ≡ some cfg
      → IsUsable w.parse_cron cfg
      → IsReceived (receive_check_in w project now ci t)
  unfolding receive_check_in monitor_for
  configured-IsReceived cfg t c ((s, e), k) =
      let row = upsert_monitor now (upsert_params project ci cfg) t.monitors in
      let kept =
        same_schedule w project ci cfg row.1
          (upsert_monitor-HasSchedule now (upsert_params project ci cfg) t.monitors) k in
      rw c (receive_for-IsReceived row.0 t.check_ins row.1 s (kept ∙ e))

-- A check-in whose configuration the parser accepted is always received: the schedule that validates
-- there is the one that the stored monitor computes with, whatever monitor was stored before.
pub accepted-never_broken :
    (lib : Library) (raw : RawMonitorConfig) (cfg : MonitorConfig) (w : World) (project : ℕ)
    (now : Time) (ci : CheckIn) (t : MonitorTables)
    → w.parse_cron ≡ lib.parse_cron
    → parse_monitor_config lib raw ≡ some cfg
    → ci.config ≡ some cfg
    → receive_check_in w project now ci t ≢ schedule_broken
accepted-never_broken lib raw cfg w project now ci t same h c broken =
    let usable : IsUsable w.parse_cron cfg =
      subst (λ cron. IsUsable cron cfg) (sym same)
        (subst (Usable lib.parse_cron) h (parse_monitor_config-Usable lib raw)) in
    let zero_one : zero ≡ suc zero =
      not_both (receive_check_in w project now ci t)
        (configured-IsReceived w project now ci cfg t c usable) broken in
    ground arith
  where
    not_both : (r : Received) → IsReceived r → r ≡ schedule_broken → zero ≡ suc zero
    not_both (received after ns) i b = ground arith
    not_both schedule_broken i b = unfold IsReceived in i
