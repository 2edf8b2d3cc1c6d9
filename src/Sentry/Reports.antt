-- ===== src/Sentry/Reports.antt =====
-- internal/sentry/envelope.go: the items that are neither events nor sessions: user reports, client
-- reports and check-ins.
use crashcart.Base.{
  ℕ, suc, Bool, not, ◌||◌, List, [], ◌∷◌, map, Option, none, some, if◌then◌else◌, leb,
}
use crashcart.Base.Int.{ℤ, pos, ltb_ℤ, leb_ℤ}
use crashcart.Base.Text.{Bytes, codes, str_eq, trim_space, lower_byte, or_else}
use crashcart.Base.Print.{itoa}
use crashcart.Sentry.Json.{
  Library, Number, RawUserReport, ClientReportCount, RawMonitorConfig, RawCheckIn,
}
use crashcart.Sentry.Clean.{clean}
use crashcart.Sentry.Id.{parse_id}
use crashcart.Monitors.Schedule.{parse_schedule, ok, err, Parsed}

abbrev pub max_release : ℕ
max_release = 200

abbrev pub max_environment : ℕ
max_environment = 64

abbrev pub max_report_field : ℕ
max_report_field = 200

abbrev pub max_report_comments : ℕ
max_report_comments = 4096

pub record UserReport : Type 0 where
  pub event_id : Bytes
  pub name : Bytes
  pub email : Bytes
  pub comments : Bytes

abbrev first_id : Option Bytes → Option Bytes → Option Bytes
first_id (some id) header = some id
first_id none header = header

abbrev report_of : RawUserReport → Bytes → Option Bytes → Option UserReport
report_of raw comments none = none
report_of raw comments (some id) =
    if str_eq comments []
    then none
    else some (record {
      event_id = id;
      name = clean raw.name max_report_field;
      email = clean raw.email max_report_field;
      comments = comments;
    })

-- `parseUserReport`.
unfoldable pub parse_user_report : Library → Bytes → Bytes → Option UserReport
parse_user_report lib header_event_id body = elim (lib.user_report_of body) [
  | none ↦ none
  | some raw ↦
      report_of raw (clean raw.comments max_report_comments)
        (first_id (parse_id raw.event_id) (parse_id header_event_id))
]

abbrev pub max_client_report_entries : ℕ
max_client_report_entries = 200

abbrev pub max_client_report_field : ℕ
max_client_report_field = 200

abbrev cleaned_count : ClientReportCount → ClientReportCount
cleaned_count e = record {
  reason = clean e.reason max_client_report_field;
  category = clean e.category max_client_report_field;
  quantity = e.quantity;
}

-- The entries from index `i` on: what is kept and how many are dropped.
unfoldable pub client_report_from : ℕ → List ClientReportCount → List ClientReportCount × ℕ
client_report_from i [] = ([], 0)
client_report_from i (e ∷ es) =
    let (counts, dropped) = client_report_from (suc i) es in
    if leb_ℤ e.quantity (pos 0)
    then (counts, dropped)
    else if leb max_client_report_entries i
    then (counts, suc dropped)
    else (cleaned_count e ∷ counts, dropped)

-- `parseClientReport`.
unfoldable pub parse_client_report : Library → Bytes → List ClientReportCount × ℕ
unfolding client_report_from
parse_client_report lib body = elim (lib.client_report_of body) [
  | none ↦ ([], 1)
  | some entries ↦ client_report_from 0 entries
]

pub record MonitorConfig : Type 0 where
  pub schedule_type : Bytes
  pub schedule_value : Bytes
  pub schedule_unit : Bytes
  pub timezone : Bytes
  pub checkin_margin_min : ℤ
  pub max_runtime_min : ℤ
  pub failure_threshold : ℤ
  pub recovery_threshold : ℤ

pub record CheckIn : Type 0 where
  pub check_in_id : Bytes
  pub monitor_slug : Bytes
  pub status : Bytes
  pub duration_s : Option Number
  pub release : Bytes
  pub environment : Bytes
  pub config : Option MonitorConfig

abbrev pub max_slug : ℕ
max_slug = 200

abbrev pub max_schedule_value : ℕ
max_schedule_value = 200

abbrev pub max_timezone : ℕ
max_timezone = 64

-- The schedule's value and unit as texts, by its type.
unfoldable pub schedule_texts : Library → Bytes → RawMonitorConfig → Bytes × Bytes
schedule_texts lib typ raw =
    if str_eq typ (codes "crontab")
    then (or_else (lib.text_of raw.schedule_value) [], [])
    else if str_eq typ (codes "interval")
    then (
      elim (lib.number_of raw.schedule_value) [ none ↦ [] | some n ↦ itoa (lib.to_int n) ],
      map lower_byte (trim_space raw.schedule_unit),
    )
    else ([], [])

-- A number of minutes above 0, or the default.
abbrev minutes_or : Library → ℤ → Option Number → ℤ
minutes_or lib default none = default
minutes_or lib default (some n) = if n.positive then lib.to_int32 n else default

abbrev positive_or : ℤ → Option ℤ → ℤ
positive_or default none = default
positive_or default (some n) = if ltb_ℤ (pos 0) n then n else default

unfoldable pub config_of :
    Library → RawMonitorConfig → Bytes → Bytes → Bytes → Bytes → MonitorConfig
config_of lib raw typ value unit tz = record {
  schedule_type = typ;
  schedule_value = value;
  schedule_unit = unit;
  timezone = tz;
  checkin_margin_min = minutes_or lib (pos 1) raw.checkin_margin;
  max_runtime_min = minutes_or lib (pos 30) raw.max_runtime;
  failure_threshold = positive_or (pos 1) raw.failure_issue_threshold;
  recovery_threshold = positive_or (pos 1) raw.recovery_threshold;
}

-- The time zone: UTC if there is none.
abbrev pub zoned : Library → (Bytes → MonitorConfig) → Bytes → Option MonitorConfig
zoned lib config tz =
    if str_eq tz []
    then some (config (codes "UTC"))
    else if lib.load_location tz
    then some (config tz)
    else none

abbrev pub if_scheduled : Parsed → Option MonitorConfig → Option MonitorConfig
if_scheduled (err e) config = none
if_scheduled (ok s) config = config

-- `parseMonitorConfig`.
unfoldable pub parse_monitor_config : Library → RawMonitorConfig → Option MonitorConfig
unfolding schedule_texts config_of
parse_monitor_config lib raw =
    let typ = map lower_byte (trim_space raw.schedule_type) in
    let (text, unit) = schedule_texts lib typ raw in
    let value = clean text max_schedule_value in
    if_scheduled (parse_schedule lib.parse_cron typ value unit)
      (zoned lib (λ tz. config_of lib raw typ value unit tz) (clean raw.timezone max_timezone))

unfoldable pub valid_check_in_status : Bytes → Bool
valid_check_in_status s =
    str_eq s (codes "in_progress") || str_eq s (codes "ok") || str_eq s (codes "error")

abbrev check_in_at : Library → RawCheckIn → Bytes → Option Bytes → Option CheckIn
check_in_at lib raw slug none = none
check_in_at lib raw slug (some id) = some (record {
  check_in_id = id;
  monitor_slug = slug;
  status = raw.status;
  duration_s = raw.duration;
  release = clean raw.release max_release;
  environment = clean raw.environment max_environment;
  config = elim raw.monitor_config [ none ↦ none | some c ↦ parse_monitor_config lib c ];
})

check_in_from : Library → RawCheckIn → Bytes → Option CheckIn
check_in_from lib raw slug =
    if str_eq slug [] || not (valid_check_in_status raw.status)
    then none
    else check_in_at lib raw slug (parse_id raw.check_in_id)

-- `parseCheckIn`.
unfoldable pub parse_check_in : Library → Bytes → Option CheckIn
unfolding check_in_from valid_check_in_status
parse_check_in lib body = elim (lib.check_in_of body) [
  | none ↦ none
  | some raw ↦ check_in_from lib raw (clean raw.monitor_slug max_slug)
]
