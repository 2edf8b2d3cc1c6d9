-- ===== src/Sentry/Json.antt =====
-- internal/sentry/envelope.go: the documents as decoded. The decoder is the language's encoding/json,
-- a parameter that gives for a text the values of the fields named here (absent ones empty).
use crashcart.Base.{ℕ, Bool, List, [], ◌∷◌, Option, none, some, if◌then◌else◌, ◌==◌}
use crashcart.Base.Int.{ℤ}
use crashcart.Base.Text.{Bytes, codes, str_eq, trim_space}
use crashcart.Sentry.Frame.{Frame, DebugImage}
use crashcart.Monitors.Schedule.{Schedule}

-- A decoding: not the syntax; a field of another type, which the decoder drops; or all of it.
pub data Decoded (A : Type 0) : Type 0 where
  malformed : Decoded A
  mistyped : A → Decoded A
  decoded : A → Decoded A

-- `json.Unmarshal(…) == nil`.
abbrev pub strict : {A : Type 0} → Decoded A → Option A
strict malformed = none
strict (mistyped a) = none
strict (decoded a) = some a

-- `typeErrorsDropped`: any document of the right syntax.
abbrev pub type_errors_dropped : {A : Type 0} → Decoded A → Option A
type_errors_dropped malformed = none
type_errors_dropped (mistyped a) = some a
type_errors_dropped (decoded a) = some a

-- A float64: whether it is above 0, and of one that is, its whole part and the nanoseconds after it.
pub record Number : Type 0 where
  pub positive : Bool
  pub whole : ℕ
  pub nanos : ℕ

pub record ItemHeader : Type 0 where
  pub item_type : Bytes
  pub item_length : Option ℤ
  pub filename : Bytes
  pub content_type : Bytes
  pub attachment_type : Bytes

pub record EnvelopeHeader : Type 0 where
  pub event_id : Bytes
  pub sent_at : Bytes

pub record RawMechanism : Type 0 where
  pub mechanism_type : Bytes
  pub handled : Option Bool
  pub exception_id : Option ℤ
  pub parent_id : Option ℤ

-- A stack trace is its frames.
pub record RawException : Type 0 where
  pub error_type : Bytes
  pub value : Bytes
  pub stacktrace : Option (List Frame)
  pub mechanism : Option RawMechanism

pub record RawThread : Type 0 where
  pub crashed : Bool
  pub current : Bool
  pub stacktrace : Option (List Frame)

pub record RawBreadcrumb : Type 0 where
  pub timestamp : Bytes
  pub breadcrumb_type : Bytes
  pub category : Bytes
  pub message : Bytes
  pub level : Bytes
  pub data_json : Bytes

-- The two texts of a `logentry`, or of a message object.
pub record Formatted : Type 0 where
  pub formatted : Bytes
  pub message : Bytes

-- The contexts are their two fields; the value lists are as `valuesOf` reads them.
pub record RawEvent : Type 0 where
  pub event_id : Bytes
  pub timestamp : Bytes
  pub level : Bytes
  pub message : Bytes
  pub logentry : Option Formatted
  pub platform : Bytes
  pub environment : Bytes
  pub release : Bytes
  pub transaction : Bytes
  pub server_name : Bytes
  pub tags : Bytes
  pub breadcrumbs : List RawBreadcrumb
  pub fingerprint : List Bytes
  pub device_model : Option Bytes
  pub os_version : Option Bytes
  pub exceptions : List RawException
  pub threads : List RawThread
  pub debug_images : Option (List DebugImage)
  pub sdk_name : Option Bytes
  pub user_id : Option Bytes

pub record RawAttrs : Type 0 where
  pub release : Bytes
  pub environment : Bytes

pub record RawSession : Type 0 where
  pub sid : Bytes
  pub status : Bytes
  pub errors : ℤ
  pub release : Bytes
  pub started : Bytes
  pub attrs : Option RawAttrs
  pub environment : Bytes

pub record RawSessionAggregate : Type 0 where
  pub started : Bytes
  pub exited : ℤ
  pub errored : ℤ
  pub crashed : ℤ
  pub abnormal : ℤ

pub record RawSessions : Type 0 where
  pub aggregates : List RawSessionAggregate
  pub attrs : Option RawAttrs
  pub items : List RawSession

pub record RawUserReport : Type 0 where
  pub event_id : Bytes
  pub name : Bytes
  pub email : Bytes
  pub comments : Bytes

pub record ClientReportCount : Type 0 where
  pub reason : Bytes
  pub category : Bytes
  pub quantity : ℤ

pub record RawMonitorConfig : Type 0 where
  pub schedule_type : Bytes
  pub schedule_value : Bytes
  pub schedule_unit : Bytes
  pub checkin_margin : Option Number
  pub max_runtime : Option Number
  pub failure_issue_threshold : Option ℤ
  pub recovery_threshold : Option ℤ
  pub timezone : Bytes

pub record RawCheckIn : Type 0 where
  pub check_in_id : Bytes
  pub monitor_slug : Bytes
  pub status : Bytes
  pub duration : Option Number
  pub release : Bytes
  pub environment : Bytes
  pub monitor_config : Option RawMonitorConfig

-- What the parser calls of encoding/json, time, crypto/sha256 and robfig/cron, and Go's conversions of
-- a float64. The entries of a map stand in the order in which it is walked.
pub record Library : Type 0 where
  pub text_of : Bytes → Option Bytes
  pub number_of : Bytes → Option Number
  pub formatted_of : Bytes → Option Formatted
  pub object_of : Bytes → Option (List (Bytes × Bytes))
  pub arrays_of : Bytes → Option (List (List Bytes))
  pub envelope_header_of : Bytes → Option EnvelopeHeader
  pub item_header_of : Bytes → Option ItemHeader
  pub event_of : Bytes → Decoded RawEvent
  pub session_of : Bytes → Option RawSession
  pub sessions_of : Bytes → Option RawSessions
  pub user_report_of : Bytes → Option RawUserReport
  pub client_report_of : Bytes → Option (List ClientReportCount)
  pub check_in_of : Bytes → Option RawCheckIn
  pub parse_time : Bytes → Bytes → Option ℕ
  pub format_rfc3339 : ℕ → Bytes
  pub load_location : Bytes → Bool
  pub sha256 : Bytes → Bytes
  pub parse_cron : Bytes → Option Schedule
  pub to_int : Number → ℤ
  pub to_int32 : Number → ℤ

-- `valuesOf.UnmarshalJSON`, over the decoders of an array and of an object with the field "values";
-- `none` is an error, and a value that is null stays as it was.
unfoldable pub unmarshal_values :
    {T : Type 0}
    → (Bytes → Decoded (List T))
    → (Bytes → Decoded (List T))
    → List T
    → Bytes
    → Option (List T)
unmarshal_values array object was b = elim (trim_space b) [
  | [] ↦ some was
  | c ∷ s ↦
      if str_eq (c ∷ s) (codes "null")
      then some was
      else if c == b'['
      then type_errors_dropped (array (c ∷ s))
      else type_errors_dropped (object (c ∷ s))
]
