-- ===== src/Sentry/Sessions.antt =====
-- internal/sentry/envelope.go: session items and session aggregates.
use crashcart.Base.{
  ℕ, zero, suc, Bool, not, ◌&&◌, ◌||◌, List, [], ◌∷◌, ◌++◌, Option, none, some, if◌then◌else◌, min,
}
use crashcart.Base.Int.{ℤ, pos, negsuc, ltb_ℤ}
use crashcart.Base.Text.{Bytes, codes, str_eq}
use crashcart.Sentry.Json.{Library, RawAttrs, RawSession, RawSessionAggregate, RawSessions}
use crashcart.Sentry.Clean.{clean, or_default_text}
use crashcart.Sentry.Times.{parse_timestamp, or_time, clamp_future}
use crashcart.Sentry.Reports.{max_release, max_environment}

-- A session, or a row of an aggregate, which stands for `count` sessions.
pub record Session : Type 0 where
  pub sid : Bytes
  pub release : Bytes
  pub environment : Bytes
  pub status : Bytes
  pub started_at : ℕ
  pub count : ℕ

abbrev pub max_session_id : ℕ
max_session_id = 128

abbrev pub max_int32 : ℕ
max_int32 = 2147483647

-- `validSessionStatus`.
unfoldable pub valid_session_status : Bytes → Bool
valid_session_status s =
    str_eq s (codes "ok")
    || str_eq s (codes "exited")
    || str_eq s (codes "crashed")
    || str_eq s (codes "errored")
    || str_eq s (codes "abnormal")

abbrev attr_release : Option RawAttrs → Bytes
attr_release none = []
attr_release (some a) = a.release

abbrev attr_environment : Option RawAttrs → Bytes
attr_environment none = []
attr_environment (some a) = a.environment

-- When a session began: now if it does not say, and not in the future.
abbrev pub started_time : Library → Bytes → ℕ → ℕ
started_time lib raw now = (clamp_future (or_time (parse_timestamp lib raw) now) now).0

-- A session that ended well but saw errors is an errored one.
unfoldable pub derived_status : RawSession → Bytes
derived_status s =
    if ltb_ℤ (pos 0) s.errors && (str_eq s.status (codes "ok") || str_eq s.status (codes "exited"))
    then codes "errored"
    else s.status

-- `sessionFrom`.
unfoldable pub session_from : Library → RawSession → ℕ → Option Session
session_from lib s now =
    let release = clean (or_default_text s.release (attr_release s.attrs)) max_release in
    let environment =
      clean (or_default_text s.environment (attr_environment s.attrs)) max_environment in
    if str_eq release [] || not (valid_session_status s.status)
    then none
    else some (record {
      sid = clean s.sid max_session_id;
      release = release;
      environment = environment;
      status = derived_status s;
      started_at = started_time lib s.started now;
      count = 1;
    })

abbrev pub append_session : Option Session → List Session → List Session
append_session none out = out
append_session (some s) out = s ∷ out

unfoldable pub sessions_from : Library → List RawSession → ℕ → List Session
unfolding session_from
sessions_from lib [] now = []
sessions_from lib (s ∷ ss) now = append_session (session_from lib s now) (sessions_from lib ss now)

-- The row of one status, if its count is above 0; the column is an INTEGER.
abbrev counted : (Bytes → ℕ → Session) → Bytes → ℤ → List Session
counted row status (pos zero) = []
counted row status (pos (suc n)) = row status (min (suc n) max_int32) ∷ []
counted row status (negsuc n) = []

unfoldable pub aggregate_row : Bytes → Bytes → ℕ → Bytes → ℕ → Session
aggregate_row release environment started status n = record {
  sid = [];
  release = release;
  environment = environment;
  status = status;
  started_at = started;
  count = n;
}

-- The rows of an aggregate, in a fixed order of the statuses.
unfoldable pub aggregate_rows : Library → Bytes → Bytes → ℕ → RawSessionAggregate → List Session
unfolding aggregate_row
aggregate_rows lib release environment now a =
    let row = aggregate_row release environment (started_time lib a.started now) in
    counted row (codes "exited") a.exited
    ++ (counted row (codes "errored") a.errored
        ++ (counted row (codes "crashed") a.crashed ++ counted row (codes "abnormal") a.abnormal))

unfoldable pub all_rows : Library → Bytes → Bytes → ℕ → List RawSessionAggregate → List Session
unfolding aggregate_rows
all_rows lib release environment now [] = []
all_rows lib release environment now (a ∷ more) =
    aggregate_rows lib release environment now a ++ all_rows lib release environment now more

abbrev with_attrs : Library → ℕ → RawSessions → Option RawAttrs → List Session
with_attrs lib now agg none = []
with_attrs lib now agg (some attrs) =
    if str_eq attrs.release []
    then []
    else all_rows lib (clean attrs.release max_release) (clean attrs.environment max_environment)
        now agg.aggregates

abbrev aggregate_of : Library → ℕ → Option RawSessions → List Session
aggregate_of lib now none = []
aggregate_of lib now (some agg) =
    sessions_from lib agg.items now ++ with_attrs lib now agg agg.attrs

abbrev single_status : Option RawSession → Bytes
single_status none = []
single_status (some s) = s.status

abbrev single_of : Library → ℕ → Option RawSession → List Session
single_of lib now none = []
single_of lib now (some s) = append_session (session_from lib s now) []

-- `parseSessions`.
unfoldable pub parse_sessions : Library → Bytes → ℕ → List Session
unfolding all_rows sessions_from
parse_sessions lib body now =
    let single = lib.session_of body in
    if str_eq (single_status single) []
    then aggregate_of lib now (lib.sessions_of body)
    else single_of lib now single
