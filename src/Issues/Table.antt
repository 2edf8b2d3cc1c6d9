-- ===== src/Issues/Table.antt =====
-- internal/store/issues.go: the rows of the issues table and the statements that change them. Times
-- are microseconds after an epoch. The text order of the database's collation is a parameter.
use crashcart.Base.{
  ℕ, ◌+◌, ◌-◌, ◌%◌, ◌*◌, Bool, true, false, not, ◌&&◌, ◌||◌, List, [], ◌∷◌, ◌++◌, Option, none,
  some, map, if◌then◌else◌, ltb, leb, ◌==◌, keep, min, max, some_row, update_where, find_row, suc,
}
use crashcart.Base.Int.{ℤ, pos, negsuc}
use crashcart.Base.Text.{Bytes, str_eq, or_else}

pub data EventLevel : Type 0 where
  fatal error warning info debug : EventLevel

pub data IssueStatus : Type 0 where
  unresolved resolved ignored regression : IssueStatus

abbrev pub is_resolved : IssueStatus → Bool
is_resolved resolved = true
is_resolved _ = false

abbrev pub is_ignored : IssueStatus → Bool
is_ignored ignored = true
is_ignored _ = false

abbrev pub is_unresolved : IssueStatus → Bool
is_unresolved unresolved = true
is_unresolved _ = false

abbrev pub is_regression : IssueStatus → Bool
is_regression regression = true
is_regression _ = false

pub record Issue : Type 0 where
  pub project_id : ℕ
  pub fingerprint : Bytes
  pub title : Bytes
  pub level : EventLevel
  pub error_type : Option Bytes
  pub transaction : Option Bytes
  pub platform : Option Bytes
  pub status : IssueStatus
  pub status_by : Option Bytes
  pub event_count : ℕ
  pub stored_count : ℕ
  pub first_seen : ℕ
  pub last_seen : ℕ
  pub first_release : Option Bytes
  pub last_release : Option Bytes
  pub releases : List Bytes
  pub resolved_releases : Option (List Bytes)
  pub ignore_until : Option ℕ
  pub ignore_until_count : Option ℕ
  pub ignore_until_escalating : Bool
  pub ignore_baseline : Option ℕ
  pub created_at : ℕ
  pub updated_at : ℕ

pub record UpsertIssueParams : Type 0 where
  pub project_id : ℕ
  pub fingerprint : Bytes
  pub title : Bytes
  pub level : EventLevel
  pub error_type : Option Bytes
  pub transaction : Option Bytes
  pub platform : Option Bytes
  pub event_count : ℕ
  pub stored_count : ℕ
  pub first_seen : ℕ
  pub last_seen : ℕ
  pub first_release : Option Bytes
  pub releases : List Bytes
  pub regress : Bool

pub record UpsertIssueRow : Type 0 where
  pub issue : Issue
  pub created : Bool
  pub regressed : Bool

pub record SetIssueStatusParams : Type 0 where
  pub status : IssueStatus
  pub status_by : Option Bytes
  pub ignore_until : Option ℕ
  pub ignore_events : Option ℕ
  pub ignore_escalating : Bool

-- The primary key.
unfoldable pub same_issue : ℕ → Bytes → Issue → Bool
same_issue project fingerprint i = (project == i.project_id) && str_eq fingerprint i.fingerprint

-- A column DEFAULT fills what the insert does not name.
unfoldable pub new_issue : ℕ → UpsertIssueParams → Issue
new_issue now p = record {
  project_id = p.project_id;
  fingerprint = p.fingerprint;
  title = p.title;
  level = p.level;
  error_type = p.error_type;
  transaction = p.transaction;
  platform = p.platform;
  status = unresolved;
  status_by = none;
  event_count = p.event_count;
  stored_count = p.stored_count;
  first_seen = p.first_seen;
  last_seen = p.last_seen;
  first_release = p.first_release;
  last_release = p.first_release;
  releases = p.releases;
  resolved_releases = none;
  ignore_until = none;
  ignore_until_count = none;
  ignore_until_escalating = false;
  ignore_baseline = none;
  created_at = now;
  updated_at = now;
}

abbrev pub has_text : Bytes → List Bytes → Bool
has_text r rs = some_row (str_eq r) rs

-- `xs @> ys` on text arrays.
unfoldable pub contains_all : List Bytes → List Bytes → Bool
contains_all xs [] = true
contains_all xs (y ∷ ys) = has_text y xs && contains_all xs ys

-- `array_agg(DISTINCT r ORDER BY r)`.
unfoldable pub insert_distinct : (Bytes → Bytes → Bool) → Bytes → List Bytes → List Bytes
insert_distinct precedes r [] = r ∷ []
insert_distinct precedes r (s ∷ rest) =
    let below = insert_distinct precedes r rest in
    if str_eq r s then s ∷ rest else if precedes r s then r ∷ s ∷ rest else s ∷ below

unfoldable pub sort_distinct : (Bytes → Bytes → Bool) → List Bytes → List Bytes
sort_distinct precedes [] = []
sort_distinct precedes (r ∷ rest) = insert_distinct precedes r (sort_distinct precedes rest)

unfoldable pub merged_releases : (Bytes → Bytes → Bool) → List Bytes → List Bytes → List Bytes
merged_releases precedes old new =
    if contains_all old new then old else sort_distinct precedes (old ++ new)

-- The CASE of the status: only a resolved issue on a release outside the resolved ones regresses.
unfoldable pub merged_status : UpsertIssueParams → Issue → IssueStatus
merged_status p i =
    if p.regress
      && is_resolved i.status
      && not (contains_all (or_else i.resolved_releases []) p.releases)
    then regression
    else i.status

-- The DO UPDATE of `UpsertIssue`.
unfoldable pub merge : (Bytes → Bytes → Bool) → ℕ → UpsertIssueParams → Issue → Issue
merge precedes now p i =
    let newer = leb i.last_seen p.last_seen in
    record i {
      event_count = i.event_count + p.event_count;
      stored_count = i.stored_count + p.stored_count;
      last_seen = max i.last_seen p.last_seen;
      first_seen = min i.first_seen p.first_seen;
      last_release =
          if newer
          then elim p.first_release [ none ↦ i.last_release | some r ↦ some r ]
          else i.last_release;
      level = if newer then p.level else i.level;
      releases = merged_releases precedes i.releases p.releases;
      status = merged_status p i;
      updated_at = now;
    }

-- The insert or, on the primary key of a row that is there, the update.
unfoldable pub write_issue :
    (Bytes → Bytes → Bool)
    → ℕ
    → UpsertIssueParams
    → List Issue
    → Option Issue
    → List Issue × UpsertIssueRow
write_issue precedes now p rows none = (
  rows ++ new_issue now p ∷ [],
  record { issue = new_issue now p; created = true; regressed = false },
)
write_issue precedes now p rows (some i) = (
  update_where (same_issue p.project_id p.fingerprint) (merge precedes now p) rows,
  record {
    issue = merge precedes now p i;
    created = false;
    regressed = is_regression (merged_status p i) && is_resolved i.status;
  },
)

-- `UpsertIssue`: the table after, and the row returned.
unfoldable pub upsert_issue :
    (Bytes → Bytes → Bool) → ℕ → UpsertIssueParams → List Issue → List Issue × UpsertIssueRow
unfolding write_issue
upsert_issue precedes now p rows =
    write_issue precedes now p rows (find_row (same_issue p.project_id p.fingerprint) rows)

-- One bucket of `issue_stats_hourly`.
pub record HourlyStat : Type 0 where
  pub project_id : ℕ
  pub fingerprint : Bytes
  pub bucket : ℕ
  pub events : ℕ

abbrev pub hour : ℕ
hour = 3600000000

-- The stored events of an issue in the 24 full hours before `now`.
unfoldable pub hourly_baseline : ℕ → List HourlyStat → Issue → ℕ
hourly_baseline now [] i = 0
hourly_baseline now (h ∷ stats) i =
    let full = now - now % hour in
    let rest = hourly_baseline now stats i in
    if (h.project_id == i.project_id)
      && str_eq h.fingerprint i.fingerprint
      && leb full (h.bucket + 24 * hour)
      && ltb h.bucket full
    then h.events + rest
    else rest

-- `setIssueStatusSQL`.
unfoldable pub with_status : ℕ → List HourlyStat → SetIssueStatusParams → Issue → Issue
with_status now stats p i =
    let ignoring = is_ignored p.status in
    record i {
      status = p.status;
      status_by = p.status_by;
      resolved_releases = if is_resolved p.status then some i.releases else i.resolved_releases;
      ignore_until = if ignoring then p.ignore_until else none;
      ignore_until_count =
          if ignoring
          then elim p.ignore_events [ none ↦ none | some n ↦ some (i.event_count + n) ]
          else none;
      ignore_until_escalating = ignoring && p.ignore_escalating;
      ignore_baseline =
          if ignoring && p.ignore_escalating then some (hourly_baseline now stats i) else none;
      updated_at = now;
    }

-- `SetIssueStatus`: no row is an error.
unfoldable pub set_issue_status :
    ℕ → List HourlyStat → ℕ → Bytes → SetIssueStatusParams → List Issue → List Issue × Option Issue
set_issue_status now stats project fingerprint p rows =
    let key = same_issue project fingerprint in
    (
      update_where key (with_status now stats p) rows,
      elim (find_row key rows) [ none ↦ none | some i ↦ some (with_status now stats p i) ],
    )

-- `SetIssuesStatus`: the rows affected.
unfoldable pub set_issues_status :
    ℕ
    → List HourlyStat
    → ℕ
    → List Bytes
    → SetIssueStatusParams
    → List Issue
    → List Issue × List Issue
set_issues_status now stats project fingerprints p rows =
    let chosen = λ (i : Issue). (project == i.project_id) && has_text i.fingerprint fingerprints in
    (update_where chosen (with_status now stats p) rows, keep chosen rows)

abbrev pub reached : Option ℕ → ℕ → Bool
reached none n = false
reached (some at) n = leb at n

pub data Reason : Type 0 where
  by_time by_count : Reason

-- The rows whose time or count condition is met.
unfoldable pub is_due : ℕ → Issue → Bool
is_due now i =
    is_ignored i.status
    && (reached i.ignore_until now || reached i.ignore_until_count i.event_count)

-- Back to unresolved, its conditions cleared.
unfoldable pub lifted : ℕ → Issue → Issue
lifted now i = record i {
  status = unresolved;
  ignore_until = none;
  ignore_until_count = none;
  ignore_until_escalating = false;
  ignore_baseline = none;
  updated_at = now;
}

abbrev pub due_row : ℕ → Issue → ℕ × Bytes × Reason
due_row now i =
    (i.project_id, i.fingerprint, (if reached i.ignore_until now then by_time else by_count))

-- `UnignoreDue`.
unfoldable pub unignore_due : ℕ → List Issue → List Issue × List (ℕ × Bytes × Reason)
unignore_due now rows =
    (update_where (is_due now) (lifted now) rows, map (due_row now) (keep (is_due now) rows))

-- `EscalateIssue`: no row is an error.
unfoldable pub escalate_issue : ℕ → ℕ → Bytes → List Issue → List Issue × Option Issue
escalate_issue now project fingerprint rows =
    let escalating = λ (i : Issue).
      same_issue project fingerprint i && is_ignored i.status && i.ignore_until_escalating in
    (
      update_where escalating (lifted now) rows,
      elim (find_row escalating rows) [ none ↦ none | some i ↦ some (lifted now i) ],
    )

-- `GREATEST(0, n + by)`.
abbrev pub adjust : ℕ → ℤ → ℕ
adjust n (pos k) = n + k
adjust n (negsuc k) = n - suc k

-- `AdjustIssueStoredCount`.
unfoldable pub adjust_issue_stored_count : ℕ → ℕ → Bytes → ℤ → List Issue → List Issue
adjust_issue_stored_count now project fingerprint by rows =
    update_where (same_issue project fingerprint)
      (λ i. record i {
        stored_count = adjust i.stored_count by;
        event_count = adjust i.event_count by;
        updated_at = now;
      })
      rows

-- `DeleteEmptyIssue`.
unfoldable pub delete_empty_issue : ℕ → Bytes → List Issue → List Issue
delete_empty_issue project fingerprint rows =
    keep
      (λ i.
        not (same_issue project fingerprint i && (i.event_count == 0) && is_unresolved i.status))
      rows
