-- ===== src/Ingest/Commit.antt =====
-- internal/ingest/ingest.go: the writes of `Ingest` in one transaction, and its result's counts. The
-- JSON of a job's arguments is written out: ids are hexadecimal digits and nothing needs an escape.
use crashcart.Base.{
  ℕ, suc, ◌+◌, ◌-◌, ◌/◌, Bool, not, ◌&&◌, List, [], ◌∷◌, ◌++◌, Option, none, some, if◌then◌else◌,
  ◌==◌, length, some_row,
}
use crashcart.Base.Text.{Bytes, codes, str_eq}
use crashcart.Sentry.Event.{Event, device_id}
use crashcart.Issues.Table.{Issue, UpsertIssueParams, UpsertIssueRow, upsert_issue}
use crashcart.Jobs.Table.{EnqueueJobParams, alert, symbolicate}
use crashcart.Ingest.Prepare.{Prepared, Settings, analyze, nil_if_empty}
use crashcart.Ingest.Write.{
  EventInsert, Encodings, Sampled, event_level, fresh, sampled, group_order, group_of, group_params,
}

unfoldable pub event_row : Settings → Encodings → Prepared → EventInsert
event_row cfg enc pr =
    let e = pr.event in
    record {
      occurred_at = e.timestamp;
      project_id = cfg.project_id;
      event_id = e.event_id;
      level = event_level e.level;
      message = e.message;
      platform = nil_if_empty e.platform;
      environment = nil_if_empty e.environment;
      release = nil_if_empty e.release;
      device = nil_if_empty (device_id e);
      device_model = nil_if_empty e.device_model;
      os_version = nil_if_empty e.os_version;
      transaction = nil_if_empty e.transaction;
      error_type = nil_if_empty e.error_type;
      row_culprit = nil_if_empty pr.location;
      handled = e.handled;
      sdk_name = nil_if_empty e.sdk_name;
      user_id = nil_if_empty e.user_id;
      row_fingerprint = if str_eq pr.print [] then none else some pr.print;
      symbolicated = pr.symbolicated;
      tags_json = enc.tags_text e.tags;
      symbols_json = if pr.symbolicated then some (enc.frames_text pr.prepared_frames) else none;
      payload = enc.gzip e.raw;
    }

unfoldable pub event_rows : Settings → Encodings → List Sampled → List EventInsert
unfolding event_row
event_rows cfg enc [] = []
event_rows cfg enc ((pr, kept) ∷ sample) =
    let rest = event_rows cfg enc sample in if kept then event_row cfg enc pr ∷ rest else rest

unfoldable pub count_sampled : List Sampled → ℕ
count_sampled [] = 0
count_sampled ((pr, kept) ∷ sample) =
    let rest = count_sampled sample in if kept then rest else suc rest

-- The primary key of the events: a row that is there stays.
unfoldable pub same_event : EventInsert → EventInsert → Bool
same_event r q =
    (r.project_id == q.project_id)
    && str_eq r.event_id q.event_id
    && (r.occurred_at == q.occurred_at)

-- `InsertEvents`, on the rows of the events.
unfoldable pub insert_events : List EventInsert → List EventInsert → List EventInsert
unfolding same_event
insert_events [] table = table
insert_events (r ∷ rows) table =
    insert_events rows (if some_row (same_event r) table then table else table ++ r ∷ [])

abbrev quoted : Bytes → Bytes
quoted s = b'"' ∷ (s ++ b'"' ∷ [])

-- `alertJob`; its own reading of the clock is taken as the time of the request.
unfoldable pub alert_job : ℕ → ℕ → Bytes → Bytes → EnqueueJobParams
alert_job now project typ fp = record {
  kind = alert;
  project_id = project;
  args =
      codes "{\"fingerprint\":" ++ (quoted fp ++ (codes ",\"type\":" ++ (quoted typ ++ codes "}")));
  run_after = now;
}

-- The arguments of a symbolication job: the time and the id of its event.
unfoldable pub symbolicate_args : Encodings → ℕ → Bytes → Bytes
symbolicate_args enc at event_id =
    codes "{\"at\":"
    ++ (quoted (enc.format_micros at) ++ (codes ",\"event\":" ++ (quoted event_id ++ codes "}")))

unfoldable pub symbolicate_job : Settings → Encodings → ℕ → Event → EnqueueJobParams
unfolding symbolicate_args
symbolicate_job cfg enc now e = record {
  kind = symbolicate;
  project_id = cfg.project_id;
  args = symbolicate_args enc e.timestamp e.event_id;
  run_after = now;
}

unfoldable pub symbolicate_jobs : Settings → Encodings → ℕ → List Sampled → List EnqueueJobParams
unfolding symbolicate_job
symbolicate_jobs cfg enc now [] = []
symbolicate_jobs cfg enc now ((pr, kept) ∷ sample) =
    let rest = symbolicate_jobs cfg enc now sample in
    if kept && pr.retry && not (str_eq pr.print [])
    then symbolicate_job cfg enc now pr.event ∷ rest
    else rest

-- The issues after the upserts, the fingerprints that were new or regressed, and the alerts.
pub record IssueWrite : Type 0 where
  pub issues : List Issue
  pub new_issues : List Bytes
  pub regressions : List Bytes
  pub alerts : List EnqueueJobParams

unfoldable pub note_issue : Settings → ℕ → Bytes → UpsertIssueRow → IssueWrite → IssueWrite
unfolding alert_job
note_issue cfg now fp row w =
    if row.created
    then record w {
      new_issues = fp ∷ w.new_issues;
      alerts = alert_job now cfg.project_id (codes "new_issue") fp ∷ w.alerts;
    }
    else if row.regressed
    then record w {
      regressions = fp ∷ w.regressions;
      alerts = alert_job now cfg.project_id (codes "regression") fp ∷ w.alerts;
    }
    else w

abbrev pub some_first : {A : Type 0} → Option A → List A → List A
some_first none rest = rest
some_first (some a) rest = a ∷ rest

-- The parameters of the upserts, in the order of the fingerprints.
unfoldable pub all_params : Settings → List Bytes → List Sampled → List UpsertIssueParams
unfolding group_params group_of
all_params cfg [] sample = []
all_params cfg (fp ∷ fps) sample =
    some_first (group_params cfg fp (group_of fp sample)) (all_params cfg fps sample)

unfoldable pub upsert_groups :
    Settings → Encodings → ℕ → List UpsertIssueParams → List Issue → IssueWrite
unfolding note_issue
upsert_groups cfg enc now [] issues = record {
  issues = issues;
  new_issues = [];
  regressions = [];
  alerts = [];
}
upsert_groups cfg enc now (p ∷ ps) issues =
    let (after, row) = upsert_issue enc.collates now p issues in
    note_issue cfg now p.fingerprint row (upsert_groups cfg enc now ps after)

-- What the result of an envelope says of its events.
pub record EventCounts : Type 0 where
  pub received : ℕ
  pub stored : ℕ
  pub sampled_out : ℕ
  pub duplicates : ℕ
  pub mismatched : ℕ
  pub new_issues : List Bytes
  pub regressions : List Bytes

pub record Tables : Type 0 where
  pub issues : List Issue
  pub events : List EventInsert

pub record Ingested : Type 0 where
  pub tables : Tables
  pub result : EventCounts
  -- The jobs as gathered, before `EnqueueJobs` takes them in order; their times are microseconds.
  pub jobs : List EnqueueJobParams

-- The sampled events of an envelope: analyzed, without those that are stored already.
unfoldable pub sampled_events : Settings → (Prepared → ℕ) → ℕ → List Event → Tables → List Sampled
unfolding analyze fresh sampled
sampled_events cfg coin now es tables =
    sampled cfg coin (fresh cfg.project_id tables.events (analyze cfg now es).preps)

-- `Ingest`, on the events of an envelope.
unfoldable pub ingest_events :
    Settings → Encodings → (Prepared → ℕ) → ℕ → List Event → Tables → Ingested
unfolding sampled_events all_params upsert_groups event_rows insert_events symbolicate_jobs
ingest_events cfg enc coin now es tables =
    let a = analyze cfg now es in
    let kept = fresh cfg.project_id tables.events a.preps in
    let sample = sampled cfg coin kept in
    let w =
      upsert_groups cfg enc (now / 1000) (all_params cfg (group_order sample) sample)
        tables.issues in
    let rows = event_rows cfg enc sample in
    record {
      tables = record { issues = w.issues; events = insert_events rows tables.events };
      result = record {
        received = length es;
        stored = length rows;
        sampled_out = count_sampled sample;
        duplicates = a.duplicates + (length a.preps - length kept);
        mismatched = a.mismatched;
        new_issues = w.new_issues;
        regressions = w.regressions;
      };
      jobs = w.alerts ++ symbolicate_jobs cfg enc (now / 1000) sample;
    }
