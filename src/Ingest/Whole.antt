-- ===== src/Ingest/Whole.antt =====
-- internal/ingest/ingest.go: `Ingest` on a whole envelope. The statements run in one transaction: an error
-- leaves the tables as they were. Times are nanoseconds, those of issues and jobs microseconds.
use crashcart.Base.{
  ℕ, ◌/◌, ◌-◌, Bool, not, ◌&&◌, List, [], ◌∷◌, ◌++◌, map, Option, none, some, if◌then◌else◌, ◌==◌,
  length,
}
use crashcart.Base.Int.{pos}
use crashcart.Base.Text.{Bytes, codes, is_some}
use crashcart.Sentry.Envelope.{Envelope, Attachment}
use crashcart.Sentry.Sessions.{Session}
use crashcart.Sentry.Reports.{UserReport, CheckIn}
use crashcart.Jobs.Table.{
  Table, EnqueueJobParams, JobKind, alert, resymbolicate, symbolicate, enqueue_jobs,
}
use crashcart.Monitors.Thresholds.{Notice, monitor_failed, monitor_recovered}
use crashcart.Monitors.Receive.{
  World, MonitorTables, Received, received, schedule_broken, receive_check_in,
}
use crashcart.Ingest.Scrub.{scrub_text}
use crashcart.Ingest.Prepare.{Prepared, Settings, analyze, clamp_past}
use crashcart.Ingest.Write.{EventInsert, Encodings, fresh, bytes_less}
use crashcart.Ingest.Commit.{Tables, sampled_events, event_rows, ingest_events}
use crashcart.Ingest.Extras.{
  Release, SessionInsert, AttachmentInsert, UserReportRow, note_events, note_sessions,
  upsert_releases, session_row, insert_sessions, attachment_target, attachment_rows,
  insert_attachments, write_user_report,
}
use crashcart.Ingest.Counts.{ReportCount, upsert_client_report_counts, hour_of}

-- A statement after one that may fail.
infixl 5 ◌>>=◌
abbrev ◌>>=◌ {ℓ κ} : {A : Type ℓ} {B : Type κ} → Option A → (A → Option B) → Option B
none >>= f = none
some a >>= f = f a

-- The tables that `Ingest` writes.
pub record Store : Type 0 where
  pub tables : Tables
  pub releases : List Release
  pub sessions : List SessionInsert
  pub attachments : List AttachmentInsert
  pub user_reports : List UserReportRow
  pub client_counts : List ReportCount
  pub monitors : MonitorTables
  pub jobs : Table

-- The result, but for the counts of monitors and check-ins written.
pub record Result : Type 0 where
  pub received : ℕ
  pub stored : ℕ
  pub sampled_out : ℕ
  pub duplicates : ℕ
  pub mismatched : ℕ
  pub invalid : ℕ
  pub session_count : ℕ
  pub attachment_count : ℕ
  pub user_report_count : ℕ
  pub client_report_count : ℕ
  pub new_issues : List Bytes
  pub regressions : List Bytes
  pub job_count : ℕ

-- What `Ingest` returns: the result, or an error with what is left of it.
pub data Outcome : Type 0 where
  done : Result → Outcome
  failed : Result → Outcome

-- What is called outside: the monitors' world, the coins, the random bytes of a session's id, and the
-- JSON text of a slug.
pub record Outside : Type 0 where
  pub world : World
  pub coin : Prepared → ℕ
  pub random : Session → Bytes
  pub json_text : Bytes → Bytes

unfoldable pub clamp_session : Settings → ℕ → Session → Session
clamp_session cfg now s = record s {
  started_at = clamp_past s.started_at (now - cfg.retention) now;
}

-- The sessions' rows.
unfoldable pub session_rows : Settings → Outside → List Session → List SessionInsert
session_rows cfg out ss = map (λ s. session_row cfg.project_id (out.random s) s) ss

abbrev notice_type : Notice → Bytes
notice_type monitor_failed = codes "monitor_failed"
notice_type monitor_recovered = codes "monitor_recovered"

-- `monitorAlertJob`.
unfoldable pub monitor_alert_job : Outside → ℕ → ℕ → Bytes → Notice → EnqueueJobParams
monitor_alert_job out now project slug n = record {
  kind = alert;
  project_id = project;
  args =
      codes "{\"monitor\":"
      ++ (out.json_text slug ++ (codes ",\"type\":\"" ++ (notice_type n ++ codes "\"}")));
  run_after = now;
}

abbrev kind_rank : JobKind → ℕ
kind_rank alert = 0
kind_rank resymbolicate = 1
kind_rank symbolicate = 2

-- The order of the jobs: by kind, then by arguments.
unfoldable pub job_precedes : EnqueueJobParams → EnqueueJobParams → Bool
unfolding bytes_less
job_precedes a b = bytes_less (kind_rank a.kind ∷ a.args) (kind_rank b.kind ∷ b.args)

unfoldable pub insert_job : EnqueueJobParams → List EnqueueJobParams → List EnqueueJobParams
unfolding job_precedes
insert_job j [] = j ∷ []
insert_job j (k ∷ jobs) =
    let rest = insert_job j jobs in if job_precedes k j then k ∷ rest else j ∷ k ∷ jobs

unfoldable pub sort_jobs : List EnqueueJobParams → List EnqueueJobParams
unfolding insert_job
sort_jobs [] = []
sort_jobs (j ∷ jobs) = insert_job j (sort_jobs jobs)

-- The attachments: kept only with a stored event.
abbrev pub rows_at : Settings → List Attachment → Option EventInsert → List AttachmentInsert
rows_at cfg attachments none = []
rows_at cfg attachments (some target) = attachment_rows cfg.project_id target 0 attachments

-- The check-in of an envelope: the monitors' tables and the alerts' jobs; `none` is an error.
abbrev pub outcome_jobs :
    Settings → Outside → ℕ → CheckIn → Received → Option (MonitorTables × List EnqueueJobParams)
outcome_jobs cfg out now ci schedule_broken = none
outcome_jobs cfg out now ci (received t ns) =
    some (t, map (monitor_alert_job out (now / 1000) cfg.project_id ci.monitor_slug) ns)

abbrev pub check_in_outcome :
    Settings
    → Outside
    → ℕ
    → MonitorTables
    → Option CheckIn
    → Option (MonitorTables × List EnqueueJobParams)
check_in_outcome cfg out now t none = some (t, [])
check_in_outcome cfg out now t (some ci) =
    outcome_jobs cfg out now ci (receive_check_in out.world cfg.project_id (pos now) ci t)

abbrev pub with_user_report :
    Settings → ℕ → Option UserReport → List UserReportRow → List UserReportRow
with_user_report cfg now none rows = rows
with_user_report cfg now (some ur) rows =
    write_user_report (if cfg.pii_redact then some (scrub_text cfg.patterns) else none) now
      cfg.project_id ur rows

-- The transaction: `none` is an error of a statement.
unfoldable pub transaction :
    Settings → Encodings → Outside → ℕ → Envelope → Store → Option (Store × List EnqueueJobParams)
unfolding note_events note_sessions upsert_releases attachment_target insert_attachments
    insert_sessions session_rows monitor_alert_job sort_jobs
transaction cfg enc out now env store =
    let es = ingest_events cfg enc out.coin now env.events store.tables in
    let kept = fresh cfg.project_id store.tables.events (analyze cfg now env.events).preps in
    let rows = event_rows cfg enc (sampled_events cfg out.coin now env.events store.tables) in
    let rels = note_sessions env.sessions (note_events kept []) in
    do
      counts ←
          upsert_client_report_counts cfg.project_id (hour_of now) env.client_report_counts
            store.client_counts
      checked ← check_in_outcome cfg out now store.monitors env.check_in
      let jobs = sort_jobs (es.jobs ++ checked.1)
      queue ← enqueue_jobs (now / 1000) jobs store.jobs
      some (
        record {
          tables = es.tables;
          releases = upsert_releases enc.collates cfg.project_id rels store.releases;
          sessions = insert_sessions (session_rows cfg out env.sessions) store.sessions;
          attachments =
              insert_attachments (rows_at cfg env.attachments (attachment_target env.event_id rows))
                store.attachments;
          user_reports = with_user_report cfg now env.user_report store.user_reports;
          client_counts = counts;
          monitors = checked.0;
          jobs = queue;
        },
        jobs,
      )

abbrev pub nothing_received : ℕ → ℕ → Result
nothing_received count invalid = record {
  received = count;
  stored = 0;
  sampled_out = 0;
  duplicates = 0;
  mismatched = 0;
  invalid = invalid;
  session_count = 0;
  attachment_count = 0;
  user_report_count = 0;
  client_report_count = 0;
  new_issues = [];
  regressions = [];
  job_count = 0;
}

abbrev pub is_nothing : Envelope → Bool
is_nothing env =
    (length env.events == 0)
    && (length env.sessions == 0)
    && not (is_some env.user_report)
    && (length env.client_report_counts == 0)
    && not (is_some env.check_in)

abbrev pub with_clamped : Settings → ℕ → Envelope → Envelope
with_clamped cfg now env = record env { sessions = map (clamp_session cfg now) env.sessions }

-- The result of an envelope that was written, with the number of its jobs.
unfoldable pub written : Settings → Encodings → Outside → ℕ → Envelope → Store → ℕ → Result
written cfg enc out now env store jobs =
    let r = (ingest_events cfg enc out.coin now env.events store.tables).result in
    let rows = event_rows cfg enc (sampled_events cfg out.coin now env.events store.tables) in
    record {
      received = r.received;
      stored = r.stored;
      sampled_out = r.sampled_out;
      duplicates = r.duplicates;
      mismatched = r.mismatched;
      invalid = env.invalid;
      session_count = length env.sessions;
      attachment_count = length (rows_at cfg env.attachments (attachment_target env.event_id rows));
      user_report_count = if is_some env.user_report then 1 else 0;
      client_report_count = length env.client_report_counts;
      new_issues = r.new_issues;
      regressions = r.regressions;
      job_count = jobs;
    }

abbrev pub committed :
    Settings
    → Encodings
    → Outside
    → ℕ
    → Envelope
    → Store
    → Option (Store × List EnqueueJobParams)
    → Store × Outcome
committed cfg enc out now env store none =
    (store, failed (nothing_received (length env.events) env.invalid))
committed cfg enc out now env store (some (after, jobs)) =
    (after, done (written cfg enc out now env store (length jobs)))

-- `Ingest`.
unfoldable pub ingest : Settings → Encodings → Outside → ℕ → Envelope → Store → Store × Outcome
unfolding transaction written clamp_session
ingest cfg enc out now env store =
    if is_nothing env
    then (store, done (nothing_received 0 0))
    else let clamped = with_clamped cfg now env in
      committed cfg enc out now clamped store (transaction cfg enc out now clamped store)
