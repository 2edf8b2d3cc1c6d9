-- ===== src/Ingest/Extras.antt =====
-- internal/ingest/ingest.go and the statements of internal/store that it runs besides those on issues,
-- events and jobs: releases, sessions, attachments, user reports and client reports. Times are
-- nanoseconds; Go's random session ids are a parameter.
use crashcart.Base.{
  ℕ, suc, Bool, not, ◌&&◌, ◌||◌, List, [], ◌∷◌, ◌++◌, Option, none, some, if◌then◌else◌, ltb, ◌==◌,
  min, max, length, some_row, update_where, find_row,
}
use crashcart.Base.Text.{Bytes, codes, str_eq}
use crashcart.Issues.Table.{contains_all, sort_distinct}
use crashcart.Sentry.Sessions.{Session}
use crashcart.Sentry.Envelope.{Attachment}
use crashcart.Sentry.Reports.{UserReport}
use crashcart.Ingest.Prepare.{Prepared, nil_if_empty}
use crashcart.Ingest.Write.{EventInsert, bytes_less}

-- A release that an envelope mentions.
pub record RelSeen : Type 0 where
  pub name : Bytes
  pub platform : Bytes
  pub at : ℕ

abbrev is_release : Bytes → RelSeen → Bool
is_release release r = str_eq release r.name

unfoldable pub seen_again : Bytes → ℕ → RelSeen → RelSeen
seen_again platform at r = record r {
  platform = if str_eq r.platform [] then platform else r.platform;
  at = min at r.at;
}

-- `note`; the map of the releases is kept sorted by their names.
unfoldable pub insert_release : RelSeen → List RelSeen → List RelSeen
unfolding seen_again bytes_less
insert_release n [] = n ∷ []
insert_release n (r ∷ rels) =
    let rest = insert_release n rels in
    if str_eq n.name r.name
    then seen_again n.platform n.at r ∷ rels
    else if bytes_less n.name r.name
    then n ∷ r ∷ rels
    else r ∷ rest

unfoldable pub note : Bytes → Bytes → ℕ → List RelSeen → List RelSeen
unfolding insert_release
note release platform at rels =
    if str_eq release []
    then rels
    else insert_release (record { name = release; platform = platform; at = at }) rels

unfoldable pub note_events : List Prepared → List RelSeen → List RelSeen
unfolding note
note_events [] rels = rels
note_events (pr ∷ preps) rels =
    note_events preps (note pr.event.release pr.event.platform pr.event.timestamp rels)

unfoldable pub note_sessions : List Session → List RelSeen → List RelSeen
unfolding note
note_sessions [] rels = rels
note_sessions (s ∷ ss) rels = note_sessions ss (note s.release [] s.started_at rels)

pub record Release : Type 0 where
  pub project_id : ℕ
  pub release : Bytes
  pub platforms : List Bytes
  pub first_seen : ℕ

abbrev platforms_of : Bytes → List Bytes
platforms_of p = if str_eq p [] then [] else p ∷ []

abbrev same_release : ℕ → Bytes → Release → Bool
same_release project release r = (project == r.project_id) && str_eq release r.release

unfoldable pub merged_release : (Bytes → Bytes → Bool) → RelSeen → Release → Release
merged_release collates n r =
    if not (contains_all r.platforms (platforms_of n.platform)) || ltb n.at r.first_seen
    then record r {
      platforms = sort_distinct collates (r.platforms ++ platforms_of n.platform);
      first_seen = min r.first_seen n.at;
    }
    else r

-- `UpsertReleases`, of which the names are distinct.
unfoldable pub upsert_releases :
    (Bytes → Bytes → Bool) → ℕ → List RelSeen → List Release → List Release
unfolding merged_release
upsert_releases collates project [] rows = rows
upsert_releases collates project (n ∷ rels) rows = upsert_releases collates project rels (
    if some_row (same_release project n.name) rows
    then update_where (same_release project n.name) (merged_release collates n) rows
    else rows
      ++ record {
        project_id = project;
        release = n.name;
        platforms = platforms_of n.platform;
        first_seen = n.at;
      }
        ∷ [])

pub record SessionInsert : Type 0 where
  pub started_at : ℕ
  pub project_id : ℕ
  pub sid : Bytes
  pub release : Bytes
  pub environment : Option Bytes
  pub status : Bytes
  pub count : ℕ

-- `sessionID`, over the random bytes in hexadecimal.
unfoldable pub session_id : Bytes → Session → Bytes
session_id random s = if str_eq s.sid [] then codes "agg-" ++ random else s.sid

unfoldable pub session_row : ℕ → Bytes → Session → SessionInsert
unfolding session_id
session_row project random s = record {
  started_at = s.started_at;
  project_id = project;
  sid = session_id random s;
  release = s.release;
  environment = nil_if_empty s.environment;
  status = s.status;
  count = max s.count 1;
}

abbrev pub is_ok : Bytes → Bool
is_ok status = str_eq status (codes "ok")

unfoldable pub same_session : SessionInsert → SessionInsert → Bool
same_session s r =
    (s.project_id == r.project_id) && str_eq s.sid r.sid && (s.started_at == r.started_at)

-- A terminal status is never downgraded to "ok".
unfoldable pub merged_session : SessionInsert → SessionInsert → SessionInsert
merged_session s r = record r {
  status = if is_ok r.status || not (is_ok s.status) then s.status else r.status;
}

-- `InsertSessions`, on the rows of the sessions.
unfoldable pub insert_sessions : List SessionInsert → List SessionInsert → List SessionInsert
unfolding same_session merged_session
insert_sessions [] rows = rows
insert_sessions (s ∷ ss) rows = insert_sessions ss (
    if some_row (same_session s) rows
    then update_where (same_session s) (merged_session s) rows
    else rows ++ s ∷ [])

pub record AttachmentInsert : Type 0 where
  pub occurred_at : ℕ
  pub project_id : ℕ
  pub event_id : Bytes
  pub n : ℕ
  pub filename : Bytes
  pub content_type : Bytes
  pub attachment_type : Bytes
  pub content : Bytes

-- The event that the attachments belong to: the header's, or without one a lone event.
unfoldable pub attachment_target : Bytes → List EventInsert → Option EventInsert
attachment_target header rows =
    find_row (λ r. str_eq r.event_id header || str_eq header [] && (length rows == 1)) rows

unfoldable pub attachment_rows : ℕ → EventInsert → ℕ → List Attachment → List AttachmentInsert
attachment_rows project target i [] = []
attachment_rows project target i (a ∷ attachments) =
    record {
      occurred_at = target.occurred_at;
      project_id = project;
      event_id = target.event_id;
      n = i;
      filename = a.filename;
      content_type = a.content_type;
      attachment_type = a.attachment_type;
      content = a.content;
    }
    ∷ attachment_rows project target (suc i) attachments

abbrev same_attachment : AttachmentInsert → AttachmentInsert → Bool
same_attachment a b =
    (a.project_id == b.project_id)
    && str_eq a.event_id b.event_id
    && (a.occurred_at == b.occurred_at)
    && (a.n == b.n)

-- `InsertAttachments`.
unfoldable pub insert_attachments :
    List AttachmentInsert → List AttachmentInsert → List AttachmentInsert
insert_attachments [] rows = rows
insert_attachments (a ∷ more) rows =
    insert_attachments more (if some_row (same_attachment a) rows then rows else rows ++ a ∷ [])

pub record UserReportRow : Type 0 where
  pub project_id : ℕ
  pub event_id : Bytes
  pub received_at : ℕ
  pub name : Option Bytes
  pub email : Option Bytes
  pub comments : Bytes

abbrev same_report : ℕ → Bytes → UserReportRow → Bool
same_report project event r = (project == r.project_id) && str_eq event r.event_id

-- `UpsertUserReport`.
unfoldable pub upsert_user_report :
    ℕ → ℕ → Bytes → Option Bytes → Option Bytes → Bytes → List UserReportRow → List UserReportRow
upsert_user_report now project event name email comments rows =
    if some_row (same_report project event) rows
    then update_where (same_report project event)
        (λ r. record r { name = name; email = email; comments = comments }) rows
    else rows
      ++ record {
        project_id = project;
        event_id = event;
        received_at = now;
        name = name;
        email = email;
        comments = comments;
      }
        ∷ []

-- The user report of an envelope, over the redaction of texts if it is on.
unfoldable pub write_user_report :
    Option (Bytes → Bytes) → ℕ → ℕ → UserReport → List UserReportRow → List UserReportRow
unfolding upsert_user_report
write_user_report none now project ur rows =
    upsert_user_report now project ur.event_id (nil_if_empty ur.name) (nil_if_empty ur.email)
      ur.comments rows
write_user_report (some redact) now project ur rows =
    upsert_user_report now project ur.event_id none none (redact ur.comments) rows
