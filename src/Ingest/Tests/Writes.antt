-- ===== src/Ingest/Tests/Writes.antt =====
-- Runs of the write path, and each of its theorems at a concrete input.
use crashcart.Base.{refl, ℕ, ◌+◌, ◌≡◌, false, [], ◌∷◌, none, some, arith, ltb, length}
use crashcart.Base.Int.{pos}
use crashcart.Base.Text.{codes}
use crashcart.Sentry.Event.{Event}
use crashcart.Sentry.Envelope.{Envelope, empty_envelope}
use crashcart.Sentry.Json.{ClientReportCount}
use crashcart.Ingest.Whole.{Store, Outside, ingest, failed, nothing_received}
use crashcart.Ingest.Twice.{ingest_events-twice}
use crashcart.Ingest.Rollback.{repeated-rolls_back}
use crashcart.Issues.Sound.{IsSound}
use crashcart.Ingest.Scrub.{Patterns}
use crashcart.Ingest.Prepare.{Settings, Prepared, one}
use crashcart.Ingest.Write.{Encodings}
use crashcart.Ingest.Commit.{Tables, ingest_events}
use crashcart.Ingest.Accounting.{ingest_events-accounts, ingest_events-IsSound}

abbrev event : Event
event = record {
  event_id = codes "a1b2c3d4e5f6a1b2c3d4e5f6a1b2c3d4";
  timestamp = 5000;
  level = codes "error";
  message = codes "boom";
  platform = codes "go";
  environment = [];
  release = codes "1.0";
  os_version = [];
  device_model = [];
  transaction = [];
  error_type = [];
  handled = some false;
  sdk_name = [];
  user_id = [];
  tags = [];
  breadcrumbs = [];
  exceptions = [];
  debug_images = [];
  sdk_fingerprint = [];
  primary = 0;
  thread_frames = [];
  clamped = false;
  raw = codes "{}";
}

abbrev no_patterns : Patterns
no_patterns = record {
  replace_emails = λ s. s;
  cards = λ s. [];
  phones = λ s. [];
  replace_ip_addresses = λ s. s;
  fields_of = λ s. none;
  user_of = λ s. none;
  user_text = λ u. none;
  document_text = λ d. none;
}

abbrev settings : Settings
settings = record {
  project_id = 3;
  platform = codes "go";
  sample_rate = one;
  retention = 1000000;
  pii_redact = false;
  patterns = no_patterns;
  normalize_message = λ s. s;
  sha256 = λ s. s;
  symbols = none;
  rounded = λ n. n;
}

abbrev encodings : Encodings
encodings = record {
  tags_text = λ tags. [];
  frames_text = λ fs. [];
  gzip = λ s. s;
  format_micros = λ t. [];
  collates = λ a b. ltb (length a) (length b);
}

abbrev no_tables : Tables
no_tables = record { issues = []; events = [] }

abbrev zero_coin : Prepared → ℕ
zero_coin pr = 0

-- The event comes twice.
ingest_events-accounts_example :
    (let r =
        (ingest_events settings encodings zero_coin 9000 (event ∷ event ∷ []) no_tables).result in
      r.received ≡ r.stored + r.sampled_out + r.duplicates)
ingest_events-accounts_example =
    ingest_events-accounts settings encodings zero_coin 9000 (event ∷ event ∷ []) no_tables

no_issue-IsSound : IsSound no_tables.issues
no_issue-IsSound = record { one_issue = λ project fp. omega arith; rows_sound = tt }

ingest_events-IsSound_example :
    IsSound
      (ingest_events settings encodings zero_coin 9000 (event ∷ event ∷ []) no_tables).tables.issues
ingest_events-IsSound_example =
    ingest_events-IsSound settings encodings zero_coin 9000 (event ∷ event ∷ []) no_tables
      no_issue-IsSound

-- An event that is resent eleven microseconds later.
ingest_events-twice_example :
    (let once = (ingest_events settings encodings zero_coin 9000 (event ∷ []) no_tables).tables in
      let again = ingest_events settings encodings zero_coin 20000 (event ∷ []) once in
      (again.tables ≡ once) × (again.jobs ≡ []) × (again.result.duplicates ≡ again.result.received))
ingest_events-twice_example =
    ingest_events-twice settings encodings zero_coin zero_coin 9000 20000 (event ∷ []) no_tables
      refl refl (omega arith) (omega arith, tt)

abbrev no_rows : Store
no_rows = record {
  tables = no_tables;
  releases = [];
  sessions = [];
  attachments = [];
  user_reports = [];
  client_counts = [];
  monitors = record { monitors = []; check_ins = [] };
  jobs = record { rows = []; next_id = 1 };
}

abbrev outside : Outside
outside = record {
  world = record { parse_cron = λ s. none; located = λ s sched. sched; to_float32 = λ n. 0 };
  coin = zero_coin;
  random = λ s. codes "00";
  json_text = λ s. s;
}

abbrev network_error : ClientReportCount
network_error = record {
  reason = codes "network_error";
  category = codes "error";
  quantity = pos 2;
}

-- An event, and two entries alike from two client reports.
abbrev reported : Envelope
reported = record empty_envelope {
  events = event ∷ [];
  client_report_counts = network_error ∷ network_error ∷ [];
}

repeated-rolls_back_example :
    ingest settings encodings outside 9000 reported no_rows
    ≡ (no_rows, failed (nothing_received 1 0))
repeated-rolls_back_example =
    repeated-rolls_back settings encodings outside 9000 reported no_rows [] [] [] network_error
      network_error refl refl refl
