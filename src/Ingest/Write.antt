-- ===== src/Ingest/Write.antt =====
-- internal/ingest/ingest.go: the transaction of `Ingest` on the issues, the events and the jobs: resends
-- are dropped, events are folded by fingerprint, sampled, and written. The encodings (JSON, gzip) and
-- the text order of the database are parameters, the coins of the sampling are given in order.
use crashcart.Base.{
  ℕ, suc, ◌+◌, ◌/◌, Bool, true, false, not, ◌&&◌, ◌||◌, List, [], ◌∷◌, ◌++◌, Option, none, some,
  if◌then◌else◌, ltb, leb, ◌==◌, keep, some_row, min, max,
}
use crashcart.Base.Text.{Bytes, codes, str_eq}
use crashcart.Sentry.Frame.{Frame}
use crashcart.Sentry.Event.{Event, is_unhandled}
use crashcart.Sentry.Signature.{issue_title}
use crashcart.Issues.Table.{EventLevel, fatal, error, warning, info, debug, UpsertIssueParams}
use crashcart.Ingest.Prepare.{Prepared, Settings, sample_store, nil_if_empty}

-- A row of the events table. Its time is in nanoseconds, a whole number of microseconds.
pub record EventInsert : Type 0 where
  pub occurred_at : ℕ
  pub project_id : ℕ
  pub event_id : Bytes
  pub level : EventLevel
  pub message : Bytes
  pub platform : Option Bytes
  pub environment : Option Bytes
  pub release : Option Bytes
  pub device : Option Bytes
  pub device_model : Option Bytes
  pub os_version : Option Bytes
  pub transaction : Option Bytes
  pub error_type : Option Bytes
  pub row_culprit : Option Bytes
  pub handled : Option Bool
  pub sdk_name : Option Bytes
  pub user_id : Option Bytes
  pub row_fingerprint : Option Bytes
  pub symbolicated : Bool
  pub tags_json : Bytes
  pub symbols_json : Option Bytes
  pub payload : Bytes

pub record Encodings : Type 0 where
  pub tags_text : List (Bytes × Bytes) → Bytes
  pub frames_text : List Frame → Bytes
  pub gzip : Bytes → Bytes
  pub format_micros : ℕ → Bytes
  pub collates : Bytes → Bytes → Bool

-- The level of an event, which `normalizeLevel` made one of five.
unfoldable pub event_level : Bytes → EventLevel
event_level l =
    if str_eq l (codes "fatal")
    then fatal
    else if str_eq l (codes "warning")
    then warning
    else if str_eq l (codes "info")
    then info
    else if str_eq l (codes "debug")
    then debug
    else error

-- `ExistingEventIDs` and `ExistingEventIDsAnyTime`, as tests on one id.
unfoldable pub existing_event : ℕ → ℕ → ℕ → List EventInsert → Bytes → Bool
existing_event project from to table id =
    some_row
      (λ r.
        (r.project_id == project)
        && str_eq r.event_id id
        && leb from r.occurred_at
        && ltb r.occurred_at to)
      table

unfoldable pub existing_event_any_time : ℕ → List EventInsert → Bytes → Bool
existing_event_any_time project table id =
    some_row (λ r. (r.project_id == project) && str_eq r.event_id id) table

abbrev pub time_of : Prepared → ℕ
time_of pr = pr.event.timestamp

abbrev pub earliest : ℕ → List Prepared → ℕ
earliest t [] = t
earliest t (pr ∷ preps) = earliest (min t (time_of pr)) preps

abbrev pub latest : ℕ → List Prepared → ℕ
latest t [] = t
latest t (pr ∷ preps) = latest (max t (time_of pr)) preps

-- The ids of an envelope found in its own window, and those of the events with a replaced time found
-- anywhere.
unfoldable pub already_stored : ℕ → List EventInsert → List Prepared → Bytes → Bool
unfolding existing_event existing_event_any_time
already_stored project table [] id = false
already_stored project table (pr ∷ preps) id =
    existing_event project (earliest (time_of pr) preps) (latest (time_of pr) preps + 1000) table id
    || (some_row (λ (p : Prepared). p.event.clamped && str_eq p.event.event_id id) (pr ∷ preps)
        && existing_event_any_time project table id)

unfoldable pub fresh : ℕ → List EventInsert → List Prepared → List Prepared
unfolding already_stored
fresh project table preps =
    keep (λ (pr : Prepared). not (already_stored project table preps pr.event.event_id)) preps

-- An event with whether it is stored.
abbrev pub Sampled : Type 0
Sampled = Prepared × Bool

-- The coins are flipped in the order of the groups; here each event has its own.
unfoldable pub sampled : Settings → (Prepared → ℕ) → List Prepared → List Sampled
unfolding sample_store
sampled cfg coin [] = []
sampled cfg coin (pr ∷ preps) =
    (pr, sample_store cfg.rounded cfg.sample_rate (coin pr) (is_unhandled pr.event))
    ∷ sampled cfg coin preps

unfoldable pub bytes_less : Bytes → Bytes → Bool
bytes_less [] [] = false
bytes_less [] (y ∷ ys) = true
bytes_less (x ∷ xs) [] = false
bytes_less (x ∷ xs) (y ∷ ys) =
    let rest = bytes_less xs ys in if ltb x y then true else (x == y) && rest

unfoldable pub insert_print : Bytes → List Bytes → List Bytes
unfolding bytes_less
insert_print fp [] = fp ∷ []
insert_print fp (f ∷ fs) =
    let rest = insert_print fp fs in
    if str_eq fp f then f ∷ fs else if bytes_less fp f then fp ∷ f ∷ fs else f ∷ rest

-- `order`: the fingerprints of the groups, each once, sorted.
unfoldable pub group_order : List Sampled → List Bytes
unfolding insert_print
group_order [] = []
group_order ((pr, kept) ∷ sample) =
    let rest = group_order sample in if str_eq pr.print [] then rest else insert_print pr.print rest

unfoldable pub group_of : Bytes → List Sampled → List Sampled
group_of fp sample = keep (λ (s : Sampled). str_eq fp s.0.print) sample

-- What the loop over a group has gathered.
pub record Fold : Type 0 where
  pub min_at : ℕ
  pub max_at : ℕ
  pub last_release : Option Bytes
  pub last_level : Bytes
  pub releases : List Bytes
  pub stored : ℕ
  pub total : ℕ

abbrev add_release : Bytes → List Bytes → List Bytes
add_release r releases = if some_row (str_eq r) releases then releases else releases ++ r ∷ []

unfoldable pub fold_event : Fold → Sampled → Fold
fold_event f (pr, kept) =
    let at = time_of pr in
    let newest = not (ltb at f.max_at) in
    record {
      min_at = if (f.min_at == 0) || ltb at f.min_at then at else f.min_at;
      max_at = if newest then at else f.max_at;
      last_release = if newest then nil_if_empty pr.event.release else f.last_release;
      last_level = if newest then pr.event.level else f.last_level;
      releases = add_release pr.event.release f.releases;
      stored = if kept then suc f.stored else f.stored;
      total = suc f.total;
    }

unfoldable pub fold_group : Fold → List Sampled → Fold
unfolding fold_event
fold_group f [] = f
fold_group f (s ∷ group) = fold_group (fold_event f s) group

abbrev pub empty_fold : Bytes → Fold
empty_fold level = record {
  min_at = 0;
  max_at = 0;
  last_release = none;
  last_level = level;
  releases = [];
  stored = 0;
  total = 0;
}

-- The parameters of the upsert of a group, whose first event is given; times in microseconds.
unfoldable pub issue_params : Settings → Bytes → Event → Fold → UpsertIssueParams
issue_params cfg fp first f = record {
  project_id = cfg.project_id;
  fingerprint = fp;
  title = issue_title first;
  level = event_level f.last_level;
  error_type = nil_if_empty first.error_type;
  transaction = nil_if_empty first.transaction;
  platform = nil_if_empty first.platform;
  event_count = f.total;
  stored_count = f.stored;
  first_seen = f.min_at / 1000;
  last_seen = f.max_at / 1000;
  first_release = f.last_release;
  releases = f.releases;
  regress = true;
}

unfoldable pub group_params : Settings → Bytes → List Sampled → Option UpsertIssueParams
unfolding issue_params fold_group
group_params cfg fp [] = none
group_params cfg fp ((pr, kept) ∷ group) =
    some
      (issue_params cfg fp pr.event (fold_group (empty_fold pr.event.level) ((pr, kept) ∷ group)))
