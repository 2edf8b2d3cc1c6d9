-- ===== src/Jobs/Table.antt =====
-- internal/store/jobs.go: the jobs table, each statement on the jobs alone as a function on its rows
-- (DeadJobs, a list, has none). Times are instants in one unit; `now` is the statement's own clock. The
-- unique index `jobs_pending` is over (kind, project, args) of the rows with fewer than 8 attempts: the
-- conflict target of an enqueue.
use crashcart.Base.{
  ℕ, ◌+◌, ◌-◌, Bool, true, false, not, ◌&&◌, ◌||◌, List, [], ◌∷◌, ◌++◌, map, Option, none, some,
  if◌then◌else◌, ltb, leb, ◌==◌, keep, take, count, min, some_row, update_where,
}
use crashcart.Base.Text.{Bytes, str_eq}

pub data JobKind : Type 0 where
  symbolicate resymbolicate alert : JobKind

abbrev pub kind_eq : JobKind → JobKind → Bool
kind_eq symbolicate symbolicate = true
kind_eq resymbolicate resymbolicate = true
kind_eq alert alert = true
kind_eq _ _ = false

pub record Job : Type 0 where
  pub id : ℕ
  pub kind : JobKind
  pub project_id : ℕ
  pub args : Bytes
  pub run_after : ℕ
  pub attempts : ℕ
  pub locked_until : Option ℕ
  pub last_error : Option Bytes
  pub created_at : ℕ

-- The table: its rows, and the next value of the identity column.
pub record Table : Type 0 where
  pub rows : List Job
  pub next_id : ℕ

pub record EnqueueJobParams : Type 0 where
  pub kind : JobKind
  pub project_id : ℕ
  pub args : Bytes
  pub run_after : ℕ

abbrev pub max_attempts : ℕ
max_attempts = 8

-- The index predicate: `attempts < 8`.
abbrev pub is_live : Job → Bool
is_live j = ltb j.attempts max_attempts

unfoldable pub same_key : JobKind → ℕ → Bytes → Job → Bool
same_key kind project args j =
    kind_eq kind j.kind && (project == j.project_id) && str_eq args j.args

-- The live rows with a key.
abbrev pub is_pending : JobKind → ℕ → Bytes → Job → Bool
is_pending kind project args j = is_live j && same_key kind project args j

unfoldable pub new_job : ℕ → ℕ → EnqueueJobParams → Job
new_job id now p = record {
  id = id;
  kind = p.kind;
  project_id = p.project_id;
  args = p.args;
  run_after = p.run_after;
  attempts = 0;
  locked_until = none;
  last_error = none;
  created_at = now;
}

-- `EnqueueJob`: a new row, or the live row with the key pulled forward. The identity column's
-- sequence moves on either way.
unfoldable pub enqueue_job : ℕ → EnqueueJobParams → Table → Table
unfolding new_job
enqueue_job now p t =
    let pending = is_pending p.kind p.project_id p.args in
    record {
      rows =
          if some_row pending t.rows
          then update_where pending (λ j. record j { run_after = min j.run_after p.run_after })
              t.rows
          else t.rows ++ new_job t.next_id now p ∷ [];
      next_id = t.next_id + 1;
    }

-- The rows of one multi-row insert that would touch one key twice: Postgres refuses the statement.
unfoldable pub collides : EnqueueJobParams → List EnqueueJobParams → Bool
collides p [] = false
collides p (q ∷ rest) =
    (kind_eq p.kind q.kind && (p.project_id == q.project_id) && str_eq p.args q.args)
    || collides p rest

unfoldable pub insert_each : ℕ → List EnqueueJobParams → Table → Table
insert_each now [] t = t
insert_each now (p ∷ rest) t = insert_each now rest (enqueue_job now p t)

unfoldable pub has_collision : List EnqueueJobParams → Bool
unfolding collides
has_collision [] = false
has_collision (p ∷ rest) = collides p rest || has_collision rest

-- `EnqueueJobs`: one statement, all or nothing.
unfoldable pub enqueue_jobs : ℕ → List EnqueueJobParams → Table → Option Table
unfolding insert_each
enqueue_jobs now ps t = if has_collision ps then none else some (insert_each now ps t)

-- A lease that holds at `now`.
abbrev pub is_leased : ℕ → Job → Bool
is_leased now j = elim j.locked_until [ none ↦ false | some until ↦ leb now until ]

-- The rows that `ClaimJobs` selects from: due, free or with a lapsed lease, and live.
unfoldable pub is_claimable : ℕ → Job → Bool
is_claimable now j = leb j.run_after now && not (is_leased now j) && is_live j

-- `ORDER BY run_after, id`.
unfoldable pub before : Job → Job → Bool
before a b = ltb a.run_after b.run_after || (a.run_after == b.run_after && leb a.id b.id)

unfoldable pub insert_ordered : Job → List Job → List Job
unfolding before
insert_ordered j [] = j ∷ []
insert_ordered j (k ∷ rows) = if before j k then j ∷ k ∷ rows else k ∷ insert_ordered j rows

unfoldable pub order_by_due : List Job → List Job
order_by_due [] = []
order_by_due (j ∷ rows) = insert_ordered j (order_by_due rows)

unfoldable pub has_id : ℕ → List Job → Bool
has_id i rows = some_row (λ j. i == j.id) rows

abbrev pub claimed_row : ℕ → Job → Job
claimed_row locked_until j = record j {
  locked_until = some locked_until;
  attempts = j.attempts + 1;
}

-- The inner SELECT: the rows that another transaction has locked are skipped.
unfoldable pub select_claimable : ℕ → ℕ → (ℕ → Bool) → List Job → List Job
select_claimable now limit row_locked rows =
    take limit (order_by_due (keep (λ j. is_claimable now j && not (row_locked j.id)) rows))

-- `ClaimJobs`: the table after, and the rows returned.
unfoldable pub claim_jobs : ℕ → ℕ → ℕ → (ℕ → Bool) → Table → Table × List Job
claim_jobs now locked_until limit row_locked t =
    let chosen = select_claimable now limit row_locked t.rows in
    (
      record t { rows = update_where (λ j. has_id j.id chosen) (claimed_row locked_until) t.rows },
      map (claimed_row locked_until) (keep (λ j. has_id j.id chosen) t.rows),
    )

-- `DeleteJob`.
unfoldable pub delete_job : ℕ → Table → Table
delete_job i t = record t { rows = keep (λ j. not (j.id == i)) t.rows }

-- `RetryJob`.
unfoldable pub retry_job : ℕ → Option Bytes → ℕ → Table → Table
retry_job i last_error run_after t = record t {
  rows =
      update_where (λ j. j.id == i)
        (λ j. record j { last_error = last_error; run_after = run_after; locked_until = none })
        t.rows;
}

-- The row of job `i` while its lease holds.
abbrev pub holds_lease : ℕ → ℕ → Job → Bool
holds_lease now i j = (j.id == i) && is_leased now j

-- Another live row with the key of `j`.
unfoldable pub has_newer_duplicate : List Job → Job → Bool
has_newer_duplicate rows j =
    some_row (λ k. is_pending j.kind j.project_id j.args k && not (k.id == j.id)) rows

-- `ReleaseJob`: the lease back without the attempt, or the row dropped when a duplicate is live.
-- Both parts of the statement read the table as it was before.
unfoldable pub release_job : ℕ → ℕ → Table → Table
release_job now i t =
    let releasable = λ (j : Job). holds_lease now i j && not (has_newer_duplicate t.rows j) in
    record t {
      rows =
          if some_row releasable t.rows
          then update_where releasable
              (λ j. record j { locked_until = none; attempts = j.attempts - 1 }) t.rows
          else keep (λ j. not (holds_lease now i j)) t.rows;
    }

-- `CountJobs`.
unfoldable pub count_jobs : Table → ℕ
count_jobs t = count (λ j. true) t.rows

-- `ExpireJobs`: the dead rows older than `age` (7 days) go.
unfoldable pub expire_jobs : ℕ → ℕ → Table → Table × ℕ
expire_jobs now age t =
    let old = λ (j : Job). not (is_live j) && ltb (j.created_at + age) now in
    (record t { rows = keep (λ j. not (old j)) t.rows }, count old t.rows)
