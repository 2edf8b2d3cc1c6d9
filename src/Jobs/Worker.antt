-- ===== src/Jobs/Worker.antt =====
-- internal/jobs/worker.go: one batch of the worker. What the world does during the batch (the
-- handlers' results, cancellation, the clock, the database) is given job by job, as a `Turn`.
use crashcart.Base.{
  ℕ, zero, suc, ◌+◌, Bool, true, false, not, ◌&&◌, ◌||◌, List, [], ◌∷◌, ◌++◌, Option, none, some,
  if◌then◌else◌, leb, ◌==◌, keep, take, length,
}
use crashcart.Base.Int.{sub_ℕ}
use crashcart.Base.Text.{Bytes, codes}
use crashcart.Base.Runes.{runes, text_of}
use crashcart.Jobs.Backoff.{backoff}
use crashcart.Jobs.Table.{JobKind, Job, Table, claim_jobs, delete_job, retry_job, release_job}

abbrev pub default_batch : ℕ
default_batch = 25

abbrev pub default_lease : ℕ
default_lease = 600

abbrev pub max_error_chars : ℕ
max_error_chars = 500

-- `truncate`: no NUL bytes, and at most `n` runes.
unfoldable pub truncate : Bytes → ℕ → Bytes
unfolding runes text_of
truncate s n =
    let t = keep (λ c. not (c == 0)) s in
    if leb (length t) n
    then t
    else let r = runes t in if leb (length r) n then t else text_of (take n r)

-- What a handler's call comes to. An error is a cancellation (`context.Canceled`) or not.
pub data Outcome : Type 0 where
  succeeded : Outcome
  failed : Bool → Bytes → Outcome
  panicked : Bytes → Outcome

-- `run`: a panic becomes an error, which is no cancellation. `none` is the nil error.
unfoldable pub run_handler : Outcome → Option (Bool × Bytes)
run_handler succeeded = none
run_handler (failed canceled text) = some (canceled, text)
run_handler (panicked text) = some (false, codes "panic: " ++ text)

-- What happens while one job of the batch is processed.
pub record Turn : Type 0 where
  pub stopping : Bool  -- `ctx.Err() != nil` when the loop reaches the job
  pub outcome : Outcome  -- the handler's result, if it is called
  pub stopping_after : Bool  -- `ctx.Err() != nil` once the handler has returned
  pub now : ℕ  -- the clock when the outcome is recorded
  pub db_fails : Bool  -- the statement that records the outcome fails

-- `msg` and `delay` of a failed attempt. The attempt is already counted in `attempts`.
unfoldable pub retry_failed : ℕ → Job → Bytes → Table → Table
unfolding truncate backoff retry_job
retry_failed now j text t =
    retry_job j.id (some (truncate text max_error_chars)) (now + backoff (sub_ℕ j.attempts 1)) t

unfoldable pub record_outcome : ℕ → Bool → Job → Option (Bool × Bytes) → Table → Table
record_outcome now stopping j none t = delete_job j.id t
record_outcome now stopping j (some (canceled, text)) t =
    if canceled && stopping then release_job now j.id t else retry_failed now j text t

-- A statement of the worker: the table after, and whether the database refused it.
abbrev pub exec : Bool → (Table → Table) → Table → Table × Bool
exec db_fails statement t = if db_fails then (t, true) else (statement t, false)

-- `dispatch`: a job of an unknown kind is dropped.
unfoldable pub dispatch : (JobKind → Bool) → Turn → Job → Table → Table × Bool
unfolding record_outcome run_handler
dispatch known turn j t =
    if known j.kind
    then exec turn.db_fails
        (record_outcome turn.now turn.stopping_after j (run_handler turn.outcome)) t
    else exec turn.db_fails (delete_job j.id) t

-- One round of the loop of `RunOnce`: shutting down, the job is handed back untouched.
unfoldable pub process : (JobKind → Bool) → Turn → Job → Table → Table × Bool
unfolding dispatch
process known turn j t =
    if turn.stopping
    then exec turn.db_fails (release_job turn.now j.id) t
    else dispatch known turn j t

-- The loop: a failure to record one outcome does not stop the rest, and the first one is reported.
unfoldable pub process_all : (JobKind → Bool) → List (Turn × Job) → Table → Table × Bool
unfolding process
process_all known [] t = (t, false)
process_all known ((turn, j) ∷ rest) t =
    let (t', failed_here) = process known turn j t in
    let (t'', failed_later) = process_all known rest t' in (t'', failed_here || failed_later)

-- The jobs of the batch with what happens to each.
unfoldable pub with_turns : (ℕ → Turn) → List Job → List (Turn × Job)
with_turns turns [] = []
with_turns turns (j ∷ jobs) = (turns j.id, j) ∷ with_turns turns jobs

-- `batch <= 0` and `lease <= 0` take the defaults.
unfoldable pub or_default : ℕ → ℕ → ℕ
or_default zero default = default
or_default (suc n) default = suc n

-- `RunOnce`: the table after, how many jobs were claimed, and whether an outcome was not recorded.
-- A failed claim returns at once.
unfoldable pub run_once :
    (JobKind → Bool) → ℕ → ℕ → ℕ → Bool → (ℕ → Bool) → (ℕ → Turn) → Table → Table × ℕ × Bool
unfolding process_all with_turns or_default claim_jobs
run_once known batch lease now claim_fails row_locked turns t =
    if claim_fails
    then (t, 0, true)
    else let (t', jobs) =
        claim_jobs now (now + or_default lease default_lease) (or_default batch default_batch)
          row_locked t in
      let (t'', failed_to_record) = process_all known (with_turns turns jobs) t' in
      (t'', length jobs, failed_to_record)
