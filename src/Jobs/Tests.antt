-- ===== src/Jobs/Tests.antt =====
-- Runs of the job queue and its worker at concrete inputs.
use crashcart.Base.{
  ℕ, ◌+◌, ◌*◌, ◌^◌, ◌≤◌, ◌≡◌, refl, Bool, true, false, not, ◌&&◌, List, [], ◌∷◌, map, none, some,
  arith, leb, ◌==◌, keep, count, min, All,
}
use crashcart.Base.Text.{codes, str_eq}
use crashcart.Jobs.Table.{
  JobKind, symbolicate, alert, Job, Table, EnqueueJobParams, is_pending, is_live, is_claimable,
  has_id, before, enqueue_job, enqueue_jobs, claim_jobs, select_claimable, release_job, same_key,
  has_newer_duplicate, has_collision, insert_ordered, order_by_due,
}
use crashcart.Jobs.Sound.{IsSound}
use crashcart.Jobs.Enqueue.{enqueue_job-pending}
use crashcart.Jobs.Lease.{claims_exclude}
use crashcart.Jobs.Order.{select_claimable-earliest}
use crashcart.Jobs.Queue.{
  Statement, enqueue, enqueue_many, claim, release, run_statements, empty, empty-IsSound,
  run_statements-IsSound,
}
use crashcart.Jobs.Worker.{
  Turn, panicked, run_handler, process, run_once, truncate, or_default, default_lease,
  default_batch,
}
use crashcart.Jobs.Settle.{IsSettled, run_once-IsSettled}
use crashcart.Jobs.Retry.{failed_attempt-due}

abbrev spike : EnqueueJobParams
spike = record { kind = alert; project_id = 1; args = codes "a"; run_after = 10 }

abbrev stack : EnqueueJobParams
stack = record { kind = symbolicate; project_id = 1; args = codes "b"; run_after = 5 }

abbrev nobody : ℕ → Bool
nobody i = false

-- Two jobs, the second enqueued twice; the batch takes the earlier one first.
abbrev script : List Statement
script =
    enqueue 0 spike
    ∷ enqueue_many 0 (stack ∷ [])
    ∷ enqueue 0 (record stack { run_after = 3 })
    ∷ enqueue_many 0 (stack ∷ stack ∷ [])
    ∷ claim 20 620 1 nobody
    ∷ release 30 2
    ∷ []

script_rows :
    map {B = ℕ × ℕ × ℕ} (λ j. (j.id, j.run_after, j.attempts)) (run_statements script empty).rows
    ≡ (1, 10, 0) ∷ (2, 3, 0) ∷ []
unfolding run_statements enqueue_job enqueue_jobs claim_jobs select_claimable is_claimable has_id
    order_by_due insert_ordered release_job has_newer_duplicate has_collision same_key str_eq
script_rows = refl

run_statements-IsSound_example : IsSound (run_statements script empty)
run_statements-IsSound_example = run_statements-IsSound script empty empty-IsSound

abbrev queued : Table
queued = run_statements script empty

queued-IsSound : IsSound queued
queued-IsSound = run_statements-IsSound script empty empty-IsSound

enqueue_job-pending_example :
    (count (is_pending alert 1 (codes "a")) (enqueue_job 40 spike queued).rows ≡ 1)
    × All
        (λ j. is_pending alert 1 (codes "a") j ≡ true → j.run_after ≤ 10)
        (enqueue_job 40 spike queued).rows
    × (keep (λ j. not (is_pending alert 1 (codes "a") j)) (enqueue_job 40 spike queued).rows
        ≡ keep (λ j. not (is_pending alert 1 (codes "a") j)) queued.rows)
enqueue_job-pending_example = enqueue_job-pending 40 spike queued queued-IsSound

first_claimed : has_id 2 (claim_jobs 20 620 1 nobody queued).1 ≡ true
unfolding run_statements enqueue_job enqueue_jobs claim_jobs select_claimable is_claimable has_id
    order_by_due insert_ordered release_job has_newer_duplicate has_collision same_key str_eq
first_claimed = refl

claims_exclude_example :
    has_id 2 (claim_jobs 620 1220 25 nobody (claim_jobs 20 620 1 nobody queued).0).1 ≡ false
claims_exclude_example =
    claims_exclude 20 620 1 nobody 620 1220 25 nobody queued 2 (omega arith) first_claimed

select_claimable-earliest_example :
    let chosen = select_claimable 20 1 nobody queued.rows in
    All
      (λ j. has_id j.id chosen ≡ false → All (λ c. before c j ≡ true) chosen)
      (keep (λ j. is_claimable 20 j && not (nobody j.id)) queued.rows)
select_claimable-earliest_example = select_claimable-earliest 20 1 nobody queued.rows

abbrev every_kind : JobKind → Bool
every_kind k = true

abbrev unlucky : Turn
unlucky = record {
  stopping = false;
  outcome = panicked (codes "nil map");
  stopping_after = false;
  now = 25;
  db_fails = false;
}

abbrev second : Job
second = record {
  id = 2;
  kind = symbolicate;
  project_id = 1;
  args = codes "b";
  run_after = 3;
  attempts = 1;
  locked_until = some 620;
  last_error = none;
  created_at = 0;
}

panic_text : run_handler (panicked (codes "nil map")) ≡ some (false, codes "panic: nil map")
unfolding run_handler
panic_text = refl

failed_attempt-due_example :
    All
      (λ k.
        (k.id == 2) ≡ true → is_claimable 30 k ≡ (leb (25 + min (5 * 2 ^ 0) 600) 30 && is_live k))
      (process every_kind unlucky second queued).0.rows
failed_attempt-due_example =
    failed_attempt-due every_kind unlucky second queued 0 30 (codes "panic: nil map") refl refl refl
      panic_text refl

batch_claims :
    has_id 2
      (claim_jobs 20 (20 + or_default 0 default_lease) (or_default 0 default_batch) nobody queued).1
    ≡ true
unfolding run_statements enqueue_job enqueue_jobs claim_jobs select_claimable is_claimable has_id
    order_by_due insert_ordered release_job has_newer_duplicate has_collision same_key str_eq
    or_default
batch_claims = refl

run_once-IsSettled_example :
    IsSettled 40 2 (run_once every_kind 0 0 20 false nobody (λ i. unlucky) queued).0
run_once-IsSettled_example =
    run_once-IsSettled every_kind 0 0 20 nobody (λ i. unlucky) queued 40 2 queued-IsSound
      (λ x. omega arith) refl batch_claims

-- A truncated error is cut between runes, and has no NUL.
truncate_runes :
    (truncate (0xc3 ∷ 0xa9 ∷ 0 ∷ 0x41 ∷ 0x42 ∷ []) 2 ≡ 0xc3 ∷ 0xa9 ∷ 0x41 ∷ [])
    × (truncate (0xff ∷ 0xfe ∷ 0x41 ∷ []) 1 ≡ 0xef ∷ 0xbf ∷ 0xbd ∷ [])
unfolding truncate
truncate_runes = (refl, refl)
