-- ===== src/Jobs/Settle.antt =====
-- After a batch the worker holds no lease on a claimed job whose outcome was recorded.
use crashcart.Base.{
  ℕ, ◌+◌, ◌-◌, ◌≤◌, ◌≡◌, refl, Bool, true, false, not, ◌&&◌, List, [], ◌∷◌, inl, inr, Option, none,
  some, arith, ◌==◌, Bool-cases, some_row, All-always, All-imply, the_only_row, none-keep,
  none-keep_not, none-update_where, none-updated,
}
use crashcart.Base.Text.{Bytes}
use crashcart.Jobs.Table.{
  JobKind, Job, Table, claim_jobs, delete_job, retry_job, release_job, is_leased, holds_lease,
  has_newer_duplicate, has_id,
}
use crashcart.Jobs.Sound.{IsSound, delete_job-IsSound, retry_job-IsSound}
use crashcart.Jobs.Release.{release_job-IsSound}
use crashcart.Jobs.Claim.{claim_jobs-IsSound}
use crashcart.Jobs.Worker.{
  Turn, dispatch, process, process_all, run_once, retry_failed, record_outcome, run_handler,
  with_turns, exec, or_default, default_lease, default_batch,
}

-- No row of job `i` is leased at `e`.
abbrev pub IsSettled : ℕ → ℕ → Table → Type 0
IsSettled e i t = some_row (λ k. (i == k.id) && is_leased e k) t.rows ≡ false

module _ (e i : ℕ) (t : Table) where
  delete-IsSettled : IsSettled e i (delete_job i t)
  unfolding delete_job
  delete-IsSettled =
      none-keep_not (λ (k : Job). (i == k.id) && is_leased e k) (λ k. not (k.id == i)) t.rows
        (λ j h. ground arith)

  retry-IsSettled :
      (text : Option Bytes) (run_after : ℕ) → IsSettled e i (retry_job i text run_after t)
  unfolding retry_job
  retry-IsSettled text run_after =
      none-updated (λ (k : Job). (i == k.id) && is_leased e k) (λ k. k.id == i)
        (λ k. record k { last_error = text; run_after = run_after; locked_until = none }) t.rows
        (All-always _ t.rows (λ j. ground arith))

  release-IsSettled : (now : ℕ) → now ≤ e → IsSound t → IsSettled e i (release_job now i t)
  unfolding release_job
  release-IsSettled now le s =
      let releasable : Job → Bool =
        λ j. holds_lease now i j && not (has_newer_duplicate t.rows j) in
      elim (Bool-cases (some_row releasable t.rows)) [
        | inl some_released ↦ rw some_released (
            none-updated (λ (k : Job). (i == k.id) && is_leased e k) releasable
              (λ k. record k { locked_until = none; attempts = k.attempts - 1 }) t.rows
              (All-imply _ _ t.rows (λ j only. ground (arith, only))
                (the_only_row (λ (k : Job). i == k.id) releasable t.rows (λ j h. ground arith)
                  (s.one_id i) some_released)))
        | inr none_released ↦ rw none_released (
            none-keep_not (λ (k : Job). (i == k.id) && is_leased e k)
              (λ k. not (holds_lease now i k)) t.rows (λ j h. ground arith))
      ]

  module _ (x : ℕ) (h : IsSettled e i t) where
    delete-keeps : IsSettled e i (delete_job x t)
    unfolding delete_job
    delete-keeps = none-keep (λ (k : Job). (i == k.id) && is_leased e k) _ t.rows h

    retry-keeps :
        (text : Option Bytes) (run_after : ℕ) → IsSettled e i (retry_job x text run_after t)
    unfolding retry_job
    retry-keeps text run_after =
        none-update_where (λ (k : Job). (i == k.id) && is_leased e k) (λ k. k.id == x)
          (λ k. record k { last_error = text; run_after = run_after; locked_until = none }) t.rows
          (λ j q. ground arith) h

    release-keeps : (now : ℕ) → IsSettled e i (release_job now x t)
    unfolding release_job
    release-keeps now =
        let releasable : Job → Bool =
          λ j. holds_lease now x j && not (has_newer_duplicate t.rows j) in
        elim (Bool-cases (some_row releasable t.rows)) [
          | inl some_released ↦ rw some_released (
              none-update_where (λ (k : Job). (i == k.id) && is_leased e k) releasable
                (λ k. record k { locked_until = none; attempts = k.attempts - 1 }) t.rows
                (λ j q. ground arith) h)
          | inr none_released ↦
              rw none_released (none-keep (λ (k : Job). (i == k.id) && is_leased e k) _ t.rows h)
        ]

-- What holds after each statement that may record the outcome holds after the job is processed.
module _ (P : Table → Type 0) (turn : Turn) (j : Job) (t : Table) where
  exec-holds : (b : Bool) (f : Table → Table) → (b ≡ true → P t) → P (f t) → P (exec b f t).0
  exec-holds true f h k = h refl
  exec-holds false f h k = k

  outcome-holds :
      (stopping : Bool) (r : Option (Bool × Bytes))
      → P (delete_job j.id t)
      → P (release_job turn.now j.id t)
      → ((text : Option Bytes) (at : ℕ) → P (retry_job j.id text at t))
      → P (record_outcome turn.now stopping j r t)
  unfolding record_outcome retry_failed
  outcome-holds stopping none d r y = d
  outcome-holds stopping (some (canceled, text)) d r y = elim (Bool-cases (canceled && stopping)) [
    | inl e ↦ rw e r
    | inr e ↦ rw e (y _ _)
  ]

  process-holds :
      (known : JobKind → Bool)
      → (turn.db_fails ≡ true → P t)
      → P (delete_job j.id t)
      → P (release_job turn.now j.id t)
      → ((text : Option Bytes) (at : ℕ) → P (retry_job j.id text at t))
      → P (process known turn j t).0
  unfolding process dispatch
  process-holds known b d r y = elim (Bool-cases turn.stopping) [
    | inl e ↦ rw e (exec-holds turn.db_fails (release_job turn.now j.id) b r)
    | inr e ↦ rw e (elim (Bool-cases (known j.kind)) [
      | inl k ↦
          let result = run_handler turn.outcome in
          rw k (
            exec-holds turn.db_fails (record_outcome turn.now turn.stopping_after j result) b
              (outcome-holds turn.stopping_after result d r y))
      | inr k ↦ rw k (exec-holds turn.db_fails (delete_job j.id) b d)
    ])
  ]

process-IsSound :
    (known : JobKind → Bool) (turn : Turn) (j : Job) (t : Table)
    → IsSound t
    → IsSound (process known turn j t).0
process-IsSound known turn j t s =
    process-holds IsSound turn j t known (λ b. s) (delete_job-IsSound j.id t s)
      (release_job-IsSound turn.now j.id t s) (λ text at. retry_job-IsSound j.id text at t s)

process-keeps :
    (known : JobKind → Bool) (turn : Turn) (j : Job) (t : Table) (e i : ℕ)
    → IsSettled e i t
    → IsSettled e i (process known turn j t).0
process-keeps known turn j t e i h =
    process-holds (IsSettled e i) turn j t known (λ b. h) (delete-keeps e i t j.id h)
      (release-keeps e i t j.id h turn.now) (retry-keeps e i t j.id h)

process-IsSettled :
    (known : JobKind → Bool) (turn : Turn) (j : Job) (t : Table) (e : ℕ)
    → IsSound t
    → turn.now ≤ e
    → turn.db_fails ≡ false
    → IsSettled e j.id (process known turn j t).0
process-IsSettled known turn j t e s le ok =
    process-holds (IsSettled e j.id) turn j t known (λ b. cc) (delete-IsSettled e j.id t)
      (release-IsSettled e j.id t turn.now le s) (retry-IsSettled e j.id t)

module _ (known : JobKind → Bool) (turns : ℕ → Turn) (e : ℕ) where
  process_all-keeps :
      (jobs : List Job) (t : Table) (i : ℕ)
      → IsSettled e i t
      → IsSettled e i (process_all known (with_turns turns jobs) t).0
  unfolding process_all with_turns
  process_all-keeps [] t i h = h
  process_all-keeps (j ∷ jobs) t i h =
      process_all-keeps jobs (process known (turns j.id) j t).0 i
        (process-keeps known (turns j.id) j t e i h)

  process_all-IsSettled :
      (jobs : List Job) (t : Table) (i : ℕ)
      → IsSound t
      → ((x : ℕ) → (turns x).now ≤ e)
      → (turns i).db_fails ≡ false
      → has_id i jobs ≡ true
      → IsSettled e i (process_all known (with_turns turns jobs) t).0
  unfolding process_all with_turns has_id
  process_all-IsSettled [] t i s le ok h = cc
  process_all-IsSettled (j ∷ jobs) t i s le ok h =
      let t' = (process known (turns j.id) j t).0 in
      elim (Bool-cases (i == j.id)) [
        | inl mine ↦
            let same : i ≡ j.id = ground arith in
            let settled = process-IsSettled known (turns j.id) j t e s (le j.id) (rw same at ok) in
            process_all-keeps jobs t' i (rw same settled)
        | inr other ↦
            process_all-IsSettled jobs t' i (process-IsSound known (turns j.id) j t s) le ok
              (ground arith)
      ]

-- After a batch, at any time past its last step, the worker holds no lease on a job that it claimed
-- and whose outcome the database recorded, whatever became of the others: the job is gone, due
-- later, or free.
pub run_once-IsSettled :
    (known : JobKind → Bool) (batch lease now : ℕ) (row_locked : ℕ → Bool) (turns : ℕ → Turn)
    (t : Table) (e i : ℕ)
    → IsSound t
    → ((x : ℕ) → (turns x).now ≤ e)
    → (turns i).db_fails ≡ false
    → has_id i
        (claim_jobs now
          (now + or_default lease default_lease)
          (or_default batch default_batch)
          row_locked
          t).1
      ≡ true
    → IsSettled e i (run_once known batch lease now false row_locked turns t).0
unfolding run_once
run_once-IsSettled known batch lease now row_locked turns t e i s le ok h =
    process_all-IsSettled known turns e _ _ i
      (claim_jobs-IsSound now (or_default batch default_batch) row_locked
        (now + or_default lease default_lease) t s)
      le ok h
