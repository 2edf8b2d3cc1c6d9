-- ===== src/Jobs/Retry.antt =====
-- When a job whose handler failed is due again.
use crashcart.Base.{
  ℕ, suc, ◌+◌, ◌*◌, ◌^◌, ◌≡◌, ap, ◌∙◌, Bool, true, false, ◌&&◌, List, [], ◌∷◌, Option, none, some,
  arith, leb, ◌==◌, min, update_where, All, Bool-cases, inl, inr,
}
use crashcart.Base.Int.{pos, sub_ℕ}
use crashcart.Base.Text.{Bytes}
use crashcart.Jobs.Backoff.{backoff, backoff_doubles}
use crashcart.Jobs.Table.{JobKind, Job, Table, is_live, is_claimable, retry_job}
use crashcart.Jobs.Worker.{
  Turn, run_handler, record_outcome, retry_failed, dispatch, process, truncate, max_error_chars,
}

-- Retried rows are free and due at `run_after`.
retried_rows :
    (i later run_after : ℕ) (text : Option Bytes) (rows : List Job)
    → All
        (λ k. (k.id == i) ≡ true → is_claimable later k ≡ (leb run_after later && is_live k))
        (update_where
          (λ k. k.id == i)
          (λ k. record k { last_error = text; run_after = run_after; locked_until = none })
          rows)
unfolding is_claimable
retried_rows i later run_after text [] = tt
retried_rows i later run_after text (j ∷ rows) = elim (Bool-cases (j.id == i)) [
  | inl e ↦ rw e ((λ h. ground arith), retried_rows i later run_after text rows)
  | inr e ↦ rw e ((λ h. cc), retried_rows i later run_after text rows)
]

-- A failed attempt (an error that is no cancellation, or a panic) of a job of a known kind, its
-- `n + 1`-th, makes the job's row claimable from exactly min(5 * 2 ^ n, 600) seconds after the
-- failure on, as long as the row has fewer than 8 attempts; one with 8 is never claimable again.
pub failed_attempt-due :
    (known : JobKind → Bool) (turn : Turn) (j : Job) (t : Table) (n later : ℕ) (text : Bytes)
    → known j.kind ≡ true
    → turn.stopping ≡ false
    → turn.db_fails ≡ false
    → run_handler turn.outcome ≡ some (false, text)
    → j.attempts ≡ suc n
    → All
        (λ k.
          (k.id == j.id) ≡ true
          → is_claimable later k ≡ (leb (turn.now + min (5 * 2 ^ n) 600) later && is_live k))
        (process known turn j t).0.rows
unfolding process dispatch record_outcome retry_failed retry_job
failed_attempt-due known turn j t n later text k s d r a =
    let counted : sub_ℕ j.attempts 1 ≡ pos n = ground arith in
    let delay : backoff (sub_ℕ j.attempts 1) ≡ min (5 * 2 ^ n) 600 =
      ap backoff counted ∙ (backoff_doubles n).0 in
    rw (s, k, d, r, ← delay)
      (retried_rows j.id later (turn.now + backoff (sub_ℕ j.attempts 1))
        (some (truncate text max_error_chars)) t.rows)
