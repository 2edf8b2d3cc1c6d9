-- ===== src/Jobs/Enqueue.antt =====
-- `EnqueueJob` keeps the jobs table sound, and leaves one live row with the key.
use mathlib.Core.List.{append-nil}
use crashcart.Base.{
  ℕ, ◌+◌, ◌≤◌, ◌<◌, ◌≡◌, refl, Bool, true, false, not, List, [], ◌∷◌, ◌++◌, if◌then◌else◌, arith,
  ◌==◌, keep, count, some_row, update_where, All, All-append, All-imply, All-always, All-none,
  count_mono, count_pos, count-none, keep-append, keep-update_where, count-append,
  count-update_where, Bool-cases, inl, inr,
}
use crashcart.Base.Text.{Bytes}
use crashcart.Jobs.Table.{
  JobKind, Job, Table, EnqueueJobParams, same_key, is_pending, enqueue_job, new_job,
}
use crashcart.Jobs.Sound.{
  IsSound, pulled, pull-IsTame, update-IsSound, same_key-agree, same_key_refl,
}

count_unused :
    (n : ℕ) (rows : List Job) → All (λ j. j.id < n) rows → count (λ j. n == j.id) rows ≡ 0
count_unused n [] h = refl
count_unused n (j ∷ rows) h = ground (arith, count_unused n rows h.1, h.0)

module _ (now : ℕ) (p : EnqueueJobParams) (t : Table) where
  append-one_pending :
      (kind : JobKind) (project : ℕ) (args : Bytes)
      → some_row (is_pending p.kind p.project_id p.args) t.rows ≡ false
      → count (is_pending kind project args) t.rows ≤ 1
      → count (is_pending kind project args) (t.rows ++ new_job t.next_id now p ∷ []) ≤ 1
  unfolding new_job
  append-one_pending kind project args fresh one =
      let self =
        same_key_refl p.kind p.project_id p.args (new_job t.next_id now p) refl refl refl in
      rw count-append (elim (Bool-cases (same_key kind project args (new_job t.next_id now p))) [
        | inl mine ↦
            let same = λ (j : Job).
              same_key-agree kind p.kind project p.project_id args p.args (new_job t.next_id now p)
                j mine self in
            let bound =
              count_mono (is_pending kind project args) (is_pending p.kind p.project_id p.args)
                t.rows (All-always _ t.rows (λ j h. ground (arith, same j))) in
            ground (arith, bound, count-none (is_pending p.kind p.project_id p.args) t.rows fresh)
        | inr other ↦ ground arith
      ])

  append-IsSound :
      some_row (is_pending p.kind p.project_id p.args) t.rows ≡ false
      → IsSound t
      → IsSound (record { rows = t.rows ++ new_job t.next_id now p ∷ []; next_id = t.next_id + 1 })
  unfolding new_job
  append-IsSound fresh s = record {
    one_pending = λ kind project args.
        append-one_pending kind project args fresh (s.one_pending kind project args);
    one_id =
        λ i. rw count-append (ground (arith, s.one_id i, count_unused t.next_id t.rows s.ids_used));
    ids_used =
        All-append _ t.rows _ (All-imply _ _ t.rows (λ j h. omega arith) s.ids_used)
          (omega arith, tt);
    attempts_capped = All-append _ t.rows _ s.attempts_capped (omega arith, tt);
  }

  grow-IsSound :
      (rows : List Job)
      → IsSound (record t { rows = rows })
      → IsSound (record { rows = rows; next_id = t.next_id + 1 })
  grow-IsSound rows s = record {
    one_pending = s.one_pending;
    one_id = s.one_id;
    ids_used = All-imply _ _ rows (λ j h. omega arith) s.ids_used;
    attempts_capped = s.attempts_capped;
  }

  pub enqueue_job-IsSound : IsSound t → IsSound (enqueue_job now p t)
  unfolding enqueue_job
  enqueue_job-IsSound s =
      let pending = is_pending p.kind p.project_id p.args in
      elim (Bool-cases (some_row pending t.rows)) [
        | inl old ↦ rw old (
            grow-IsSound (update_where pending (pulled p.run_after) t.rows) (
              update-IsSound pending (pulled p.run_after) t (pull-IsTame pending p.run_after t.rows)
                s))
        | inr fresh ↦ rw fresh (append-IsSound fresh s)
      ]

  abbrev pending : Job → Bool
  pending = is_pending p.kind p.project_id p.args

  pulled_forward :
      All
        (λ j. pending j ≡ true → j.run_after ≤ p.run_after)
        (update_where pending (pulled p.run_after) t.rows)
  pulled_forward = pull t.rows
    where
      pull :
          (rows : List Job)
          → All
              (λ j. pending j ≡ true → j.run_after ≤ p.run_after)
              (update_where pending (pulled p.run_after) rows)
      pull [] = tt
      pull (j ∷ rows) = elim (Bool-cases (pending j)) [
        | inl e ↦ rw e ((λ h. omega arith), pull rows)
        | inr e ↦ rw e ((λ h. cc), pull rows)
      ]

  new_job-pending : pending (new_job t.next_id now p) ≡ true
  unfolding new_job
  new_job-pending =
      let self =
        same_key_refl p.kind p.project_id p.args (new_job t.next_id now p) refl refl refl in
      ground arith

  pulled-pending : (j : Job) → pending j ≡ true → pending (pulled p.run_after j) ≡ true
  unfolding same_key
  pulled-pending j h = h

  count-pulled :
      IsSound t
      → some_row pending t.rows ≡ true
      → count pending (update_where pending (pulled p.run_after) t.rows) ≡ 1
  count-pulled s old =
      let after : Job → Bool = λ j. pending (if pending j then pulled p.run_after j else j) in
      let sound =
        update-IsSound pending (pulled p.run_after) t (pull-IsTame pending p.run_after t.rows) s in
      omega (
        arith,
        count_pos pending t.rows old,
        sound.one_pending p.kind p.project_id p.args,
        count-update_where pending pending (pulled p.run_after) t.rows,
        count_mono pending after t.rows (All-always _ t.rows (λ j h. rw h (pulled-pending j h))),
      )

  -- After an enqueue on a sound table exactly one live row has the job's kind, project and
  -- arguments, it is due no later than asked for, and every other row is as it was.
  pub enqueue_job-pending :
      IsSound t
      → (count pending (enqueue_job now p t).rows ≡ 1)
        × All (λ j. pending j ≡ true → j.run_after ≤ p.run_after) (enqueue_job now p t).rows
        × (keep (λ j. not (pending j)) (enqueue_job now p t).rows
            ≡ keep (λ j. not (pending j)) t.rows)
  unfolding enqueue_job
  enqueue_job-pending s = elim (Bool-cases (some_row pending t.rows)) [
    | inl old ↦ rw old (
      count-pulled s old,
      pulled_forward,
      keep-update_where pending (λ j. not (pending j)) (pulled p.run_after) t.rows
          (λ j h. (ground arith, ground (arith, pulled-pending j h))),
    )
    | inr fresh ↦
        let clear = All-none pending t.rows fresh in
        rw fresh (
          rw (count-append, count-none pending t.rows fresh, new_job-pending) (omega arith),
          All-append _ t.rows _ (All-imply _ _ t.rows (λ j a h. cc) clear)
              ((λ h. unfold new_job in omega arith), tt),
          rw (keep-append, new_job-pending) (append-nil _),
        )
  ]
