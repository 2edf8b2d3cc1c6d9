-- ===== src/Jobs/Sound.antt =====
-- The invariant of the jobs table, and what an UPDATE or a DELETE must do to keep it.
use crashcart.Base.{
  ℕ, ◌+◌, ◌≤◌, ◌<◌, ◌≡◌, refl, Bool, true, not, ◌&&◌, List, Option, none, if◌then◌else◌, arith, ltb,
  ◌==◌, keep, count, min, update_where, All, All-keep, All-update_where, All-imply, All-always,
  count_mono, count-keep-le, count-update_where, Bool-cases, inl, inr,
}
use crashcart.Base.Text.{Bytes, str_eq_iff}
use crashcart.Jobs.Table.{
  JobKind, kind_eq, symbolicate, resymbolicate, alert, Job, Table, max_attempts, is_live, same_key,
  is_pending, claimed_row, delete_job, retry_job, expire_jobs,
}

pub record IsSound (t : Table) : Type 0 where
  -- The unique index `jobs_pending`.
  pub one_pending :
      (kind : JobKind) (project : ℕ) (args : Bytes)
      → count (is_pending kind project args) t.rows ≤ 1
  pub one_id : (i : ℕ) → count (λ j. i == j.id) t.rows ≤ 1
  pub ids_used : All (λ j. j.id < t.next_id) t.rows
  pub attempts_capped : All (λ j. j.attempts ≤ max_attempts) t.rows

-- What an UPDATE may do to a row for the invariant to be kept whatever the other rows are.
pub record IsTame (q : Job → Bool) (f : Job → Job) (rows : List Job) : Type 0 where
  pub keeps_id : (j : Job) → (f j).id ≡ j.id
  pub keeps_key :
      (kind : JobKind) (project : ℕ) (args : Bytes) (j : Job)
      → same_key kind project args (f j) ≡ same_key kind project args j
  pub stays_dead : (j : Job) → is_live (f j) ≡ true → is_live j ≡ true
  pub caps : All (λ j. q j ≡ true → j.attempts ≤ max_attempts → (f j).attempts ≤ max_attempts) rows

pub update_id :
    (q : Job → Bool) (f : Job → Job) (i : ℕ) (j : Job)
    → (f j).id ≡ j.id
    → (i == (if q j then f j else j).id) ≡ true
    → (i == j.id) ≡ true
update_id q f i j e h = elim (Bool-cases (q j)) [ inl p ↦ ground arith | inr p ↦ ground arith ]

module _ (q : Job → Bool) (f : Job → Job) (t : Table) (tame : IsTame q f t.rows) where
  update-one_pending :
      (kind : JobKind) (project : ℕ) (args : Bytes) (j : Job)
      → is_pending kind project args (if q j then f j else j) ≡ true
      → is_pending kind project args j ≡ true
  update-one_pending kind project args j h = elim (Bool-cases (q j)) [
    | inl p ↦ ground (arith, tame.keeps_key kind project args j, tame.stays_dead j)
    | inr p ↦ ground arith
  ]

  pub update-IsSound : IsSound t → IsSound (record t { rows = update_where q f t.rows })
  update-IsSound s = record {
    one_pending = λ kind project args.
        rw (count-update_where (is_pending kind project args) q f t.rows) (
          omega (
            arith,
            s.one_pending kind project args,
            count_mono _ (is_pending kind project args) t.rows
                (All-always _ t.rows (update-one_pending kind project args)),
          ));
    one_id = λ i. rw (count-update_where (λ (j : Job). i == j.id) q f t.rows) (
        omega (
          arith,
          s.one_id i,
          count_mono _ (λ (j : Job). i == j.id) t.rows
              (All-always _ t.rows (λ j. update_id q f i j (tame.keeps_id j))),
        ));
    ids_used =
        All-update_where (λ j. j.id < t.next_id) q f t.rows
          (All-always _ t.rows (λ j p h. omega (arith, tame.keeps_id j))) s.ids_used;
    attempts_capped =
        All-update_where (λ j. j.attempts ≤ max_attempts) q f t.rows tame.caps s.attempts_capped;
  }

pub keep-IsSound :
    (q : Job → Bool) (t : Table) → IsSound t → IsSound (record t { rows = keep q t.rows })
keep-IsSound q t s = record {
  one_pending = λ kind project args. omega (
    arith,
    s.one_pending kind project args,
    count-keep-le (is_pending kind project args) q t.rows,
  );
  one_id = λ i. omega (arith, s.one_id i, count-keep-le (λ (j : Job). i == j.id) q t.rows);
  ids_used = All-keep (λ j. j.id < t.next_id) q t.rows s.ids_used;
  attempts_capped = All-keep (λ j. j.attempts ≤ max_attempts) q t.rows s.attempts_capped;
}

pub delete_job-IsSound : (i : ℕ) (t : Table) → IsSound t → IsSound (delete_job i t)
unfolding delete_job
delete_job-IsSound i t s = keep-IsSound (λ j. not (j.id == i)) t s

pub expire_jobs-IsSound : (now age : ℕ) (t : Table) → IsSound t → IsSound (expire_jobs now age t).0
unfolding expire_jobs
expire_jobs-IsSound now age t s =
    keep-IsSound (λ j. not (not (is_live j) && ltb (j.created_at + age) now)) t s

pub retry_job-IsSound :
    (i : ℕ) (e : Option Bytes) (run_after : ℕ) (t : Table)
    → IsSound t
    → IsSound (retry_job i e run_after t)
unfolding retry_job same_key
retry_job-IsSound i e run_after t s =
    update-IsSound (λ j. j.id == i)
      (λ j. record j { last_error = e; run_after = run_after; locked_until = none }) t
      (record {
        keeps_id = λ j. refl;
        keeps_key = λ kind project args j. refl;
        stays_dead = λ j h. h;
        caps = All-always _ t.rows (λ j p h. h);
      })
      s

abbrev pub pulled : ℕ → Job → Job
pulled run_after j = record j { run_after = min j.run_after run_after }

pub pull-IsTame :
    (q : Job → Bool) (run_after : ℕ) (rows : List Job) → IsTame q (pulled run_after) rows
unfolding same_key
pull-IsTame q run_after rows = record {
  keeps_id = λ j. refl;
  keeps_key = λ kind project args j. refl;
  stays_dead = λ j h. h;
  caps = All-always _ rows (λ j p h. h);
}

-- A claimed row is live before, so its attempts stay within the cap.
pub claim-IsTame :
    (q : Job → Bool) (until : ℕ) (rows : List Job)
    → All (λ j. q j ≡ true → is_live j ≡ true) rows
    → IsTame q (claimed_row until) rows
unfolding same_key
claim-IsTame q until rows live = record {
  keeps_id = λ j. refl;
  keeps_key = λ kind project args j. refl;
  stays_dead = λ j h. ground arith;
  caps = All-imply _ _ rows (λ j l p h. let live : is_live j ≡ true = l p in ground arith) live;
}

kind_eq→≡ : (a b : JobKind) → kind_eq a b ≡ true → a ≡ b
kind_eq→≡ symbolicate b h = ground arith
kind_eq→≡ resymbolicate b h = ground arith
kind_eq→≡ alert b h = ground arith

pub same_key→≡ :
    (kind : JobKind) (project : ℕ) (args : Bytes) (j : Job)
    → same_key kind project args j ≡ true
    → (kind ≡ j.kind) × (project ≡ j.project_id) × (args ≡ j.args)
unfolding same_key
same_key→≡ kind project args j h =
    (kind_eq→≡ kind j.kind (ground arith), ground arith, (str_eq_iff args j.args).0 (ground arith))

-- Two keys that match one row are the same test.
pub same_key-agree :
    (kind kind' : JobKind) (project project' : ℕ) (args args' : Bytes) (j k : Job)
    → same_key kind project args j ≡ true
    → same_key kind' project' args' j ≡ true
    → same_key kind project args k ≡ same_key kind' project' args' k
same_key-agree kind kind' project project' args args' j k h h' =
    let (a, b, c) = same_key→≡ kind project args j h in
    let (a', b', c') = same_key→≡ kind' project' args' j h' in cc

kind_eq_refl : (k : JobKind) → kind_eq k k ≡ true
kind_eq_refl symbolicate = refl
kind_eq_refl _ = refl

pub same_key_refl :
    (kind : JobKind) (project : ℕ) (args : Bytes) (j : Job)
    → kind ≡ j.kind
    → project ≡ j.project_id
    → args ≡ j.args
    → same_key kind project args j ≡ true
unfolding same_key
same_key_refl kind project args j a b c =
    ground (arith, kind_eq_refl kind, (str_eq_iff args j.args).1 c)
