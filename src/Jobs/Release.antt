-- ===== src/Jobs/Release.antt =====
-- `ReleaseJob` keeps the jobs table sound: un-counting an attempt never brings a second live row.
use crashcart.Base.{
  ℕ, ◌-◌, ◌≤◌, ◌≡◌, refl, Bool, true, false, not, ◌&&◌, none, if◌then◌else◌, arith, ◌==◌, count,
  some_row, update_where, All-update_where, All-imply, All-always, All-none, some_row-find,
  count_mono, count-update_where, Bool-cases, inl, inr,
}
use crashcart.Base.Text.{Bytes}
use crashcart.Jobs.Table.{
  JobKind, Job, Table, same_key, is_pending, release_job, has_newer_duplicate, holds_lease,
}
use crashcart.Jobs.Sound.{IsSound, keep-IsSound, same_key-agree, update_id, same_key_refl}

abbrev released : Job → Job
released j = record j { locked_until = none; attempts = j.attempts - 1 }

module _ (now i : ℕ) (t : Table) (s : IsSound t) where
  abbrev releasable : Job → Bool
  releasable j = holds_lease now i j && not (has_newer_duplicate t.rows j)

  -- Where `r` is released, every row that is live with its key afterwards is row `i`.
  only_row :
      (kind : JobKind) (project : ℕ) (args : Bytes) (r k : Job)
      → (releasable r && is_pending kind project args (released r)) ≡ true
      → (is_pending r.kind r.project_id r.args k && not (k.id == r.id)) ≡ false
      → is_pending kind project args (if releasable k then released k else k) ≡ true
      → (i == k.id) ≡ true
  unfolding same_key
  only_row kind project args r k h apart e =
      let shared : same_key kind project args r ≡ true = ground arith in
      let own = same_key_refl r.kind r.project_id r.args r refl refl refl in
      let same = same_key-agree kind r.kind project r.project_id args r.args r k shared own in
      let row : (r.id == i) ≡ true = ground arith in
      elim (Bool-cases (releasable k)) [
        | inl p ↦ ground arith
        | inr p ↦ let live : is_pending kind project args k ≡ true = rw p at e in ground arith
      ]

  only_released :
      (kind : JobKind) (project : ℕ) (args : Bytes) (r : Job)
      → (releasable r && is_pending kind project args (released r)) ≡ true
      → count (is_pending kind project args) (update_where releasable released t.rows) ≤ 1
  only_released kind project args r h =
      let clear : has_newer_duplicate t.rows r ≡ false = ground arith in
      let apart =
        All-none (λ (k : Job). is_pending r.kind r.project_id r.args k && not (k.id == r.id)) t.rows
          (unfold has_newer_duplicate in clear) in
      let after : Job → Bool =
        λ k. is_pending kind project args (if releasable k then released k else k) in
      let bound =
        count_mono after (λ (k : Job). i == k.id) t.rows
          (All-imply _ _ t.rows (λ k a e. only_row kind project args r k h a e) apart) in
      rw (count-update_where (is_pending kind project args) releasable released t.rows)
        (omega (arith, s.one_id i, bound))

  release-one_pending :
      (kind : JobKind) (project : ℕ) (args : Bytes)
      → count (is_pending kind project args) (update_where releasable released t.rows) ≤ 1
  release-one_pending kind project args =
      let mine : Job → Bool = λ j. releasable j && is_pending kind project args (released j) in
      let after : Job → Bool =
        λ k. is_pending kind project args (if releasable k then released k else k) in
      elim (Bool-cases (some_row mine t.rows)) [
        | inl found ↦
            let (r, h) = some_row-find mine t.rows found in only_released kind project args r h
        | inr clear ↦
            let bound = count_mono after (is_pending kind project args) t.rows (
              All-imply _ _ t.rows
                (λ j e h. elim (Bool-cases (releasable j)) [
                  | inl p ↦ ground arith
                  | inr p ↦ rw p at h
                ])
                (All-none mine t.rows clear)) in
            rw (count-update_where (is_pending kind project args) releasable released t.rows)
              (omega (arith, s.one_pending kind project args, bound))
      ]

  update-released : IsSound (record t { rows = update_where releasable released t.rows })
  update-released = record {
    one_pending = release-one_pending;
    one_id = λ x. rw (count-update_where (λ (j : Job). x == j.id) releasable released t.rows) (
        omega (
          arith,
          s.one_id x,
          count_mono _ (λ (j : Job). x == j.id) t.rows
              (All-always _ t.rows (λ j. update_id releasable released x j refl)),
        ));
    ids_used =
        All-update_where _ releasable released t.rows (All-always _ t.rows (λ j p h. h)) s.ids_used;
    attempts_capped =
        All-update_where _ releasable released t.rows (All-always _ t.rows (λ j p h. omega arith))
          s.attempts_capped;
  }

  pub release_job-IsSound : IsSound (release_job now i t)
  unfolding release_job
  release_job-IsSound = elim (Bool-cases (some_row releasable t.rows)) [
    | inl e ↦ rw e update-released
    | inr e ↦ rw e (keep-IsSound (λ j. not (holds_lease now i j)) t s)
  ]
