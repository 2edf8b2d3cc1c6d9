-- ===== src/Issues/Regression.antt =====
-- Resolving an issue and seeing it again (`SetIssueStatus` and `UpsertIssue` in
-- internal/store/issues.go): when it becomes a regression, and what a history of upserts folds to.
use crashcart.Base.{
  ℕ, ◌≡◌, refl, sym, ap, Bool, true, not, ◌&&◌, List, [], ◌∷◌, Option, some, arith, All, find_row,
  find_row-update_where,
}
use crashcart.Base.Text.{Bytes}
use crashcart.Issues.Table.{
  resolved, Issue, UpsertIssueParams, same_issue, contains_all, merged_status, merge, upsert_issue,
  write_issue, HourlyStat, SetIssueStatusParams, with_status, set_issue_status,
}

-- The upserts of one issue in order, each with the clock of its statement.
unfoldable pub upsert_all :
    (Bytes → Bytes → Bool) → List (ℕ × UpsertIssueParams) → List Issue → List Issue
upsert_all lt [] rows = rows
upsert_all lt ((now, p) ∷ ps) rows = upsert_all lt ps (upsert_issue lt now p rows).0

merge-same_issue :
    (lt : Bytes → Bytes → Bool) (now : ℕ) (p : UpsertIssueParams) (project : ℕ) (fp : Bytes)
    (i : Issue)
    → same_issue project fp (merge lt now p i) ≡ same_issue project fp i
unfolding same_issue merge
merge-same_issue lt now p project fp i = refl

with_status-same_issue :
    (now : ℕ) (stats : List HourlyStat) (p : SetIssueStatusParams) (project : ℕ) (fp : Bytes)
    (i : Issue)
    → same_issue project fp (with_status now stats p i) ≡ same_issue project fp i
unfolding same_issue with_status
with_status-same_issue now stats p project fp i = refl

-- The branch that an upsert takes.
pub upsert_issue-write_issue :
    (lt : Bytes → Bytes → Bool) (now : ℕ) (p : UpsertIssueParams) (rows : List Issue)
    (o : Option Issue)
    → find_row (same_issue p.project_id p.fingerprint) rows ≡ o
    → upsert_issue lt now p rows ≡ write_issue lt now p rows o
unfolding upsert_issue
upsert_issue-write_issue lt now p rows o h = ap (write_issue lt now p rows) h

-- An upsert of an issue that is there merges into its row.
pub find_row-upsert_issue :
    (lt : Bytes → Bytes → Bool) (now : ℕ) (p : UpsertIssueParams) (rows : List Issue) (i : Issue)
    → find_row (same_issue p.project_id p.fingerprint) rows ≡ some i
    → find_row (same_issue p.project_id p.fingerprint) (upsert_issue lt now p rows).0
      ≡ some (merge lt now p i)
unfolding write_issue
find_row-upsert_issue lt now p rows i h =
    let key = same_issue p.project_id p.fingerprint in
    rw (upsert_issue-write_issue lt now p rows (some i) h) (
      find_row-update_where key (merge lt now p) rows i
        (merge-same_issue lt now p p.project_id p.fingerprint) h)

-- Resolved, on the releases it had then.
abbrev IsResolvedOn : List Bytes → Issue → Type 0
IsResolvedOn releases j = (j.status ≡ resolved) × (j.resolved_releases ≡ some releases)

module _ (lt : Bytes → Bytes → Bool) (project : ℕ) (fp : Bytes) (releases : List Bytes) where
  -- An upsert of the issue by events on releases it was resolved on.
  abbrev pub IsOld : ℕ × UpsertIssueParams → Type 0
  IsOld (now, p) =
      (p.project_id ≡ project) × (p.fingerprint ≡ fp) × (contains_all releases p.releases ≡ true)

  merge-resolved :
      (now : ℕ) (p : UpsertIssueParams) (i : Issue)
      → contains_all releases p.releases ≡ true
      → IsResolvedOn releases i
      → IsResolvedOn releases (merge lt now p i)
  unfolding merge merged_status
  merge-resolved now p i c (e, o) = (rw (e, o, c) (ground arith), o)

  stays_resolved :
      (ps : List (ℕ × UpsertIssueParams)) (rows : List Issue) (i : Issue)
      → All IsOld ps
      → find_row (same_issue project fp) rows ≡ some i
      → IsResolvedOn releases i
      → (j : Issue) × (find_row (same_issue project fp) (upsert_all lt ps rows) ≡ some j)
        × IsResolvedOn releases j
  unfolding upsert_all
  stays_resolved [] rows i olds h r = (i, h, r)
  stays_resolved ((now, p) ∷ ps) rows i ((ep, ef, c), olds) h r =
      let there : find_row (same_issue p.project_id p.fingerprint) rows ≡ some i = rw (ep, ef) h in
      let after : find_row (same_issue project fp) (upsert_issue lt now p rows).0
          ≡ some (merge lt now p i) =
        rw (sym ep, sym ef) (find_row-upsert_issue lt now p rows i there) in
      stays_resolved ps (upsert_issue lt now p rows).0 (merge lt now p i) olds after
        (merge-resolved now p i c r)

-- Resolve an issue, let events on the releases it was seen on arrive, in any number: the next event
-- that counts as evidence reports a regression exactly when one of its releases is a new one.
pub regressed-new_release :
    (lt : Bytes → Bytes → Bool) (rows : List Issue) (i : Issue) (t0 : ℕ) (stats : List HourlyStat)
    (s : SetIssueStatusParams) (ps : List (ℕ × UpsertIssueParams)) (now : ℕ) (p : UpsertIssueParams)
    → find_row (same_issue p.project_id p.fingerprint) rows ≡ some i
    → s.status ≡ resolved
    → All (IsOld lt p.project_id p.fingerprint i.releases) ps
    → (upsert_issue lt now p (
        upsert_all lt ps
          (set_issue_status t0 stats p.project_id p.fingerprint s rows).0)).1.regressed
      ≡ (p.regress && not (contains_all i.releases p.releases))
unfolding set_issue_status with_status write_issue merged_status
regressed-new_release lt rows i t0 stats s ps now p h e olds =
    let key = same_issue p.project_id p.fingerprint in
    let set : find_row key (set_issue_status t0 stats p.project_id p.fingerprint s rows).0
        ≡ some (with_status t0 stats s i) =
      find_row-update_where key (with_status t0 stats s) rows i
        (with_status-same_issue t0 stats s p.project_id p.fingerprint) h in
    let (j, found, (st, on)) =
      stays_resolved lt p.project_id p.fingerprint i.releases ps
        (set_issue_status t0 stats p.project_id p.fingerprint s rows).0 (with_status t0 stats s i)
        olds set (e, rw e refl) in
    rw (upsert_issue-write_issue lt now p _ (some j) found) (rw (st, on) (ground arith))
