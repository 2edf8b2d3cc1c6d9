-- ===== src/Issues/Sound.antt =====
-- The invariant of the issues table of internal/store/issues.go, row by row.
use crashcart.Base.{
  ℕ, ◌≤◌, ◌≡◌, refl, ◌⊎◌, Bool, true, false, not, ◌&&◌, List, [], none, if◌then◌else◌, arith, count,
  update_where, All, All-update_where, All-always, count_mono, count-update_where, Bool-cases, inl,
  inr,
}
use crashcart.Base.Int.{ℤ, pos, negsuc}
use crashcart.Base.Text.{Bytes, or_else}
use crashcart.Issues.Table.{
  IssueStatus, unresolved, resolved, ignored, regression, is_resolved, is_ignored, Issue,
  UpsertIssueParams, SetIssueStatusParams, HourlyStat, same_issue, contains_all, new_issue, merge,
  merged_status, merged_releases, with_status, lifted, adjust,
}
use crashcart.Issues.Releases.{contains_all_refl, contains_all_trans, contains_all-merged_releases}

-- A row on its own: conditions stand only on an ignored issue, the counts and times are in order,
-- and the releases it was resolved on are among those it was seen on.
pub record RowIsSound (i : Issue) : Type 0 where
  pub clear :
      is_ignored i.status ≡ false
      → (i.ignore_until ≡ none)
        × (i.ignore_until_count ≡ none)
        × (i.ignore_until_escalating ≡ false)
        × (i.ignore_baseline ≡ none)
  pub counts : i.stored_count ≤ i.event_count
  pub seen : i.first_seen ≤ i.last_seen
  pub resolved_on : contains_all i.releases (or_else i.resolved_releases []) ≡ true

pub record IsSound (rows : List Issue) : Type 0 where
  -- The primary key.
  pub one_issue : (project : ℕ) (fp : Bytes) → count (same_issue project fp) rows ≤ 1
  pub rows_sound : All RowIsSound rows

-- What `UpsertIssue` is given: no more events stored than seen, the first not after the last.
abbrev pub IsFolded : UpsertIssueParams → Type 0
IsFolded p = (p.stored_count ≤ p.event_count) × (p.first_seen ≤ p.last_seen)

module _ (q : Issue → Bool) (f : Issue → Issue) (rows : List Issue) where
  update-same_issue :
      ((project : ℕ) (fp : Bytes) (i : Issue)
        → same_issue project fp (f i) ≡ same_issue project fp i)
      → (project : ℕ) (fp : Bytes) (i : Issue)
      → same_issue project fp (if q i then f i else i) ≡ true
      → same_issue project fp i ≡ true
  update-same_issue keeps project fp i h = elim (Bool-cases (q i)) [
    | inl e ↦ ground (arith, keeps project fp i)
    | inr e ↦ ground arith
  ]

  pub update-IsSound :
      ((project : ℕ) (fp : Bytes) (i : Issue)
        → same_issue project fp (f i) ≡ same_issue project fp i)
      → ((i : Issue) → q i ≡ true → RowIsSound i → RowIsSound (f i))
      → IsSound rows
      → IsSound (update_where q f rows)
  update-IsSound keeps sound s = record {
    one_issue = λ project fp. rw (count-update_where (same_issue project fp) q f rows) (
        omega (
          arith,
          s.one_issue project fp,
          count_mono _ (same_issue project fp) rows
              (All-always _ rows (update-same_issue keeps project fp)),
        ));
    rows_sound = All-update_where RowIsSound q f rows (All-always _ rows sound) s.rows_sound;
  }

pub new_issue-RowIsSound :
    (now : ℕ) (p : UpsertIssueParams) → IsFolded p → RowIsSound (new_issue now p)
unfolding new_issue contains_all
new_issue-RowIsSound now p h = record {
  clear = λ e. (refl, refl, refl, refl);
  counts = h.0;
  seen = h.1;
  resolved_on = refl;
}

is_resolved-not_ignored : (s : IssueStatus) → is_resolved s ≡ true → is_ignored s ≡ false
is_resolved-not_ignored resolved h = refl
is_resolved-not_ignored unresolved h = refl
is_resolved-not_ignored regression h = refl
is_resolved-not_ignored ignored h = ground arith

merged_status-cases :
    (p : UpsertIssueParams) (i : Issue)
    → (merged_status p i ≡ i.status) ⊎ (is_ignored i.status ≡ false)
unfolding merged_status
merged_status-cases p i =
    let outside = not (contains_all (or_else i.resolved_releases []) p.releases) in
    elim (Bool-cases (p.regress && is_resolved i.status && outside)) [
      | inl e ↦ inr (is_resolved-not_ignored i.status (ground arith))
      | inr e ↦ inl (rw e refl)
    ]

pub merge-RowIsSound :
    (lt : Bytes → Bytes → Bool) (now : ℕ) (p : UpsertIssueParams) (i : Issue)
    → IsFolded p
    → RowIsSound i
    → RowIsSound (merge lt now p i)
unfolding merge
merge-RowIsSound lt now p i h s = record {
  clear = λ e. elim (merged_status-cases p i) [
    | inl same ↦ s.clear (ground arith)
    | inr free ↦ s.clear free
  ];
  counts = omega (arith, h.0, s.counts);
  seen = omega (arith, h.1, s.seen);
  resolved_on =
      contains_all_trans (merged_releases lt i.releases p.releases) i.releases
        (or_else i.resolved_releases []) (contains_all-merged_releases lt i.releases p.releases)
        s.resolved_on;
}

pub with_status-RowIsSound :
    (now : ℕ) (stats : List HourlyStat) (p : SetIssueStatusParams) (i : Issue)
    → RowIsSound i
    → RowIsSound (with_status now stats p i)
unfolding with_status
with_status-RowIsSound now stats p i s = record {
  clear = λ e. let free : is_ignored p.status ≡ false = e in rw free (refl, refl, refl, refl);
  counts = s.counts;
  seen = s.seen;
  resolved_on = elim (Bool-cases (is_resolved p.status)) [
    | inl e ↦ rw e (contains_all_refl i.releases)
    | inr e ↦ rw e s.resolved_on
  ];
}

pub lifted-RowIsSound : (now : ℕ) (i : Issue) → RowIsSound i → RowIsSound (lifted now i)
unfolding lifted
lifted-RowIsSound now i s = record {
  clear = λ e. (refl, refl, refl, refl);
  counts = s.counts;
  seen = s.seen;
  resolved_on = s.resolved_on;
}

adjust_mono : (by : ℤ) (m n : ℕ) → m ≤ n → adjust m by ≤ adjust n by
adjust_mono (pos k) m n h = omega arith
adjust_mono (negsuc k) m n h = omega arith

pub adjusted-RowIsSound :
    (now : ℕ) (by : ℤ) (i : Issue)
    → RowIsSound i
    → RowIsSound (record i {
      stored_count = adjust i.stored_count by;
      event_count = adjust i.event_count by;
      updated_at = now;
    })
adjusted-RowIsSound now by i s = record {
  clear = s.clear;
  counts = adjust_mono by i.stored_count i.event_count s.counts;
  seen = s.seen;
  resolved_on = s.resolved_on;
}
