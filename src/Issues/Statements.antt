-- ===== src/Issues/Statements.antt =====
-- Sequences of the statements of internal/store/issues.go keep the issues table sound, if what they
-- upsert is folded from events.
use crashcart.Base.{
  ℕ, ◌≤◌, ◌≡◌, refl, Bool, true, List, [], ◌∷◌, ◌++◌, none, some, arith, keep, count, find_row, All,
  All-keep, All-always, All-append, count_mono, count-keep-le, count-append, find_row-none,
  Bool-cases, Option-cases, inl, inr,
}
use crashcart.Base.Int.{ℤ}
use crashcart.Base.Text.{Bytes, str_eq_iff, str_eq_refl}
use crashcart.Issues.Table.{
  Issue, UpsertIssueParams, SetIssueStatusParams, HourlyStat, same_issue, new_issue, merge,
  write_issue, upsert_issue, with_status, set_issue_status, set_issues_status, is_due, lifted,
  unignore_due, escalate_issue, adjust_issue_stored_count, delete_empty_issue,
}
use crashcart.Issues.Regression.{upsert_issue-write_issue}
use crashcart.Issues.Sound.{
  RowIsSound, IsSound, IsFolded, update-IsSound, new_issue-RowIsSound, merge-RowIsSound,
  with_status-RowIsSound, lifted-RowIsSound, adjusted-RowIsSound,
}

-- Two keys that one row has are the same key.
same_issue-agree :
    (project other : ℕ) (fp fq : Bytes) (i j : Issue)
    → same_issue project fp i ≡ true
    → same_issue other fq i ≡ true
    → same_issue project fp j ≡ true
    → same_issue other fq j ≡ true
unfolding same_issue
same_issue-agree project other fp fq i j h k e = ground (
  arith,
  str_eq_iff fp i.fingerprint,
  str_eq_iff fq i.fingerprint,
  str_eq_iff fp j.fingerprint,
  str_eq_iff fq j.fingerprint,
)

module _ (lt : Bytes → Bytes → Bool) (now : ℕ) (p : UpsertIssueParams) (rows : List Issue) where
  new_issue-same_issue : same_issue p.project_id p.fingerprint (new_issue now p) ≡ true
  unfolding same_issue new_issue
  new_issue-same_issue = rw (str_eq_refl p.fingerprint) (ground arith)

  append-one_issue :
      find_row (same_issue p.project_id p.fingerprint) rows ≡ none
      → (project : ℕ) (fp : Bytes) → count (same_issue project fp) rows ≤ 1
      → count (same_issue project fp) (rows ++ new_issue now p ∷ []) ≤ 1
  append-one_issue h project fp one =
      let key = same_issue p.project_id p.fingerprint in
      let none_there : count key rows ≡ 0 = find_row-none key rows h in
      rw count-append (elim (Bool-cases (same_issue project fp (new_issue now p))) [
        | inl mine ↦
            let bound = count_mono (same_issue project fp) key rows (
              All-always _ rows (λ j.
                same_issue-agree project p.project_id fp p.fingerprint (new_issue now p) j mine
                  new_issue-same_issue)) in
            ground (arith, bound, none_there)
        | inr other ↦ ground arith
      ])

  pub upsert_issue-IsSound : IsFolded p → IsSound rows → IsSound (upsert_issue lt now p rows).0
  unfolding write_issue
  upsert_issue-IsSound folded s =
      let key = same_issue p.project_id p.fingerprint in
      elim (Option-cases (find_row key rows)) [
        | inl h ↦ rw (upsert_issue-write_issue lt now p rows none h) (record {
          one_issue = λ project fp. append-one_issue h project fp (s.one_issue project fp);
          rows_sound = All-append _ rows _ s.rows_sound (new_issue-RowIsSound now p folded, tt);
        })
        | inr (i, h) ↦ rw (upsert_issue-write_issue lt now p rows (some i) h) (
            update-IsSound key (merge lt now p) rows
              (λ project fp j. unfold same_issue merge in refl)
              (λ j e. merge-RowIsSound lt now p j folded) s)
      ]

keep-IsSound : (q : Issue → Bool) (rows : List Issue) → IsSound rows → IsSound (keep q rows)
keep-IsSound q rows s = record {
  one_issue = λ project fp.
      omega (arith, s.one_issue project fp, count-keep-le (same_issue project fp) q rows);
  rows_sound = All-keep RowIsSound q rows s.rows_sound;
}

-- The statements that change issues.
pub data Statement : Type 0 where
  upsert : UpsertIssueParams → Statement
  set_one : List HourlyStat → ℕ → Bytes → SetIssueStatusParams → Statement
  set_many : List HourlyStat → ℕ → List Bytes → SetIssueStatusParams → Statement
  unignore : Statement
  escalate : ℕ → Bytes → Statement
  adjust_count : ℕ → Bytes → ℤ → Statement
  delete_empty : ℕ → Bytes → Statement

unfoldable pub apply_statement : (Bytes → Bytes → Bool) → ℕ → Statement → List Issue → List Issue
apply_statement lt now (upsert p) rows = (upsert_issue lt now p rows).0
apply_statement lt now (set_one stats project fp p) rows =
    (set_issue_status now stats project fp p rows).0
apply_statement lt now (set_many stats project fps p) rows =
    (set_issues_status now stats project fps p rows).0
apply_statement lt now unignore rows = (unignore_due now rows).0
apply_statement lt now (escalate project fp) rows = (escalate_issue now project fp rows).0
apply_statement lt now (adjust_count project fp by) rows =
    adjust_issue_stored_count now project fp by rows
apply_statement lt now (delete_empty project fp) rows = delete_empty_issue project fp rows

unfoldable pub apply_statements :
    (Bytes → Bytes → Bool) → List (ℕ × Statement) → List Issue → List Issue
apply_statements lt [] rows = rows
apply_statements lt ((now, s) ∷ ss) rows = apply_statements lt ss (apply_statement lt now s rows)

-- An upsert is given folded counts; the other statements take anything.
abbrev pub IsFed : ℕ × Statement → Type 0
IsFed (now, upsert p) = IsFolded p
IsFed (now, _) = Unit

module _ (lt : Bytes → Bytes → Bool) where
  apply_statement-IsSound :
      (now : ℕ) (st : Statement) (rows : List Issue)
      → IsFed (now, st)
      → IsSound rows
      → IsSound (apply_statement lt now st rows)
  unfolding apply_statement set_issue_status set_issues_status unignore_due escalate_issue
      adjust_issue_stored_count delete_empty_issue with_status lifted same_issue
  apply_statement-IsSound now (upsert p) rows h s = upsert_issue-IsSound lt now p rows h s
  apply_statement-IsSound now (set_one stats project fp p) rows h s =
      update-IsSound (same_issue project fp) (with_status now stats p) rows (λ project fp i. refl)
        (λ i e. with_status-RowIsSound now stats p i) s
  apply_statement-IsSound now (set_many stats project fps p) rows h s =
      update-IsSound _ (with_status now stats p) rows (λ project fp i. refl)
        (λ i e. with_status-RowIsSound now stats p i) s
  apply_statement-IsSound now unignore rows h s =
      update-IsSound (is_due now) (lifted now) rows (λ project fp i. refl)
        (λ i e. lifted-RowIsSound now i) s
  apply_statement-IsSound now (escalate project fp) rows h s =
      update-IsSound _ (lifted now) rows (λ project fp i. refl) (λ i e. lifted-RowIsSound now i) s
  apply_statement-IsSound now (adjust_count project fp by) rows h s =
      update-IsSound (same_issue project fp) _ rows (λ project fp i. refl)
        (λ i e. adjusted-RowIsSound now by i) s
  apply_statement-IsSound now (delete_empty project fp) rows h s = keep-IsSound _ rows s

  -- Whatever statements run: a project has at most one issue per fingerprint, its stored events are
  -- no more than its events, it was first seen no later than last, the releases it was resolved on
  -- are among its releases, and ignore conditions stand only on ignored issues; given that upserts
  -- bring no more stored than seen events, the first not after the last.
  pub apply_statements-IsSound :
      (ss : List (ℕ × Statement)) (rows : List Issue)
      → All IsFed ss
      → IsSound rows
      → IsSound (apply_statements lt ss rows)
  unfolding apply_statements
  apply_statements-IsSound [] rows h s = s
  apply_statements-IsSound ((now, st) ∷ ss) rows h s =
      apply_statements-IsSound ss (apply_statement lt now st rows) h.1
        (apply_statement-IsSound now st rows h.0 s)
