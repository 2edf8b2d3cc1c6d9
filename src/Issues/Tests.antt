-- ===== src/Issues/Tests.antt =====
-- Runs of the issues model, and each theorem at a concrete input.
use crashcart.Base.{
  ℕ, ◌≡◌, refl, Bool, true, false, List, [], ◌∷◌, none, some, find_row, not, ◌&&◌, leb, arith, All,
}
use crashcart.Base.Int.{negsuc}
use crashcart.Base.Text.{Bytes, codes, str_eq}
use crashcart.Issues.Table.{
  EventLevel, resolved, ignored, Issue, UpsertIssueParams, SetIssueStatusParams, same_issue,
  new_issue, contains_all, has_text, upsert_issue, set_issue_status, unignore_due, sort_distinct,
  insert_distinct,
}
use crashcart.Issues.Sound.{IsSound}
use crashcart.Issues.Statements.{
  Statement, upsert, set_one, unignore, adjust_count, delete_empty, apply_statements,
  apply_statements-IsSound,
}
use crashcart.Issues.Regression.{upsert_all, regressed-new_release}
use crashcart.Issues.Totals.{
  upsert_all-totals, total_events, total_stored, earliest, latest, seen_on,
}
use crashcart.Issues.Ignored.{IsMet, ArePutBack, unignore_due-puts_back}

-- A collation that compares the first bytes.
abbrev by_first : Bytes → Bytes → Bool
by_first [] t = true
by_first (x ∷ s) [] = false
by_first (x ∷ s) (y ∷ t) = leb x y

-- Events of one issue on a release.
abbrev seen : ℕ → ℕ → ℕ → Bytes → UpsertIssueParams
seen n first last release = record {
  project_id = 1;
  fingerprint = codes "f0";
  title = codes "TypeError";
  level = EventLevel.error;
  error_type = none;
  transaction = none;
  platform = none;
  event_count = n;
  stored_count = n;
  first_seen = first;
  last_seen = last;
  first_release = some release;
  releases = release ∷ [];
  regress = true;
}

abbrev issue : Issue
issue = new_issue 10 (seen 2 5 9 (codes "1.0"))

abbrev resolving : SetIssueStatusParams
resolving = record {
  status = resolved;
  status_by = some (codes "ann");
  ignore_until = none;
  ignore_events = none;
  ignore_escalating = false;
}

abbrev ignoring : SetIssueStatusParams
ignoring = record {
  status = ignored;
  status_by = none;
  ignore_until = none;
  ignore_events = some 5;
  ignore_escalating = false;
}

sort_runs :
    sort_distinct by_first (codes "b" ∷ codes "a" ∷ codes "b" ∷ []) ≡ codes "a" ∷ codes "b" ∷ []
unfolding sort_distinct insert_distinct str_eq
sort_runs = refl

no_issue-IsSound : IsSound []
no_issue-IsSound = record { one_issue = λ project fp. omega arith; rows_sound = tt }

abbrev statements : List (ℕ × Statement)
statements =
    (10, upsert (seen 2 5 9 (codes "1.0")))
    ∷ (11, set_one [] 1 (codes "f0") resolving)
    ∷ (12, upsert (seen 3 8 12 (codes "2.0")))
    ∷ (13, adjust_count 1 (codes "f0") (negsuc 7))
    ∷ (14, unignore)
    ∷ (15, delete_empty 1 (codes "f0"))
    ∷ []

apply_statements-IsSound_example : IsSound (apply_statements by_first statements [])
apply_statements-IsSound_example =
    apply_statements-IsSound by_first statements []
      ((omega arith, omega arith), (tt, ((omega arith, omega arith), (tt, (tt, (tt, tt))))))
      no_issue-IsSound

regressed-new_release_example :
    (upsert_issue by_first 13 (seen 1 12 12 (codes "2.0")) (
      upsert_all by_first
        ((12, seen 3 8 12 (codes "1.0")) ∷ [])
        (set_issue_status 11 [] 1 (codes "f0") resolving (issue ∷ [])).0)).1.regressed
    ≡ (true && not (contains_all (codes "1.0" ∷ []) (codes "2.0" ∷ [])))
unfolding same_issue str_eq contains_all new_issue
regressed-new_release_example =
    regressed-new_release by_first (issue ∷ []) issue 11 [] resolving
      ((12, seen 3 8 12 (codes "1.0")) ∷ []) 13 (seen 1 12 12 (codes "2.0")) refl refl
      ((refl, refl, refl), tt)

upsert_all-totals_example :
    (j : Issue) × (find_row (same_issue 1 (codes "f0")) (
        upsert_all by_first
          ((10, seen 2 5 9 (codes "1.0")) ∷ (12, seen 3 4 8 (codes "2.0")) ∷ [])
          [])
      ≡ some j)
    × (j.event_count ≡ 5)
    × (j.stored_count ≡ 5)
    × (j.first_seen ≡ 4)
    × (j.last_seen ≡ 9)
    × ((r : Bytes)
        → has_text r j.releases
          ≡ seen_on r ((10, seen 2 5 9 (codes "1.0")) ∷ (12, seen 3 4 8 (codes "2.0")) ∷ []))
unfolding total_events total_stored earliest latest seen_on
upsert_all-totals_example =
    upsert_all-totals by_first 10 (seen 2 5 9 (codes "1.0")) ((12, seen 3 4 8 (codes "2.0")) ∷ [])
      [] refl ((refl, refl), tt)

abbrev waiting : Issue
waiting = record issue { status = ignored; ignore_until = some 15 }

-- One issue whose time has come, and one that is not ignored.
unignore_due-puts_back_example :
    let rows = waiting ∷ issue ∷ [] in
    ArePutBack 20 rows (unignore_due 20 rows).0 × All (λ i. ¬ IsMet 20 i) (unignore_due 20 rows).0
unignore_due-puts_back_example = unignore_due-puts_back 20 (waiting ∷ issue ∷ [])
