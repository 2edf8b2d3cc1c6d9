-- ===== src/Issues/Totals.antt =====
-- What a history of upserts of one issue folds to (`UpsertIssue` of internal/store/issues.go): the
-- counts, the times and the releases.
use crashcart.Base.{
  ℕ, ◌+◌, ◌≡◌, refl, sym, Bool, true, false, ◌||◌, List, [], ◌∷◌, none, some, min, max, arith, All,
  find_row, find_row-append,
}
use crashcart.Base.Text.{Bytes, str_eq_refl}
use crashcart.Issues.Table.{
  Issue, UpsertIssueParams, same_issue, new_issue, has_text, merge, write_issue, upsert_issue,
}
use crashcart.Issues.Releases.{has_text-merged_releases}
use crashcart.Issues.Regression.{upsert_all, upsert_issue-write_issue, find_row-upsert_issue}

abbrev pub History : Type 0
History = List (ℕ × UpsertIssueParams)

-- The totals over a history.
unfoldable pub total_events : History → ℕ
total_events [] = 0
total_events ((now, p) ∷ ps) = p.event_count + total_events ps

unfoldable pub total_stored : History → ℕ
total_stored [] = 0
total_stored ((now, p) ∷ ps) = p.stored_count + total_stored ps

unfoldable pub earliest : ℕ → History → ℕ
earliest t [] = t
earliest t ((now, p) ∷ ps) = min p.first_seen (earliest t ps)

unfoldable pub latest : ℕ → History → ℕ
latest t [] = t
latest t ((now, p) ∷ ps) = max p.last_seen (latest t ps)

unfoldable pub seen_on : Bytes → History → Bool
seen_on r [] = false
seen_on r ((now, p) ∷ ps) = has_text r p.releases || seen_on r ps

earliest-min : (a b : ℕ) (ps : History) → earliest (min b a) ps ≡ min a (earliest b ps)
unfolding earliest
earliest-min a b [] = omega arith
earliest-min a b ((now, p) ∷ ps) = omega (arith, earliest-min a b ps)

latest-max : (a b : ℕ) (ps : History) → latest (max b a) ps ≡ max a (latest b ps)
unfolding latest
latest-max a b [] = omega arith
latest-max a b ((now, p) ∷ ps) = omega (arith, latest-max a b ps)

-- The row holds what the history adds to `i`.
abbrev IsFold : Issue → History → Issue → Type 0
IsFold i ps j =
    (j.event_count ≡ i.event_count + total_events ps)
    × (j.stored_count ≡ i.stored_count + total_stored ps)
    × (j.first_seen ≡ earliest i.first_seen ps)
    × (j.last_seen ≡ latest i.last_seen ps)
    × ((r : Bytes) → has_text r j.releases ≡ (has_text r i.releases || seen_on r ps))

module _ (lt : Bytes → Bytes → Bool) (project : ℕ) (fp : Bytes) where
  abbrev pub IsOf : ℕ × UpsertIssueParams → Type 0
  IsOf (now, p) = (p.project_id ≡ project) × (p.fingerprint ≡ fp)

  merge-IsFold :
      (now : ℕ) (p : UpsertIssueParams) (i j : Issue) (ps : History)
      → IsFold (merge lt now p i) ps j
      → IsFold i ((now, p) ∷ ps) j
  unfolding merge total_events total_stored earliest latest seen_on
  merge-IsFold now p i j ps (events, stored, first, last, releases) = (
    omega (arith, events),
    omega (arith, stored),
    omega (arith, first, earliest-min p.first_seen i.first_seen ps),
    omega (arith, last, latest-max p.last_seen i.last_seen ps),
    λ r. ground (arith, releases r, has_text-merged_releases lt r i.releases p.releases),
  )

  upsert_all-IsFold :
      (ps : History) (rows : List Issue) (i : Issue)
      → All IsOf ps
      → find_row (same_issue project fp) rows ≡ some i
      → (j : Issue) × (find_row (same_issue project fp) (upsert_all lt ps rows) ≡ some j)
        × IsFold i ps j
  unfolding upsert_all total_events total_stored earliest latest seen_on
  upsert_all-IsFold [] rows i of h =
      (i, h, (omega arith, omega arith, refl, refl, (λ r. ground arith)))
  upsert_all-IsFold ((now, p) ∷ ps) rows i ((ep, ef), of) h =
      let there : find_row (same_issue p.project_id p.fingerprint) rows ≡ some i = rw (ep, ef) h in
      let after : find_row (same_issue project fp) (upsert_issue lt now p rows).0
          ≡ some (merge lt now p i) =
        rw (sym ep, sym ef) (find_row-upsert_issue lt now p rows i there) in
      let (j, found, fold) =
        upsert_all-IsFold ps (upsert_issue lt now p rows).0 (merge lt now p i) of after in
      (j, found, merge-IsFold now p i j ps fold)

-- The upserts of an issue that was not there, in any order of arrival, leave a row with the sum of
-- their counts, the earliest first and the latest last time, and exactly their releases.
pub upsert_all-totals :
    (lt : Bytes → Bytes → Bool) (now : ℕ) (p : UpsertIssueParams) (ps : History) (rows : List Issue)
    → find_row (same_issue p.project_id p.fingerprint) rows ≡ none
    → All (IsOf lt p.project_id p.fingerprint) ps
    → (j : Issue) × (find_row
          (same_issue p.project_id p.fingerprint)
          (upsert_all lt ((now, p) ∷ ps) rows)
        ≡ some j)
      × (j.event_count ≡ total_events ((now, p) ∷ ps))
      × (j.stored_count ≡ total_stored ((now, p) ∷ ps))
      × (j.first_seen ≡ earliest p.first_seen ps)
      × (j.last_seen ≡ latest p.last_seen ps)
      × ((r : Bytes) → has_text r j.releases ≡ seen_on r ((now, p) ∷ ps))
unfolding upsert_all write_issue new_issue total_events total_stored seen_on
upsert_all-totals lt now p ps rows h of =
    let mine : same_issue p.project_id p.fingerprint (new_issue now p) ≡ true =
      unfold same_issue in rw (str_eq_refl p.fingerprint) (ground arith) in
    let start : find_row (same_issue p.project_id p.fingerprint) (upsert_issue lt now p rows).0
        ≡ some (new_issue now p) =
      rw (upsert_issue-write_issue lt now p rows none h)
        (find_row-append (same_issue p.project_id p.fingerprint) rows (new_issue now p) h mine) in
    let (j, found, (events, stored, first, last, releases)) =
      upsert_all-IsFold lt p.project_id p.fingerprint ps (upsert_issue lt now p rows).0
        (new_issue now p) of start in
    (j, found, events, stored, first, last, releases)
