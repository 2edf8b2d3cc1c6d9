-- ===== src/Issues/Ignored.antt =====
-- Ignored issues: which of them `UnignoreDue` of internal/store/issues.go puts back, and what
-- `SetIssueStatus` with a number of further events waits for.
use crashcart.Base.{
  ℕ, ◌≤◌, ◌≡◌, refl, Bool, true, false, ◌⊎◌, Option, All, List, [], ◌∷◌, none, some, arith,
  update_where, leb, Bool-cases, inl, inr,
}
use crashcart.Base.Text.{Bytes}
use crashcart.Issues.Table.{
  IssueStatus, is_ignored, reached, unresolved, ignored, resolved, regression, Issue, HourlyStat,
  SetIssueStatusParams, is_due, lifted, unignore_due, with_status, merge, UpsertIssueParams,
  merged_status,
}

-- The condition that an ignored issue waits for is met: its time has come, or its count of events.
abbrev pub IsMet : ℕ → Issue → Type 0
IsMet now i =
    (i.status ≡ ignored)
    × (((t : ℕ) × (i.ignore_until ≡ some t) × (t ≤ now))
        ⊎ ((n : ℕ) × (i.ignore_until_count ≡ some n) × (n ≤ i.event_count)))

-- Unresolved, with nothing to wait for, and otherwise as it was.
abbrev pub IsLifted : ℕ → Issue → Issue → Type 0
IsLifted now i j = j ≡ record i {
  status = unresolved;
  ignore_until = none;
  ignore_until_count = none;
  ignore_until_escalating = false;
  ignore_baseline = none;
  updated_at = now;
}

-- Row by row, those whose condition is met are lifted and the others are as they were.
abbrev pub ArePutBack : ℕ → List Issue → List Issue → Type 0
ArePutBack now [] [] = Unit
ArePutBack now (i ∷ rows) (j ∷ after) =
    (IsMet now i → IsLifted now i j) × (¬ IsMet now i → j ≡ i) × ArePutBack now rows after
ArePutBack now _ _ = ⊥

reached_by : (o : Option ℕ) (n : ℕ) → reached o n ≡ true → (t : ℕ) × (o ≡ some t) × (t ≤ n)
reached_by none n h = cc
reached_by (some t) n h = (t, refl, ground arith)

reaches : (o : Option ℕ) (t n : ℕ) → o ≡ some t → t ≤ n → reached o n ≡ true
reaches o t n e l = rw e (ground arith)

ignored_status : (s : IssueStatus) → is_ignored s ≡ true → s ≡ ignored
ignored_status ignored h = refl
ignored_status unresolved h = cc
ignored_status resolved h = cc
ignored_status regression h = cc

is_due-IsMet : (now : ℕ) (i : Issue) → is_due now i ≡ true → IsMet now i
unfolding is_due
is_due-IsMet now i h =
    let status = ignored_status i.status (ground arith) in
    elim (Bool-cases (reached i.ignore_until now)) [
      | inl e ↦ (status, inl (reached_by i.ignore_until now e))
      | inr e ↦ (status, inr (reached_by i.ignore_until_count i.event_count (ground arith)))
    ]

IsMet-is_due : (now : ℕ) (i : Issue) → IsMet now i → is_due now i ≡ true
unfolding is_due
IsMet-is_due now i (s, inl (t, e, l)) = rw (s, reaches i.ignore_until t now e l) refl
IsMet-is_due now i (s, inr (n, e, l)) =
    rw (s, reaches i.ignore_until_count n i.event_count e l) (ground arith)

put_back :
    (now : ℕ) (rows : List Issue)
    → ArePutBack now rows (update_where (is_due now) (lifted now) rows)
put_back now [] = tt
put_back now (i ∷ rows) = elim (Bool-cases (is_due now i)) [
  | inl e ↦
      rw e (
        (λ m. unfold lifted in refl),
        (λ n. elim (n (is_due-IsMet now i e)) [ ]),
        put_back now rows,
      )
  | inr e ↦ rw e ((λ m. ground (arith, IsMet-is_due now i m)), (λ n. refl), put_back now rows)
]

lifted-is_due : (now later : ℕ) (i : Issue) → is_due later (lifted now i) ≡ false
unfolding is_due lifted
lifted-is_due now later i = refl

none_left :
    (now : ℕ) (rows : List Issue)
    → All (λ i. ¬ IsMet now i) (update_where (is_due now) (lifted now) rows)
none_left now [] = tt
none_left now (i ∷ rows) = elim (Bool-cases (is_due now i)) [
  | inl e ↦ rw e (
    (λ m. ground (arith, IsMet-is_due now (lifted now i) m, lifted-is_due now now i)),
    none_left now rows,
  )
  | inr e ↦ rw e ((λ m. ground (arith, IsMet-is_due now i m)), none_left now rows)
]

-- `UnignoreDue` puts back to unresolved exactly the ignored issues whose time has come or whose count
-- of events is reached, with their conditions cleared and the time of the update set; every other issue
-- stays as it was, and afterwards no ignored issue has a condition that is met.
pub unignore_due-puts_back :
    (now : ℕ) (rows : List Issue)
    → ArePutBack now rows (unignore_due now rows).0
      × All (λ i. ¬ IsMet now i) (unignore_due now rows).0
unfolding unignore_due
unignore_due-puts_back now rows = (put_back now rows, none_left now rows)

-- An issue that is ignored until `n` more events, with no time set, is due after an upsert exactly
-- when the upsert brings `n` events or more.
is_due-events :
    (lt : Bytes → Bytes → Bool) (t0 t1 now n : ℕ) (stats : List HourlyStat)
    (s : SetIssueStatusParams) (i : Issue) (p : UpsertIssueParams)
    → s.status ≡ ignored
    → s.ignore_until ≡ none
    → s.ignore_events ≡ some n
    → is_due now (merge lt t1 p (with_status t0 stats s i)) ≡ leb n p.event_count
unfolding is_due merge merged_status with_status
is_due-events lt t0 t1 now n stats s i p e u v = rw (e, u, v) (ground arith)
