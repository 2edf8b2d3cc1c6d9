-- ===== src/Ingest/Accounting.antt =====
-- What internal/ingest/ingest.go keeps: the counts of its result, and the issues it writes.
use crashcart.Base.{
  ℕ, suc, ◌+◌, ◌/◌, ◌≤◌, ◌≡◌, refl, ap, Bool, true, false, not, ◌||◌, List, [], ◌∷◌, if◌then◌else◌,
  arith, ltb, ◌==◌, keep, length, some_row, Bool-cases, inl, inr, All,
}
use crashcart.Base.Text.{Bytes, str_eq}
use crashcart.Sentry.Event.{Event}
use crashcart.Issues.Table.{Issue, UpsertIssueParams, UpsertIssueRow, upsert_issue}
use crashcart.Issues.Sound.{IsSound, IsFolded}
use crashcart.Issues.Statements.{upsert_issue-IsSound}
use crashcart.Ingest.Prepare.{Prepared, Settings, analyze, analyze_from}
use crashcart.Ingest.Write.{
  Encodings, Sampled, Fold, time_of, fresh, sampled, already_stored, fold_event, fold_group,
  empty_fold, group_params, issue_params, group_order, group_of,
}
use crashcart.Ingest.Commit.{
  Tables, IssueWrite, event_rows, count_sampled, note_issue, all_params, some_first, upsert_groups,
  ingest_events,
}

length-keep : {A : Type 0} (p : A → Bool) (xs : List A) → length (keep p xs) ≤ length xs
length-keep p [] = ground arith
length-keep p (x ∷ xs) = elim (Bool-cases (p x)) [
  | inl e ↦ rw e (omega (arith, length-keep p xs))
  | inr e ↦ rw e (omega (arith, length-keep p xs))
]

module _ (cfg : Settings) where
  -- An event of the envelope is prepared or counts as a duplicate.
  analyze_from-counts :
      (now : ℕ) (seen : List Bytes) (es : List Event)
      → length es
        ≡ (analyze_from cfg now seen es).duplicates + length (analyze_from cfg now seen es).preps
  unfolding analyze_from
  analyze_from-counts now seen [] = refl
  analyze_from-counts now seen (e ∷ es) =
      elim (Bool-cases (some_row (λ id. str_eq id e.event_id) seen)) [
        | inl d ↦ rw d (omega (arith, analyze_from-counts now seen es))
        | inr d ↦ rw d (omega (arith, analyze_from-counts now (e.event_id ∷ seen) es))
      ]

  length-sampled :
      (coin : Prepared → ℕ) (preps : List Prepared) → length (sampled cfg coin preps) ≡ length preps
  unfolding sampled
  length-sampled coin [] = refl
  length-sampled coin (pr ∷ preps) = ap suc (length-sampled coin preps)

  -- A sampled event is written or counted.
  event_rows-counts :
      (enc : Encodings) (sample : List Sampled)
      → length (event_rows cfg enc sample) + count_sampled sample ≡ length sample
  unfolding event_rows count_sampled
  event_rows-counts enc [] = refl
  event_rows-counts enc ((pr, true) ∷ sample) = omega (arith, event_rows-counts enc sample)
  event_rows-counts enc ((pr, false) ∷ sample) = omega (arith, event_rows-counts enc sample)

-- Every event of an envelope is accounted for once: it is stored, sampled out or a duplicate, of one in
-- the envelope or of one in the table.
pub ingest_events-accounts :
    (cfg : Settings) (enc : Encodings) (coin : Prepared → ℕ) (now : ℕ) (es : List Event)
    (tables : Tables)
    → (let r = (ingest_events cfg enc coin now es tables).result in
        r.received ≡ r.stored + r.sampled_out + r.duplicates)
unfolding ingest_events analyze fresh
ingest_events-accounts cfg enc coin now es tables =
    let preps = (analyze_from cfg now [] es).preps in
    let test = (λ (pr : Prepared).
      not (already_stored cfg.project_id tables.events preps pr.event.event_id)) in
    omega (
      arith,
      analyze_from-counts cfg now [] es,
      length-sampled cfg coin (keep test preps),
      event_rows-counts cfg enc (sampled cfg coin (keep test preps)),
      length-keep test preps,
    )

fold_event-counts :
    (f : Fold) (s : Sampled) → f.stored ≤ f.total → (fold_event f s).stored ≤ (fold_event f s).total
unfolding fold_event
fold_event-counts f (pr, true) h = omega arith
fold_event-counts f (pr, false) h = omega arith

fold_event-seen :
    (f : Fold) (s : Sampled)
    → f.min_at ≤ f.max_at
    → (fold_event f s).min_at ≤ (fold_event f s).max_at
unfolding fold_event
fold_event-seen f (pr, kept) h = seen (time_of pr)
  where
    seen :
        (at : ℕ)
        → (if (f.min_at == 0) || ltb at f.min_at then at else f.min_at)
          ≤ (if not (ltb at f.max_at) then at else f.max_at)
    seen at = ground arith

fold_group-IsFolded :
    (cfg : Settings) (fp : Bytes) (e : Event) (f : Fold) (group : List Sampled)
    → f.stored ≤ f.total
    → f.min_at ≤ f.max_at
    → IsFolded (issue_params cfg fp e (fold_group f group))
unfolding fold_group issue_params
fold_group-IsFolded cfg fp e f [] c s = (c, omega arith)
fold_group-IsFolded cfg fp e f (x ∷ group) c s =
    fold_group-IsFolded cfg fp e (fold_event f x) group (fold_event-counts f x c)
      (fold_event-seen f x s)

module _ (cfg : Settings) (enc : Encodings) (now : ℕ) where
  some_first-IsFolded :
      (fp : Bytes) (group : List Sampled) (rest : List UpsertIssueParams)
      → All IsFolded rest
      → All IsFolded (some_first (group_params cfg fp group) rest)
  unfolding group_params
  some_first-IsFolded fp [] rest h = h
  some_first-IsFolded fp ((pr, kept) ∷ group) rest h = (
    fold_group-IsFolded cfg fp pr.event (empty_fold pr.event.level) ((pr, kept) ∷ group)
        (ground arith) (ground arith),
    h,
  )

  all_params-IsFolded :
      (fps : List Bytes) (sample : List Sampled) → All IsFolded (all_params cfg fps sample)
  unfolding all_params
  all_params-IsFolded [] sample = tt
  all_params-IsFolded (fp ∷ fps) sample =
      some_first-IsFolded fp (group_of fp sample) (all_params cfg fps sample)
        (all_params-IsFolded fps sample)

  note_issue-issues :
      (fp : Bytes) (row : UpsertIssueRow) (w : IssueWrite)
      → (note_issue cfg now fp row w).issues ≡ w.issues
  unfolding note_issue
  note_issue-issues fp row w = elim (Bool-cases row.created) [
    | inl e ↦ rw e refl
    | inr e ↦ elim (Bool-cases row.regressed) [ inl f ↦ rw (e, f) refl | inr f ↦ rw (e, f) refl ]
  ]

  upsert_groups-IsSound :
      (ps : List UpsertIssueParams) (issues : List Issue)
      → All IsFolded ps
      → IsSound issues
      → IsSound (upsert_groups cfg enc now ps issues).issues
  unfolding upsert_groups
  upsert_groups-IsSound [] issues h s = s
  upsert_groups-IsSound (p ∷ ps) issues h s =
      let row = upsert_issue enc.collates now p issues in
      rw
        (note_issue-issues p.fingerprint (upsert_issue enc.collates now p issues).1
          (upsert_groups cfg enc now ps (upsert_issue enc.collates now p issues).0))
        (upsert_groups-IsSound ps (upsert_issue enc.collates now p issues).0 h.1
          (upsert_issue-IsSound enc.collates now p issues h.0 s))

-- `Ingest` keeps the issues table sound (one issue per project and fingerprint, no more events stored
-- than seen, first seen no later than last, consistent ignore and resolve columns), whatever events an
-- envelope carries and whatever is stored already.
pub ingest_events-IsSound :
    (cfg : Settings) (enc : Encodings) (coin : Prepared → ℕ) (now : ℕ) (es : List Event)
    (tables : Tables)
    → IsSound tables.issues
    → IsSound (ingest_events cfg enc coin now es tables).tables.issues
unfolding ingest_events
ingest_events-IsSound cfg enc coin now es tables s =
    let sample = sampled cfg coin (fresh cfg.project_id tables.events (analyze cfg now es).preps) in
    upsert_groups-IsSound cfg enc (now / 1000) (all_params cfg (group_order sample) sample)
      tables.issues (all_params-IsFolded cfg enc now (group_order sample) sample) s
