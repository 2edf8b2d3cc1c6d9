-- ===== src/Ingest/Resend.antt =====
-- internal/ingest/ingest.go and internal/store/events.go: an envelope that an SDK sends again.
use mathlib.Core.Path.{subst}
use crashcart.Base.{
  All-both, ℕ, ◌+◌, ◌≤◌, ◌<◌, ◌≡◌, refl, sym, Bool, true, false, not, ◌&&◌, List, [], ◌∷◌, ◌++◌,
  if◌then◌else◌, arith, ltb, leb, ◌==◌, keep, min, max, some_row, some_row_mono, Bool-cases, inl,
  inr, All,
}
use crashcart.Base.Text.{Bytes, str_eq, str_eq_iff}
use crashcart.Sentry.Event.{is_unhandled}
use crashcart.Ingest.Prepare.{Prepared, Settings, sample_store}
use crashcart.Ingest.Write.{
  EventInsert, Encodings, time_of, earliest, latest, existing_event, existing_event_any_time,
  already_stored, fresh, sampled,
}
use crashcart.Ingest.Inserted.{insert_events-keeps, insert_events-inserts}
use crashcart.Ingest.Commit.{event_row, event_rows, same_event, insert_events}

str_eq_sym : (a b : Bytes) → str_eq a b ≡ true → str_eq b a ≡ true
str_eq_sym a b h = (str_eq_iff b a).1 (sym ((str_eq_iff a b).0 h))

-- The times of the events of an envelope are in its window.
earliest-le : (t : ℕ) (preps : List Prepared) → earliest t preps ≤ t
earliest-le t [] = omega arith
earliest-le t (pr ∷ preps) = omega (arith, earliest-le (min t (time_of pr)) preps)

earliest-All : (t : ℕ) (preps : List Prepared) → All (λ p. earliest t preps ≤ time_of p) preps
earliest-All t [] = tt
earliest-All t (pr ∷ preps) =
    (omega (arith, earliest-le (min t (time_of pr)) preps), earliest-All (min t (time_of pr)) preps)

latest-ge : (t : ℕ) (preps : List Prepared) → t ≤ latest t preps
latest-ge t [] = omega arith
latest-ge t (pr ∷ preps) = omega (arith, latest-ge (max t (time_of pr)) preps)

latest-All : (t : ℕ) (preps : List Prepared) → All (λ p. time_of p ≤ latest t preps) preps
latest-All t [] = tt
latest-All t (pr ∷ preps) =
    (omega (arith, latest-ge (max t (time_of pr)) preps), latest-All (max t (time_of pr)) preps)

keep-none : {A : Type 0} (p : A → Bool) (xs : List A) → All (λ x. p x ≡ false) xs → keep p xs ≡ []
keep-none p [] h = refl
keep-none p (x ∷ xs) h = rw (h.0, keep-none p xs h.1) refl

module _ (cfg : Settings) (enc : Encodings) where
  -- The table has the row of an event.
  abbrev Holds : List EventInsert → Prepared → Type 0
  Holds table pr = some_row (same_event (event_row cfg enc pr)) table ≡ true

  held_row :
      (pr : Prepared) (from to : ℕ) (r : EventInsert)
      → from ≤ time_of pr
      → time_of pr < to
      → same_event (event_row cfg enc pr) r ≡ true
      → ((r.project_id == cfg.project_id)
          && str_eq r.event_id pr.event.event_id
          && leb from r.occurred_at
          && ltb r.occurred_at to)
        ≡ true
  unfolding same_event event_row
  held_row pr from to r l u h = ground (arith, str_eq_sym pr.event.event_id r.event_id)

  held-existing :
      (pr : Prepared) (from to : ℕ) (table : List EventInsert)
      → from ≤ time_of pr
      → time_of pr < to
      → Holds table pr
      → existing_event cfg.project_id from to table pr.event.event_id ≡ true
  unfolding existing_event
  held-existing pr from to table l u h =
      some_row_mono
        (λ r.
          (r.project_id == cfg.project_id)
          && str_eq r.event_id pr.event.event_id
          && leb from r.occurred_at
          && ltb r.occurred_at to)
        (same_event (event_row cfg enc pr)) table (λ r e. held_row pr from to r l u e) h

  -- What was stored already is so after more rows.
  already_stored-keeps :
      (rows table : List EventInsert) (preps : List Prepared) (id : Bytes)
      → already_stored cfg.project_id table preps id ≡ true
      → already_stored cfg.project_id (insert_events rows table) preps id ≡ true
  unfolding already_stored existing_event existing_event_any_time
  already_stored-keeps rows table [] id h = cc
  already_stored-keeps rows table (pr ∷ preps) id h = ground (
    arith,
    insert_events-keeps
        (λ r.
          (r.project_id == cfg.project_id)
          && str_eq r.event_id id
          && leb (earliest (time_of pr) preps) r.occurred_at
          && ltb r.occurred_at (latest (time_of pr) preps + 1000))
        rows table,
    insert_events-keeps (λ r. (r.project_id == cfg.project_id) && str_eq r.event_id id) rows table,
  )

  -- Every coin falls on the same side at a rate of one.
  module _ (coin : Prepared → ℕ)
      (stored : (pr : Prepared)
        → sample_store cfg.rounded cfg.sample_rate (coin pr) (is_unhandled pr.event) ≡ true) where
    abbrev rows_of : (Prepared → Bool) → List Prepared → List EventInsert
    rows_of q preps = event_rows cfg enc (sampled cfg coin (keep q preps))

    rows_of-kept :
        (q : Prepared → Bool) (pr : Prepared) (preps : List Prepared)
        → q pr ≡ true
        → rows_of q (pr ∷ preps) ≡ event_row cfg enc pr ∷ rows_of q preps
    unfolding sampled event_rows
    rows_of-kept q pr preps e = rw (e, stored pr) refl

    rows_of-dropped :
        (q : Prepared → Bool) (pr : Prepared) (preps : List Prepared)
        → q pr ≡ false
        → rows_of q (pr ∷ preps) ≡ rows_of q preps
    rows_of-dropped q pr preps e = rw e refl

    abbrev AllHold :
        (Prepared → Bool) → List EventInsert → List EventInsert → List Prepared → Type 0
    AllHold q table rows preps = All (λ pr. q pr ≡ true → Holds (insert_events rows table) pr) preps

    -- The rows of the events that pass a test are in the table.
    kept-AllHold :
        (q : Prepared → Bool) (preps : List Prepared) (table : List EventInsert)
        → AllHold q table (rows_of q preps) preps
    unfolding insert_events
    kept-AllHold q [] table = tt
    kept-AllHold q (pr ∷ preps) table = elim (Bool-cases (q pr)) [
      | inl e ↦
          subst (λ rows. AllHold q table rows (pr ∷ preps)) (sym (rows_of-kept q pr preps e))
            (
              (λ h. insert_events-inserts (event_row cfg enc pr) (rows_of q preps) table),
              kept-AllHold q preps (
                  if some_row (same_event (event_row cfg enc pr)) table
                  then table
                  else table ++ event_row cfg enc pr ∷ []),
            )
      | inr e ↦
          subst (λ rows. AllHold q table rows (pr ∷ preps)) (sym (rows_of-dropped q pr preps e))
            ((λ h. cc), kept-AllHold q preps table)
    ]

    again_stored :
        (first pr : Prepared) (preps : List Prepared) (table after : List EventInsert)
        → (already_stored cfg.project_id table (first ∷ preps) pr.event.event_id ≡ true
            → already_stored cfg.project_id after (first ∷ preps) pr.event.event_id ≡ true)
        → (not (already_stored cfg.project_id table (first ∷ preps) pr.event.event_id) ≡ true
            → Holds after pr)
        → (earliest (time_of first) preps ≤ time_of pr)
          × (time_of pr ≤ latest (time_of first) preps)
        → already_stored cfg.project_id after (first ∷ preps) pr.event.event_id ≡ true
    again_stored first pr preps table after k h w =
        elim (Bool-cases (already_stored cfg.project_id table (first ∷ preps) pr.event.event_id)) [
          | inl e ↦ k e
          | inr e ↦
              let found =
                held-existing pr (earliest (time_of first) preps)
                  (latest (time_of first) preps + 1000) after w.0 (omega arith) (h (rw e refl)) in
              unfold already_stored in rw found refl
        ]

    window-All :
        (first : Prepared) (preps : List Prepared)
        → All
            (λ pr.
              (earliest (time_of first) preps ≤ time_of pr)
              × (time_of pr ≤ latest (time_of first) preps))
            (first ∷ preps)
    window-All first preps = (
      (earliest-le (time_of first) preps, latest-ge (time_of first) preps),
      All-both (λ pr. earliest (time_of first) preps ≤ time_of pr)
          (λ pr. time_of pr ≤ latest (time_of first) preps)
          (λ pr.
            (earliest (time_of first) preps ≤ time_of pr)
            × (time_of pr ≤ latest (time_of first) preps))
          preps (λ pr l u. (l, u)) (earliest-All (time_of first) preps)
          (latest-All (time_of first) preps),
    )

    -- Once the events that were not stored are written, none is fresh.
    pub fresh-none :
        (table : List EventInsert) (preps : List Prepared)
        → fresh cfg.project_id
            (insert_events
              (event_rows cfg enc (sampled cfg coin (fresh cfg.project_id table preps)))
              table)
            preps
          ≡ []
    unfolding fresh
    fresh-none table [] = refl
    fresh-none table (first ∷ preps) =
        let q = (λ (pr : Prepared).
          not (already_stored cfg.project_id table (first ∷ preps) pr.event.event_id)) in
        let rows = rows_of q (first ∷ preps) in
        let after = insert_events rows table in
        keep-none
          (λ pr. not (already_stored cfg.project_id after (first ∷ preps) pr.event.event_id))
          (first ∷ preps)
          (All-both (λ pr. q pr ≡ true → Holds after pr)
            (λ pr.
              (earliest (time_of first) preps ≤ time_of pr)
              × (time_of pr ≤ latest (time_of first) preps))
            (λ pr.
              not (already_stored cfg.project_id after (first ∷ preps) pr.event.event_id) ≡ false)
            (first ∷ preps)
            (λ pr h w.
              rw
                (again_stored first pr preps table after
                  (already_stored-keeps rows table (first ∷ preps) pr.event.event_id) h w)
                refl)
            (kept-AllHold q (first ∷ preps) table) (window-All first preps))
