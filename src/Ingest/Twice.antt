-- ===== src/Ingest/Twice.antt =====
-- internal/ingest/ingest.go: the events of one envelope through `Ingest` twice.
use crashcart.Base.{
  ℕ, ◌+◌, ◌-◌, ◌*◌, ◌≤◌, ◌≡◌, refl, ap, ◌∙◌, Bool, true, false, ◌||◌, List, [], ◌∷◌, if◌then◌else◌,
  arith, ltb, leb, ◌==◌, min, some_row, Bool-cases, inl, inr, All,
}
use crashcart.Base.Text.{Bytes, str_eq}
use crashcart.Sentry.Event.{Event, is_unhandled}
use crashcart.Ingest.Prepare.{
  Prepared, Settings, one, sample_store, admitted, analyze, analyze_from, clamp_past,
  same_or_clamped, count_duplicate,
}
use crashcart.Ingest.Write.{Encodings, fresh, group_order}
use crashcart.Ingest.Commit.{Tables, all_params, upsert_groups, count_sampled, ingest_events}
use crashcart.Ingest.Accounting.{ingest_events-accounts}
use crashcart.Ingest.Resend.{fresh-none}

above_one :
    (unit rate product coin : ℕ) (unhandled : Bool)
    → leb unit rate ≡ true
    → leb unit product ≡ true
    → (let chance = if unhandled then min unit product else rate in
        leb unit chance || ltb coin chance)
      ≡ true
above_one unit rate product coin true h k = ground arith
above_one unit rate product coin false h k = ground arith

module _ (cfg : Settings) where
  timely :
      (now : ℕ) (e : Event)
      → now - cfg.retention ≤ e.timestamp
      → same_or_clamped e (clamp_past e.timestamp (now - cfg.retention) now) ≡ e
  unfolding clamp_past
  timely now e h =
      let late : ltb e.timestamp (now - cfg.retention) ≡ false = ground arith in
      let same : (e.timestamp == e.timestamp) ≡ true = ground arith in rw (late, same) refl

  -- Events inside the retention window are analyzed the same at both times.
  analyze_from-timely :
      (now later : ℕ) (seen : List Bytes) (es : List Event)
      → now ≤ later
      → All (λ e. later - cfg.retention ≤ e.timestamp) es
      → analyze_from cfg later seen es ≡ analyze_from cfg now seen es
  unfolding analyze_from admitted
  analyze_from-timely now later seen [] l h = refl
  analyze_from-timely now later seen (e ∷ es) l h =
      elim (Bool-cases (some_row (λ id. str_eq id e.event_id) seen)) [
        | inl d ↦ rw d (ap count_duplicate (analyze_from-timely now later seen es l h.1))
        | inr d ↦
            rw
              (
                d,
                timely later e h.0,
                timely now e (omega (arith, h.0)),
                analyze_from-timely now later (e.event_id ∷ seen) es l h.1,
              )
              refl
      ]

module _ (cfg : Settings) (enc : Encodings) where
  -- An envelope of which no event is fresh writes none.
  nothing_fresh :
      (coin : Prepared → ℕ) (now : ℕ) (es : List Event) (tables : Tables)
      → fresh cfg.project_id tables.events (analyze cfg now es).preps ≡ []
      → (let r = ingest_events cfg enc coin now es tables in
          (r.tables ≡ tables) × (r.jobs ≡ []) × (r.result.stored + r.result.sampled_out ≡ 0))
  unfolding ingest_events upsert_groups all_params group_order count_sampled
  nothing_fresh coin now es tables h = rw h (refl, refl, omega arith)

-- At a sampling rate of one, the same events once more, at any later time that still has them in the
-- retention window, change nothing: issues and events are as after the first time, no job is added and
-- each of the events counts as a duplicate. (The rounded product of a rate of one or more and 5 is at
-- least one.)
pub ingest_events-twice :
    (cfg : Settings) (enc : Encodings) (coin coin' : Prepared → ℕ) (now later : ℕ) (es : List Event)
    (tables : Tables)
    → leb one cfg.sample_rate ≡ true
    → leb one (cfg.rounded (cfg.sample_rate * 5)) ≡ true
    → now ≤ later
    → All (λ e. later - cfg.retention ≤ e.timestamp) es
    → (let once = (ingest_events cfg enc coin now es tables).tables in
        let again = ingest_events cfg enc coin' later es once in
        (again.tables ≡ once)
        × (again.jobs ≡ [])
        × (again.result.duplicates ≡ again.result.received))
unfolding ingest_events analyze
ingest_events-twice cfg enc coin coin' now later es tables rate product l h =
    let once = (ingest_events cfg enc coin now es tables).tables in
    let none_fresh =
      ap (λ a. fresh cfg.project_id once.events a.preps)
        (analyze_from-timely cfg now later [] es l h)
      ∙ fresh-none cfg enc coin (λ pr. stored pr) tables.events
          (analyze_from cfg now [] es).preps in
    let (kept, jobs, written) = nothing_fresh cfg enc coin' later es once none_fresh in
    (kept, jobs, omega (arith, written, ingest_events-accounts cfg enc coin' later es once))
  where
    stored :
        (pr : Prepared)
        → sample_store cfg.rounded cfg.sample_rate (coin pr) (is_unhandled pr.event) ≡ true
    stored pr =
        unfold sample_store in
        above_one one cfg.sample_rate (cfg.rounded (cfg.sample_rate * 5)) (coin pr)
          (is_unhandled pr.event) rate product
