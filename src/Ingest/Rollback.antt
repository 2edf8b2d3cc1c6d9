-- ===== src/Ingest/Rollback.antt =====
-- What one bad item of an envelope does to the rest of it in internal/ingest/ingest.go.
use crashcart.Base.{ℕ, ◌≡◌, refl, ap, ◌∙◌, false, List, [], ◌∷◌, ◌++◌, none, ◌==◌, arith, length}
use crashcart.Sentry.Envelope.{Envelope}
use crashcart.Sentry.Json.{ClientReportCount}
use crashcart.Ingest.Prepare.{Settings}
use crashcart.Ingest.Write.{Encodings}
use crashcart.Ingest.Counts.{upsert_client_report_counts, repeated-refused, hour_of}
use crashcart.Ingest.Whole.{
  failed, nothing_received, Store, Outside, ingest, transaction, is_nothing, with_clamped,
}

transaction-refused :
    (cfg : Settings) (enc : Encodings) (out : Outside) (now : ℕ) (env : Envelope) (store : Store)
    → upsert_client_report_counts cfg.project_id
        (hour_of now)
        env.client_report_counts
        store.client_counts
      ≡ none
    → transaction cfg enc out now env store ≡ none
unfolding transaction
transaction-refused cfg enc out now env store h = rw h refl

has_counts :
    (front back : List ClientReportCount) (e : ClientReportCount)
    → (length (front ++ e ∷ back) == 0) ≡ false
has_counts [] back e = ground arith
has_counts (g ∷ front) back e = ground arith

something :
    (env : Envelope) → (length env.client_report_counts == 0) ≡ false → is_nothing env ≡ false
something env h = rw h (ground arith)

-- Two client report entries of one envelope with the same reason and category, wherever they stand,
-- fail all of it: Ingest returns an error with nothing but the counts of events received and of invalid
-- items, and every table is as it was, so the envelope's events, sessions and check-in are not stored.
pub repeated-rolls_back :
    (cfg : Settings) (enc : Encodings) (out : Outside) (now : ℕ) (env : Envelope) (store : Store)
    (front mid back : List ClientReportCount) (e f : ClientReportCount)
    → env.client_report_counts ≡ front ++ e ∷ (mid ++ f ∷ back)
    → e.reason ≡ f.reason
    → e.category ≡ f.category
    → ingest cfg enc out now env store
      ≡ (store, failed (nothing_received (length env.events) env.invalid))
unfolding ingest
repeated-rolls_back cfg enc out now env store front mid back e f h r c =
    let counts = ap (λ es. length es == 0) h ∙ has_counts front (mid ++ f ∷ back) e in
    let refused =
      ap (λ es. upsert_client_report_counts cfg.project_id (hour_of now) es store.client_counts) h
      ∙ repeated-refused cfg.project_id (hour_of now) front mid back e f store.client_counts r c in
    rw
      (
        something env counts,
        transaction-refused cfg enc out now (with_clamped cfg now env) store refused,
      )
      refl
