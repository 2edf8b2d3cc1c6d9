-- ===== src/Ingest/Counts.antt =====
-- internal/store/client_reports.go: the sums of what SDKs report as discarded. One statement inserts all
-- the entries of an envelope; Postgres refuses it if two of them have one key. The sums stay in BIGINT.
use crashcart.Base.{
  ℕ, ◌%◌, ◌-◌, ◌≡◌, refl, Bool, true, false, ◌&&◌, ◌||◌, List, [], ◌∷◌, ◌++◌, Option, none, some,
  if◌then◌else◌, arith, ◌==◌, some_row, update_where,
}
use crashcart.Base.Int.{ℤ, ◌+ℤ◌}
use crashcart.Base.Text.{Bytes, str_eq, str_eq_refl}
use crashcart.Sentry.Json.{ClientReportCount}

pub record ReportCount : Type 0 where
  pub project_id : ℕ
  pub bucket : ℕ
  pub reason : Bytes
  pub category : Bytes
  pub quantity : ℤ

unfoldable pub same_key : ClientReportCount → ClientReportCount → Bool
same_key e f = str_eq e.reason f.reason && str_eq e.category f.category

unfoldable pub repeats : List ClientReportCount → Bool
unfolding same_key
repeats [] = false
repeats (e ∷ entries) = some_row (same_key e) entries || repeats entries

unfoldable pub same_bucket : ℕ → ℕ → ClientReportCount → ReportCount → Bool
same_bucket project bucket e r =
    (project == r.project_id)
    && (bucket == r.bucket)
    && str_eq e.reason r.reason
    && str_eq e.category r.category

unfoldable pub add_quantity : ClientReportCount → ReportCount → ReportCount
add_quantity e r = record r { quantity = r.quantity +ℤ e.quantity }

abbrev new_count : ℕ → ℕ → ClientReportCount → ReportCount
new_count project bucket e = record {
  project_id = project;
  bucket = bucket;
  reason = e.reason;
  category = e.category;
  quantity = e.quantity;
}

unfoldable pub add_counts : ℕ → ℕ → List ClientReportCount → List ReportCount → List ReportCount
unfolding same_bucket add_quantity
add_counts project bucket [] rows = rows
add_counts project bucket (e ∷ entries) rows = add_counts project bucket entries (
    if some_row (same_bucket project bucket e) rows
    then update_where (same_bucket project bucket e) (add_quantity e) rows
    else rows ++ new_count project bucket e ∷ [])

-- `UpsertClientReportCounts`, all or nothing.
unfoldable pub upsert_client_report_counts :
    ℕ → ℕ → List ClientReportCount → List ReportCount → Option (List ReportCount)
unfolding repeats add_counts
upsert_client_report_counts project bucket entries rows =
    if repeats entries then none else some (add_counts project bucket entries rows)

-- The hour of an instant.
abbrev pub hour_of : ℕ → ℕ
hour_of now = now - now % 3_600_000_000_000

later_repeat :
    (e f : ClientReportCount) (mid back : List ClientReportCount)
    → same_key e f ≡ true
    → some_row (same_key e) (mid ++ f ∷ back) ≡ true
later_repeat e f [] back h = rw h refl
later_repeat e f (g ∷ mid) back h = rw (later_repeat e f mid back h) (ground arith)

repeats-append :
    (front mid back : List ClientReportCount) (e f : ClientReportCount)
    → same_key e f ≡ true
    → repeats (front ++ e ∷ (mid ++ f ∷ back)) ≡ true
unfolding repeats
repeats-append [] mid back e f h = rw (later_repeat e f mid back h) refl
repeats-append (g ∷ front) mid back e f h = rw (repeats-append front mid back e f h) (ground arith)

-- Two entries of one envelope with the same reason and category, wherever they stand, fail the
-- statement, and with it the transaction that writes the envelope's events.
pub repeated-refused :
    (project bucket : ℕ) (front mid back : List ClientReportCount) (e f : ClientReportCount)
    (rows : List ReportCount)
    → e.reason ≡ f.reason
    → e.category ≡ f.category
    → upsert_client_report_counts project bucket (front ++ e ∷ (mid ++ f ∷ back)) rows ≡ none
unfolding upsert_client_report_counts same_key
repeated-refused project bucket front mid back e f rows r c =
    let same : same_key e f ≡ true = rw (r, c, str_eq_refl f.reason, str_eq_refl f.category) refl in
    rw (repeats-append front mid back e f same) refl
