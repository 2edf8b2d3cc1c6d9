-- ===== src/Jobs/FanOut.antt =====
-- internal/store/jobs.go: `EnqueueSymbolicateRelease`, one job per event of a release that is not
-- symbolicated. Of events with one time, those first in the table come first. The arguments are the
-- text that ingest gives them, which jsonb does not tell from its own.
use crashcart.Base.{
  ℕ, Bool, false, not, ◌&&◌, List, [], ◌∷◌, map, Option, none, some, if◌then◌else◌, ltb, ◌==◌, keep,
  take, length,
}
use crashcart.Base.Text.{Bytes, str_eq, is_some}
use crashcart.Jobs.Table.{Table, EnqueueJobParams, symbolicate, enqueue_jobs}
use crashcart.Ingest.Write.{EventInsert, Encodings}
use crashcart.Ingest.Commit.{symbolicate_args}

-- `release = $2`: NULL equals nothing.
abbrev pub has_release : Option Bytes → Option Bytes → Bool
has_release (some a) (some b) = str_eq a b
has_release _ _ = false

unfoldable pub is_unsymbolicated : ℕ → Option Bytes → EventInsert → Bool
is_unsymbolicated project release e =
    (e.project_id == project)
    && has_release release e.release
    && not e.symbolicated
    && is_some e.row_fingerprint

-- `ORDER BY occurred_at DESC`.
unfoldable pub insert_newest : EventInsert → List EventInsert → List EventInsert
insert_newest e [] = e ∷ []
insert_newest e (k ∷ rows) =
    let rest = insert_newest e rows in
    if ltb e.occurred_at k.occurred_at then k ∷ rest else e ∷ k ∷ rows

unfoldable pub newest_first : List EventInsert → List EventInsert
unfolding insert_newest
newest_first [] = []
newest_first (e ∷ rows) = insert_newest e (newest_first rows)

unfoldable pub fan_out_job : Encodings → ℕ → EventInsert → EnqueueJobParams
unfolding symbolicate_args
fan_out_job enc now e = record {
  kind = symbolicate;
  project_id = e.project_id;
  args = symbolicate_args enc e.occurred_at e.event_id;
  run_after = now;
}

-- The rows that the SELECT gives.
unfoldable pub fan_out :
    Encodings → ℕ → ℕ → Option Bytes → ℕ → List EventInsert → List EnqueueJobParams
unfolding is_unsymbolicated newest_first fan_out_job
fan_out enc now project release limit events =
    map (fan_out_job enc now)
      (take limit (newest_first (keep (is_unsymbolicated project release) events)))

abbrev pub counted : ℕ → Option Table → Option (Table × ℕ)
counted n none = none
counted n (some t) = some (t, n)

-- `EnqueueSymbolicateRelease`: the table and the number of rows inserted or pulled forward.
unfoldable pub enqueue_symbolicate_release :
    Encodings → ℕ → ℕ → Option Bytes → ℕ → List EventInsert → Table → Option (Table × ℕ)
unfolding fan_out enqueue_jobs
enqueue_symbolicate_release enc now project release limit events t =
    let jobs = fan_out enc now project release limit events in
    counted (length jobs) (enqueue_jobs now jobs t)
