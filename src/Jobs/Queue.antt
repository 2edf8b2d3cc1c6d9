-- ===== src/Jobs/Queue.antt =====
-- The jobs table under any sequence of the statements of internal/store/jobs.go that change it.
use crashcart.Base.{ℕ, length, Bool, List, [], ◌∷◌, Option, none, some, arith, Bool-cases, inl, inr}
use crashcart.Base.Text.{Bytes}
use crashcart.Jobs.Table.{
  Table, EnqueueJobParams, enqueue_job, enqueue_jobs, insert_each, has_collision, claim_jobs,
  delete_job, retry_job, release_job, expire_jobs,
}
use crashcart.Jobs.FanOut.{fan_out, counted, enqueue_symbolicate_release}
use crashcart.Ingest.Write.{EventInsert, Encodings}
use crashcart.Jobs.Sound.{IsSound, delete_job-IsSound, retry_job-IsSound, expire_jobs-IsSound}
use crashcart.Jobs.Claim.{claim_jobs-IsSound}
use crashcart.Jobs.Enqueue.{enqueue_job-IsSound}
use crashcart.Jobs.Release.{release_job-IsSound}

-- The statements of internal/store/jobs.go that change the table, with their arguments, their clocks
-- and the events table that one of them reads.
pub data Statement : Type 0 where
  enqueue : ℕ → EnqueueJobParams → Statement
  enqueue_many : ℕ → List EnqueueJobParams → Statement
  claim : ℕ → ℕ → ℕ → (ℕ → Bool) → Statement
  delete : ℕ → Statement
  retry : ℕ → Option Bytes → ℕ → Statement
  release : ℕ → ℕ → Statement
  expire : ℕ → ℕ → Statement
  symbolicate_release : Encodings → ℕ → ℕ → Option Bytes → ℕ → List EventInsert → Statement

abbrev table_of : Table → Option (Table × ℕ) → Table
table_of t none = t
table_of t (some (u, n)) = u

abbrev or_unchanged : Table → Option Table → Table
or_unchanged t none = t
or_unchanged t (some u) = u

-- A refused multi-row insert changes nothing.
unfoldable pub run_statement : Statement → Table → Table
run_statement (enqueue now p) t = enqueue_job now p t
run_statement (enqueue_many now ps) t = or_unchanged t (enqueue_jobs now ps t)
run_statement (claim now until limit row_locked) t = (claim_jobs now until limit row_locked t).0
run_statement (delete i) t = delete_job i t
run_statement (retry i e run_after) t = retry_job i e run_after t
run_statement (release now i) t = release_job now i t
run_statement (expire now age) t = (expire_jobs now age t).0
run_statement (symbolicate_release enc now project rel limit events) t =
    table_of t (enqueue_symbolicate_release enc now project rel limit events t)

unfoldable pub run_statements : List Statement → Table → Table
unfolding run_statement
run_statements [] t = t
run_statements (s ∷ rest) t = run_statements rest (run_statement s t)

abbrev pub empty : Table
empty = record { rows = []; next_id = 1 }

pub empty-IsSound : IsSound empty
empty-IsSound = record {
  one_pending = λ kind project args. omega arith;
  one_id = λ i. omega arith;
  ids_used = tt;
  attempts_capped = tt;
}

insert_each-IsSound :
    (now : ℕ) (ps : List EnqueueJobParams) (t : Table) → IsSound t → IsSound (insert_each now ps t)
unfolding insert_each
insert_each-IsSound now [] t s = s
insert_each-IsSound now (p ∷ rest) t s =
    insert_each-IsSound now rest (enqueue_job now p t) (enqueue_job-IsSound now p t s)

enqueue_jobs-IsSound :
    (now : ℕ) (ps : List EnqueueJobParams) (t : Table)
    → IsSound t
    → IsSound (or_unchanged t (enqueue_jobs now ps t))
unfolding enqueue_jobs
enqueue_jobs-IsSound now ps t h = elim (Bool-cases (has_collision ps)) [
  | inl e ↦ rw (e, enqueue_jobs) h
  | inr e ↦ rw (e, enqueue_jobs) (insert_each-IsSound now ps t h)
]

counted-IsSound :
    (n : ℕ) (t : Table) (o : Option Table)
    → IsSound (or_unchanged t o)
    → IsSound (table_of t (counted n o))
counted-IsSound n t none h = h
counted-IsSound n t (some u) h = h

symbolicate_release-IsSound :
    (enc : Encodings) (now project : ℕ) (rel : Option Bytes) (limit : ℕ) (events : List EventInsert)
    (t : Table)
    → IsSound t
    → IsSound (table_of t (enqueue_symbolicate_release enc now project rel limit events t))
unfolding enqueue_symbolicate_release
symbolicate_release-IsSound enc now project rel limit events t h =
    let jobs = fan_out enc now project rel limit events in
    counted-IsSound (length jobs) t (enqueue_jobs now jobs t) (enqueue_jobs-IsSound now jobs t h)

run_statement-IsSound : (s : Statement) (t : Table) → IsSound t → IsSound (run_statement s t)
unfolding run_statement
run_statement-IsSound (enqueue now p) t h = enqueue_job-IsSound now p t h
run_statement-IsSound (enqueue_many now ps) t h = enqueue_jobs-IsSound now ps t h
run_statement-IsSound (claim now until limit row_locked) t h =
    claim_jobs-IsSound now limit row_locked until t h
run_statement-IsSound (delete i) t h = delete_job-IsSound i t h
run_statement-IsSound (retry i e run_after) t h = retry_job-IsSound i e run_after t h
run_statement-IsSound (release now i) t h = release_job-IsSound now i t h
run_statement-IsSound (expire now age) t h = expire_jobs-IsSound now age t h
run_statement-IsSound (symbolicate_release enc now project rel limit events) t h =
    symbolicate_release-IsSound enc now project rel limit events t h

-- Under any statements in any order, from a sound table (the empty one is sound), there is at most
-- one live row for each kind, project and arguments, no two rows share an id, no id lies past the
-- identity column's next value, and no row has more than 8 attempts.
pub run_statements-IsSound :
    (ss : List Statement) (t : Table) → IsSound t → IsSound (run_statements ss t)
unfolding run_statements
run_statements-IsSound [] t h = h
run_statements-IsSound (s ∷ rest) t h =
    run_statements-IsSound rest (run_statement s t) (run_statement-IsSound s t h)
