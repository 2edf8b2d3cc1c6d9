-- ===== src/Ingest/Inserted.antt =====
-- internal/store/events.go: what InsertEvents leaves in the table.
use crashcart.Base.{
  ◌≡◌, refl, ◌∙◌, Bool, true, ◌||◌, List, [], ◌∷◌, ◌++◌, arith, some_row, Bool-cases, inl, inr,
}
use crashcart.Base.Text.{str_eq_refl}
use crashcart.Ingest.Write.{EventInsert}
use crashcart.Ingest.Commit.{same_event, insert_events}

some_row-append :
    {A : Type 0} (p : A → Bool) (xs ys : List A)
    → some_row p (xs ++ ys) ≡ (some_row p xs || some_row p ys)
some_row-append p [] ys = refl
some_row-append p (x ∷ xs) ys = rw (some_row-append p xs ys) (ground arith)

-- A row that is in the table stays.
pub insert_events-keeps :
    (p : EventInsert → Bool) (rows table : List EventInsert)
    → some_row p table ≡ true
    → some_row p (insert_events rows table) ≡ true
unfolding insert_events
insert_events-keeps p [] table h = h
insert_events-keeps p (r ∷ rows) table h = elim (Bool-cases (some_row (same_event r) table)) [
  | inl e ↦ rw e (insert_events-keeps p rows table h)
  | inr e ↦
      rw e (
        insert_events-keeps p rows (table ++ r ∷ []) (some_row-append p table (r ∷ []) ∙ rw h refl))
]

same_event_refl : (r : EventInsert) → same_event r r ≡ true
unfolding same_event
same_event_refl r = rw (str_eq_refl r.event_id) (ground arith)

-- A row that is inserted is in the table.
pub insert_events-inserts :
    (r : EventInsert) (rows table : List EventInsert)
    → some_row (same_event r) (insert_events (r ∷ rows) table) ≡ true
unfolding insert_events
insert_events-inserts r rows table = elim (Bool-cases (some_row (same_event r) table)) [
  | inl e ↦ rw e (insert_events-keeps (same_event r) rows table e)
  | inr e ↦ rw e (
      insert_events-keeps (same_event r) rows (table ++ r ∷ [])
        (some_row-append (same_event r) table (r ∷ []) ∙ rw (e, same_event_refl r) refl))
]
