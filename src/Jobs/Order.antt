-- ===== src/Jobs/Order.antt =====
-- The order in which due jobs are claimed: by (run_after, id), the earliest first.
use crashcart.Base.{
  ℕ, zero, suc, ◌≡◌, Bool, true, false, not, ◌&&◌, List, [], ◌∷◌, arith, keep, take, All, All-imply,
  All-always, All-both, Bool-cases, inl, inr,
}
use crashcart.Jobs.Table.{
  Job, is_claimable, before, insert_ordered, order_by_due, has_id, select_claimable,
}

-- In order: each row stands before all that follow it.
abbrev Ordered : List Job → Type 0
Ordered [] = Unit
Ordered (j ∷ rows) = All (λ k. before j k ≡ true) rows × Ordered rows

before_total : (a b : Job) → before a b ≡ false → before b a ≡ true
unfolding before
before_total a b h = ground arith

before_trans : (a b c : Job) → before a b ≡ true → before b c ≡ true → before a c ≡ true
unfolding before
before_trans a b c h k = ground arith

All-insert_ordered :
    (P : Job → Type 0) (j : Job) (rows : List Job)
    → P j
    → All P rows
    → All P (insert_ordered j rows)
unfolding insert_ordered
All-insert_ordered P j [] p h = (p, tt)
All-insert_ordered P j (k ∷ rows) p h = elim (Bool-cases (before j k)) [
  | inl e ↦ rw e (p, h)
  | inr e ↦ rw e (h.0, All-insert_ordered P j rows p h.1)
]

insert_ordered-Ordered :
    (j : Job) (rows : List Job) → Ordered rows → Ordered (insert_ordered j rows)
unfolding insert_ordered
insert_ordered-Ordered j [] o = (tt, tt)
insert_ordered-Ordered j (k ∷ rows) o = elim (Bool-cases (before j k)) [
  | inl e ↦ rw e ((e, All-imply _ _ rows (λ l h. before_trans j k l e h) o.0), o)
  | inr e ↦ rw e (
    All-insert_ordered (λ l. before k l ≡ true) j rows (before_total j k e) o.0,
    insert_ordered-Ordered j rows o.1,
  )
]

order_by_due-Ordered : (rows : List Job) → Ordered (order_by_due rows)
unfolding order_by_due
order_by_due-Ordered [] = tt
order_by_due-Ordered (j ∷ rows) =
    insert_ordered-Ordered j (order_by_due rows) (order_by_due-Ordered rows)

All-take : (P : Job → Type 0) (n : ℕ) (rows : List Job) → All P rows → All P (take n rows)
All-take P zero rows h = tt
All-take P (suc n) [] h = tt
All-take P (suc n) (j ∷ rows) h = (h.0, All-take P n rows h.1)

-- Of an ordered list, what is not among the first rows comes after all of them.
take-Ordered :
    (n : ℕ) (rows : List Job)
    → Ordered rows
    → All (λ j. has_id j.id (take n rows) ≡ false → All (λ c. before c j ≡ true) (take n rows)) rows
take-Ordered zero rows o = All-always _ rows (λ j h. tt)
take-Ordered (suc n) [] o = tt
take-Ordered (suc n) (j ∷ rows) o = (
  (λ h. unfold has_id in ground arith),
  All-both _ _ _ rows (λ k b rest h. (b, rest (after_head k h))) o.0 (take-Ordered n rows o.1),
)
  where
    after_head :
        (k : Job) → has_id k.id (j ∷ take n rows) ≡ false → has_id k.id (take n rows) ≡ false
    after_head k h = unfold has_id in ground arith

All-of_insert_ordered :
    (P : Job → Type 0) (j : Job) (rows : List Job)
    → All P (insert_ordered j rows)
    → P j × All P rows
unfolding insert_ordered
All-of_insert_ordered P j [] h = h
All-of_insert_ordered P j (k ∷ rows) h = elim (Bool-cases (before j k)) [
  | inl e ↦ rw e at h
  | inr e ↦
      let g : P k × All P (insert_ordered j rows) = rw e at h in
      let (p, rest) = All-of_insert_ordered P j rows g.1 in (p, (g.0, rest))
]

All-of_order_by_due : (P : Job → Type 0) (rows : List Job) → All P (order_by_due rows) → All P rows
unfolding order_by_due
All-of_order_by_due P [] h = tt
All-of_order_by_due P (j ∷ rows) h =
    let (p, rest) = All-of_insert_ordered P j (order_by_due rows) h in
    (p, All-of_order_by_due P rows rest)

-- A claim passes over no row that was due earlier: every row that it might have taken (due, live,
-- not leased, not locked by another transaction) and did not comes, by (run_after, id), after all
-- that it took.
pub select_claimable-earliest :
    (now limit : ℕ) (row_locked : ℕ → Bool) (rows : List Job)
    → let chosen = select_claimable now limit row_locked rows in
      All
        (λ j. has_id j.id chosen ≡ false → All (λ c. before c j ≡ true) chosen)
        (keep (λ j. is_claimable now j && not (row_locked j.id)) rows)
unfolding select_claimable
select_claimable-earliest now limit row_locked rows =
    let candidates = keep (λ j. is_claimable now j && not (row_locked j.id)) rows in
    All-of_order_by_due _ candidates
      (take-Ordered limit (order_by_due candidates) (order_by_due-Ordered candidates))
