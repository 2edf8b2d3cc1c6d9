-- ===== src/Jobs/Claim.antt =====
-- What `ClaimJobs` selects, and that it keeps the jobs table sound.
use crashcart.Base.{
  ℕ, ◌≤◌, ◌≡◌, refl, sym, ap, ◌∙◌, Bool, true, false, not, ◌&&◌, ◌||◌, List, [], ◌∷◌, arith, ◌==◌,
  keep, count, some_row, All, All-imply, All-none, All-both, some_row-keep, some_row-take,
  count_pos, Bool-cases, inl, inr,
}
use crashcart.Jobs.Table.{
  Job, Table, is_live, is_claimable, before, insert_ordered, order_by_due, has_id, claimed_row,
  select_claimable, claim_jobs,
}
use crashcart.Jobs.Sound.{IsSound, claim-IsTame, update-IsSound}

some_row-insert_ordered :
    (r : Job → Bool) (j : Job) (rows : List Job)
    → some_row r (insert_ordered j rows) ≡ (r j || some_row r rows)
unfolding insert_ordered
some_row-insert_ordered r j [] = refl
some_row-insert_ordered r j (k ∷ rows) = elim (Bool-cases (before j k)) [
  | inl e ↦ rw e
  | inr e ↦ rw (e, some_row-insert_ordered r j rows) (ground arith)
]

some_row-order_by_due :
    (r : Job → Bool) (rows : List Job) → some_row r (order_by_due rows) ≡ some_row r rows
unfolding order_by_due
some_row-order_by_due r [] = refl
some_row-order_by_due r (j ∷ rows) =
    some_row-insert_ordered r j (order_by_due rows)
    ∙ ap (λ b. r j || b) (some_row-order_by_due r rows)

-- Where ids are unique, a row whose id was kept was kept itself.
pub has_id-keep :
    (p : Job → Bool) (rows : List Job)
    → ((i : ℕ) → count (λ j. i == j.id) rows ≤ 1)
    → All (λ j. has_id j.id (keep p rows) ≡ true → p j ≡ true) rows
unfolding has_id
has_id-keep p [] one = tt
has_id-keep p (x ∷ xs) one =
    (head_case, All-both _ _ _ xs tail_case apart (has_id-keep p xs (λ i. ground (arith, one i))))
  where
    unique : some_row (λ j. x.id == j.id) xs ≡ false
    unique = elim (Bool-cases (some_row (λ (j : Job). x.id == j.id) xs)) [
      | inl found ↦
          absurd (ground (arith, one x.id, count_pos (λ (j : Job). x.id == j.id) xs found))
      | inr missing ↦ missing
    ]

    head_case : has_id x.id (keep p (x ∷ xs)) ≡ true → p x ≡ true
    head_case h = elim (Bool-cases (p x)) [
      | inl e ↦ e
      | inr e ↦
          let found : some_row (λ j. x.id == j.id) (keep p xs) ≡ true = ground arith in
          ground (arith, unique, some_row-keep (λ (j : Job). x.id == j.id) p xs found)
    ]

    apart : All (λ j. (x.id == j.id) ≡ false) xs
    apart = All-none (λ j. x.id == j.id) xs unique

    tail_case :
        (j : Job)
        → (x.id == j.id) ≡ false
        → (has_id j.id (keep p xs) ≡ true → p j ≡ true)
        → has_id j.id (keep p (x ∷ xs)) ≡ true
        → p j ≡ true
    tail_case j a h e = h (ground arith)

module _ (now limit : ℕ) (row_locked : ℕ → Bool) where
  -- A selected id is the id of a row that may be claimed.
  pub has_id-select :
      (rows : List Job) (i : ℕ)
      → has_id i (select_claimable now limit row_locked rows) ≡ true
      → has_id i (keep (λ j. is_claimable now j && not (row_locked j.id)) rows) ≡ true
  unfolding select_claimable has_id
  has_id-select rows i e =
      let p : Job → Bool = λ j. is_claimable now j && not (row_locked j.id) in
      sym (some_row-order_by_due (λ k. i == k.id) (keep p rows))
      ∙ some_row-take (λ k. i == k.id) limit (order_by_due (keep p rows)) e

  pub selected-is_claimable :
      (t : Table)
      → IsSound t
      → All
          (λ j.
            has_id j.id (select_claimable now limit row_locked t.rows) ≡ true
            → (is_claimable now j && not (row_locked j.id)) ≡ true)
          t.rows
  selected-is_claimable t s =
      let p : Job → Bool = λ j. is_claimable now j && not (row_locked j.id) in
      All-imply _ _ t.rows (λ j h e. h (has_id-select t.rows j.id e))
        (has_id-keep p t.rows s.one_id)

  selected-is_live :
      (t : Table)
      → IsSound t
      → All
          (λ j.
            has_id j.id (select_claimable now limit row_locked t.rows) ≡ true → is_live j ≡ true)
          t.rows
  unfolding is_claimable
  selected-is_live t s =
      All-imply _ _ t.rows (λ j h e. let c = h e in ground arith) (selected-is_claimable t s)

  pub claim_jobs-IsSound :
      (until : ℕ) (t : Table) → IsSound t → IsSound (claim_jobs now until limit row_locked t).0
  unfolding claim_jobs
  claim_jobs-IsSound until t s =
      let q : Job → Bool = λ j. has_id j.id (select_claimable now limit row_locked t.rows) in
      update-IsSound q (claimed_row until) t (claim-IsTame q until t.rows (selected-is_live t s)) s
