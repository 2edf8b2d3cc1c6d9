-- ===== src/Jobs/Lease.antt =====
-- What a claim gives its worker: jobs that another claim does not return while their leases hold.
use crashcart.Base.{
  ℕ, ◌+◌, ◌≤◌, ◌≡◌, refl, sym, ◌∙◌, Bool, true, false, not, ◌&&◌, ◌||◌, List, [], ◌∷◌, map, arith,
  ◌==◌, keep, take, count, length, length-take-le, some_row, update_where, All, All-always,
  some_row-find, some_row-find-All, some_row-keep-and, count_mono, Bool-cases, inl, inr,
}
use crashcart.Jobs.Table.{
  Job, Table, is_leased, is_claimable, order_by_due, has_id, claimed_row, select_claimable,
  claim_jobs,
}
use crashcart.Jobs.Sound.{IsSound}
use crashcart.Jobs.Claim.{has_id-select}

count-or-le :
    (p q : Job → Bool) (rows : List Job)
    → count (λ j. p j || q j) rows ≤ count p rows + count q rows
count-or-le p q [] = omega arith
count-or-le p q (j ∷ rows) = ground (arith, count-or-le p q rows)

count-const_false : (rows : List Job) → count (λ j. false) rows ≡ 0
count-const_false [] = refl
count-const_false (j ∷ rows) = count-const_false rows

-- Where ids are unique, no more rows match a list of ids than it has entries.
count-has_id-le :
    (chosen rows : List Job)
    → ((i : ℕ) → count (λ j. i == j.id) rows ≤ 1)
    → count (λ j. has_id j.id chosen) rows ≤ length chosen
unfolding has_id
count-has_id-le [] rows one = omega (arith, count-const_false rows)
count-has_id-le (c ∷ chosen) rows one =
    let here : Job → Bool = λ j. j.id == c.id in
    omega (
      arith,
      count-has_id-le chosen rows one,
      one c.id,
      count-or-le here (λ j. some_row (λ k. j.id == k.id) chosen) rows,
      count_mono here (λ j. c.id == j.id) rows (All-always _ rows (λ j h. ground arith)),
    )

length-map-keep :
    (f : Job → Job) (p : Job → Bool) (rows : List Job) → length (map f (keep p rows)) ≡ count p rows
length-map-keep f p [] = refl
length-map-keep f p (j ∷ rows) = ground (arith, length-map-keep f p rows)

some_row-map-keep :
    (r p : Job → Bool) (f : Job → Job) (rows : List Job)
    → some_row r (map f (keep p rows)) ≡ some_row (λ j. p j && r (f j)) rows
some_row-map-keep r p f [] = refl
some_row-map-keep r p f (j ∷ rows) = ground (arith, some_row-map-keep r p f rows)

module _ (now until limit : ℕ) (row_locked : ℕ → Bool) where
  -- A claim on a sound table returns at most `limit` rows.
  length-claim_jobs :
      (t : Table) → IsSound t → length (claim_jobs now until limit row_locked t).1 ≤ limit
  unfolding claim_jobs select_claimable
  length-claim_jobs t s =
      let p : Job → Bool = λ j. is_claimable now j && not (row_locked j.id) in
      let chosen = take limit (order_by_due (keep p t.rows)) in
      omega (
        arith,
        length-map-keep (claimed_row until) (λ j. has_id j.id chosen) t.rows,
        count-has_id-le chosen t.rows s.one_id,
        length-take-le limit (order_by_due (keep p t.rows)),
      )

  -- The ids that a claim returns are among those selected.
  returned-selected :
      (t : Table) (i : ℕ)
      → has_id i (claim_jobs now until limit row_locked t).1 ≡ true
      → has_id i (select_claimable now limit row_locked t.rows) ≡ true
  unfolding claim_jobs has_id
  returned-selected t i h =
      let chosen = select_claimable now limit row_locked t.rows in
      let e =
        some_row-map-keep (λ (k : Job). i == k.id)
          (λ (j : Job). some_row (λ k. j.id == k.id) chosen) (claimed_row until) t.rows in
      let (j, q) = some_row-find _ t.rows (sym e ∙ h) in
      let same : i ≡ j.id = ground arith in rw same (ground arith)

  -- After the claim a selected row is leased until `until`.
  selected-is_leased :
      (t : Table) (later : ℕ)
      → later ≤ until
      → All
          (λ j.
            has_id j.id (select_claimable now limit row_locked t.rows) ≡ true
            → is_leased later j ≡ true)
          (claim_jobs now until limit row_locked t).0.rows
  unfolding claim_jobs
  selected-is_leased t later h =
      let chosen = select_claimable now limit row_locked t.rows in leased_rows chosen t.rows
    where
      leased_rows :
          (chosen rows : List Job)
          → All
              (λ j. has_id j.id chosen ≡ true → is_leased later j ≡ true)
              (update_where (λ j. has_id j.id chosen) (claimed_row until) rows)
      leased_rows chosen [] = tt
      leased_rows chosen (j ∷ rows) = elim (Bool-cases (has_id j.id chosen)) [
        | inl e ↦ rw e ((λ x. ground arith), leased_rows chosen rows)
        | inr e ↦ rw e ((λ x. cc), leased_rows chosen rows)
      ]

-- While the leases of one claim hold, a second claim, whatever its clock, limit and the rows locked
-- by others, returns none of the jobs that the first one returned.
pub claims_exclude :
    (now until limit : ℕ) (row_locked : ℕ → Bool) (now' until' limit' : ℕ) (row_locked' : ℕ → Bool)
    (t : Table) (i : ℕ)
    → now' ≤ until
    → has_id i (claim_jobs now until limit row_locked t).1 ≡ true
    → has_id i
        (claim_jobs now' until' limit' row_locked' (claim_jobs now until limit row_locked t).0).1
      ≡ false
claims_exclude now until limit row_locked now' until' limit' row_locked' t i le got =
    let t' = (claim_jobs now until limit row_locked t).0 in
    elim (Bool-cases (has_id i (claim_jobs now' until' limit' row_locked' t').1)) [
      | inr e ↦ e
      | inl again ↦
          let chosen = returned-selected now until limit row_locked t i got in
          let found =
            has_id-select now' limit' row_locked' t'.rows i
              (returned-selected now' until' limit' row_locked' t' i again) in
          let (j, e, leased) =
            some_row-find-All _ _ t'.rows (selected-is_leased now until limit row_locked t now' le)
              (some_row-keep-and (λ (j : Job). i == j.id)
                (λ j. is_claimable now' j && not (row_locked' j.id)) t'.rows
                (unfold has_id in found)) in
          let same : i ≡ j.id = ground arith in
          let lease = leased (rw same at chosen) in unfold is_claimable in ground (arith, lease)
    ]
