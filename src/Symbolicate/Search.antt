-- ===== src/Symbolicate/Search.antt =====
-- Go's `sort.Search`, as the lookup of internal/symbolicate/sourcemap.go uses it: binary search for
-- the first index at which a predicate holds.
use crashcart.Base.{
  ℕ, ◌+◌, ◌/◌, ◌≤◌, ◌<◌, ◌≡◌, suc, zero, Bool, true, false, if◌then◌else◌, arith, ltb, Bool-cases,
  inl, inr,
}

unfoldable pub search : (ℕ → Bool) → ℕ → ℕ → ℕ → ℕ
search f zero i j = i
search f (suc fuel) i j =
    let h = (i + j) / 2 in
    let right = search f fuel (h + 1) j in
    let left = search f fuel i h in if ltb i j then if f h then left else right else i

-- `sort.Search(n, f)`: each step at least halves the range, so `n` steps are enough.
unfoldable pub sort_search : ℕ → (ℕ → Bool) → ℕ
unfolding search
sort_search n f = search f n 0 n

abbrev pub IsMonotone : (ℕ → Bool) → Type 0
IsMonotone f = (a b : ℕ) → a ≤ b → f a ≡ true → f b ≡ true

-- `r` parts the range: false below it, true from it on.
abbrev IsFirst : (ℕ → Bool) → ℕ → ℕ → ℕ → Type 0
IsFirst f i j r =
    (i ≤ r)
    × (r ≤ j)
    × ((k : ℕ) → i ≤ k → k < r → f k ≡ false)
    × ((k : ℕ) → r ≤ k → k < j → f k ≡ true)

search-IsFirst :
    (f : ℕ → Bool) (fuel i j : ℕ)
    → IsMonotone f
    → i ≤ j
    → j ≤ i + fuel
    → IsFirst f i j (search f fuel i j)
unfolding search
search-IsFirst f zero i j mono le enough =
    (omega arith, omega arith, (λ k a b. ground arith), (λ k a b. ground arith))
search-IsFirst f (suc fuel) i j mono le enough = elim (Bool-cases (ltb i j)) [
  | inr e ↦ rw e (omega arith, ground arith, (λ k a b. ground arith), (λ k a b. ground arith))
  | inl e ↦
      let h : ℕ = (i + j) / 2 in
      let below : h < j = ground arith in
      let above : i ≤ h = ground arith in
      elim (Bool-cases (f ((i + j) / 2))) [
        | inl q ↦
            let (a, b, before, after) = search-IsFirst f fuel i h mono above (omega arith) in
            rw (e, q)
              (
                a,
                omega arith,
                before,
                (λ k c d. elim (Bool-cases (ltb k ((i + j) / 2))) [
                  | inl near ↦ after k c (ground arith)
                  | inr far ↦ mono ((i + j) / 2) k (ground arith) q
                ]),
              )
        | inr q ↦
            let (a, b, before, after) =
              search-IsFirst f fuel (h + 1) j mono (omega arith) (omega arith) in
            rw (e, q)
              (
                omega arith,
                b,
                (λ k c d. elim (Bool-cases (ltb ((i + j) / 2) k)) [
                  | inl far ↦ before k (ground arith) d
                  | inr near ↦ elim (Bool-cases (f k)) [
                    | inr e_false ↦ e_false
                    | inl e_true ↦ ground (arith, mono k ((i + j) / 2) (ground arith) e_true)
                  ]
                ]),
                after,
              )
      ]
]

-- `sort.Search` on a predicate that stays true once it is: the first index at which it is, or `n`.
pub sort_search-IsFirst :
    (n : ℕ) (f : ℕ → Bool)
    → IsMonotone f
    → (sort_search n f ≤ n)
      × ((k : ℕ) → k < sort_search n f → f k ≡ false)
      × ((k : ℕ) → sort_search n f ≤ k → k < n → f k ≡ true)
unfolding sort_search
sort_search-IsFirst n f mono =
    let (a, b, before, after) = search-IsFirst f n 0 n mono (omega arith) (omega arith) in
    (b, (λ k h. before k (omega arith) h), after)
