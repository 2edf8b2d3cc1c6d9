-- ===== src/Base/Rows.antt =====
-- Tables as lists of rows: `EXISTS`, `UPDATE … WHERE` and `DELETE … WHERE`, and what they do to the
-- number of rows that pass a test.
use Prim.Native.Nat.{ℕ, zero, suc, ◌+◌, ◌≤◌}
use mathlib.Core.Path.{◌≡◌, refl}
use mathlib.Core.Logic.{inl, inr}
use mathlib.Core.Bool.{Bool, true, false, ◌&&◌, ◌||◌}
use mathlib.Core.List.{List, [], ◌∷◌, ◌++◌}
use native.Mathlib.Omega.{arith}
use crashcart.Base.Tests.{if◌then◌else◌, Bool-cases}
use crashcart.Base.Lists.{keep, count, take, All}

module _ {ℓ} {A : Type ℓ} where
  abbrev pub some_row : (A → Bool) → List A → Bool
  some_row p [] = false
  some_row p (j ∷ rows) = p j || some_row p rows

  abbrev pub update_where : (A → Bool) → (A → A) → List A → List A
  update_where p f [] = []
  update_where p f (j ∷ rows) = (if p j then f j else j) ∷ update_where p f rows

  pub All-none :
      (p : A → Bool) (rows : List A) → some_row p rows ≡ false → All (λ j. p j ≡ false) rows
  All-none p [] h = tt
  All-none p (j ∷ rows) h = (ground arith, All-none p rows (ground arith))

  pub some_row-find :
      (p : A → Bool) (rows : List A) → some_row p rows ≡ true → (j : A) × (p j ≡ true)
  some_row-find p [] h = cc
  some_row-find p (j ∷ rows) h =
      elim (p j) as (λ b. b ≡ p j → (j : A) × (p j ≡ true)) [
        | true ↦ λ e. (j, ground arith)
        | false ↦ λ e. some_row-find p rows (ground arith)
      ]
        refl

  pub count_mono :
      (p q : A → Bool) (rows : List A)
      → All (λ j. p j ≡ true → q j ≡ true) rows
      → count p rows ≤ count q rows
  count_mono p q [] h = omega arith
  count_mono p q (j ∷ rows) h = ground (arith, count_mono p q rows h.1, h.0)

  pub count-none : (p : A → Bool) (rows : List A) → some_row p rows ≡ false → count p rows ≡ 0
  count-none p [] h = refl
  count-none p (j ∷ rows) h = ground (arith, count-none p rows)

  pub count-append : (p : A → Bool) (xs ys : List A) → count p (xs ++ ys) ≡ count p xs + count p ys
  count-append p [] ys = omega arith
  count-append p (x ∷ xs) ys = ground (arith, count-append p xs ys)

  pub count-keep-le : (p q : A → Bool) (rows : List A) → count p (keep q rows) ≤ count p rows
  count-keep-le p q [] = omega arith
  count-keep-le p q (j ∷ rows) = ground (arith, count-keep-le p q rows)

  pub count-update_where :
      (p q : A → Bool) (f : A → A) (rows : List A)
      → count p (update_where q f rows) ≡ count (λ j. p (if q j then f j else j)) rows
  count-update_where p q f [] = refl
  count-update_where p q f (j ∷ rows) = ground (arith, count-update_where p q f rows)

  pub some_row-keep :
      (r q : A → Bool) (rows : List A) → some_row r (keep q rows) ≡ true → some_row r rows ≡ true
  some_row-keep r q [] h = h
  some_row-keep r q (j ∷ rows) h = ground (arith, some_row-keep r q rows)

  pub some_row-take :
      (r : A → Bool) (n : ℕ) (rows : List A)
      → some_row r (take n rows) ≡ true
      → some_row r rows ≡ true
  some_row-take r zero rows h = cc
  some_row-take r (suc n) [] h = h
  some_row-take r (suc n) (j ∷ rows) h = ground (arith, some_row-take r n rows)

  pub count_pos : (p : A → Bool) (rows : List A) → some_row p rows ≡ true → 1 ≤ count p rows
  count_pos p [] h = cc
  count_pos p (j ∷ rows) h = ground (arith, count_pos p rows)

module _ {ℓ κ} {A : Type ℓ} (P : A → Type κ) where
  pub All-always : (rows : List A) → ((j : A) → P j) → All P rows
  All-always [] h = tt
  All-always (j ∷ rows) h = (h j, All-always rows h)

  pub All-keep : (q : A → Bool) (rows : List A) → All P rows → All P (keep q rows)
  All-keep q [] h = tt
  All-keep q (j ∷ rows) h = elim (Bool-cases (q j)) [
    | inl e ↦ rw e (h.0, All-keep q rows h.1)
    | inr e ↦ rw e (All-keep q rows h.1)
  ]

  pub All-update_where :
      (q : A → Bool) (f : A → A) (rows : List A)
      → All (λ j. q j ≡ true → P j → P (f j)) rows
      → All P rows
      → All P (update_where q f rows)
  All-update_where q f [] s h = tt
  All-update_where q f (j ∷ rows) s h =
      let rest = All-update_where q f rows s.1 h.1 in
      elim (Bool-cases (q j)) [ inl e ↦ rw e (s.0 e h.0, rest) | inr e ↦ rw e (h.0, rest) ]

  pub All-imply {μ} :
      (Q : A → Type μ) (rows : List A) → ((j : A) → P j → Q j) → All P rows → All Q rows
  All-imply Q [] s h = tt
  All-imply Q (j ∷ rows) s h = (s j h.0, All-imply Q rows s h.1)

module _ {ℓ κ μ ν} {A : Type ℓ} (P : A → Type κ) (Q : A → Type μ) (R : A → Type ν) where
  pub All-both :
      (rows : List A) → ((j : A) → P j → Q j → R j) → All P rows → All Q rows → All R rows
  All-both [] s h k = tt
  All-both (j ∷ rows) s h k = (s j h.0 k.0, All-both rows s h.1 k.1)

module _ {ℓ} {A : Type ℓ} where
  pub some_row-keep-and :
      (r q : A → Bool) (rows : List A)
      → some_row r (keep q rows) ≡ true
      → some_row (λ j. q j && r j) rows ≡ true
  some_row-keep-and r q [] h = h
  some_row-keep-and r q (j ∷ rows) h = ground (arith, some_row-keep-and r q rows)

  pub some_row-find-All {κ} :
      (P : A → Type κ) (p : A → Bool) (rows : List A)
      → All P rows
      → some_row p rows ≡ true
      → (j : A) × (p j ≡ true) × P j
  some_row-find-All P p [] a h = cc
  some_row-find-All P p (j ∷ rows) a h = elim (Bool-cases (p j)) [
    | inl e ↦ (j, e, a.0)
    | inr e ↦ some_row-find-All P p rows a.1 (ground arith)
  ]

  pub none-keep :
      (r q : A → Bool) (rows : List A) → some_row r rows ≡ false → some_row r (keep q rows) ≡ false
  none-keep r q [] h = h
  none-keep r q (j ∷ rows) h = ground (arith, none-keep r q rows)

  pub none-keep_not :
      (r q : A → Bool) (rows : List A)
      → ((j : A) → q j ≡ true → r j ≡ false)
      → some_row r (keep q rows) ≡ false
  none-keep_not r q [] s = refl
  none-keep_not r q (j ∷ rows) s = ground (arith, none-keep_not r q rows s, s j)

  pub none-update_where :
      (r q : A → Bool) (f : A → A) (rows : List A)
      → ((j : A) → r j ≡ false → r (f j) ≡ false)
      → some_row r rows ≡ false
      → some_row r (update_where q f rows) ≡ false
  none-update_where r q f [] s h = h
  none-update_where r q f (j ∷ rows) s h = ground (arith, none-update_where r q f rows s, s j)

  pub none-updated :
      (r q : A → Bool) (f : A → A) (rows : List A)
      → All (λ j. r (if q j then f j else j) ≡ false) rows
      → some_row r (update_where q f rows) ≡ false
  none-updated r q f [] h = refl
  none-updated r q f (j ∷ rows) h = ground (arith, none-updated r q f rows h.1, h.0)

  pub some_row_mono :
      (p q : A → Bool) (rows : List A)
      → ((j : A) → q j ≡ true → p j ≡ true)
      → some_row q rows ≡ true
      → some_row p rows ≡ true
  some_row_mono p q [] s h = h
  some_row_mono p q (j ∷ rows) s h = ground (arith, some_row_mono p q rows s, s j)

  none-counted : (p : A → Bool) (rows : List A) → count p rows ≤ 0 → All (λ j. p j ≡ false) rows
  none-counted p [] h = tt
  none-counted p (j ∷ rows) h = (ground arith, none-counted p rows (ground arith))

  -- Where at most one row passes `p`, a row that passes the narrower `q` is that row.
  pub the_only_row :
      (p q : A → Bool) (rows : List A)
      → ((j : A) → q j ≡ true → p j ≡ true)
      → count p rows ≤ 1
      → some_row q rows ≡ true
      → All (λ j. p j ≡ true → q j ≡ true) rows
  the_only_row p q [] s c h = tt
  the_only_row p q (j ∷ rows) s c h = elim (Bool-cases (q j)) [
    | inl e ↦
        ((λ x. e), All-imply _ _ rows (λ k a b. cc) (none-counted p rows (ground (arith, s j e))))
    | inr e ↦
        let below : some_row q rows ≡ true = ground arith in
        let found = count_pos p rows (some_row_mono p q rows s below) in
        ((λ x. ground (arith, found)), the_only_row p q rows s (ground arith) below)
  ]

  pub keep-update_where :
      (q r : A → Bool) (f : A → A) (rows : List A)
      → ((j : A) → q j ≡ true → (r j ≡ false) × (r (f j) ≡ false))
      → keep r (update_where q f rows) ≡ keep r rows
  keep-update_where q r f [] s = refl
  keep-update_where q r f (j ∷ rows) s = ground (arith, keep-update_where q r f rows s, s j)

  pub keep-append : (r : A → Bool) (xs ys : List A) → keep r (xs ++ ys) ≡ keep r xs ++ keep r ys
  keep-append r [] ys = refl
  keep-append r (x ∷ xs) ys = ground (arith, keep-append r xs ys)
