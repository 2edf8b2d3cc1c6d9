-- ===== src/Base/Find.antt =====
-- The first row of a table with a property: a SELECT by a key.
use mathlib.Core.Path.{◌≡◌, refl}
use mathlib.Core.Logic.{◌⊎◌, inl, inr}
use mathlib.Core.Bool.{Bool, true}
use mathlib.Core.Option.{Option, none, some}
use mathlib.Core.List.{List, [], ◌∷◌, ◌++◌}
use native.Mathlib.Omega.{arith}
use crashcart.Base.Tests.{if◌then◌else◌, Bool-cases}
use crashcart.Base.Lists.{count, keep}
use crashcart.Base.Rows.{update_where}

module _ {ℓ} {A : Type ℓ} where
  -- The first row that passes a test.
  abbrev pub find_row : (A → Bool) → List A → Option A
  find_row p [] = none
  find_row p (x ∷ rows) = let rest = find_row p rows in if p x then some x else rest

  pub find_row-append :
      (p : A → Bool) (rows : List A) (x : A)
      → find_row p rows ≡ none
      → p x ≡ true
      → find_row p (rows ++ x ∷ []) ≡ some x
  find_row-append p [] x h e = rw e refl
  find_row-append p (y ∷ rows) x h e = elim (Bool-cases (p y)) [
    | inl q ↦ ground arith
    | inr q ↦ rw q (find_row-append p rows x (ground arith) e)
  ]

  pub find_row-update_where :
      (p : A → Bool) (f : A → A) (rows : List A) (x : A)
      → ((y : A) → p (f y) ≡ p y)
      → find_row p rows ≡ some x
      → find_row p (update_where p f rows) ≡ some (f x)
  find_row-update_where p f [] x keeps h = ground arith
  find_row-update_where p f (y ∷ rows) x keeps h = elim (Bool-cases (p y)) [
    | inl q ↦ rw (q, keeps y, q) (ground arith)
    | inr q ↦ rw (q, q) (find_row-update_where p f rows x keeps (ground arith))
  ]

  pub find_row-none : (p : A → Bool) (rows : List A) → find_row p rows ≡ none → count p rows ≡ 0
  find_row-none p [] h = refl
  find_row-none p (x ∷ rows) h = elim (Bool-cases (p x)) [
    | inl q ↦ ground arith
    | inr q ↦ rw q (find_row-none p rows (ground arith))
  ]

  pub find_row-true : (p : A → Bool) (rows : List A) (x : A) → find_row p rows ≡ some x → p x ≡ true
  find_row-true p [] x h = ground arith
  find_row-true p (y ∷ rows) x h = elim (Bool-cases (p y)) [
    | inl q ↦ ground arith
    | inr q ↦ find_row-true p rows x (ground arith)
  ]

  -- What is kept begins with the first row that passes.
  pub keep-find_row :
      (p : A → Bool) (rows : List A)
      → ((keep p rows ≡ []) × (find_row p rows ≡ none))
        ⊎ ((x : A) × (xs : List A) × (keep p rows ≡ x ∷ xs) × (find_row p rows ≡ some x))
  keep-find_row p [] = inl (refl, refl)
  keep-find_row p (x ∷ rows) = elim (Bool-cases (p x)) [
    | inl e ↦ inr (x, keep p rows, rw e refl, rw e refl)
    | inr e ↦ rw e (keep-find_row p rows)
  ]
