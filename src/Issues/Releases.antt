-- ===== src/Issues/Releases.antt =====
-- The sets of releases an issue was seen on: arrays of text in internal/store/issues.go.
use crashcart.Base.{
  ◌≡◌, refl, Bool, true, ◌||◌, List, [], ◌∷◌, ◌++◌, arith, Bool-cases, inl, inr, ap,
}
use crashcart.Base.Text.{Bytes, str_eq, str_eq_iff, str_eq_refl}
use crashcart.Issues.Table.{has_text, contains_all, insert_distinct, sort_distinct, merged_releases}

same_text : (r s x : Bytes) → str_eq s x ≡ true → str_eq r s ≡ str_eq r x
same_text r s x e = ap (str_eq r) ((str_eq_iff s x).0 e)

has_text-insert_distinct :
    (lt : Bytes → Bytes → Bool) (r s : Bytes) (xs : List Bytes)
    → has_text r (insert_distinct lt s xs) ≡ (str_eq r s || has_text r xs)
unfolding insert_distinct
has_text-insert_distinct lt r s [] = refl
has_text-insert_distinct lt r s (x ∷ xs) = elim (Bool-cases (str_eq s x)) [
  | inl e ↦ rw e (ground (arith, same_text r s x e))
  | inr e ↦ rw e (elim (Bool-cases (lt s x)) [
    | inl q ↦ rw q refl
    | inr q ↦ rw (q, has_text-insert_distinct lt r s xs) (ground arith)
  ])
]

has_text-sort_distinct :
    (lt : Bytes → Bytes → Bool) (r : Bytes) (xs : List Bytes)
    → has_text r (sort_distinct lt xs) ≡ has_text r xs
unfolding sort_distinct
has_text-sort_distinct lt r [] = refl
has_text-sort_distinct lt r (x ∷ xs) =
    rw (has_text-insert_distinct lt r x (sort_distinct lt xs), has_text-sort_distinct lt r xs) refl

has_text-append :
    (r : Bytes) (xs ys : List Bytes) → has_text r (xs ++ ys) ≡ (has_text r xs || has_text r ys)
has_text-append r [] ys = refl
has_text-append r (x ∷ xs) ys = rw (has_text-append r xs ys) (ground arith)

pub contains_all-has_text :
    (xs ys : List Bytes) (r : Bytes)
    → contains_all xs ys ≡ true
    → has_text r ys ≡ true
    → has_text r xs ≡ true
unfolding contains_all
contains_all-has_text xs [] r h e = ground arith
contains_all-has_text xs (y ∷ ys) r h e = elim (Bool-cases (str_eq r y)) [
  | inl q ↦ rw ((str_eq_iff r y).0 q) (ground arith)
  | inr q ↦ contains_all-has_text xs ys r (ground arith) (ground arith)
]

pub contains_all-intro :
    (xs ys : List Bytes)
    → ((r : Bytes) → has_text r ys ≡ true → has_text r xs ≡ true)
    → contains_all xs ys ≡ true
unfolding contains_all
contains_all-intro xs [] h = refl
contains_all-intro xs (y ∷ ys) h =
    rw (h y (rw (str_eq_refl y) refl), contains_all-intro xs ys (λ r e. h r (rw e (ground arith))))
      refl

pub contains_all_refl : (xs : List Bytes) → contains_all xs xs ≡ true
contains_all_refl xs = contains_all-intro xs xs (λ r h. h)

pub contains_all_trans :
    (xs ys zs : List Bytes)
    → contains_all xs ys ≡ true
    → contains_all ys zs ≡ true
    → contains_all xs zs ≡ true
contains_all_trans xs ys zs h k =
    contains_all-intro xs zs
      (λ r e. contains_all-has_text xs ys r h (contains_all-has_text ys zs r k e))

-- Merging keeps exactly the releases of both sides.
pub has_text-merged_releases :
    (lt : Bytes → Bytes → Bool) (r : Bytes) (old new : List Bytes)
    → has_text r (merged_releases lt old new) ≡ (has_text r old || has_text r new)
unfolding merged_releases
has_text-merged_releases lt r old new = elim (Bool-cases (contains_all old new)) [
  | inl e ↦ rw e (elim (Bool-cases (has_text r new)) [
    | inl q ↦ rw (q, contains_all-has_text old new r e q) refl
    | inr q ↦ rw q (ground arith)
  ])
  | inr e ↦ rw (e, has_text-sort_distinct lt r (old ++ new), has_text-append r old new) refl
]

pub contains_all-merged_releases :
    (lt : Bytes → Bytes → Bool) (old new : List Bytes)
    → contains_all (merged_releases lt old new) old ≡ true
contains_all-merged_releases lt old new =
    contains_all-intro (merged_releases lt old new) old
      (λ r e. rw (has_text-merged_releases lt r old new, e) refl)
