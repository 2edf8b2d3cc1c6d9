-- ===== src/Blob/Memory.antt =====
-- internal/blob: the keys that a store takes (blob.go) and the in-process store (memory.go).
use crashcart.Base.{
  ℕ, ◌+◌, ◌≡◌, refl, ◌∙◌, Bool, true, false, not, ◌&&◌, ◌||◌, List, [], ◌∷◌, ◌++◌, ◌<◌, ltb,
  length-append, Option, none, some, if◌then◌else◌, arith, keep, take, drop, length, some_row, inl,
  inr, ap, ◌⊎◌,
}
use crashcart.Base.Int.{ℤ, pos, negsuc, int64, int64_pos, int_laws, ◌+ℤ◌}
use crashcart.Base.Text.{Bytes, codes, str_eq, has_prefix, split_at}

pub data BlobError : Type 0 where
  invalid_key not_found out_of_range slice_panic : BlobError

abbrev pub is_bad_element : Bytes → Bool
is_bad_element el = str_eq el [] || str_eq el (codes ".") || str_eq el (codes "..")

-- `checkKey`: whether the key is accepted.
unfoldable pub check_key : Bytes → Bool
check_key key =
    not (str_eq key [] || has_prefix key (codes "/"))
    && not (some_row is_bad_element (split_at b'/' key))

pub record Memory : Type 0 where
  pub objects : List (Bytes × Bytes)
  pub gets : ℕ

unfoldable pub find_object : Bytes → List (Bytes × Bytes) → Option Bytes
find_object key [] = none
find_object key ((k, d) ∷ objects) =
    let rest = find_object key objects in if str_eq key k then some d else rest

abbrev pub without : Bytes → List (Bytes × Bytes) → List (Bytes × Bytes)
without key objects = keep (λ o. not (str_eq key o.0)) objects

-- `Put`.
unfoldable pub put : Bytes → Bytes → Memory → Memory × Option BlobError
put key d m =
    if check_key key
    then (record m { objects = (key, d) ∷ without key m.objects }, none)
    else (m, some invalid_key)

unfoldable pub got : Memory → Option Bytes → Memory × (BlobError ⊎ Bytes)
got m none = (m, inl not_found)
got m (some d) = (record m { gets = m.gets + 1 }, inr d)

-- `Get`.
unfoldable pub get : Bytes → Memory → Memory × (BlobError ⊎ Bytes)
unfolding got
get key m = got m (find_object key m.objects)

-- The bytes `d[off : end]`: past the object is an error, and Go panics if the ends are out of order.
unfoldable pub cut : ℕ → ℕ → Bytes → ℤ → BlobError ⊎ Bytes
cut off n d (pos e) = if ltb (length d) e then inl out_of_range else inr (take n (drop off d))
cut off n d (negsuc k) = inl slice_panic

-- The sum of the bounds is an int64, which may wrap.
unfoldable pub slice : ℤ → ℤ → Bytes → BlobError ⊎ Bytes
unfolding cut
slice (pos off) (pos n) d = cut off n d (int64 (pos off +ℤ pos n))
slice off n d = inl out_of_range

unfoldable pub read : Memory → BlobError ⊎ Bytes → Memory × (BlobError ⊎ Bytes)
read m (inl e) = (m, inl e)
read m (inr s) = (record m { gets = m.gets + 1 }, inr s)

unfoldable pub got_range : ℤ → ℤ → Memory → Option Bytes → Memory × (BlobError ⊎ Bytes)
unfolding read
got_range off n m none = (m, inl not_found)
got_range off n m (some d) = read m (slice off n d)

-- `GetRange`.
unfoldable pub get_range : Bytes → ℤ → ℤ → Memory → Memory × (BlobError ⊎ Bytes)
unfolding got_range
get_range key off n m = got_range off n m (find_object key m.objects)

-- `Delete`.
unfoldable pub delete : Bytes → Memory → Memory
delete key m = record m { objects = without key m.objects }

drop-front : (front rest : Bytes) → drop (length front) (front ++ rest) ≡ rest
drop-front [] rest = refl
drop-front (c ∷ front) rest = drop-front front rest

take-front : (front rest : Bytes) → take (length front) (front ++ rest) ≡ front
take-front [] rest = refl
take-front (c ∷ front) rest = ap (λ s. c ∷ s) (take-front front rest)

int64_sum : (a b : ℕ) → a + b < 9223372036854775808 → int64 (pos a +ℤ pos b) ≡ pos (a + b)
int64_sum a b h =
    let sum : (pos a +ℤ pos b) ≡ pos (a + b) = omega int_laws in ap int64 sum ∙ int64_pos (a + b) h

slice-part :
    (front middle back : Bytes)
    → length (front ++ (middle ++ back)) < 9223372036854775808
    → slice (pos (length front)) (pos (length middle)) (front ++ (middle ++ back)) ≡ inr middle
unfolding slice
slice-part front middle back small =
    let total = length-append front (middle ++ back) in
    let rest = length-append middle back in
    let whole = front ++ (middle ++ back) in
    let inside : ltb (length whole) (length front + length middle) ≡ false =
      ground (arith, total, rest) in
    ap (cut (length front) (length middle) whole)
      (int64_sum (length front) (length middle) (omega (arith, total, rest)))
    ∙ (unfold cut in rw (inside, drop-front front (middle ++ back), take-front middle back) refl)

slice-past :
    (off n : ℕ) (d : Bytes)
    → off + n < 9223372036854775808
    → length d < off + n
    → slice (pos off) (pos n) d ≡ inl out_of_range
unfolding slice
slice-past off n d fits past =
    let outside : ltb (length d) (off + n) ≡ true = ground arith in
    ap (cut off n d) (int64_sum off n fits) ∙ (unfold cut in rw outside refl)

read-result : (m : Memory) (r : BlobError ⊎ Bytes) → (read m r).1 ≡ r
unfolding read
read-result m (inl e) = refl
read-result m (inr s) = refl

found_range :
    (m : Memory) (key d : Bytes) (off n : ℤ)
    → find_object key m.objects ≡ some d
    → (get_range key off n m).1 ≡ slice off n d
unfolding get_range got_range
found_range m key d off n h = ap (λ o. (got_range off n m o).1) h ∙ read-result m (slice off n d)

-- Of an object made of three parts `GetRange` gives the middle one for its offset and its length, and a
-- range that ends past the object is an error, as long as the ends are int64 numbers; an object that is
-- not there is an error for every range.
pub get_range-part :
    (m : Memory) (key front middle back : Bytes) (off n : ℕ)
    → find_object key m.objects ≡ some (front ++ (middle ++ back))
    → length (front ++ (middle ++ back)) < 9223372036854775808
    → off + n < 9223372036854775808
    → ((get_range key (pos (length front)) (pos (length middle)) m).1 ≡ inr middle)
      × (length (front ++ (middle ++ back)) < off + n
          → (get_range key (pos off) (pos n) m).1 ≡ inl out_of_range)
      × ((absent : Bytes)
          → find_object absent m.objects ≡ none
          → (get_range absent (pos off) (pos n) m).1 ≡ inl not_found)
unfolding get_range got_range
get_range-part m key front middle back off n h small fits =
    let whole = front ++ (middle ++ back) in
    (
      found_range m key whole (pos (length front)) (pos (length middle)) h
          ∙ slice-part front middle back small,
      λ past. found_range m key whole (pos off) (pos n) h ∙ slice-past off n whole fits past,
      λ absent none_there. ap (λ o. (got_range (pos off) (pos n) m o).1) none_there,
    )
