-- ===== src/Blob/Tests.antt =====
-- Runs of the object store model, and each theorem at a concrete input.
use crashcart.Base.{◌+◌, ◌<◌, arith, ◌≡◌, refl, true, false, [], ◌∷◌, none, some, inl, inr}
use crashcart.Base.Int.{pos, ◌+ℤ◌}
use crashcart.Base.Text.{Bytes, codes, str_eq, split_at, has_prefix, after_prefix}
use crashcart.Blob.Memory.{
  slice_panic, Memory, check_key, find_object, get_range-part, out_of_range, not_found, slice,
  get_range, got_range, read, cut,
}

abbrev store : Memory
store = record { objects = (codes "symbols/1/a", 7 ∷ 8 ∷ 9 ∷ []) ∷ []; gets = 0 }

keys_checked :
    (check_key (codes "symbols/1/a") ≡ true)
    × (check_key (codes "/a") ≡ false)
    × (check_key (codes "a/../b") ≡ false)
unfolding check_key str_eq split_at has_prefix after_prefix
keys_checked = (refl, refl, refl)

range_read : (get_range (codes "symbols/1/a") (pos 1) (pos 2) store).1 ≡ inr (8 ∷ 9 ∷ [])
unfolding get_range got_range read find_object slice cut str_eq ◌+ℤ◌
range_read = refl

-- A sum of the bounds past int64 is no error: Go panics on the slice.
range_overflow :
    (get_range (codes "symbols/1/a") (pos 4611686018427387904) (pos 4611686018427387904) store).1
    ≡ inl slice_panic
unfolding get_range got_range read find_object slice cut str_eq ◌+ℤ◌
range_overflow = refl

stored : find_object (codes "symbols/1/a") store.objects ≡ some (7 ∷ 8 ∷ 9 ∷ [])
unfolding find_object str_eq
stored = refl

get_range-part_example :
    ((get_range (codes "symbols/1/a") (pos 1) (pos 1) store).1 ≡ inr (8 ∷ []))
    × (3 < 2 + 2 → (get_range (codes "symbols/1/a") (pos 2) (pos 2) store).1 ≡ inl out_of_range)
    × ((absent : Bytes)
        → find_object absent store.objects ≡ none
        → (get_range absent (pos 2) (pos 2) store).1 ≡ inl not_found)
get_range-part_example =
    get_range-part store (codes "symbols/1/a") (7 ∷ []) (8 ∷ []) (9 ∷ []) 2 2 stored (omega arith)
      (omega arith)
