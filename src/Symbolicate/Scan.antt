-- ===== src/Symbolicate/Scan.antt =====
-- internal/symbolicate/sourcemap.go: the binary search of `Resolve` against a scan.
use mathlib.Core.Path.{subst}
use crashcart.Base.{
  ℕ, ◌≤◌, ◌<◌, ◌≡◌, refl, suc, zero, true, false, List, [], ◌∷◌, none, some, arith, ◌==◌, All,
  Bool-cases, inl, inr, get_elem?, length, ap, Option-cases,
}
use crashcart.Base.Int.{ℤ, pos, ltb_ℤ}
use crashcart.Sentry.Frame.{Frame}
use crashcart.Symbolicate.Search.{sort_search, IsMonotone, sort_search-IsFirst}
use crashcart.Symbolicate.SourceMap.{Mapping, RawMap, mapping_less, parse_source_map}
use crashcart.Symbolicate.Lookup.{
  column_of, is_after, after_at, or_after, before_index, moved_to, resolve, last_before, IsSorted,
  parse_source_map-IsSorted, is_after_mono,
}

get-All :
    (P : Mapping → Type 0) (ms : List Mapping) (i : ℕ) (m : Mapping)
    → All P ms
    → get_elem? ms i ≡ some m
    → P m
get-All P [] i m h e = ground arith
get-All P (k ∷ ms) zero m h e = subst P (ap (λ o. elim o [ none ↦ k | some x ↦ x ]) e) h.0
get-All P (k ∷ ms) (suc i) m h e = get-All P ms i m h.1 e

after_at-IsMonotone :
    (line col : ℤ) (ms : List Mapping) → IsSorted ms → IsMonotone (after_at line col ms)
after_at-IsMonotone line col [] h a b le e = refl
after_at-IsMonotone line col (m ∷ ms) h zero zero le e = e
after_at-IsMonotone line col (m ∷ ms) h (suc a) zero le e = ground arith
after_at-IsMonotone line col (m ∷ ms) h (suc a) (suc b) le e =
    after_at-IsMonotone line col ms h.1 a b (omega arith) e
after_at-IsMonotone line col (m ∷ ms) h zero (suc b) le e = elim (Option-cases (get_elem? ms b)) [
  | inl n ↦ rw n refl
  | inr (k, s) ↦
      let less : mapping_less k m ≡ false = get-All (λ k. mapping_less k m ≡ false) ms b k h.0 s in
      rw s (is_after_mono line col m k less e)
]

last_before-before_index :
    (line col : ℤ) (ms : List Mapping) (r : ℕ)
    → r ≤ length ms
    → ((k : ℕ) → k < r → after_at line col ms k ≡ false)
    → ((k : ℕ) → r ≤ k → k < length ms → after_at line col ms k ≡ true)
    → last_before (is_after line col) ms ≡ before_index ms r
unfolding last_before before_index
last_before-before_index line col [] zero le lo hi = refl
last_before-before_index line col [] (suc r) le lo hi = ground arith
last_before-before_index line col (m ∷ ms) zero le lo hi =
    let rest =
      last_before-before_index line col ms zero (omega arith) (λ k h. ground arith)
        (λ k a b. hi (suc k) (omega arith) (omega arith)) in
    rw (rest, hi 0 (omega arith) (omega arith)) refl
last_before-before_index line col (m ∷ ms) (suc zero) le lo hi =
    let rest =
      last_before-before_index line col ms zero (omega arith) (λ k h. ground arith)
        (λ k a b. hi (suc k) (omega arith) (omega arith)) in
    rw (rest, lo 0 (omega arith)) refl
last_before-before_index line col (m ∷ ms) (suc (suc r)) le lo hi =
    let rest =
      last_before-before_index line col ms (suc r) (omega arith) (λ k h. lo (suc k) (omega arith))
        (λ k a b. hi (suc k) (omega arith) (omega arith)) in
    elim (Option-cases (get_elem? ms r)) [
      | inl n ↦ ground (arith, ap (or_after line col) n, lo (suc r) (omega arith))
      | inr (k, s) ↦ rw (rest, s) refl
    ]

-- On the mappings that `ParseSourceMap` makes of any document, `Resolve` moves a frame with a line to
-- the last mapping, in order of generated line and column, that is not after the frame's position, if
-- that mapping has an original position and is on the frame's line; else the frame stays as it is.
pub resolve-last_before :
    (raw : RawMap) (f : Frame)
    → ltb_ℤ f.lineno (pos 1) ≡ false
    → resolve (parse_source_map raw).mappings f
      ≡ moved_to f (last_before (is_after f.lineno (column_of f)) (parse_source_map raw).mappings)
unfolding resolve
resolve-last_before raw f h =
    let ms : List Mapping = (parse_source_map raw).mappings in
    let (le, lo, hi) =
      sort_search-IsFirst (length ms) (after_at f.lineno (column_of f) ms)
        (after_at-IsMonotone f.lineno (column_of f) ms (parse_source_map-IsSorted raw)) in
    let scan = last_before-before_index f.lineno (column_of f) ms _ le lo hi in
    let r : ℕ = sort_search (length ms) (after_at f.lineno (column_of f) ms) in
    elim (Bool-cases (length ms == 0)) [
      | inl e ↦
          let first : r ≡ 0 = ground (arith, le) in
          rw (h, e, scan) (unfold before_index moved_to in rw first refl)
      | inr e ↦ rw (h, e, scan) refl
    ]
