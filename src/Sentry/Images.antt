-- ===== src/Sentry/Images.antt =====
-- internal/sentry/analyze.go: the debug image that an address lies in, looked up in two ways.
use crashcart.Base.{
  ℕ, zero, suc, ◌+◌, ◌-◌, ◌*◌, ◌%◌, ◌<◌, ◌≡◌, refl, sym, Bool, false, ◌&&◌, List, [], ◌∷◌, ◌++◌,
  Option, none, some, if◌then◌else◌, arith, leb, ltb, find_row, get_elem?, Bool-cases, Option-cases,
  inl, inr, ◌∙◌,
}
use crashcart.Base.Int.{ℤ, pos, negsuc}
use crashcart.Base.Text.{Bytes, codes, str_eq, trim_space, trim_prefix, or_else}
use crashcart.Base.Print.{hexadecimal}
use crashcart.Sentry.Frame.{DebugImage}
use crashcart.Sentry.Hex.{from_hex_digit}
use crashcart.Sentry.Kind.{base_name}

abbrev pub two_64 : ℕ
two_64 = 18446744073709551616

unfoldable pub hex_value : ℕ → Bytes → Option ℕ
hex_value n [] = some n
hex_value n (c ∷ s) = elim (from_hex_digit c) [ none ↦ none | some d ↦ hex_value (n * 16 + d) s ]

abbrev below_two_64 : Option ℕ → Option ℕ
below_two_64 none = none
below_two_64 (some v) = if ltb v two_64 then some v else none

-- `ParseHex`.
unfoldable pub parse_hex : Bytes → Option ℕ
unfolding hex_value
parse_hex s =
    let digits = trim_prefix (trim_prefix (trim_space s) (codes "0x")) (codes "0X") in
    if str_eq digits [] then none else below_two_64 (hex_value 0 digits)

pub record Range : Type 0 where
  pub base : ℕ
  pub end : ℕ
  pub id : Bytes

abbrev pub image_id : DebugImage → Bytes
image_id im = if str_eq im.debug_id [] then base_name im.code_file else im.debug_id

-- Where an image ends: one without a size has no end.
unfoldable pub image_end : ℕ → ℤ → ℕ
image_end base (pos (suc n)) = (base + suc n) % two_64
image_end base size = two_64 - 1

abbrev range_of : DebugImage → ℕ → Range
range_of im base = record { base = base; end = image_end base im.image_size; id = image_id im }

abbrev pub cons_range : DebugImage → Option ℕ → List Range → List Range
cons_range im none rest = rest
cons_range im (some base) rest = range_of im base ∷ rest

-- `imageTable`.
unfoldable pub image_table : List DebugImage → List Range
image_table [] = []
image_table (im ∷ images) = cons_range im (parse_hex im.image_addr) (image_table images)

abbrev pub in_range : ℕ → Range → Bool
in_range a r = leb r.base a && ltb a r.end

abbrev pub offset_text : ℕ → Option Range → Bytes
offset_text a none = []
offset_text a (some r) = r.id ++ (codes "+0x" ++ hexadecimal (a - r.base))

abbrev pub relative_to : List Range → Option ℕ → Bytes
relative_to table none = []
relative_to table (some a) = offset_text a (find_row (in_range a) table)

-- `relative`.
unfoldable pub relative : List Range → Bytes → Bytes
relative table addr = relative_to table (parse_hex addr)

-- The test of `ImageFor`: an image without a size takes every address from its base on.
unfoldable pub sized_contains : ℕ → ℕ → ℤ → Bool
sized_contains addr base (pos (suc n)) = leb base addr && ltb addr ((base + suc n) % two_64)
sized_contains addr base size = leb base addr

abbrev pub image_contains : ℕ → DebugImage → Option ℕ → Bool
image_contains addr im none = false
image_contains addr im (some base) = sized_contains addr base im.image_size

abbrev pub one_more : Option ℕ → Option ℕ
one_more none = none
one_more (some i) = some (suc i)

-- `ImageFor`: `none` is -1.
unfoldable pub image_for : ℕ → List DebugImage → Option ℕ
image_for addr [] = none
image_for addr (im ∷ images) =
    let rest = one_more (image_for addr images) in
    if image_contains addr im (parse_hex im.image_addr) then some 0 else rest

-- What `relative` says of an image that `ImageFor` found.
abbrev pub at_image : ℕ → List DebugImage → Option ℕ → Bytes
at_image a images none = []
at_image a images (some i) = elim (get_elem? images i) [
  | none ↦ []
  | some im ↦ image_id im ++ (codes "+0x" ++ hexadecimal (a - or_else (parse_hex im.image_addr) 0))
]

at_image-one_more :
    (a : ℕ) (im : DebugImage) (images : List DebugImage) (o : Option ℕ)
    → at_image a (im ∷ images) (one_more o) ≡ at_image a images o
at_image-one_more a im images none = refl
at_image-one_more a im images (some i) = refl

same_test :
    (a base : ℕ) (im : DebugImage)
    → a < two_64 - 1
    → sized_contains a base im.image_size ≡ in_range a (range_of im base)
unfolding sized_contains image_end
same_test a base im h = same im.image_size
  where
    same : (size : ℤ) → sized_contains a base size ≡ (leb base a && ltb a (image_end base size))
    same (pos zero) = ground arith
    same (pos (suc n)) = refl
    same (negsuc n) = ground arith

relative-image_for :
    (a : ℕ) (images : List DebugImage)
    → a < two_64 - 1
    → offset_text a (find_row (in_range a) (image_table images))
      ≡ at_image a images (image_for a images)
unfolding image_table image_for
relative-image_for a [] h = refl
relative-image_for a (im ∷ images) h = elim (Option-cases (parse_hex im.image_addr)) [
  | inl e ↦
      rw (e, at_image-one_more a im images (image_for a images)) (relative-image_for a images h)
  | inr (base, e) ↦ elim (Bool-cases (in_range a (range_of im base))) [
    | inl q ↦ rw (e, same_test a base im h, q) (rw e refl)
    | inr q ↦
        rw (e, same_test a base im h, q)
          (relative-image_for a images h ∙ sym (at_image-one_more a im images (image_for a images)))
  ]
]

-- `relative`, over the table of bases, names the image that `ImageFor` finds, and the offset in it, for
-- every address but the last of the 64-bit space (where an image without a size counts only for
-- `ImageFor`).
pub relative-at_image :
    (images : List DebugImage) (addr : Bytes) (a : ℕ)
    → parse_hex addr ≡ some a
    → a < two_64 - 1
    → relative (image_table images) addr ≡ at_image a images (image_for a images)
unfolding relative
relative-at_image images addr a e h = rw e (relative-image_for a images h)
