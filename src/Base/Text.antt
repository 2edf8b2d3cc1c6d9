-- ===== src/Base/Text.antt =====
-- Go strings as byte lists, and what the source uses of Go's `strings` package on them.
use Prim.Native.Nat.{ℕ, zero, suc, ◌+◌}
use Prim.Native.Char.{code}
use Prim.Native.String.{String}
use mathlib.Core.Path.{◌≡◌, refl}
use mathlib.Core.Logic.{◌↔◌}
use mathlib.Core.Bool.{Bool, true, false, ◌&&◌, ◌||◌}
use mathlib.Core.List.{List, [], ◌∷◌, ◌++◌, reverse, reverse-reverse}
use native.Mathlib.Omega.{arith}
use mathlib.Core.Option.{Option, none, some}
use crashcart.Base.Tests.{ltb, leb, ◌==◌, if◌then◌else◌}
use crashcart.Base.Lists.{All, All-reverse}

abbrev pub Bytes : Type 0
Bytes = List ℕ

-- The bytes of an ASCII literal.
abbrev pub codes : String → Bytes
codes String.[] = []
codes (String.◌∷◌ c s) = code c ∷ codes s

unfoldable pub str_eq : Bytes → Bytes → Bool
str_eq [] [] = true
str_eq [] (y ∷ ys) = false
str_eq (x ∷ xs) [] = false
str_eq (x ∷ xs) (y ∷ ys) = (x == y) && str_eq xs ys

pub str_eq_iff : (a b : Bytes) → (str_eq a b ≡ true) ↔ (a ≡ b)
unfolding str_eq
str_eq_iff [] [] = ground arith
str_eq_iff [] (y ∷ ys) = ground arith
str_eq_iff (x ∷ xs) [] = ground arith
str_eq_iff (x ∷ xs) (y ∷ ys) = ground (arith, str_eq_iff xs ys)

pub str_eq_refl : (a : Bytes) → str_eq a a ≡ true
str_eq_refl a = (str_eq_iff a a).1 refl

-- `strings.HasPrefix`, and what follows the prefix.
unfoldable pub after_prefix : Bytes → Bytes → Option Bytes
after_prefix [] s = some s
after_prefix (p ∷ ps) [] = none
after_prefix (p ∷ ps) (c ∷ s) = let rest = after_prefix ps s in if p == c then rest else none

abbrev pub is_some {ℓ} : {A : Type ℓ} → Option A → Bool
is_some none = false
is_some (some a) = true

unfoldable pub has_prefix : Bytes → Bytes → Bool
unfolding after_prefix
has_prefix s prefix = is_some (after_prefix prefix s)

unfoldable pub has_suffix : Bytes → Bytes → Bool
unfolding has_prefix
has_suffix s suffix = has_prefix (reverse s) (reverse suffix)

abbrev pub or_else {ℓ} : {A : Type ℓ} → Option A → A → A
or_else none d = d
or_else (some a) d = a

-- `strings.TrimPrefix`, `strings.TrimSuffix`.
unfoldable pub trim_prefix : Bytes → Bytes → Bytes
unfolding after_prefix
trim_prefix s prefix = or_else (after_prefix prefix s) s

unfoldable pub trim_suffix : Bytes → Bytes → Bytes
unfolding after_prefix
trim_suffix s suffix = elim (after_prefix (reverse suffix) (reverse s)) [
  | none ↦ s
  | some r ↦ reverse r
]

-- `strings.Contains`.
unfoldable pub contains : Bytes → Bytes → Bool
unfolding has_prefix
contains [] sub = has_prefix [] sub
contains (c ∷ s) sub = has_prefix (c ∷ s) sub || contains s sub

abbrev pub before_more : ℕ → Option (Bytes × Bytes) → Option (Bytes × Bytes)
before_more c none = none
before_more c (some (a, b)) = some (c ∷ a, b)

-- `strings.Cut` at a byte: what stands before the first one and after it.
unfoldable pub cut_at : ℕ → Bytes → Option (Bytes × Bytes)
cut_at sep [] = none
cut_at sep (c ∷ s) =
    let rest = before_more c (cut_at sep s) in if c == sep then some ([], s) else rest

-- What follows the last byte that passes a test (`LastIndexByte`, `LastIndexAny`).
unfoldable pub after_last : (ℕ → Bool) → Bytes → Option Bytes
after_last p [] = none
after_last p (c ∷ s) = elim (after_last p s) [
  | some rest ↦ some rest
  | none ↦ if p c then some s else none
]

-- `strings.Split` at a byte: never empty.
unfoldable pub split_at : ℕ → Bytes → List Bytes
split_at sep [] = [] ∷ []
split_at sep (c ∷ s) = elim (split_at sep s) [
  | [] ↦ (c ∷ []) ∷ []
  | w ∷ ws ↦ if c == sep then [] ∷ w ∷ ws else (c ∷ w) ∷ ws
]

-- `strings.Join`.
unfoldable pub join : Bytes → List Bytes → Bytes
join sep [] = []
join sep (w ∷ []) = w
join sep (w ∷ v ∷ ws) = w ++ (sep ++ join sep (v ∷ ws))

-- `strings.ToLower` on ASCII letters; other bytes stay.
abbrev pub lower_byte : ℕ → ℕ
lower_byte c = if leb b'A' c && leb c b'Z' then c + 32 else c

abbrev ascii_space : ℕ → Bool
ascii_space c = (leb 9 c && leb c 13) || c == 32

-- How many bytes the white space at the head takes (ASCII, or the UTF-8 of U+0085, U+00A0, U+1680,
-- U+2000 to U+200A, U+2028, U+2029, U+202F, U+205F, U+3000); 0 if there is none.
leading_space : Bytes → ℕ
leading_space [] = 0
leading_space (a ∷ []) = if ascii_space a then 1 else 0
leading_space (a ∷ b ∷ []) =
    if ascii_space a then 1 else if a == 0xc2 && (b == 0x85 || b == 0xa0) then 2 else 0
leading_space (a ∷ b ∷ c ∷ s) =
    if ascii_space a
    then 1
    else if a == 0xc2 && (b == 0x85 || b == 0xa0)
    then 2
    else if (a == 0xe1 && b == 0x9a && c == 0x80)
        || (a == 0xe2
            && b == 0x80
            && (leb 0x80 c && leb c 0x8a || c == 0xa8 || c == 0xa9 || c == 0xaf))
        || (a == 0xe2 && b == 0x81 && c == 0x9f)
        || (a == 0xe3 && b == 0x80 && c == 0x80)
    then 3
    else 0

-- The same for a text read backwards.
trailing_space : Bytes → ℕ
trailing_space [] = 0
trailing_space (a ∷ []) = if ascii_space a then 1 else 0
trailing_space (b ∷ a ∷ []) =
    if ascii_space b then 1 else if a == 0xc2 && (b == 0x85 || b == 0xa0) then 2 else 0
trailing_space (c ∷ b ∷ a ∷ s) =
    if ascii_space c
    then 1
    else if b == 0xc2 && (c == 0x85 || c == 0xa0)
    then 2
    else if (a == 0xe1 && b == 0x9a && c == 0x80)
        || (a == 0xe2
            && b == 0x80
            && (leb 0x80 c && leb c 0x8a || c == 0xa8 || c == 0xa9 || c == 0xaf))
        || (a == 0xe2 && b == 0x81 && c == 0x9f)
        || (a == 0xe3 && b == 0x80 && c == 0x80)
    then 3
    else 0

-- Drops leading spaces by their sizes; `skip` bytes still belong to the last one.
unfoldable pub drop_spaces : (Bytes → ℕ) → ℕ → Bytes → Bytes
drop_spaces size skip [] = []
drop_spaces size (suc skip) (c ∷ s) = drop_spaces size skip s
drop_spaces size zero (c ∷ s) = elim (size (c ∷ s)) [ zero ↦ c ∷ s | suc n ↦ drop_spaces size n s ]

-- `strings.TrimSpace`.
unfoldable pub trim_space : Bytes → Bytes
unfolding drop_spaces leading_space trailing_space
trim_space s = reverse (drop_spaces trailing_space 0 (reverse (drop_spaces leading_space 0 s)))

-- A byte of a printable ASCII character that is no space.
abbrev pub IsPlain : ℕ → Type 0
IsPlain c = (ltb 32 c && ltb c 127) ≡ true

drop_spaces-leading : (s : Bytes) → All IsPlain s → drop_spaces leading_space 0 s ≡ s
unfolding drop_spaces leading_space
drop_spaces-leading [] h = refl
drop_spaces-leading (a ∷ []) h = ground arith
drop_spaces-leading (a ∷ b ∷ []) h = ground arith
drop_spaces-leading (a ∷ b ∷ c ∷ s) h = ground arith

drop_spaces-trailing : (s : Bytes) → All IsPlain s → drop_spaces trailing_space 0 s ≡ s
unfolding drop_spaces trailing_space
drop_spaces-trailing [] h = refl
drop_spaces-trailing (a ∷ []) h = ground arith
drop_spaces-trailing (a ∷ b ∷ []) h = ground arith
drop_spaces-trailing (a ∷ b ∷ c ∷ s) h = ground arith

-- A text of plain bytes has no space to trim.
pub trim_space-plain : (s : Bytes) → All IsPlain s → trim_space s ≡ s
unfolding trim_space
trim_space-plain s h =
    rw (drop_spaces-leading s h, drop_spaces-trailing (reverse s) (All-reverse IsPlain s h))
      (reverse-reverse s)

-- What stands before the last byte that passes a test.
unfoldable pub before_last : (ℕ → Bool) → Bytes → Option Bytes
before_last p [] = none
before_last p (c ∷ s) = elim (before_last p s) [
  | some front ↦ some (c ∷ front)
  | none ↦ if p c then some [] else none
]

-- `strings.Trim` of one byte.
unfoldable pub drop_byte : ℕ → Bytes → Bytes
drop_byte b [] = []
drop_byte b (c ∷ s) = let rest = drop_byte b s in if c == b then rest else c ∷ s

unfoldable pub trim_byte : ℕ → Bytes → Bytes
unfolding drop_byte
trim_byte b s = reverse (drop_byte b (reverse (drop_byte b s)))

pub after_last-none : (p : ℕ → Bool) (s : Bytes) → All (λ c. p c ≡ false) s → after_last p s ≡ none
unfolding after_last
after_last-none p [] h = refl
after_last-none p (c ∷ s) h = rw (after_last-none p s h.1, h.0) refl

-- The part after the last separator is what stands after one that nothing like it follows.
pub after_last-append :
    (p : ℕ → Bool) (front s : Bytes) (sep : ℕ)
    → p sep ≡ true
    → All (λ c. p c ≡ false) s
    → after_last p (front ++ sep ∷ s) ≡ some s
unfolding after_last
after_last-append p [] s sep e h = rw (after_last-none p s h, e) refl
after_last-append p (c ∷ front) s sep e h = rw (after_last-append p front s sep e h) refl
