-- ===== src/Base/Runes.antt =====
-- Go's conversions between a string and its runes. A rune is kept as its UTF-8 bytes; a byte that
-- starts no valid encoding is the replacement character, as in `[]rune(s)`.
use Prim.Native.Nat.{ℕ, zero, suc, ◌+◌, ◌-◌, ◌*◌, ◌≤◌}
use native.Mathlib.Omega.{arith}
use mathlib.Core.Bool.{Bool, ◌&&◌}
use mathlib.Core.List.{List, [], ◌∷◌, ◌++◌}
use crashcart.Base.Tests.{leb, ◌==◌, if◌then◌else◌}
use crashcart.Base.Lists.{take, length, All, All-append, length-append, length-take-le}
use crashcart.Base.Text.{Bytes}

abbrev within : ℕ → ℕ → ℕ → Bool
within lo hi c = leb lo c && leb c hi

-- The second byte's range depends on the first one's value (no overlong forms, no surrogates,
-- nothing past U+10FFFF).
second_byte : ℕ → ℕ → Bool
second_byte b c =
    if b == 0xe0
    then within 0xa0 0xbf c
    else if b == 0xed
    then within 0x80 0x9f c
    else if b == 0xf0
    then within 0x90 0xbf c
    else if b == 0xf4
    then within 0x80 0x8f c
    else within 0x80 0xbf c

-- How many bytes the encoding at the head takes; 0 if there is none.
rune_size : Bytes → ℕ
unfolding second_byte
rune_size (b ∷ c ∷ d ∷ e ∷ s) =
    if leb b 0x7f
    then 1
    else if within 0xc2 0xdf b && second_byte b c
    then 2
    else if within 0xe0 0xef b && second_byte b c && within 0x80 0xbf d
    then 3
    else if within 0xf0 0xf4 b && second_byte b c && within 0x80 0xbf d && within 0x80 0xbf e
    then 4
    else 0
rune_size (b ∷ c ∷ d ∷ []) =
    if leb b 0x7f
    then 1
    else if within 0xc2 0xdf b && second_byte b c
    then 2
    else if within 0xe0 0xef b && second_byte b c && within 0x80 0xbf d
    then 3
    else 0
rune_size (b ∷ c ∷ []) =
    if leb b 0x7f then 1 else if within 0xc2 0xdf b && second_byte b c then 2 else 0
rune_size (b ∷ []) = if leb b 0x7f then 1 else 0
rune_size [] = 0

rune_at : ℕ → Bytes → Bytes
rune_at zero s = 0xef ∷ 0xbf ∷ 0xbd ∷ []
rune_at (suc n) s = take (suc n) s

-- The runes from a position, after the given number of bytes that belong to the rune before.
runes_from : ℕ → Bytes → List Bytes
unfolding rune_at rune_size
runes_from skip [] = []
runes_from zero (b ∷ s) = rune_at (rune_size (b ∷ s)) (b ∷ s) ∷ runes_from (rune_size (b ∷ s) - 1) s
runes_from (suc skip) (b ∷ s) = runes_from skip s

-- `[]rune(s)`.
unfoldable pub runes : Bytes → List Bytes
unfolding runes_from
runes s = runes_from 0 s

-- `string(r)`.
unfoldable pub text_of : List Bytes → Bytes
text_of [] = []
text_of (r ∷ rs) = r ++ text_of rs

-- Every rune has at most four bytes, and each byte is one of the text or of the replacement character.
rune_size-le : (s : Bytes) → rune_size s ≤ 4
unfolding rune_size
rune_size-le [] = omega arith
rune_size-le (b ∷ []) = ground arith
rune_size-le (b ∷ c ∷ []) = ground arith
rune_size-le (b ∷ c ∷ d ∷ []) = ground arith
rune_size-le (b ∷ c ∷ d ∷ e ∷ s) = ground arith

length-rune_at : (n : ℕ) (s : Bytes) → n ≤ 4 → length (rune_at n s) ≤ 4
unfolding rune_at
length-rune_at zero s h = omega arith
length-rune_at (suc n) s h = omega (arith, length-take-le (suc n) s)

length-runes_from : (skip : ℕ) (s : Bytes) → length s ≤ skip + 4 * length (runes_from skip s)
unfolding runes_from
length-runes_from skip [] = omega arith
length-runes_from zero (b ∷ s) =
    omega (arith, rune_size-le (b ∷ s), length-runes_from (rune_size (b ∷ s) - 1) s)
length-runes_from (suc skip) (b ∷ s) = omega (arith, length-runes_from skip s)

-- A text has at most four bytes for each rune.
pub length-runes : (s : Bytes) → length s ≤ 4 * length (runes s)
unfolding runes
length-runes s = omega (arith, length-runes_from 0 s)

short_runes : (skip : ℕ) (s : Bytes) → All (λ r. length r ≤ 4) (runes_from skip s)
unfolding runes_from
short_runes skip [] = tt
short_runes zero (b ∷ s) = (
  length-rune_at (rune_size (b ∷ s)) (b ∷ s) (rune_size-le (b ∷ s)),
  short_runes (rune_size (b ∷ s) - 1) s,
)
short_runes (suc skip) (b ∷ s) = short_runes skip s

length-text_of :
    (n : ℕ) (rs : List Bytes) → All (λ r. length r ≤ 4) rs → length (text_of (take n rs)) ≤ 4 * n
unfolding text_of
length-text_of zero rs h = omega arith
length-text_of (suc n) [] h = omega arith
length-text_of (suc n) (r ∷ rs) h =
    omega (arith, h.0, length-append r (text_of (take n rs)), length-text_of n rs h.1)

pub length-text_of_runes : (n : ℕ) (s : Bytes) → length (text_of (take n (runes s))) ≤ 4 * n
unfolding runes
length-text_of_runes n s = length-text_of n (runes_from 0 s) (short_runes 0 s)

-- A predicate that holds of a text's bytes and of the replacement character holds of its runes.
module _ (P : ℕ → Type 0) (replacement : P 0xef × P 0xbf × P 0xbd) where
  take-All : (n : ℕ) (s : Bytes) → All P s → All P (take n s)
  take-All zero s h = tt
  take-All (suc n) [] h = tt
  take-All (suc n) (c ∷ s) h = (h.0, take-All n s h.1)

  rune_at-All : (n : ℕ) (s : Bytes) → All P s → All P (rune_at n s)
  unfolding rune_at
  rune_at-All zero s h = (replacement.0, (replacement.1, (replacement.2, tt)))
  rune_at-All (suc n) s h = take-All (suc n) s h

  runes_from-All : (skip : ℕ) (s : Bytes) → All P s → All (All P) (runes_from skip s)
  unfolding runes_from
  runes_from-All skip [] h = tt
  runes_from-All zero (b ∷ s) h =
      (rune_at-All (rune_size (b ∷ s)) (b ∷ s) h, runes_from-All (rune_size (b ∷ s) - 1) s h.1)
  runes_from-All (suc skip) (b ∷ s) h = runes_from-All skip s h.1

  text_of-All : (n : ℕ) (rs : List Bytes) → All (All P) rs → All P (text_of (take n rs))
  unfolding text_of
  text_of-All zero rs h = tt
  text_of-All (suc n) [] h = tt
  text_of-All (suc n) (r ∷ rs) h = All-append P r (text_of (take n rs)) h.0 (text_of-All n rs h.1)

  pub text_of_runes-All : (n : ℕ) (s : Bytes) → All P s → All P (text_of (take n (runes s)))
  unfolding runes
  text_of_runes-All n s h = text_of-All n (runes_from 0 s) (runes_from-All 0 s h)
