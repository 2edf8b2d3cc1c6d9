-- ===== src/Symbolicate/Vlq.antt =====
-- internal/symbolicate/sourcemap.go, `decodeVLQs`: base64 variable-length quantities into int64
-- numbers. An int64 register is its 64-bit pattern, a natural number under 2 ^ 64.
use crashcart.Base.{
  ℕ, ◌+◌, ◌-◌, ◌*◌, ◌/◌, ◌%◌, ◌^◌, Bool, ◌&&◌, List, [], ◌∷◌, Option, none, some, if◌then◌else◌,
  ltb, leb, ◌==◌,
}
use crashcart.Base.Int.{ℤ, of_word}
use crashcart.Base.Text.{Bytes}

abbrev pub two_63 : ℕ
two_63 = 9223372036854775808

abbrev pub two_64 : ℕ
two_64 = 18446744073709551616

-- `strings.IndexByte(b64, c)`.
unfoldable pub b64_index : ℕ → Option ℕ
b64_index c =
    if leb b'A' c && leb c b'Z'
    then some (c - b'A')
    else if leb b'a' c && leb c b'z'
    then some (c - b'a' + 26)
    else if leb b'0' c && leb c b'9'
    then some (c - b'0' + 52)
    else if c == b'+'
    then some 62
    else if c == b'/'
    then some 63
    else none

-- `result >>= 1`, which keeps the sign bit.
abbrev pub shift_right : ℕ → ℕ
shift_right u = if ltb u two_63 then u / 2 else u / 2 + two_63

-- `result = -result`, which wraps.
abbrev pub negate : ℕ → ℕ
negate u = (two_64 - u) % two_64

-- The number that a finished register stands for: the low bit is the sign.
unfoldable pub finish : ℕ → ℤ
finish u = of_word two_63 two_64 (if u % 2 == 1 then negate (shift_right u) else shift_right u)

abbrev pub cons_number : ℤ → Option (List ℤ) → Option (List ℤ)
cons_number n none = none
cons_number n (some ns) = some (n ∷ ns)

-- One digit: `d&31` goes in at `shift`, and `d&32` asks for more.
abbrev pub add_digit : ℕ → ℕ → ℕ → ℕ
add_digit d result shift = (result + (d % 32) * 2 ^ shift) % two_64

abbrev pub wants_more : ℕ → Bool
wants_more d = leb 32 d

abbrev pub with_digit : Option ℕ → (ℕ → Option (List ℤ)) → Option (List ℤ)
with_digit none k = none
with_digit (some d) k = k d

-- The loop of `decodeVLQs`, from a register and a shift; `none` is errBadVLQ.
unfoldable pub decode_from : ℕ → ℕ → Bytes → Option (List ℤ)
decode_from result shift [] = if shift == 0 then some [] else none
decode_from result shift (c ∷ s) = with_digit (b64_index c) (λ d.
    let more = decode_from (add_digit d result shift) (shift + 5) s in
    let done = decode_from 0 0 s in
    if wants_more d then more else cons_number (finish (add_digit d result shift)) done)

-- `decodeVLQs`.
unfoldable pub decode_vlqs : Bytes → Option (List ℤ)
unfolding decode_from
decode_vlqs s = decode_from 0 0 s
