-- ===== src/Base/Print.antt =====
-- Numbers as texts: Go's strconv.Itoa and FormatUint.
use Prim.Native.Nat.{ℕ, zero, suc, ◌+◌, ◌-◌, ◌/◌, ◌%◌}
use mathlib.Core.List.{[], ◌∷◌}
use crashcart.Base.Tests.{ltb, if◌then◌else◌}
use crashcart.Base.Int.{ℤ, pos, negsuc}
use crashcart.Base.Text.{Bytes}

abbrev digit_text : ℕ → ℕ
digit_text d = if ltb d 10 then d + b'0' else d - 10 + b'a'

-- The digits of `n` before a text; a fuel of `n` is enough.
unfoldable pub digits_before : ℕ → ℕ → ℕ → Bytes → Bytes
digits_before zero base n s = digit_text (n % base) ∷ s
digits_before (suc fuel) base n s =
    let more = digits_before fuel base (n / base) (digit_text (n % base) ∷ s) in
    if ltb n base then digit_text n ∷ s else more

unfoldable pub decimal : ℕ → Bytes
unfolding digits_before
decimal n = digits_before n 10 n []

unfoldable pub hexadecimal : ℕ → Bytes
unfolding digits_before
hexadecimal n = digits_before n 16 n []

-- `strconv.Itoa`.
unfoldable pub itoa : ℤ → Bytes
itoa (pos n) = decimal n
itoa (negsuc n) = b'-' ∷ decimal (suc n)
