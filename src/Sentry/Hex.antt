-- ===== src/Sentry/Hex.antt =====
-- Go's encoding/hex on bytes: what internal/sentry/id.go uses of it.
use crashcart.Base.{
  ℕ, ◌+◌, ◌-◌, ◌*◌, ◌/◌, ◌%◌, ◌<◌, ◌≡◌, refl, ap, true, false, ◌&&◌, ◌||◌, [], ◌∷◌, Option, none,
  some, if◌then◌else◌, arith, ltb, leb, All, length, Option-cases, inl, inr, sym, ◌∙◌,
}
use crashcart.Base.Text.{Bytes, or_else}

-- A lower-case hexadecimal digit.
abbrev pub IsHexDigit : ℕ → Type 0
IsHexDigit c = (leb b'0' c && leb c b'9' || (leb b'a' c && leb c b'f')) ≡ true

unfoldable pub from_hex_digit : ℕ → Option ℕ
from_hex_digit c =
    if leb b'0' c && leb c b'9'
    then some (c - b'0')
    else if leb b'a' c && leb c b'f'
    then some (c - b'a' + 10)
    else if leb b'A' c && leb c b'F'
    then some (c - b'A' + 10)
    else none

unfoldable pub to_hex_digit : ℕ → ℕ
to_hex_digit n = if ltb n 10 then n + b'0' else n - 10 + b'a'

unfoldable pub byte_of : Option ℕ → Option ℕ → Option ℕ
byte_of (some hi) (some lo) = some (hi * 16 + lo)
byte_of _ _ = none

unfoldable pub cons_byte : Option ℕ → Option Bytes → Option Bytes
cons_byte (some b) (some bs) = some (b ∷ bs)
cons_byte _ _ = none

-- `hex.DecodeString`: an odd length and any other character are errors.
unfoldable pub decode_hex : Bytes → Option Bytes
unfolding byte_of cons_byte
decode_hex [] = some []
decode_hex (c ∷ []) = none
decode_hex (c ∷ d ∷ s) = cons_byte (byte_of (from_hex_digit c) (from_hex_digit d)) (decode_hex s)

-- `hex.EncodeToString`.
unfoldable pub encode_hex : Bytes → Bytes
encode_hex [] = []
encode_hex (b ∷ bs) = to_hex_digit (b / 16) ∷ to_hex_digit (b % 16) ∷ encode_hex bs

digit_round : (n : ℕ) → n < 16 → from_hex_digit (to_hex_digit n) ≡ some n
unfolding from_hex_digit to_hex_digit
digit_round n h = ground arith

byte_round :
    (b : ℕ)
    → b < 256
    → byte_of (from_hex_digit (to_hex_digit (b / 16))) (from_hex_digit (to_hex_digit (b % 16)))
      ≡ some b
unfolding byte_of
byte_round b h =
    rw (digit_round (b / 16) (omega arith), digit_round (b % 16) (omega arith))
      (ap some (omega arith))

-- Decoding what was encoded gives the bytes back.
pub decode_hex-encode_hex :
    (bs : Bytes) → All (λ b. b < 256) bs → decode_hex (encode_hex bs) ≡ some bs
unfolding decode_hex encode_hex
decode_hex-encode_hex [] h = refl
decode_hex-encode_hex (b ∷ bs) h = rw (byte_round b h.0, decode_hex-encode_hex bs h.1)

-- No capital letter.
abbrev pub IsLowered : ℕ → Type 0
IsLowered c = (leb b'A' c && leb c b'Z') ≡ false

digit_back :
    (c n : ℕ)
    → IsLowered c
    → from_hex_digit c ≡ some n
    → IsHexDigit c × (to_hex_digit n ≡ c) × (n < 16)
unfolding from_hex_digit to_hex_digit
digit_back c n h e = ground arith

encode_byte :
    (c d hi lo : ℕ) (bs : Bytes)
    → to_hex_digit hi ≡ c
    → to_hex_digit lo ≡ d
    → lo < 16
    → encode_hex ((hi * 16 + lo) ∷ bs) ≡ c ∷ d ∷ encode_hex bs
unfolding encode_hex
encode_byte c d hi lo bs hc hd lt =
    let high : (hi * 16 + lo) / 16 ≡ hi = omega arith in
    let low : (hi * 16 + lo) % 16 ≡ lo = omega arith in rw (high, low, hc, hd) refl

decoded : {a b : Bytes} → some a ≡ some b → a ≡ b
decoded h = ap (λ o. or_else o []) h

-- What decoding a text without capitals says of it.
abbrev IsDecoded : Bytes → Bytes → Type 0
IsDecoded s bs =
    (encode_hex bs ≡ s) × All (λ b. b < 256) bs × All IsHexDigit s × (length s ≡ 2 * length bs)

pub decode_hex-back : (s bs : Bytes) → All IsLowered s → decode_hex s ≡ some bs → IsDecoded s bs
unfolding decode_hex cons_byte byte_of
decode_hex-back [] bs low h = rw (sym (decoded h)) (unfold encode_hex in (refl, tt, tt, refl))
decode_hex-back (c ∷ []) bs low h = ground arith
decode_hex-back (c ∷ d ∷ s) bs (lc, (ld, low)) h = elim (Option-cases (from_hex_digit c)) [
  | inl e ↦ ground arith
  | inr (hi, ec) ↦ elim (Option-cases (from_hex_digit d)) [
    | inl e ↦ ground arith
    | inr (lo, ed) ↦ elim (Option-cases (decode_hex s)) [
      | inl e ↦ ground arith
      | inr (rest, es) ↦
          let same : some ((hi * 16 + lo) ∷ rest) ≡ some bs = sym (rw (ec, ed, es) refl) ∙ h in
          let (kc, bc, lt) = digit_back c hi lc ec in
          let (kd, bd, ld) = digit_back d lo ld ed in
          let (back, small, hex, len) = decode_hex-back s rest low es in
          rw (sym (decoded same)) (
            encode_byte c d hi lo rest bc bd ld ∙ ap (λ r. c ∷ d ∷ r) back,
            (omega arith, small),
            (kc, (kd, hex)),
            omega arith,
          )
    ]
  ]
]

pub length-encode_hex : (bs : Bytes) → length (encode_hex bs) ≡ 2 * length bs
unfolding encode_hex
length-encode_hex [] = refl
length-encode_hex (b ∷ bs) = omega (arith, length-encode_hex bs)
