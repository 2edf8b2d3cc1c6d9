-- ===== src/Symbolicate/RoundTrip.antt =====
-- The Source Map v3 encoding of numbers, written down on its own, and that `decodeVLQs` of
-- internal/symbolicate/sourcemap.go reads it back.
use native.Mathlib.Omega.{pow_step}
use crashcart.Base.{
  ℕ, ◌+◌, ◌-◌, ◌*◌, ◌/◌, ◌%◌, ◌^◌, ◌<◌, ◌≡◌, refl, sym, suc, zero, List, [], ◌∷◌, ◌++◌, some,
  if◌then◌else◌, arith, ltb, ◌==◌, All, Bool-cases, inl, inr, ap, ◌∙◌,
}
use crashcart.Base.Int.{ℤ, pos, negsuc, pos_part, neg_part}
use crashcart.Base.Text.{Bytes}
use crashcart.Symbolicate.Vlq.{
  two_63, two_64, b64_index, finish, cons_number, add_digit, decode_from, decode_vlqs,
}

-- The base64 digit of a number under 64.
unfoldable pub b64_digit : ℕ → ℕ
b64_digit d =
    if ltb d 26
    then d + b'A'
    else if ltb d 52
    then d - 26 + b'a'
    else if ltb d 62
    then d - 52 + b'0'
    else if d == 62
    then b'+'
    else b'/'

b64_index-digit : (d : ℕ) → d < 64 → b64_index (b64_digit d) ≡ some d
unfolding b64_index b64_digit
b64_index-digit d h = ground arith

-- The digits of a natural number, the low ones first, all but the last with the bit for more.
unfoldable pub encode_digits : ℕ → ℕ → Bytes
encode_digits zero n = b64_digit (n % 32) ∷ []
encode_digits (suc fuel) n =
    let rest = encode_digits fuel (n / 32) in
    if ltb n 32 then b64_digit n ∷ [] else b64_digit (n % 32 + 32) ∷ rest

-- A signed number: its size doubled, plus one for a minus sign. Thirteen digits carry 65 bits.
unfoldable pub encode_vlq : ℤ → Bytes
encode_vlq (pos n) = encode_digits 12 (2 * n)
encode_vlq (negsuc n) = encode_digits 12 (2 * (n + 1) + 1)

unfoldable pub encode_vlqs : List ℤ → Bytes
encode_vlqs [] = []
encode_vlqs (z ∷ zs) = encode_vlq z ++ encode_vlqs zs

add_digit-exact :
    (d u shift : ℕ) → d < 32 → u + d * 2 ^ shift < two_64 → add_digit d u shift ≡ u + d * 2 ^ shift
add_digit-exact d u shift h k = let low : d % 32 ≡ d = omega arith in rw low (omega arith)

add_digit-more :
    (d u shift : ℕ)
    → d < 32
    → u + d * 2 ^ shift < two_64
    → add_digit (d + 32) u shift ≡ u + d * 2 ^ shift
add_digit-more d u shift h k = let low : (d + 32) % 32 ≡ d = omega arith in rw low (omega arith)

decode_from-last :
    (d u shift : ℕ) (s : Bytes)
    → d < 32
    → u + d * 2 ^ shift < two_64
    → decode_from u shift (b64_digit d ∷ s)
      ≡ cons_number (finish (u + d * 2 ^ shift)) (decode_from 0 0 s)
unfolding decode_from
decode_from-last d u shift s h k =
    let no_wrap : add_digit d u shift ≡ u + d * 2 ^ shift = add_digit-exact d u shift h k in
    rw (b64_index-digit d (omega arith), no_wrap) (ground arith)

decode_from-more :
    (d u shift : ℕ) (s : Bytes)
    → d < 32
    → u + d * 2 ^ shift < two_64
    → decode_from u shift (b64_digit (d + 32) ∷ s) ≡ decode_from (u + d * 2 ^ shift) (shift + 5) s
unfolding decode_from
decode_from-more d u shift s h k =
    let no_wrap : add_digit (d + 32) u shift ≡ u + d * 2 ^ shift = add_digit-more d u shift h k in
    rw (b64_index-digit (d + 32) (omega arith), no_wrap) (ground arith)

split_mul : (q r p : ℕ) → (32 * q + r) * p ≡ r * p + q * (32 * p)
split_mul q r p = grind arith

split_digit : (n p : ℕ) → n * p ≡ (n % 32) * p + (n / 32) * (32 * p)
split_digit n p =
    let parts : n ≡ 32 * (n / 32) + n % 32 = omega arith in
    ap (λ m. m * p) parts ∙ split_mul (n / 32) (n % 32) p

pow_5 : (s : ℕ) → 2 ^ (s + 5) ≡ 32 * 2 ^ s
pow_5 s =
    let sum : s + 5 ≡ suc (suc (suc (suc (suc s)))) = omega arith in
    ap (λ k. 2 ^ k) sum
    ∙ omega (
      arith,
      pow_step 2 s,
      pow_step 2 (suc s),
      pow_step 2 (suc (suc s)),
      pow_step 2 (suc (suc (suc s))),
      pow_step 2 (suc (suc (suc (suc s)))),
    )

finish-pos : (n : ℕ) → 2 * n < two_63 → finish (2 * n) ≡ pos n
unfolding finish
finish-pos n h = ground arith

finish-neg : (n : ℕ) → 2 * (n + 1) + 1 < two_63 → finish (2 * (n + 1) + 1) ≡ negsuc n
unfolding finish
finish-neg n h = ground arith

-- The number has no more than `fuel + 1` digits.
abbrev Fits : ℕ → ℕ → Type 0
Fits zero n = n < 32
Fits (suc fuel) n = Fits fuel (n / 32)

decode_from-encode_digits :
    (fuel n u shift : ℕ) (s : Bytes)
    → Fits fuel n
    → u + n * 2 ^ shift < two_64
    → decode_from u shift (encode_digits fuel n ++ s)
      ≡ cons_number (finish (u + n * 2 ^ shift)) (decode_from 0 0 s)
unfolding encode_digits
decode_from-encode_digits zero n u shift s f h =
    let low : n % 32 ≡ n = omega arith in rw low (decode_from-last n u shift s f h)
decode_from-encode_digits (suc fuel) n u shift s f h = elim (Bool-cases (ltb n 32)) [
  | inl e ↦ rw e (decode_from-last n u shift s (ground arith) h)
  | inr e ↦
      let parts = split_digit n (2 ^ shift) in
      let total : u + (n % 32) * 2 ^ shift + (n / 32) * 2 ^ (shift + 5) ≡ u + n * 2 ^ shift =
        rw (pow_5 shift) (omega (arith, parts)) in
      rw (e, sym total)
        (decode_from-more (n % 32) u shift (encode_digits fuel (n / 32) ++ s) (omega arith)
            (omega (arith, parts))
          ∙ decode_from-encode_digits fuel (n / 32) (u + (n % 32) * 2 ^ shift) (shift + 5) s f
              (omega (arith, total)))
]

-- Numbers of less than 62 bits, so that the doubled size stays under the sign bit.
abbrev pub IsSmall : ℤ → Type 0
IsSmall z = pos_part z + neg_part z < 4611686018427387904

decode_from-encode_vlq :
    (z : ℤ) (s : Bytes)
    → IsSmall z
    → decode_from 0 0 (encode_vlq z ++ s) ≡ cons_number z (decode_from 0 0 s)
unfolding encode_vlq
decode_from-encode_vlq (pos n) s h =
    decode_from-encode_digits 12 (2 * n) 0 0 s (omega arith) (omega arith)
    ∙ ap (λ z. cons_number z (decode_from 0 0 s))
        (ap finish (omega arith) ∙ finish-pos n (omega arith))
decode_from-encode_vlq (negsuc n) s h =
    decode_from-encode_digits 12 (2 * (n + 1) + 1) 0 0 s (omega arith) (omega arith)
    ∙ ap (λ z. cons_number z (decode_from 0 0 s))
        (ap finish (omega arith) ∙ finish-neg n (omega arith))

-- Numbers of at most 62 bits, encoded as the Source Map format says, are decoded to themselves.
pub decode_vlqs-encode_vlqs :
    (zs : List ℤ) → All IsSmall zs → decode_vlqs (encode_vlqs zs) ≡ some zs
unfolding decode_vlqs encode_vlqs
decode_vlqs-encode_vlqs [] h = unfold decode_from in refl
decode_vlqs-encode_vlqs (z ∷ zs) h =
    decode_from-encode_vlq z (encode_vlqs zs) h.0
    ∙ ap (cons_number z) (decode_vlqs-encode_vlqs zs h.1)
