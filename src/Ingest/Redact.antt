-- ===== src/Ingest/Redact.antt =====
-- internal/ingest/pii.go: redaction of texts, ids and tags. Go's regexp package is a parameter: the
-- replacement of every e-mail address, and the spans that the card and phone patterns match.
use mathlib.Core.List.{append_assoc}
use crashcart.Base.{
  sym, ◌∙◌, ℕ, ◌+◌, ◌-◌, ◌≤◌, ◌<◌, ◌≡◌, refl, suc, zero, Bool, true, false, not, ◌&&◌, ◌||◌, List,
  [], ◌∷◌, ◌++◌, none, some, if◌then◌else◌, arith, ltb, leb, take, drop, length, get_elem?, ap,
  length-append,
}
use crashcart.Base.Text.{Bytes, codes, str_eq}

abbrev pub mask : Bytes
mask = codes "[REDACTED]"

abbrev pub is_digit : ℕ → Bool
is_digit c = leb b'0' c && leb c b'9'

-- The byte at an index is there and is a digit.
unfoldable pub digit_at : Bytes → ℕ → Bool
digit_at s i = elim (get_elem? s i) [ none ↦ false | some c ↦ is_digit c ]

-- A match next to a digit is part of a longer number.
unfoldable pub is_bounded : Bytes → ℕ → ℕ → Bool
unfolding digit_at
is_bounded s zero end = not (digit_at s end)
is_bounded s (suc i) end = not (digit_at s i) && not (digit_at s end)

-- The loop of `replaceBounded`, from the end of the last replacement.
unfoldable pub replace_from : Bytes → ℕ → List (ℕ × ℕ) → Bytes
replace_from s last [] = drop last s
replace_from s last ((start, end) ∷ locs) =
    let skipped = replace_from s last locs in
    let replaced = replace_from s end locs in
    if is_bounded s start end
    then take (start - last) (drop last s) ++ (mask ++ replaced)
    else skipped

-- `replaceBounded`.
unfoldable pub replace_bounded : (Bytes → List (ℕ × ℕ)) → Bytes → Bytes
unfolding replace_from
replace_bounded matches s = replace_from s 0 (matches s)

-- `RedactText`.
unfoldable pub redact_text :
    (Bytes → Bytes) → (Bytes → List (ℕ × ℕ)) → (Bytes → List (ℕ × ℕ)) → Bytes → Bytes
redact_text replace_emails cards phones s =
    replace_bounded phones (replace_bounded cards (replace_emails s))

-- `RedactUserID`.
unfoldable pub redact_user_id : Bytes → Bytes
redact_user_id [] = []
redact_user_id (c ∷ id) =
    let n = length (c ∷ id) in
    if ltb 8 n then take 4 (c ∷ id) ++ (codes "****" ++ drop (n - 4) (c ∷ id)) else codes "****"

unfoldable pub is_sensitive : Bytes → Bool
is_sensitive k = str_eq k (codes "email") || str_eq k (codes "phone") || str_eq k (codes "password")

-- `RedactTags`, over any redaction of texts.
unfoldable pub redact_tags : (Bytes → Bytes) → List (Bytes × Bytes) → List (Bytes × Bytes)
redact_tags redact [] = []
redact_tags redact ((k, v) ∷ tags) =
    (k, (if is_sensitive k then mask else redact v)) ∷ redact_tags redact tags

take-append : (n : ℕ) (xs ys : Bytes) → length xs ≡ n → take n (xs ++ ys) ≡ xs
take-append zero [] ys h = refl
take-append zero (x ∷ xs) ys h = ground arith
take-append (suc n) [] ys h = ground arith
take-append (suc n) (x ∷ xs) ys h = ap (λ r. x ∷ r) (take-append n xs ys (omega arith))

drop-append : (n : ℕ) (xs ys : Bytes) → length xs ≡ n → drop n (xs ++ ys) ≡ ys
drop-append zero [] ys h = refl
drop-append zero (x ∷ xs) ys h = ground arith
drop-append (suc n) [] ys h = ground arith
drop-append (suc n) (x ∷ xs) ys h = drop-append n xs ys (omega arith)

redact_user_id-long :
    (id : Bytes)
    → 8 < length id
    → redact_user_id id ≡ take 4 id ++ (codes "****" ++ drop (length id - 4) id)
unfolding redact_user_id
redact_user_id-long [] h = ground arith
redact_user_id-long (c ∷ id) h =
    let long : ltb 8 (length (c ∷ id)) ≡ true = ground arith in rw long refl

redact_user_id-short :
    (id : Bytes) → 1 ≤ length id → length id ≤ 8 → redact_user_id id ≡ codes "****"
unfolding redact_user_id
redact_user_id-short [] h k = ground arith
redact_user_id-short (c ∷ id) h k =
    let short : ltb 8 (length (c ∷ id)) ≡ false = ground arith in rw short refl

-- A redacted user id shows four bytes at each end of an id of more than eight, nothing of a shorter
-- one, and nothing of what lies between, not even its length.
redact_user_id-hides :
    (front middle back : Bytes)
    → length front ≡ 4
    → length back ≡ 4
    → 1 ≤ length middle
    → (redact_user_id (front ++ (middle ++ back)) ≡ front ++ (codes "****" ++ back))
      × ((id : Bytes) → 1 ≤ length id → length id ≤ 8 → redact_user_id id ≡ codes "****")
redact_user_id-hides front middle back f b m =
    let id : Bytes = front ++ (middle ++ back) in
    let total : length id ≡ 4 + (length middle + 4) =
      length-append front (middle ++ back) ∙ omega (arith, f, b, length-append middle back) in
    let before : length (front ++ middle) ≡ length id - 4 =
      length-append front middle ∙ omega (arith, f, total) in
    let tail : drop (length id - 4) id ≡ back =
      ap (drop (length id - 4)) (sym (append_assoc front middle back))
      ∙ drop-append (length id - 4) (front ++ middle) back before in
    (
      redact_user_id-long id (omega (arith, total))
          ∙ rw (take-append 4 front (middle ++ back) f, tail) refl,
      redact_user_id-short,
    )
