-- ===== src/Sentry/Clean.antt =====
-- internal/sentry/envelope.go: the bounds on texts. Lower case is that of ASCII letters.
use crashcart.Base.{
  ℕ, ◌*◌, ◌≤◌, ◌≡◌, refl, false, not, ◌||◌, [], ◌∷◌, map, if◌then◌else◌, arith, leb, ◌==◌, keep,
  take, length, Bool-cases, inl, inr, All,
}
use crashcart.Base.Text.{Bytes, codes, str_eq, trim_space, lower_byte, after_last, or_else}
use crashcart.Base.Runes.{runes, text_of, length-runes, length-text_of_runes, text_of_runes-All}

-- `Truncate`: at most `n` runes.
unfoldable pub truncate : Bytes → ℕ → Bytes
truncate s n =
    if leb (length s) n
    then s
    else let r = runes s in if leb (length r) n then s else text_of (take n r)

-- `clean`: without NUL.
unfoldable pub clean : Bytes → ℕ → Bytes
clean s max = truncate (keep (λ c. not (c == 0)) s) max

abbrev pub or_default_text : Bytes → Bytes → Bytes
or_default_text s default = if str_eq s [] then default else s

-- `cleanLower`.
unfoldable pub clean_lower : Bytes → ℕ → Bytes → Bytes
clean_lower s max default = or_default_text (truncate (map lower_byte (trim_space s)) max) default

abbrev pub max_filename : ℕ
max_filename = 255

-- `attachmentName`.
unfoldable pub attachment_name : Bytes → Bytes
attachment_name s =
    let trimmed = trim_space s in
    let base = or_else (after_last (λ c. c == b'/' || c == b'\\') trimmed) trimmed in
    let name = truncate base max_filename in
    if str_eq name [] || str_eq name (codes ".") || str_eq name (codes "..")
    then codes "attachment"
    else name

-- `normalizeLevel`.
unfoldable pub normalize_level : Bytes → Bytes
normalize_level level =
    let l = map lower_byte (trim_space level) in
    if str_eq l (codes "warn")
    then codes "warning"
    else if str_eq l (codes "critical")
    then codes "fatal"
    else if str_eq l (codes "log")
    then codes "info"
    else if str_eq l (codes "fatal")
        || str_eq l (codes "error")
        || str_eq l (codes "warning")
        || str_eq l (codes "info")
        || str_eq l (codes "debug")
    then l
    else codes "error"

truncate-bounded : (s : Bytes) (n : ℕ) → length (truncate s n) ≤ 4 * n
unfolding truncate
truncate-bounded s n = elim (Bool-cases (leb (length s) n)) [
  | inl e ↦ rw e (ground arith)
  | inr e ↦ rw e (elim (Bool-cases (leb (length (runes s)) n)) [
    | inl f ↦ rw f (ground (arith, length-runes s))
    | inr f ↦ rw f (length-text_of_runes n s)
  ])
]

truncate-All :
    (P : ℕ → Type 0) (s : Bytes) (n : ℕ) → P 0xef × P 0xbf × P 0xbd → All P s → All P (truncate s n)
unfolding truncate
truncate-All P s n r h = elim (Bool-cases (leb (length s) n)) [
  | inl e ↦ rw e h
  | inr e ↦ rw e (elim (Bool-cases (leb (length (runes s)) n)) [
    | inl f ↦ rw f h
    | inr f ↦ rw f (text_of_runes-All P r n s h)
  ])
]

without_nul : (s : Bytes) → All (λ c. (c == 0) ≡ false) (keep (λ c. not (c == 0)) s)
without_nul [] = tt
without_nul (c ∷ s) = elim (Bool-cases (c == 0)) [
  | inl e ↦ rw e (without_nul s)
  | inr e ↦ rw e (e, without_nul s)
]

-- A text that reaches a column holds no NUL, and has at most four bytes per rune of its bound.
pub clean-bounded :
    (s : Bytes) (n : ℕ) → All (λ c. (c == 0) ≡ false) (clean s n) × (length (clean s n) ≤ 4 * n)
unfolding clean
clean-bounded s n =
    let t = keep (λ c. not (c == 0)) s in
    (
      truncate-All (λ c. (c == 0) ≡ false) t n (refl, refl, refl) (without_nul s),
      truncate-bounded t n,
    )
