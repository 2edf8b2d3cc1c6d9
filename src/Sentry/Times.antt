-- ===== src/Sentry/Times.antt =====
-- internal/sentry/envelope.go: timestamps. An instant is a number of nanoseconds after the start of the
-- year 1, Go's zero time, which stands for "no timestamp"; earlier years do not occur.
use crashcart.Base.{
  ℕ, ◌+◌, ◌-◌, ◌*◌, ◌%◌, Bool, true, false, not, ◌||◌, List, [], ◌∷◌, Option, none, some,
  if◌then◌else◌, ltb, leb, ◌==◌,
}
use crashcart.Base.Text.{Bytes, codes, str_eq, trim_space}
use crashcart.Sentry.Json.{Library, Number}

abbrev pub second : ℕ
second = 1_000_000_000

-- The Unix epoch: 1970-01-01.
abbrev pub unix_epoch : ℕ
unix_epoch = 62_135_596_800 * 1_000_000_000

abbrev pub minute : ℕ
minute = 60 * 1_000_000_000

-- A number of seconds, or of milliseconds if it is large; out of range it is no time.
unfoldable pub number_time : Number → ℕ
number_time f =
    if not f.positive || leb 1_000_000_000_000_000 f.whole
    then 0
    else if ltb f.whole 1_000_000_000_000
    then unix_epoch + f.whole * 1_000_000_000 + f.nanos
    else unix_epoch + f.whole * 1_000_000

abbrev pub layouts : List Bytes
layouts =
    codes "2006-01-02T15:04:05.999999999Z07:00"
    ∷ codes "2006-01-02T15:04:05Z07:00"
    ∷ codes "2006-01-02T15:04:05.999999999"
    ∷ codes "2006-01-02T15:04:05"
    ∷ codes "2006-01-02 15:04:05.999999999Z07:00"
    ∷ codes "2006-01-02 15:04:05"
    ∷ []

-- The first layout that the text parses in.
unfoldable pub layout_time : (Bytes → Option ℕ) → List Bytes → ℕ
layout_time parse [] = 0
layout_time parse (layout ∷ more) = elim (parse layout) [
  | none ↦ layout_time parse more
  | some t ↦ t
]

abbrev text_time : Library → Option Bytes → ℕ
text_time lib none = 0
text_time lib (some s) =
    if str_eq (trim_space s) [] then 0 else layout_time (λ layout. lib.parse_time layout s) layouts

abbrev number_or_text : Library → Bytes → Option Number → ℕ
number_or_text lib raw (some f) = number_time f
number_or_text lib raw none = text_time lib (lib.text_of raw)

-- `parseTimestamp`.
unfoldable pub parse_timestamp : Library → Bytes → ℕ
unfolding number_time layout_time
parse_timestamp lib raw =
    let t = trim_space raw in if str_eq t [] then 0 else number_or_text lib t (lib.number_of t)

abbrev pub or_time : ℕ → ℕ → ℕ
or_time t default = if t == 0 then default else t

-- `clampFuture`, and whether it replaced the time.
unfoldable pub clamp_future : ℕ → ℕ → ℕ × Bool
clamp_future t now = if ltb (now + minute) t then (now, true) else (t, false)

-- `Truncate(time.Microsecond)`.
abbrev pub to_microsecond : ℕ → ℕ
to_microsecond t = t - t % 1000

-- `scalarString`.
unfoldable pub scalar_string : Library → Bytes → Bytes
scalar_string lib raw =
    let t = trim_space raw in
    if str_eq t [] || str_eq t (codes "null")
    then []
    else elim (lib.text_of t) [ none ↦ t | some s ↦ s ]
