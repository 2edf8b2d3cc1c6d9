-- ===== src/Monitors/Schedule.antt =====
-- internal/monitors/schedule.go: validating a schedule, and the next expected check-in.
-- The crontab parser is a third-party package (github.com/robfig/cron): a parameter.
use crashcart.Base.{
  ℕ, zero, suc, ◌+◌, ◌-◌, ◌*◌, ◌≤◌, ◌<◌, ◌≡◌, Bool, true, false, ◌&&◌, [], ◌∷◌, Option, none, some,
  if◌then◌else◌, arith, ltb, leb, ◌==◌,
}
use crashcart.Base.Int.{ℤ, pos, negsuc, ◌+ℤ◌, ◌*ℤ◌, ◌<ℤ◌, leb_ℤ, int64, +ℤ_parts}
use crashcart.Base.Text.{Bytes, codes, str_eq}

-- An instant, and a duration, in nanoseconds.
abbrev pub Time : Type 0
Time = ℤ

-- A `Schedule` is its `Next` method.
abbrev pub Schedule : Type 0
Schedule = Time → Time

pub data ScheduleError : Type 0 where
  invalid_crontab bad_interval_value bad_interval_unit bad_schedule_type : ScheduleError

pub data Parsed : Type 0 where
  ok : Schedule → Parsed
  err : ScheduleError → Parsed

-- The digits of `strconv.Atoi`, most significant first.
unfoldable pub digits_value : Bytes → ℕ → Option ℕ
digits_value [] n = some n
digits_value (c ∷ s) n =
    let rest = digits_value s (n * 10 + (c - 48)) in if leb 48 c && leb c 57 then rest else none

-- An unsigned magnitude within int64, with its sign.
signed_value : Bool → Option ℕ → Option ℤ
signed_value negative none = none
signed_value true (some zero) = some (pos 0)
signed_value true (some (suc n)) = if leb (suc n) 9223372036854775808 then some (negsuc n) else none
signed_value false (some n) = if ltb n 9223372036854775808 then some (pos n) else none

magnitude : Bytes → Option ℕ
unfolding digits_value
magnitude [] = none
magnitude (c ∷ s) = digits_value (c ∷ s) 0

-- `strconv.Atoi`: an optional sign and at least one digit, out of range is an error.
unfoldable pub atoi : Bytes → Option ℤ
unfolding signed_value magnitude
atoi [] = none
atoi (c ∷ s) =
    if c == b'-'
    then signed_value true (magnitude s)
    else if c == b'+'
    then signed_value false (magnitude s)
    else signed_value false (magnitude (c ∷ s))

-- `IntervalUnits`.
unfoldable pub interval_unit : Bytes → Option ℤ
unfolding str_eq
interval_unit unit =
    if str_eq unit (codes "minute")
    then some (pos 60_000_000_000)
    else if str_eq unit (codes "hour")
    then some (pos 3_600_000_000_000)
    else if str_eq unit (codes "day")
    then some (pos 86_400_000_000_000)
    else if str_eq unit (codes "week")
    then some (pos 604_800_000_000_000)
    else none

-- `intervalSchedule.Next`.
unfoldable pub interval_next : ℤ → Schedule
interval_next d t = t +ℤ d

-- The "interval" case: a positive count, then a known unit; the product is an int64.
unfoldable pub interval_case : Option ℤ → Option ℤ → Parsed
interval_case none unit = err bad_interval_value
interval_case (some n) none =
    if leb_ℤ n (pos 0) then err bad_interval_value else err bad_interval_unit
interval_case (some n) (some d) =
    if leb_ℤ n (pos 0) then err bad_interval_value else ok (interval_next (int64 (d *ℤ n)))

unfoldable pub parse_interval : Bytes → Bytes → Parsed
unfolding interval_case
parse_interval value unit = interval_case (atoi value) (interval_unit unit)

-- `ParseSchedule`, over the crontab parser.
unfoldable pub parse_schedule : (Bytes → Option Schedule) → Bytes → Bytes → Bytes → Parsed
unfolding parse_interval str_eq
parse_schedule cron_parse typ value unit =
    if str_eq typ (codes "crontab")
    then elim (cron_parse value) [ none ↦ err invalid_crontab | some s ↦ ok s ]
    else if str_eq typ (codes "interval")
    then parse_interval value unit
    else err bad_schedule_type

pub product_fits : (d n : ℕ) → d * n < 9223372036854775808 → int64 (pos d *ℤ pos n) ≡ pos (d * n)
unfolding ◌*ℤ◌
product_fits d n b = ground arith

-- What an accepted interval's product becomes past the range of an int64.
pub product_wraps :
    (d n : ℕ)
    → 9223372036854775808 ≤ d * n
    → d * n < 18446744073709551616
    → int64 (pos d *ℤ pos n) ≡ negsuc (18446744073709551615 - d * n)
unfolding ◌*ℤ◌
product_wraps d n l b = ground arith

parse_interval_lem :
    (value unit : Bytes) (n d : ℕ)
    → atoi value ≡ some (pos n)
    → 0 < n
    → interval_unit unit ≡ some (pos d)
    → parse_interval value unit ≡ ok (interval_next (int64 (pos d *ℤ pos n)))
unfolding parse_interval
parse_interval_lem value unit (suc n) d a p u = rw (a, u, parse_interval) (ground arith)
parse_interval_lem value unit zero d a p u = elim p [ ]

-- An accepted interval whose product passes the range of an int64 (and not that of a uint64) gives
-- a next time before the reference.
pub interval_next_overflow :
    (value unit : Bytes) (n d : ℕ) (t : Time)
    → atoi value ≡ some (pos n)
    → interval_unit unit ≡ some (pos d)
    → 9223372036854775808 ≤ d * n
    → d * n < 18446744073709551616
    → (s : Schedule) × (parse_interval value unit ≡ ok s) × (s t <ℤ t)
unfolding interval_next
interval_next_overflow value unit n d t a u l b =
    let e = product_wraps d n l b in
    let positive : 0 < n = grind arith in
    (
      interval_next (int64 (pos d *ℤ pos n)),
      parse_interval_lem value unit n d a positive u,
      rw e (omega (arith, +ℤ_parts t (negsuc (18446744073709551615 - d * n)))),
    )
