-- ===== src/Monitors/Units.antt =====
-- internal/monitors/schedule.go: what ParseSchedule accepts as an interval, and the time it comes to.
use mathlib.Core.Path.{subst}
use crashcart.Base.{
  ℕ, zero, suc, ◌*◌, ◌<◌, ◌≡◌, refl, true, false, Option, none, some, arith, Bool-cases, inl, inr,
}
use crashcart.Base.Int.{ℤ, pos, negsuc, ◌+ℤ◌, ◌*ℤ◌, leb_ℤ, int64}
use crashcart.Base.Text.{Bytes, codes, str_eq, str_eq_iff}
use crashcart.Monitors.Schedule.{
  Time, Schedule, Parsed, ok, err, atoi, interval_unit, interval_next, interval_case,
  parse_interval, product_fits,
}

pub data IntervalUnit : Type 0 where
  minutes hours days weeks : IntervalUnit

abbrev pub name_of : IntervalUnit → Bytes
name_of minutes = codes "minute"
name_of hours = codes "hour"
name_of days = codes "day"
name_of weeks = codes "week"

-- The length of a unit in seconds.
abbrev pub seconds : IntervalUnit → ℕ
seconds minutes = 60
seconds hours = 60 * 60
seconds days = 24 * (60 * 60)
seconds weeks = 7 * (24 * (60 * 60))

abbrev pub nanoseconds : IntervalUnit → ℕ
nanoseconds u = seconds u * 1_000_000_000

-- A text names a unit of that length.
abbrev IsUnitLength : Bytes → Option ℤ → Type 0
IsUnitLength unit none = Unit
IsUnitLength unit (some d) = (u : IntervalUnit) × (unit ≡ name_of u) × (d ≡ pos (nanoseconds u))

interval_unit-IsUnitLength : (unit : Bytes) → IsUnitLength unit (interval_unit unit)
unfolding interval_unit
interval_unit-IsUnitLength unit = elim (Bool-cases (str_eq unit (codes "minute"))) [
  | inl e ↦ rw e (minutes, (str_eq_iff unit (codes "minute")).0 e, refl)
  | inr e ↦ elim (Bool-cases (str_eq unit (codes "hour"))) [
    | inl f ↦ rw (e, f) (hours, (str_eq_iff unit (codes "hour")).0 f, refl)
    | inr f ↦ elim (Bool-cases (str_eq unit (codes "day"))) [
      | inl g ↦ rw (e, f, g) (days, (str_eq_iff unit (codes "day")).0 g, refl)
      | inr g ↦ elim (Bool-cases (str_eq unit (codes "week"))) [
        | inl h ↦ rw (e, f, g, h) (weeks, (str_eq_iff unit (codes "week")).0 h, refl)
        | inr h ↦ rw (e, f, g, h) tt
      ]
    ]
  ]
]

-- A schedule that comes of a count and a unit.
abbrev pub ComesOfUnits : Bytes → Bytes → Schedule → Type 0
ComesOfUnits value unit s =
    (u : IntervalUnit) × (n : ℕ) × (unit ≡ name_of u)
    × (atoi value ≡ some (pos (suc n)))
    × ((t : Time)
        → nanoseconds u * suc n < 9223372036854775808
        → s t ≡ t +ℤ pos (nanoseconds u * suc n))

abbrev IsExact : Bytes → Bytes → Parsed → Type 0
IsExact value unit (err e) = Unit
IsExact value unit (ok s) = ComesOfUnits value unit s

in_units :
    (u : IntervalUnit) (n : ℕ) (t : Time)
    → nanoseconds u * suc n < 9223372036854775808
    → interval_next (int64 (pos (nanoseconds u) *ℤ pos (suc n))) t
      ≡ t +ℤ pos (nanoseconds u * suc n)
unfolding interval_next
in_units u n t b = rw (product_fits (nanoseconds u) (suc n) b) refl

negative : (n : ℕ) → leb_ℤ (negsuc n) (pos 0) ≡ true
negative n = ground arith

positive : (n : ℕ) → leb_ℤ (pos (suc n)) (pos 0) ≡ false
positive n = ground arith

interval_case-IsExact :
    (value unit : Bytes) (n d : Option ℤ)
    → atoi value ≡ n
    → IsUnitLength unit d
    → IsExact value unit (interval_case n d)
unfolding interval_case
interval_case-IsExact value unit none d a h = tt
interval_case-IsExact value unit (some (negsuc n)) none a h = rw (negative n) tt
interval_case-IsExact value unit (some (negsuc n)) (some d) a h = rw (negative n) tt
interval_case-IsExact value unit (some (pos zero)) none a h = tt
interval_case-IsExact value unit (some (pos zero)) (some d) a h = tt
interval_case-IsExact value unit (some (pos (suc n))) none a h = rw (positive n) tt
interval_case-IsExact value unit (some (pos (suc n))) (some d) a (u, name, length) =
    rw (positive n) (u, n, name, a, λ t b. rw length (in_units u n t b))

-- An interval is accepted only with a positive count and one of four units, minutes, hours, days of 24
-- hours and weeks of 7 days, and if the product fits an int64 of nanoseconds, its next time is exactly
-- that long after the reference.
pub accepted_interval-exact :
    (value unit : Bytes) (s : Schedule)
    → parse_interval value unit ≡ ok s
    → ComesOfUnits value unit s
accepted_interval-exact value unit s h = subst (IsExact value unit) h (
    unfold parse_interval in
    interval_case-IsExact value unit (atoi value) (interval_unit unit) refl
      (interval_unit-IsUnitLength unit))
