-- ===== src/Monitors/Tests.antt =====
-- Runs of the monitor code at concrete inputs.
mod CheckIns
use Prim.Native.Nat.{ℕ}
use crashcart.Base.{
  ◌+◌, ◌*◌, ◌≡◌, refl, Bool, true, false, not, List, [], ◌∷◌, ◌++◌, none, some, if◌then◌else◌,
  arith, leb, replicate, All, ◌≤◌,
}
use crashcart.Base.Int.{ℤ, pos, negsuc, ◌+ℤ◌, ◌≤ℤ◌, ◌*ℤ◌, ◌<ℤ◌}
use crashcart.Base.Text.{codes, str_eq}
use crashcart.Monitors.State.{record_outcome}
use crashcart.Monitors.Thresholds.{
  Status, monitor_failed, monitor_recovered, record_all, all_notices, Alternate, counter,
  all_notices-Alternate, one_failure_notice, record_all-streak,
}
use crashcart.Monitors.Schedule.{
  Schedule, ok, parse_interval, interval_next, interval_unit, interval_case, atoi,
  interval_next_overflow,
}
use crashcart.Monitors.Units.{ComesOfUnits, accepted_interval-exact}
use crashcart.Monitors.Slots.{advance_slots, slot, slots_before, advance_slots-first}

abbrev fresh : Status
fresh = record { failures = pos 0; successes = pos 0; alerting = false }

abbrev history : List Bool
history = true ∷ false ∷ false ∷ false ∷ true ∷ true ∷ false ∷ []

-- Threshold 2 to fail, 1 to recover.
history_notices :
    all_notices (pos 2) (pos 1) fresh history ≡ monitor_failed ∷ monitor_recovered ∷ []
unfolding all_notices record_outcome
history_notices = refl

all_notices-Alternate_example : Alternate false (all_notices (pos 2) (pos 1) fresh history)
all_notices-Alternate_example = all_notices-Alternate (pos 2) (pos 1) fresh history

one_failure_notice_example :
    all_notices (pos 3) (pos 1) fresh (replicate 5 false)
    ≡ (if leb 3 (0 + 5) then monitor_failed ∷ [] else [])
one_failure_notice_example =
    one_failure_notice (pos 3) (pos 1) fresh 5 0 2 refl refl refl (omega arith) (omega arith)
      (omega arith)

atoi_values :
    (atoi (codes "30") ≡ some (pos 30))
    × (atoi (codes "-7") ≡ some (negsuc 6))
    × (atoi (codes "+5") ≡ some (pos 5))
    × (atoi (codes "5m") ≡ none)
    × (atoi (codes "-") ≡ none)
    × (atoi (codes "9223372036854775808") ≡ none)
unfolding atoi
atoi_values = (refl, refl, refl, refl, refl, refl)

minutes : interval_unit (codes "minute") ≡ some (pos 60000000000)
unfolding interval_unit
minutes = refl

weeks : interval_unit (codes "week") ≡ some (pos 604800000000000)
unfolding interval_unit
weeks = refl

record_all-streak_example :
    let t = record_all (pos 2) (pos 1) fresh (history ++ not false ∷ replicate 2 false) in
    (counter false t ≡ pos 2) × (counter (not false) t ≡ pos 0)
record_all-streak_example = record_all-streak (pos 2) (pos 1) fresh history false 1 (omega arith)

half_hour :
    parse_interval (codes "30") (codes "minute") ≡ ok (interval_next (pos (60000000000 * 30)))
unfolding parse_interval interval_case interval_unit atoi str_eq ◌*ℤ◌
half_hour = refl

accepted_interval-exact_example :
    ComesOfUnits (codes "30") (codes "minute") (interval_next (pos (60000000000 * 30)))
accepted_interval-exact_example =
    accepted_interval-exact (codes "30") (codes "minute") (interval_next (pos (60000000000 * 30)))
      half_hour

many_weeks : atoi (codes "15251") ≡ some (pos 15251)
unfolding atoi
many_weeks = refl

interval_next_overflow_example :
    (s : Schedule) × (parse_interval (codes "15251") (codes "week") ≡ ok s) × (s (pos 7) <ℤ pos 7)
interval_next_overflow_example =
    interval_next_overflow (codes "15251") (codes "week") 15251 604800000000000 (pos 7) many_weeks
      weeks (omega arith) (omega arith)

abbrev ten : Schedule
ten = interval_next (pos 10)

ten_grows : (t : ℤ) → t +ℤ pos 10 ≤ℤ ten t
unfolding interval_next
ten_grows t = omega arith

slots_run : advance_slots 10000 ten (pos 2) (pos 100) (pos 50) ≡ pos 110
unfolding advance_slots interval_next ◌+ℤ◌
slots_run = refl

advance_slots-first_example :
    let r = advance_slots 10000 ten (pos 2) (pos 100) (pos 50) in
    (pos 100 <ℤ r)
    × ((k : ℕ) × (k ≤ 10000)
        × (r ≡ slot ten (pos 2) (pos 50) k)
        × All (λ t. t ≤ℤ pos 100) (slots_before ten (pos 2) (pos 50) k))
advance_slots-first_example =
    advance_slots-first ten (pos 2) (pos 100) 10 10000 (pos 50) ten_grows (omega arith)
      (unfold ◌+ℤ◌ in omega arith)
