-- ===== src/Monitors/State.antt =====
-- internal/monitors/state.go: the result of recording one outcome of a monitor.
use crashcart.Base.{Bool, true, false, not, ◌&&◌, if◌then◌else◌}
use crashcart.Base.Int.{ℤ, pos, ◌+ℤ◌, leb_ℤ, int32}

pub record Transition : Type 0 where
  pub consecutive_failures : ℤ
  pub consecutive_successes : ℤ
  pub alerting : Bool
  pub failed : Bool
  pub recovered : Bool

-- The two counters before the `switch`: the other one restarts at the zero value.
count_outcome : ℤ → ℤ → Bool → Bool → Transition
count_outcome failures successes alerting ok =
    if ok
    then record {
      consecutive_failures = pos 0;
      consecutive_successes = int32 (successes +ℤ pos 1);
      alerting = alerting;
      failed = false;
      recovered = false;
    }
    else record {
      consecutive_failures = int32 (failures +ℤ pos 1);
      consecutive_successes = pos 0;
      alerting = alerting;
      failed = false;
      recovered = false;
    }

-- `Record`: one outcome against a monitor's running state.
unfoldable pub record_outcome : ℤ → ℤ → Bool → ℤ → ℤ → Bool → Transition
unfolding count_outcome ◌+ℤ◌
record_outcome failures successes alerting failure_threshold recovery_threshold ok =
    let t = count_outcome failures successes alerting ok in
    if not alerting && leb_ℤ failure_threshold t.consecutive_failures
    then record t { alerting = true; failed = true }
    else if alerting && leb_ℤ recovery_threshold t.consecutive_successes
    then record t { alerting = false; recovered = true }
    else t
