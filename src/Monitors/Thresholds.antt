-- ===== src/Monitors/Thresholds.antt =====
-- What internal/monitors/state.go does over a whole history of outcomes: the streaks it counts and
-- the notifications it gives.
use native.Mathlib.Nat.{add-zero}
use crashcart.Base.{
  ℕ, zero, suc, ◌+◌, ◌≤◌, ◌<◌, ◌≡◌, refl, ap, ◌∙◌, inl, inr, Bool, true, false, not, List, [], ◌∷◌,
  ◌++◌, if◌then◌else◌, arith, leb, replicate, Bool-cases,
}
use crashcart.Base.Int.{ℤ, pos, ◌≤ℤ◌}
use crashcart.Monitors.State.{Transition, record_outcome}

-- The columns of a monitor that a recorded outcome reads and writes (`RecordMonitorResult`).
pub record Status : Type 0 where
  pub failures : ℤ
  pub successes : ℤ
  pub alerting : Bool

pub data Notice : Type 0 where
  monitor_failed : Notice
  monitor_recovered : Notice

-- The alert that the callers of `Record` enqueue or deliver for a transition.
abbrev pub notices : Transition → List Notice
notices t =
    if t.failed then monitor_failed ∷ [] else if t.recovered then monitor_recovered ∷ [] else []

abbrev pub store_result : Transition → Status
store_result t = record {
  failures = t.consecutive_failures;
  successes = t.consecutive_successes;
  alerting = t.alerting;
}

module _ (failure_threshold recovery_threshold : ℤ) where
  abbrev pub record_in : Status → Bool → Transition
  record_in s ok =
      record_outcome s.failures s.successes s.alerting failure_threshold recovery_threshold ok

  -- One outcome after another, each on what the one before has stored.
  unfoldable pub record_all : Status → List Bool → Status
  record_all s [] = s
  record_all s (ok ∷ rest) = record_all (store_result (record_in s ok)) rest

  unfoldable pub all_notices : Status → List Bool → List Notice
  all_notices s [] = []
  all_notices s (ok ∷ rest) =
      notices (record_in s ok) ++ all_notices (store_result (record_in s ok)) rest

-- The notices come in turn, and the next one is a recovery exactly when the monitor is alerting.
abbrev pub Alternate : Bool → List Notice → Type 0
Alternate alerting [] = Unit
Alternate alerting (monitor_failed ∷ rest) = (alerting ≡ false) × Alternate true rest
Alternate alerting (monitor_recovered ∷ rest) = (alerting ≡ true) × Alternate false rest

module _ (failure_threshold recovery_threshold : ℤ) where
  Alternate-step :
      (s : Status) (ok : Bool) (rest : List Notice)
      → Alternate (record_in failure_threshold recovery_threshold s ok).alerting rest
      → Alternate s.alerting (notices (record_in failure_threshold recovery_threshold s ok) ++ rest)
  unfolding record_outcome
  Alternate-step s ok rest h = ground arith

  -- Over any outcomes, from any stored state and for any thresholds, a monitor that is alerting
  -- next gives a recovery notice and one that is not next gives a failure notice, in turn: never
  -- two of one kind in a row.
  pub all_notices-Alternate :
      (s : Status) (outcomes : List Bool)
      → Alternate s.alerting (all_notices failure_threshold recovery_threshold s outcomes)
  unfolding all_notices
  all_notices-Alternate s [] = tt
  all_notices-Alternate s (ok ∷ rest) = Alternate-step s ok _ (
      all_notices-Alternate (store_result (record_in failure_threshold recovery_threshold s ok))
        rest)

  -- A monitor that is already alerting stays silent through further failures.
  silent_while_failing :
      (s : Status) (n : ℕ)
      → s.alerting ≡ true
      → pos 1 ≤ℤ recovery_threshold
      → all_notices failure_threshold recovery_threshold s (replicate n false) ≡ []
  unfolding all_notices
  silent_while_failing s zero a r = refl
  silent_while_failing s (suc n) a r =
      let t = record_in failure_threshold recovery_threshold s false in
      let step : (t.alerting ≡ true) × (notices t ≡ []) = unfold record_outcome in ground (arith) in
      rw (step.1) (silent_while_failing (store_result t) n step.0 r)

  failing_step :
      (s : Status) (c k : ℕ)
      → s.alerting ≡ false
      → s.failures ≡ pos c
      → failure_threshold ≡ pos (suc k)
      → c < 2147483647
      → pos 1 ≤ℤ recovery_threshold
      → let t = record_in failure_threshold recovery_threshold s false in
        (t.consecutive_failures ≡ pos (suc c))
        × (t.alerting ≡ leb (suc k) (suc c))
        × (notices t ≡ (if leb (suc k) (suc c) then monitor_failed ∷ [] else []))
  unfolding record_outcome
  failing_step s c k a f e b r = rw (a, f, e) (ground arith)

  -- A monitor that is not alerting and has counted `c` failures, fewer than its threshold, gives
  -- exactly one failure notice over `n` more failures if these reach the threshold, and none if
  -- they do not (the counts within int32, the recovery threshold at least 1).
  pub one_failure_notice :
      (s : Status) (n c k : ℕ)
      → s.alerting ≡ false
      → s.failures ≡ pos c
      → failure_threshold ≡ pos (suc k)
      → c ≤ k
      → c + n < 2147483648
      → pos 1 ≤ℤ recovery_threshold
      → all_notices failure_threshold recovery_threshold s (replicate n false)
        ≡ (if leb (suc k) (c + n) then monitor_failed ∷ [] else [])
  unfolding all_notices
  one_failure_notice s zero c k a f e l b r = ground arith
  one_failure_notice s (suc n) c k a f e l b r =
      let t = record_in failure_threshold recovery_threshold s false in
      let (f', a', m) = failing_step s c k a f e (omega arith) r in
      elim (Bool-cases (leb (suc k) (suc c))) [
        | inl reached ↦
            rw (m, reached, silent_while_failing (store_result t) n (a' ∙ reached) r) (ground arith)
        | inr below ↦
            rw
              (
                m,
                below,
                one_failure_notice (store_result t) n (suc c) k (a' ∙ below) f' e (ground arith)
                    (omega arith) r,
              )
              (ground arith)
      ]

-- The counter of one kind of outcome.
abbrev pub counter : Bool → Status → ℤ
counter true s = s.successes
counter false s = s.failures

module _ (failure_threshold recovery_threshold : ℤ) where
  streak_step :
      (s : Status) (ok : Bool) (c : ℕ)
      → counter ok s ≡ pos c
      → c < 2147483647
      → let t = store_result (record_in failure_threshold recovery_threshold s ok) in
        (counter ok t ≡ pos (suc c)) × (counter (not ok) t ≡ pos 0)
  unfolding record_outcome
  streak_step s true c h b = rw h (ground arith)
  streak_step s false c h b = rw h (ground arith)

  streak_from :
      (s : Status) (ok : Bool) (c n : ℕ)
      → counter ok s ≡ pos c
      → counter (not ok) s ≡ pos 0
      → c + n < 2147483648
      → let t = record_all failure_threshold recovery_threshold s (replicate n ok) in
        (counter ok t ≡ pos (c + n)) × (counter (not ok) t ≡ pos 0)
  unfolding record_all
  streak_from s ok c zero h k b = (rw (add-zero) h, k)
  streak_from s ok c (suc n) h k b =
      let (h', k') = streak_step s ok c h (omega arith) in
      let (h'', k'') =
        streak_from (store_result (record_in failure_threshold recovery_threshold s ok)) ok (suc c)
          n h' k' (omega arith) in
      (h'' ∙ ap pos (omega arith), k'')

  record_all-append :
      (s : Status) (xs ys : List Bool)
      → record_all failure_threshold recovery_threshold s (xs ++ ys)
        ≡ record_all failure_threshold recovery_threshold
            (record_all failure_threshold recovery_threshold s xs)
            ys
  unfolding record_all
  record_all-append s [] ys = refl
  record_all-append s (ok ∷ xs) ys =
      record_all-append (store_result (record_in failure_threshold recovery_threshold s ok)) xs ys

  counter_restarts :
      (s : Status) (ok : Bool)
      → counter ok (store_result (record_in failure_threshold recovery_threshold s (not ok)))
        ≡ pos 0
  unfolding record_outcome
  counter_restarts s true = ground arith
  counter_restarts s false = ground arith

  -- Whatever came before, from any stored state, after one outcome of the other kind and then
  -- `n + 1` of one kind (within int32) the counter of that kind is `n + 1` and the other is 0.
  pub record_all-streak :
      (s : Status) (before : List Bool) (ok : Bool) (n : ℕ)
      → n < 2147483647
      → let t =
          record_all failure_threshold recovery_threshold s
            (before ++ not ok ∷ replicate (suc n) ok) in
        (counter ok t ≡ pos (suc n)) × (counter (not ok) t ≡ pos 0)
  unfolding record_all
  record_all-streak s before ok n b =
      let u = record_all failure_threshold recovery_threshold s before in
      let v = store_result (record_in failure_threshold recovery_threshold u (not ok)) in
      let (h, k) = streak_step v ok 0 (counter_restarts u ok) (omega arith) in
      let w = store_result (record_in failure_threshold recovery_threshold v ok) in
      let (h', k') = streak_from w ok 1 n h k (omega arith) in
      rw record_all-append (h' ∙ ap pos (omega arith), k')
