-- ===== src/Jobs/Backoff.antt =====
-- `Backoff` of internal/jobs/worker.go: the delay before the next attempt, in seconds.
use crashcart.Base.{
  ℕ, zero, suc, ◌+◌, ◌*◌, ◌^◌, ◌≤◌, ◌≡◌, refl, if◌then◌else◌, arith, ltb, min, Bool-cases, inl, inr,
  ltb→lt, ◌-◌,
}
use mathlib.Core.Path.{subst}
use native.Mathlib.Nat.{pow-suc}
use native.Mathlib.Numerals.{towards_suc}
use crashcart.Base.Int.{ℤ, pos, negsuc}

abbrev pub base_backoff : ℕ
base_backoff = 5

abbrev pub max_backoff : ℕ
max_backoff = 600

-- The non-negative case: a shift by at most 10 places, capped.
unfoldable pub shifted_backoff : ℕ → ℕ
shifted_backoff attempts =
    if ltb 10 attempts
    then max_backoff
    else let d = base_backoff * 2 ^ attempts in if ltb max_backoff d then max_backoff else d

-- A negative number of attempts counts as none.
unfoldable pub backoff : ℤ → ℕ
unfolding shifted_backoff
backoff (pos n) = shifted_backoff n
backoff (negsuc n) = shifted_backoff 0

pow_pos : (n : ℕ) → 1 ≤ 2 ^ n
pow_pos zero = omega arith
pow_pos (suc n) = rw pow-suc (omega (arith, pow_pos n))

-- From 7 places on a shift is past the cap.
past_cap : (n : ℕ) → 640 ≤ 5 * 2 ^ (n + 7)
past_cap n =
    let e : 2 ^ (n + 7) ≡ 128 * 2 ^ n = simp towards_suc (omega arith) in
    rw e (omega (arith, pow_pos n))

past_cap_of_le : (n : ℕ) → 7 ≤ n → 640 ≤ 5 * 2 ^ n
past_cap_of_le n h =
    let e : n - 7 + 7 ≡ n = omega arith in subst (λ m. 640 ≤ 5 * 2 ^ m) e (past_cap (n - 7))

small_backoff : (n : ℕ) → n ≤ 10 → shifted_backoff n ≡ min (5 * 2 ^ n) 600
unfolding shifted_backoff
small_backoff n h = ground arith

-- The delay is 5 s doubled for each attempt and capped at 10 minutes, for every number of attempts;
-- a negative number counts as 0.
pub backoff_doubles : (n : ℕ) → (backoff (pos n) ≡ min (5 * 2 ^ n) 600) × (backoff (negsuc n) ≡ 5)
unfolding backoff
backoff_doubles n = elim (Bool-cases (ltb 10 n)) [
  | inl big ↦ (rw big (omega (arith, past_cap_of_le n (omega (arith, ltb→lt 10 n big)))), refl)
  | inr small ↦ (small_backoff n (ground arith), refl)
]
