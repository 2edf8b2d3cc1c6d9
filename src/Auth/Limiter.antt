-- ===== src/Auth/Limiter.antt =====
-- internal/auth/auth.go: the limiter and the decision of `RateLimit`. A clock reads seconds after
-- 1970; the map of counts is an association list.
use crashcart.Base.{
  ℕ, ◌+◌, ◌-◌, ◌%◌, suc, zero, Bool, List, [], ◌∷◌, Option, none, some, if◌then◌else◌, ltb, leb,
  ◌==◌,
}
use crashcart.Base.Int.{ℤ, pos, negsuc}
use crashcart.Base.Text.{Bytes, str_eq}

pub record Limiter : Type 0 where
  pub window : ℕ
  pub counts : List (Bytes × ℕ)

-- `&limiter{}`.
abbrev pub no_requests : Limiter
no_requests = record { window = 0; counts = [] }

-- `counts[key]`: 0 for a missing key.
unfoldable pub lookup : Bytes → List (Bytes × ℕ) → ℕ
lookup key [] = 0
lookup key ((k, n) ∷ counts) = let rest = lookup key counts in if str_eq key k then n else rest

-- `counts[key]++`.
unfoldable pub increment : Bytes → List (Bytes × ℕ) → List (Bytes × ℕ)
increment key [] = (key, 1) ∷ []
increment key ((k, n) ∷ counts) =
    let rest = increment key counts in if str_eq key k then (k, suc n) ∷ counts else (k, n) ∷ rest

abbrev pub window_of : ℕ → ℕ
window_of now = now - now % 60

-- The counts that a request at `now` adds to: none of another window.
unfoldable pub current_counts : ℕ → Limiter → List (Bytes × ℕ)
current_counts now l = if window_of now == l.window then l.counts else []

-- `bump`: the limiter after, the count so far, and the window's start.
unfoldable pub bump : Bytes → ℕ → Limiter → Limiter × ℕ × ℕ
bump key now l =
    let counts = increment key (current_counts now l) in
    (record { window = window_of now; counts = counts }, lookup key counts, window_of now)

-- What `RateLimit` answers with: the headers, and whether the handler runs.
pub record Answer : Type 0 where
  pub limit : ℕ
  pub remaining : ℕ
  pub reset : ℕ
  pub retry_after : Option ℕ
  pub passes : Bool

-- `RateLimit` at a positive limit.
unfoldable pub limited : ℕ → Bytes → ℕ → Limiter → Limiter × Answer
unfolding bump
limited limit key now l =
    let (after, n, window) = bump key now l in
    (
      after,
      record {
        limit = limit;
        remaining = limit - n;
        reset = window + 60;
        retry_after = if ltb limit n then some (window + 60 - now) else none;
        passes = leb n limit;
      },
    )

-- `RateLimit`: a limit that is not positive lets everything through, with no headers. `anonymous`
-- is the bucket of a request without a credential.
unfoldable pub rate_limit : ℤ → Bytes → Bytes → ℕ → Limiter → Limiter × Option Answer
rate_limit (negsuc n) anonymous credential now l = (l, none)
rate_limit (pos zero) anonymous credential now l = (l, none)
rate_limit (pos (suc n)) anonymous credential now l =
    let key = if str_eq credential [] then anonymous else credential in
    let (after, answer) = limited (suc n) key now l in (after, some answer)
