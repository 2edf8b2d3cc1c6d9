-- ===== src/Auth/Window.antt =====
-- What the limiter of internal/auth/auth.go enforces over a history of requests.
use mathlib.Core.List.{append-nil, append_assoc}
use crashcart.Base.{
  ℕ, ◌+◌, ◌-◌, ◌%◌, suc, ◌≤◌, ◌<◌, ◌≡◌, refl, sym, Bool, true, false, ◌&&◌, List, [], ◌∷◌, ◌++◌,
  none, some, if◌then◌else◌, arith, ltb, leb, ◌==◌, ==_iff, count, count-append, All, All-append,
  All-imply, Bool-cases, inl, inr, ap,
}
use crashcart.Base.Text.{Bytes, str_eq, str_eq_iff, str_eq_refl}
use crashcart.Auth.Limiter.{
  Limiter, no_requests, lookup, increment, window_of, current_counts, limited,
}

lookup-increment :
    (k key : Bytes) (counts : List (Bytes × ℕ))
    → lookup k (increment key counts)
      ≡ (if str_eq k key then suc (lookup k counts) else lookup k counts)
unfolding lookup increment
lookup-increment k key [] = refl
lookup-increment k key ((c, n) ∷ counts) = elim (Bool-cases (str_eq key c)) [
  | inl e ↦ rw e (rw ((str_eq_iff key c).0 e) (ground arith))
  | inr e ↦
      rw (e, lookup-increment k key counts)
        (elim (Bool-cases (str_eq k c)) [
          | inl q ↦
              let apart : str_eq k key ≡ false = elim (Bool-cases (str_eq k key)) [
                | inl r ↦ ground (arith, ap (λ x. str_eq x c) ((str_eq_iff k key).0 r))
                | inr r ↦ r
              ] in
              rw (q, apart) refl
          | inr q ↦ rw q refl
        ])
]

-- A request: its bucket and its time.
abbrev pub Request : Type 0
Request = Bytes × ℕ

-- The requests of a bucket in a window.
abbrev pub is_in : Bytes → ℕ → Request → Bool
is_in key window r = str_eq key r.0 && (window == window_of r.1)

unfoldable pub run : ℕ → List Request → Limiter → Limiter
run limit [] l = l
run limit ((key, now) ∷ rs) l = run limit rs (limited limit key now l).0

-- The clock does not go back, from `t` on.
abbrev pub InOrder : ℕ → List Request → Type 0
InOrder t [] = Unit
InOrder t ((key, now) ∷ rs) = (t ≤ now) × InOrder now rs

-- The limiter counts the requests `past`, whose last was at `t`.
record Counts (l : Limiter) (past : List Request) (t : ℕ) : Type 0 where
  at_window : l.window ≡ window_of t
  counted : (k : Bytes) → lookup k l.counts ≡ count (is_in k l.window) past
  bounded : All (λ r. window_of r.1 ≤ l.window) past

no_requests-Counts : Counts no_requests [] 0
unfolding lookup
no_requests-Counts = record { at_window = refl; counted = λ k. refl; bounded = tt }

none_later :
    (k : Bytes) (old new : ℕ) (past : List Request)
    → old < new
    → All (λ r. window_of r.1 ≤ old) past
    → count (is_in k new) past ≡ 0
none_later k old new [] lt h = refl
none_later k old new (r ∷ past) lt h = ground (arith, none_later k old new past lt h.1, h.0)

current_counts-lookup :
    (l : Limiter) (past : List Request) (t now : ℕ) (k : Bytes)
    → Counts l past t
    → t ≤ now
    → lookup k (current_counts now l) ≡ count (is_in k (window_of now)) past
unfolding current_counts
current_counts-lookup l past t now k c le = elim (Bool-cases (window_of now == l.window)) [
  | inl e ↦ let same = (==_iff (window_of now) l.window).0 e in rw e (rw same (c.counted k))
  | inr e ↦
      let later : l.window < window_of now = ground (arith, c.at_window) in
      rw e (unfold lookup in sym (none_later k l.window (window_of now) past later c.bounded))
]

module _ (limit : ℕ) (key : Bytes) (now : ℕ) (l : Limiter) (past : List Request) (t : ℕ) where
  limited-Counts :
      Counts l past t → t ≤ now → Counts (limited limit key now l).0 (past ++ (key, now) ∷ []) now
  unfolding limited
  limited-Counts c le = record {
    at_window = refl;
    counted = λ k.
        rw
          (lookup-increment k key (current_counts now l), current_counts-lookup l past t now k c le)
          (rw count-append (ground arith));
    bounded =
        All-append _ past _
          (All-imply _ _ past
            (λ r h. let old : window_of r.1 ≤ l.window = h in omega (arith, c.at_window)) c.bounded)
          (omega arith, tt);
  }

  limited-count :
      Counts l past t
      → t ≤ now
      → (limited limit key now l).1 ≡ record {
        limit = limit;
        remaining = limit - suc (count (is_in key (window_of now)) past);
        reset = window_of now + 60;
        retry_after =
            if ltb limit (suc (count (is_in key (window_of now)) past))
            then some (window_of now + 60 - now)
            else none;
        passes = leb (suc (count (is_in key (window_of now)) past)) limit;
      }
  unfolding limited
  limited-count c le =
      rw
        (
          lookup-increment key key (current_counts now l),
          str_eq_refl key,
          current_counts-lookup l past t now key c le,
        )
        refl

run-Counts :
    (limit : ℕ) (rs past : List Request) (l : Limiter) (t : ℕ) (r : Request)
    → Counts l past t
    → InOrder t (rs ++ r ∷ [])
    → (last : ℕ) × Counts (run limit rs l) (past ++ rs) last × (last ≤ r.1)
unfolding run
run-Counts limit [] past l t r c o = (t, rw (append-nil past) c, o.0)
run-Counts limit ((key, now) ∷ rs) past l t r c o =
    let (last, counts, le) =
      run-Counts limit rs (past ++ (key, now) ∷ []) (limited limit key now l).0 now r
        (limited-Counts limit key now l past t c o.0) o.1 in
    (last, rw (sym (append_assoc past ((key, now) ∷ []) rs)) counts, le)

-- As long as the clock does not go back, a request is let through exactly when fewer than the limit
-- came in its bucket and minute before it; a refused one is told to come back after 1 to 60 seconds,
-- when the next minute starts.
pub limited_exactly :
    (limit : ℕ) (past : List Request) (key : Bytes) (now : ℕ)
    → InOrder 0 (past ++ (key, now) ∷ [])
    → ((limited limit key now (run limit past no_requests)).1.passes
        ≡ ltb (count (is_in key (window_of now)) past) limit)
      × ((limited limit key now (run limit past no_requests)).1.passes ≡ false
          → (wait : ℕ) × ((limited limit key now (run limit past no_requests)).1.retry_after
              ≡ some wait)
            × (1 ≤ wait)
            × (wait ≤ 60)
            × ((now + wait) % 60 ≡ 0))
limited_exactly limit past key now o =
    let (last, c, le) = run-Counts limit past [] no_requests 0 (key, now) no_requests-Counts o in
    let answer = limited-count limit key now (run limit past no_requests) past last c le in
    rw answer (
      ground arith,
      λ refused.
          let over : ltb limit (suc (count (is_in key (window_of now)) past)) ≡ true =
            ground arith in
          (window_of now + 60 - now, rw over refl, omega arith, omega arith, omega arith),
    )
