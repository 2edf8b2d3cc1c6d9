-- ===== src/Monitors/Slots.antt =====
-- The slots that `monitorMissed` (internal/alerts/monitors.go) steps through, in at most 10000 rounds,
-- and the one that it ends on when the rounds are enough.
use crashcart.Base.{
  ℕ, zero, suc, ◌*◌, ◌≤◌, ◌≡◌, refl, inl, inr, List, [], ◌∷◌, if◌then◌else◌, arith, All, Bool-cases,
}
use crashcart.Base.Int.{ℤ, pos, ◌+ℤ◌, ◌≤ℤ◌, ◌<ℤ◌, ltb_ℤ, +ℤ_parts}
use crashcart.Monitors.Schedule.{Time, Schedule}

abbrev pub max_rounds : ℕ
max_rounds = 10000

-- One round of the loop: the schedule's next time, and the check-in margin.
abbrev pub slot_after : Schedule → ℤ → Time → Time
slot_after sched margin next = sched next +ℤ margin

-- `for i := 0; i < 10000 && !next.After(now); i++`, on the rounds left.
unfoldable pub advance_slots : ℕ → Schedule → ℤ → Time → Time → Time
advance_slots zero sched margin now next = next
advance_slots (suc rounds) sched margin now next =
    let later = advance_slots rounds sched margin now (slot_after sched margin next) in
    if ltb_ℤ now next then next else later

-- The slot that `k` rounds lead to, and those before it.
unfoldable pub slot : Schedule → ℤ → Time → ℕ → Time
slot sched margin next zero = next
slot sched margin next (suc k) = slot sched margin (slot_after sched margin next) k

unfoldable pub slots_before : Schedule → ℤ → Time → ℕ → List Time
slots_before sched margin next zero = []
slots_before sched margin next (suc k) =
    next ∷ slots_before sched margin (slot_after sched margin next) k

module _ (sched : Schedule) (margin now : ℤ) where
  -- Where every slot lies at least `step` after the one before, the margin is not negative and the
  -- rounds cover the time since `next`, the loop ends on a slot after now, and every slot that it
  -- passed over is not after now: it is the first one.
  pub advance_slots-first :
      (step rounds : ℕ) (next : Time)
      → ((t : Time) → t +ℤ pos step ≤ℤ sched t)
      → pos 0 ≤ℤ margin
      → now <ℤ next +ℤ pos (rounds * step)
      → let r = advance_slots rounds sched margin now next in
        (now <ℤ r)
        × ((k : ℕ) × (k ≤ rounds)
            × (r ≡ slot sched margin next k)
            × All (λ t. t ≤ℤ now) (slots_before sched margin next k))
  unfolding advance_slots slot slots_before
  advance_slots-first step zero next grows m h =
      (omega (arith, +ℤ_parts next (pos (0 * step))), (0, omega arith, refl, tt))
  advance_slots-first step (suc rounds) next grows m h = elim (Bool-cases (ltb_ℤ now next)) [
    | inl after ↦ rw after (ground arith, (0, omega arith, refl, tt))
    | inr not_yet ↦
        let (p, (k, b, e, q)) =
          advance_slots-first step rounds (slot_after sched margin next) grows m (
            omega (
              arith,
              grows next,
              +ℤ_parts next (pos step),
              +ℤ_parts (sched next) margin,
              +ℤ_parts (slot_after sched margin next) (pos (rounds * step)),
              +ℤ_parts next (pos (suc rounds * step)),
            )) in
        rw not_yet (p, (suc k, omega arith, e, (ground arith, q)))
  ]
