-- ===== src/Symbolicate/Inlined.antt =====
-- What internal/symbolicate/proguard.go makes of one frame.
use mathlib.Core.List.{reverse-cons}
use crashcart.Base.{
  ℕ, ◌+◌, ◌-◌, ◌≤◌, ◌<◌, ◌≡◌, refl, sym, suc, true, not, ◌&&◌, List, [], ◌∷◌, ◌++◌, map, reverse,
  arith, find_row, keep-find_row, All, inl, inr, ap, ◌∙◌,
}
use crashcart.Base.Int.{ℤ, pos, ◌+ℤ◌, ◌-ℤ◌, ltb_ℤ, leb_ℤ, int64, int64_pos, int_laws}
use crashcart.Base.Text.{Bytes, or_else}
use crashcart.Sentry.Frame.{Frame}
use crashcart.Symbolicate.ProGuard.{
  ProguardMethod, ProGuardMapping, orig_line, covers, chain_of, or_declared, expanded, expand_by,
  last_of,
}

-- A line inside an entry's obfuscated range stays inside its original range, when that range is as
-- long as the obfuscated one and the lines are those of a file.
pub orig_line-within :
    (c : ProguardMethod) (obf len line start : ℕ)
    → c.obf_start ≡ pos obf
    → c.orig_start ≡ pos (suc start)
    → c.orig_end ≡ pos (suc start + suc len)
    → c.has_range ≡ true
    → obf ≤ line
    → line ≤ obf + suc len
    → line < 4611686018427387904
    → suc start < 4611686018427387904
    → (k : ℕ) × (orig_line c (pos line) ≡ pos k)
      × (suc start ≤ k)
      × (k ≤ suc start + suc len)
      × (k ≡ suc start + (line - obf))
unfolding orig_line
orig_line-within c obf len line start eo es ee r lo hi small small_start =
    let diff : (pos line -ℤ pos obf) ≡ pos (line - obf) = omega int_laws in
    let word : int64 (pos (line - obf)) ≡ pos (line - obf) = int64_pos (line - obf) (omega arith) in
    let sum : (pos (suc start) +ℤ pos (line - obf)) ≡ pos (suc start + (line - obf)) =
      omega int_laws in
    let word_sum : int64 (pos (suc start + (line - obf))) ≡ pos (suc start + (line - obf)) =
      int64_pos (suc start + (line - obf)) (omega arith) in
    let guard : (ltb_ℤ (pos 0) (pos (suc start))
          && ltb_ℤ (pos (suc start)) (pos (suc start + suc len))
          && true
          && leb_ℤ (pos obf) (pos line))
        ≡ true =
      ground arith in
    (
      suc start + (line - obf),
      rw (eo, es, ee, r, guard, diff, word, sum, word_sum) refl,
      omega arith,
      omega arith,
      refl,
    )

-- What expanding leaves alone in a frame.
abbrev pub IsKept : Frame → Frame → Type 0
IsKept f g =
    (g.in_app ≡ f.in_app)
    × (g.instr_addr ≡ f.instr_addr)
    × (g.image_addr ≡ f.image_addr)
    × (g.symbol_addr ≡ f.symbol_addr)
    × (g.abs_path ≡ f.abs_path)
    × (g.colno ≡ f.colno)
    × (g.package_name ≡ f.package_name)

expanded-IsKept :
    (m : ProGuardMapping) (class : Bytes) (f : Frame) (cs : List ProguardMethod)
    → All (IsKept f) (map (expanded m class f) cs)
unfolding expanded
expanded-IsKept m class f [] = tt
expanded-IsKept m class f (c ∷ cs) =
    ((refl, refl, refl, refl, refl, refl, refl), expanded-IsKept m class f cs)

last_of-append : (f : Frame) (gs : List Frame) (g : Frame) → last_of f (gs ++ g ∷ []) ≡ g
last_of-append f [] g = refl
last_of-append f (x ∷ gs) g = last_of-append x gs g

map-append :
    (h : ProguardMethod → Frame) (xs ys : List ProguardMethod)
    → map h (xs ++ ys) ≡ map h xs ++ map h ys
map-append h [] ys = refl
map-append h (x ∷ xs) ys = ap (λ r. h x ∷ r) (map-append h xs ys)

last_of-map-reverse :
    (f : Frame) (h : ProguardMethod → Frame) (c : ProguardMethod) (cs : List ProguardMethod)
    → last_of f (map h (reverse (c ∷ cs))) ≡ h c
last_of-map-reverse f h c cs =
    rw (reverse-cons c cs, map-append h (reverse cs) (c ∷ []))
      (last_of-append f (map h (reverse cs)) (h c))

chain_of-first :
    (line : ℤ) (c : ProguardMethod) (cs : List ProguardMethod)
    → (k : ProguardMethod) × (ks : List ProguardMethod) × (chain_of line c cs ≡ k ∷ ks)
      × (k
          ≡ or_else
              (find_row (covers line) (c ∷ cs))
              (or_else (find_row (λ k. not k.has_range) (c ∷ cs)) c))
unfolding chain_of
chain_of-first line c cs = elim (keep-find_row (covers line) (c ∷ cs)) [
  | inl (kept, found) ↦ (
    or_else (find_row (λ k. not k.has_range) (c ∷ cs)) c,
    [],
    ap (or_declared c cs) kept,
    ap (λ o. or_else o (or_else (find_row (λ k. not k.has_range) (c ∷ cs)) c)) (sym found),
  )
  | inr (k, ks, kept, found) ↦ (
    k,
    ks,
    ap (or_declared c cs) kept,
    ap (λ o. or_else o (or_else (find_row (λ k. not k.has_range) (c ∷ cs)) c)) (sym found),
  )
]

-- The innermost frame comes of the first entry, in file order, that covers the line; if none does, of
-- the first without a range; else of the first. Every frame keeps the flag, the three addresses, the path,
-- the column and the package of the frame it comes of.
pub expand_by-first :
    (m : ProGuardMapping) (class : Bytes) (f : Frame) (c : ProguardMethod)
    (cs : List ProguardMethod)
    → (last_of f (expand_by m class f (c ∷ cs))
        ≡ expanded m class f (
            or_else
              (find_row (covers f.lineno) (c ∷ cs))
              (or_else (find_row (λ k. not k.has_range) (c ∷ cs)) c)))
      × All (IsKept f) (expand_by m class f (c ∷ cs))
unfolding expand_by
expand_by-first m class f c cs =
    let (k, ks, chain, first) = chain_of-first f.lineno c cs in
    (
      ap (λ ks. last_of f (map (expanded m class f) (reverse ks))) chain
          ∙ last_of-map-reverse f (expanded m class f) k ks
          ∙ ap (expanded m class f) first,
      expanded-IsKept m class f (reverse (chain_of f.lineno c cs)),
    )
