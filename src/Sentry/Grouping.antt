-- ===== src/Sentry/Grouping.antt =====
-- What the fingerprint of internal/sentry/analyze.go does not depend on.
use crashcart.Base.{
  ℕ, zero, suc, ◌-◌, ◌≡◌, refl, sym, Bool, true, false, not, List, [], ◌∷◌, map, ltb, keep, drop,
  length, some_row, Bool-cases, inl, inr, ap, ◌∙◌, All, All-always, All-imply,
}
use crashcart.Base.Int.{ℤ, pos, eqb_ℤ}
use crashcart.Base.Text.{Bytes}
use crashcart.Sentry.Frame.{Frame, is_in_app}
use crashcart.Sentry.Event.{Event}
use crashcart.Sentry.Kind.{frame_kind, is_code_frame, is_noise}
use crashcart.Sentry.Images.{Range, image_table}
use crashcart.Sentry.Signature.{
  all_anonymous, anonymous, or_all, last_five, selected, function_text, frame_part, keeps_lines,
  frame_signature, default_signature, signature, signature_of, chain_types, groupable_message,
  has_message, fingerprint, is_default_token,
}

-- A frame and the line that an edit moved it to.
abbrev Moved : Type 0
Moved = Frame × ℤ

abbrev pub at_line : Frame × ℤ → Frame
at_line (f, line) = record f { lineno = line }

abbrev pub as_was : Frame × ℤ → Frame
as_was (f, line) = f

-- A line stays a line: 0 says that there is none.
abbrev pub HasLine : Frame × ℤ → Type 0
HasLine (f, line) = eqb_ℤ line (pos 0) ≡ eqb_ℤ f.lineno (pos 0)

same_kind : (m : Moved) → HasLine m → is_code_frame (at_line m) ≡ is_code_frame (as_was m)
unfolding frame_kind is_noise
same_kind (f, line) h = rw h refl

module _ (g : Moved → Frame) (p : Frame → Bool) where
  keep-map : (ms : List Moved) → keep p (map g ms) ≡ map g (keep (λ m. p (g m)) ms)
  keep-map [] = refl
  keep-map (m ∷ ms) = elim (Bool-cases (p (g m))) [
    | inl e ↦ rw e (ap (λ r. g m ∷ r) (keep-map ms))
    | inr e ↦ rw e (keep-map ms)
  ]

keep-same : (p q : Moved → Bool) (ms : List Moved) → All (λ m. p m ≡ q m) ms → keep p ms ≡ keep q ms
keep-same p q [] h = refl
keep-same p q (m ∷ ms) h = rw (h.0, keep-same p q ms h.1) refl

length-map : (g : Moved → Frame) (ms : List Moved) → length (map g ms) ≡ length ms
length-map g [] = refl
length-map g (m ∷ ms) = ap suc (length-map g ms)

drop-map : (g : Moved → Frame) (n : ℕ) (ms : List Moved) → drop n (map g ms) ≡ map g (drop n ms)
drop-map g zero ms = refl
drop-map g (suc n) [] = refl
drop-map g (suc n) (m ∷ ms) = drop-map g n ms

or_all-map :
    (g : Moved → Frame) (a b : List Moved) → or_all (map g a) (map g b) ≡ map g (or_all a b)
or_all-map g [] b = refl
or_all-map g (m ∷ a) b = refl

last_five-map : (g : Moved → Frame) (ms : List Moved) → last_five (map g ms) ≡ map g (last_five ms)
last_five-map g ms = rw (length-map g ms) (elim (Bool-cases (ltb 5 (length ms))) [
  | inl e ↦ rw e (drop-map g (length ms - 5) ms)
  | inr e ↦ rw e refl
])

-- The frames that sign, with both of their lines.
selected_moved : List Moved → List Moved
selected_moved ms =
    let all = keep (λ m. is_code_frame (as_was m)) ms in
    last_five (or_all (keep (λ m. is_in_app (as_was m)) all) all)

IsSameApp : (Moved → Frame) → Type 0
IsSameApp g = (m : Moved) → is_in_app (g m) ≡ is_in_app (as_was m)

selected-map :
    (g : Moved → Frame) (ms : List Moved)
    → All (λ m. is_code_frame (g m) ≡ is_code_frame (as_was m)) ms
    → IsSameApp g
    → selected (map g ms) ≡ map g (selected_moved ms)
unfolding selected selected_moved IsSameApp
selected-map g ms code app =
    let all = keep (λ m. is_code_frame (as_was m)) ms in
    let kept : keep is_code_frame (map g ms) ≡ map g all =
      keep-map g is_code_frame ms
      ∙ ap (map g) (keep-same (λ m. is_code_frame (g m)) (λ m. is_code_frame (as_was m)) ms code) in
    let kept_app : keep is_in_app (map g all) ≡ map g (keep (λ m. is_in_app (as_was m)) all) =
      keep-map g is_in_app all
      ∙ ap (map g) (
          keep-same (λ m. is_in_app (g m)) (λ m. is_in_app (as_was m)) all
            (All-always (λ m. is_in_app (g m) ≡ is_in_app (as_was m)) all app)) in
    rw (kept, kept_app, or_all-map g (keep (λ m. is_in_app (as_was m)) all) all)
      (last_five-map g (or_all (keep (λ m. is_in_app (as_was m)) all) all))

module _ (ms : List Moved) (lines : All HasLine ms) where
  selected-at_line : selected (map at_line ms) ≡ map at_line (selected_moved ms)
  unfolding is_in_app IsSameApp
  selected-at_line =
      selected-map at_line ms (All-imply HasLine _ ms (λ m h. same_kind m h) lines) (λ m. refl)

  selected-as_was : selected (map as_was ms) ≡ map as_was (selected_moved ms)
  unfolding IsSameApp
  selected-as_was =
      selected-map as_was ms
        (All-always (λ m. is_code_frame (as_was m) ≡ is_code_frame (as_was m)) ms (λ m. refl))
        (λ m. refl)

  same_count :
      length (keep is_code_frame (map at_line ms)) ≡ length (keep is_code_frame (map as_was ms))
  same_count =
      let same =
        keep-same (λ m. is_code_frame (at_line m)) (λ m. is_code_frame (as_was m)) ms
          (All-imply HasLine _ ms (λ m h. same_kind m h) lines) in
      rw (keep-map at_line is_code_frame ms, keep-map as_was is_code_frame ms, same)
        (length-map at_line (keep (λ m. is_code_frame (as_was m)) ms)
          ∙ sym (length-map as_was (keep (λ m. is_code_frame (as_was m)) ms)))

same_anonymous : (ms : List Moved) → all_anonymous (map at_line ms) ≡ all_anonymous (map as_was ms)
unfolding all_anonymous
same_anonymous ms = rw (length-map at_line ms, length-map as_was ms, same ms) refl
  where
    same :
        (ms : List Moved)
        → some_row (λ f. not (anonymous f.function)) (map at_line ms)
          ≡ some_row (λ f. not (anonymous f.function)) (map as_was ms)
    same [] = refl
    same (m ∷ ms) = rw (same ms) refl

same_parts :
    (images : List Range) (ms : List Moved)
    → map (frame_part images false) (map at_line ms) ≡ map (frame_part images false) (map as_was ms)
unfolding frame_part function_text
same_parts images [] = refl
same_parts images (m ∷ ms) = rw (same_parts images ms) refl

-- An edit that only moves lines splits no issue: on a stack of two or more code frames whose functions
-- have names, frames at other lines give the same fingerprint, if a frame without a line stays so.
pub fingerprint-at_line :
    (normalize : Bytes → Bytes) (sha256 : Bytes → Bytes) (e : Event) (ms : List (Frame × ℤ))
    → All HasLine ms
    → keeps_lines (map as_was ms) ≡ false
    → fingerprint normalize sha256 e (map at_line ms)
      ≡ fingerprint normalize sha256 e (map as_was ms)
unfolding fingerprint signature
fingerprint-at_line normalize sha256 e ms lines h = rw (same_default ms lines h) refl
  where
    same_lines :
        (ms : List Moved)
        → All HasLine ms
        → keeps_lines (map at_line ms) ≡ keeps_lines (map as_was ms)
    same_lines ms lines =
        unfold keeps_lines in
        rw
          (
            same_count ms lines,
            selected-at_line ms lines,
            selected-as_was ms lines,
            same_anonymous (selected_moved ms),
          )
          refl

    same_signature :
        (ms : List Moved)
        → All HasLine ms
        → keeps_lines (map as_was ms) ≡ false
        → frame_signature e (map at_line ms) ≡ frame_signature e (map as_was ms)
    same_signature ms lines h =
        unfold frame_signature in
        rw (same_lines ms lines, h, selected-at_line ms lines, selected-as_was ms lines)
          (same_parts (image_table e.debug_images) (selected_moved ms))

    same_default :
        (ms : List Moved)
        → All HasLine ms
        → keeps_lines (map as_was ms) ≡ false
        → default_signature normalize e (map at_line ms)
          ≡ default_signature normalize e (map as_was ms)
    same_default ms lines h = unfold default_signature in rw (same_signature ms lines h) refl

-- `["{{ default }}"]` is the default grouping itself.
pub fingerprint-default :
    (normalize : Bytes → Bytes) (sha256 : Bytes → Bytes) (e : Event) (frames : List Frame)
    (p : Bytes)
    → is_default_token p ≡ true
    → fingerprint normalize sha256 (record e { sdk_fingerprint = p ∷ [] }) frames
      ≡ fingerprint normalize sha256 (record e { sdk_fingerprint = [] }) frames
unfolding fingerprint signature signature_of default_signature frame_signature chain_types
    groupable_message has_message
fingerprint-default normalize sha256 e frames p h = rw h refl
