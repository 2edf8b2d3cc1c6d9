-- ===== src/Sentry/Kind.antt =====
-- internal/sentry/analyze.go: what kind of frame it is, and the culprit of a stack.
use crashcart.Base.{
  ℕ, ◌+◌, Bool, true, false, not, ◌&&◌, ◌||◌, List, [], ◌∷◌, ◌++◌, Option, none, some,
  if◌then◌else◌, leb, ◌==◌, some_row, find_row,
}
use crashcart.Base.Int.{pos, eqb_ℤ}
use crashcart.Base.Text.{
  Bytes, codes, str_eq, has_prefix, has_suffix, contains, split_at, after_last, or_else,
}
use crashcart.Sentry.Frame.{Frame, is_in_app}

pub data Kind : Type 0 where
  kind_code kind_placeholder kind_sdk kind_runtime : Kind

abbrev pub is_code : Kind → Bool
is_code kind_code = true
is_code _ = false

-- Which field a pattern is matched against: `pkg`, `fn`, `path`.
pub data Field : Type 0 where
  pkg fn path : Field

abbrev pub field_of : Field → Frame → Bytes
field_of pkg f = f.package_name
field_of fn f = f.function
field_of path f = f.filename ++ (0 ∷ (f.abs_path ++ (0 ∷ f.module_name)))

pub record Noise : Type 0 where
  pub kind : Kind
  pub field : Field
  pub prefix : Bool
  pub pattern_text : Bytes

abbrev noise : Kind → Field → Bool → Bytes → Noise
noise kind field prefix text = record {
  kind = kind;
  field = field;
  prefix = prefix;
  pattern_text = text;
}

-- `frameNoise`.
abbrev pub frame_noise : List Noise
frame_noise =
    noise kind_sdk pkg true (codes "sentry")
    ∷ noise kind_sdk fn true (codes "sentry_")
    ∷ noise kind_sdk fn true (codes "sentry::")
    ∷ noise kind_sdk fn true (codes "sentry.")
    ∷ noise kind_sdk fn true (codes "io.sentry.")
    ∷ noise kind_sdk path true (codes "package:sentry")
    ∷ noise kind_sdk path true (codes "io.sentry.")
    ∷ noise kind_sdk path true (codes "Sentry.")
    ∷ noise kind_sdk path true (codes "sentry_")
    ∷ noise kind_sdk path false (codes "/sentry_sdk/")
    ∷ noise kind_sdk path false (codes "/@sentry/")
    ∷ noise kind_sdk path false (codes "/sentry-")
    ∷ noise kind_sdk path false (codes "getsentry/sentry-go")
    ∷ noise kind_runtime pkg true (codes "__rustc")
    ∷ noise kind_runtime fn true (codes "__rustc::")
    ∷ noise kind_runtime fn true (codes "std::panicking::")
    ∷ noise kind_runtime fn true (codes "core::panicking::")
    ∷ noise kind_runtime fn true (codes "runtime.")
    ∷ []

-- A prefix must match where one of the joined fields starts.
unfoldable pub is_noise : Frame → Noise → Bool
is_noise f n =
    let v = field_of n.field f in
    if n.prefix
    then some_row (λ part. has_prefix part n.pattern_text) (split_at 0 v)
    else contains v n.pattern_text

unfoldable pub is_placeholder : Bytes → Bool
is_placeholder v = has_prefix v (codes "<") && has_suffix v (codes ">")

abbrev is_empty : Bytes → Bool
is_empty s = str_eq s []

abbrev kind_of : Option Noise → Kind
kind_of none = kind_code
kind_of (some n) = n.kind

-- `FrameKind`.
unfoldable pub frame_kind : Frame → Kind
frame_kind f =
    let has_file = not (is_empty f.filename) || not (is_empty f.abs_path) in
    let no_line = eqb_ℤ f.lineno (pos 0) in
    if (is_placeholder f.function && not has_file && no_line)
      || (is_empty f.function
          && no_line
          && (is_placeholder f.filename || is_placeholder f.abs_path))
      || (is_empty f.function && not has_file && is_empty f.module_name && is_empty f.instr_addr)
    then kind_placeholder
    else if (str_eq f.module_name (codes "java.lang.Thread")
          && str_eq f.function (codes "getStackTrace"))
        || str_eq f.function (codes "gopanic")
        || (str_eq f.package_name (codes "std")
            || str_eq f.package_name (codes "core")
            || str_eq f.package_name (codes "alloc"))
    then kind_runtime
    else kind_of (find_row (is_noise f) frame_noise)

-- `baseName`: "?" for nothing.
unfoldable pub base_name : Bytes → Bytes
base_name p =
    let base = or_else (after_last (λ c. c == b'/' || c == b'\\') p) p in
    if is_empty base then codes "?" else base

abbrev pub is_code_frame : Frame → Bool
is_code_frame f = is_code (frame_kind f)

abbrev rank : Frame → ℕ
rank f =
    (if not (is_empty f.module_name) || not (is_empty f.filename) || not (is_empty f.abs_path)
      then 1
      else 0)
    + (if is_in_app f then 2 else 0)

abbrev better : Option Frame → Frame → Frame
better none f = f
better (some best) f = if leb (rank best) (rank f) then f else best

-- The last code frame of the highest rank.
unfoldable pub best_frame : Option Frame → List Frame → Option Frame
best_frame best [] = best
best_frame best (f ∷ frames) =
    let kept = best_frame (some (better best f)) frames in
    let skipped = best_frame best frames in if is_code_frame f then kept else skipped

unfoldable pub culprit_of : Option Frame → Bytes
culprit_of none = []
culprit_of (some f) =
    let loc =
      if not (is_empty f.module_name)
      then f.module_name
      else if not (is_empty f.filename)
      then f.filename
      else base_name f.abs_path in
    if is_empty f.function && is_empty f.filename && is_empty f.abs_path && is_empty f.module_name
    then []
    else if is_empty f.function
    then loc
    else if is_empty loc
    then f.function
    else loc ++ (codes " in " ++ f.function)

-- `Culprit`.
unfoldable pub culprit : List Frame → Bytes
unfolding best_frame
culprit frames = culprit_of (best_frame none frames)
