-- ===== src/Sentry/Signature.antt =====
-- internal/sentry/analyze.go: the signature and the fingerprint that group events into issues. The
-- pattern of what varies in a message is a Go regexp, a parameter, as is SHA-256.
use crashcart.Base.{
  ℕ, zero, suc, ◌-◌, Bool, false, not, ◌&&◌, ◌||◌, List, [], ◌∷◌, ◌++◌, map, none, some,
  if◌then◌else◌, leb, ltb, keep, take, drop, length, some_row,
}
use crashcart.Base.Int.{pos, ltb_ℤ}
use crashcart.Base.Text.{
  Bytes, codes, str_eq, has_prefix, has_suffix, contains, cut_at, join, trim_space, lower_byte,
}
use crashcart.Base.Print.{itoa}
use crashcart.Sentry.Clean.{truncate}
use crashcart.Sentry.Frame.{Frame, Exception, is_in_app}
use crashcart.Sentry.Event.{Event, frames}
use crashcart.Sentry.Kind.{is_code_frame, base_name}
use crashcart.Sentry.Images.{Range, image_table, relative}
use crashcart.Sentry.Id.{derived_id}

abbrev pub is_empty : Bytes → Bool
is_empty s = str_eq s []

abbrev pub anonymous : Bytes → Bool
anonymous fn =
    is_empty fn
    || has_suffix fn (codes "<fn>")
    || has_suffix fn (codes "<anonymous>")
    || has_prefix fn (codes "<")
    || contains fn (codes "{closure")

-- `allAnonymous`.
unfoldable pub all_anonymous : List Frame → Bool
all_anonymous frames =
    not (some_row (λ f. not (anonymous f.function)) frames) && ltb 0 (length frames)

abbrev pub or_all : {A : Type 0} → List A → List A → List A
or_all [] all = all
or_all (f ∷ sel) all = f ∷ sel

-- The last five.
abbrev pub last_five : {A : Type 0} → List A → List A
last_five sel = if ltb 5 (length sel) then drop (length sel - 5) sel else sel

-- The frames that sign: the code frames in the application, or all code frames, the last five.
unfoldable pub selected : List Frame → List Frame
selected frames = let all = keep is_code_frame frames in last_five (or_all (keep is_in_app all) all)

abbrev pub before_query : Bytes → Bytes
before_query s = elim (cut_at b'?' s) [ none ↦ s | some (a, b) ↦ a ]

-- The name of the function, or of the image and offset, or of the image.
unfoldable pub function_text : List Range → Frame → Bytes
function_text images f =
    let rel = relative images f.instr_addr in
    let known =
      if is_empty f.function && not (is_empty f.instr_addr)
      then if is_empty rel && not (is_empty f.package_name)
        then base_name f.package_name ++ codes "+?"
        else rel
      else f.function in
    if is_empty known then codes "?" else known

unfoldable pub frame_part : List Range → Bool → Frame → Bytes
unfolding function_text
frame_part images keep_line f =
    let file = before_query f.filename in
    let fn = function_text images f in
    base_name (if is_empty file then f.module_name else file)
    ++ (b':' ∷ (if keep_line && ltb_ℤ (pos 0) f.lineno then fn ++ (b':' ∷ itoa f.lineno) else fn))

-- Line numbers are kept where the functions do not tell places apart.
unfoldable pub keeps_lines : List Frame → Bool
keeps_lines frames = leb (length (keep is_code_frame frames)) 1 || all_anonymous (selected frames)

-- `frameSignature`.
unfoldable pub frame_signature : Event → List Frame → List Bytes
unfolding frame_part
frame_signature e frames =
    map (frame_part (image_table e.debug_images) (keeps_lines frames)) (selected frames)

abbrev pub no_message : Bytes
no_message = codes "(no message)"

-- `hasMessage`.
unfoldable pub has_message : Event → Bool
has_message e = not (is_empty e.message) && not (str_eq e.message no_message)

-- `groupableMessage`.
unfoldable pub groupable_message : Event → Bool
groupable_message e =
    (str_eq e.level (codes "fatal") || str_eq e.level (codes "error")) && has_message e

-- `chainTypes`.
unfoldable pub chain_types : Event → Bytes
chain_types e =
    if leb (length e.exceptions) 1
    then e.error_type
    else join (codes "<") (map (λ (x : Exception). x.error_type) e.exceptions)

-- `isDefaultToken`: "{{ default }}" in any spacing and case.
unfoldable pub is_default_token : Bytes → Bool
is_default_token s =
    let t = trim_space s in
    has_prefix t (codes "{{")
    && has_suffix t (codes "}}")
    && str_eq (map lower_byte (trim_space (take (length t - 4) (drop 2 t)))) (codes "default")

module _ (normalize_message : Bytes → Bytes) where
  -- `defaultSignature`.
  unfoldable pub default_signature : Event → List Frame → Bytes
  default_signature e frames =
      if not (is_empty e.error_type)
      then e.platform
        ++ (b':' ∷ (chain_types e ++ (b':' ∷ join (codes "|") (frame_signature e frames))))
      else if groupable_message e
      then codes "msg:"
        ++ (e.platform
            ++ (b':'
                ∷ (normalize_message e.message
                    ++ (b':' ∷ join (codes "|") (frame_signature e frames)))))
      else []

  abbrev sdk_part : Bytes → Bytes → Bytes
  sdk_part sig p = if is_default_token p then codes "{{default}}=" ++ sig else p

  abbrev is_default_alone : List Bytes → Bool
  is_default_alone (p ∷ []) = is_default_token p
  is_default_alone ps = false

  -- The signature with the SDK's own fingerprint: the default grouping alone, or split by its parts.
  unfoldable pub signature_of : Bytes → List Bytes → Bytes
  signature_of sig [] = sig
  signature_of sig (p ∷ ps) =
      if is_default_alone (p ∷ ps)
      then sig
      else codes "sdk:" ++ join (codes "|") (map (sdk_part sig) (p ∷ ps))

  unfoldable pub signature : Event → List Frame → Bytes
  unfolding signature_of
  signature e frames = signature_of (default_signature e frames) e.sdk_fingerprint

  -- `Fingerprint`: the empty identifier for an event that nothing groups.
  unfoldable pub fingerprint : (Bytes → Bytes) → Event → List Frame → Bytes
  unfolding signature
  fingerprint sha256 e frames =
      let sig = signature e frames in if is_empty sig then [] else derived_id sha256 sig

abbrev first_line : Bytes → Bytes
first_line s = elim (cut_at 10 (trim_space s)) [ none ↦ trim_space s | some (a, b) ↦ a ]

abbrev primary_value : List Exception → ℕ → Bytes
primary_value [] i = []
primary_value (x ∷ xs) zero = x.value
primary_value (x ∷ xs) (suc i) = primary_value xs i

-- `IssueTitle`.
unfoldable pub issue_title : Event → Bytes
issue_title e =
    let value = first_line (primary_value e.exceptions e.primary) in
    let titled =
      λ (t : Bytes). if is_empty value then t else t ++ (codes ": " ++ truncate value 80) in
    if not (is_empty e.error_type)
    then titled e.error_type
    else if has_message e
    then truncate (first_line e.message) 100
    else titled (codes "<unknown>")

-- `NeedsSymbolication`.
unfoldable pub needs_symbolication : Event → Bool
needs_symbolication e =
    let stack = frames e in
    let platform = λ (name : Bytes). str_eq e.platform name in
    some_row (λ (f : Frame). not (is_empty f.instr_addr) && is_empty f.function) stack
    || (if platform (codes "android") || platform (codes "java") || platform (codes "kotlin")
        then ltb 0 (length stack)
        else if platform (codes "javascript")
            || platform (codes "node")
            || platform (codes "react-native")
        then some_row (λ (f : Frame). ltb_ℤ (pos 0) f.colno) stack
        else false)
