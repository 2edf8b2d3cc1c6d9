-- ===== src/Sentry/Stored.antt =====
-- internal/sentry/envelope.go: the bounds that parsed events keep to.
use mathlib.Core.Path.{subst}
use crashcart.Base.{
  ℕ, zero, suc, ◌+◌, ◌*◌, ◌%◌, ◌≤◌, ◌<◌, ◌≡◌, refl, ap, ◌∙◌, sym, ◌⊎◌, Bool, true, false, not, ◌||◌,
  List, [], ◌∷◌, map, Option, none, some, if◌then◌else◌, arith, ltb, ◌==◌, length, some_row,
  Bool-cases, inl, inr, All, All-keep, All-imply,
}
use crashcart.Base.Text.{Bytes, str_eq, str_eq_iff, str_eq_refl, or_else, trim_space}
use crashcart.Base.Runes.{runes}
use crashcart.Sentry.Json.{Library, RawEvent, type_errors_dropped}
use crashcart.Sentry.Frame.{Frame, Exception}
use crashcart.Sentry.Event.{Event}
use crashcart.Sentry.Clean.{clean, clean-bounded}
use crashcart.Sentry.Times.{clamp_future, minute, to_microsecond, or_time, parse_timestamp}
use crashcart.Sentry.Sanitize.{
  sanitize, clean_tags, clean_found, find_tag, keys_of, clean_tag, put_tag, delete_tag,
  clean_exception, clean_frame,
}
use crashcart.Sentry.Parse.{
  main_exception, main_from, is_main, lend_frames, exception_of, event_of, parse_event,
  object_event, sanitized, thread_frames,
}

-- A text that a column takes: no NUL, and at most so many runes of at most four bytes.
abbrev pub IsText : ℕ → Bytes → Type 0
IsText n s = All (λ c. (c == 0) ≡ false) s × (length s ≤ 4 * n)

-- A key of at most 32 runes, and a value.
abbrev pub IsTag : Bytes × Bytes → Type 0
IsTag kv = IsText 33 kv.0 × (length (runes kv.0) ≤ 32) × IsText 200 kv.1

-- A tag that is clean, or that the loop has still to come to.
Pending : List Bytes → Bytes × Bytes → Type 0
Pending keys kv = IsTag kv ⊎ (some_row (λ k. str_eq k kv.0) keys ≡ true)

-- Deleting a key leaves what the rest of the loop has to come to.
delete_tag-Pending :
    (key : Bytes) (entries : List Bytes) (tags : List (Bytes × Bytes))
    → All (Pending (key ∷ entries)) tags
    → All (Pending entries) (delete_tag key tags)
unfolding delete_tag Pending
delete_tag-Pending key entries [] h = tt
delete_tag-Pending key entries (kv ∷ tags) (p, h) = elim (Bool-cases (str_eq key kv.0)) [
  | inl e ↦ rw e (delete_tag-Pending key entries tags h)
  | inr e ↦ rw e (still kv p e, delete_tag-Pending key entries tags h)
]
  where
    still :
        (kv : Bytes × Bytes)
        → Pending (key ∷ entries) kv
        → str_eq key kv.0 ≡ false
        → Pending entries kv
    still kv (inl c) e = inl c
    still kv (inr q) e = inr (ground arith)

put_tag-Pending :
    (key value : Bytes) (entries : List Bytes) (tags : List (Bytes × Bytes))
    → IsTag (key, value)
    → All (Pending entries) (delete_tag key tags)
    → All (Pending entries) (put_tag key value tags)
unfolding put_tag Pending
put_tag-Pending key value entries tags c h = (inl c, h)

clean_tag-Pending :
    (key value : Bytes) (entries : List Bytes) (tags : List (Bytes × Bytes))
    → All (Pending (key ∷ entries)) tags
    → All (Pending entries) (clean_tag key value tags)
unfolding clean_tag
clean_tag-Pending key value entries tags h =
    let ck = clean key 33 in
    let deleted = delete_tag-Pending key entries tags h in
    elim (Bool-cases (str_eq (clean key 33) [] || ltb 32 (length (runes (clean key 33))))) [
      | inl e ↦ rw e deleted
      | inr e ↦
          let c : IsTag (clean key 33, clean value 200) =
            ((clean-bounded key 33, ground arith, clean-bounded value 200)) in
          elim (Bool-cases (str_eq (clean key 33) key)) [
            | inl f ↦
                rw (e, f)
                  (put_tag-Pending (clean key 33) (clean value 200) entries tags c (
                    subst (λ k. All (Pending entries) (delete_tag k tags))
                      (sym ((str_eq_iff (clean key 33) key).0 f)) deleted))
            | inr f ↦
                rw (e, f)
                  (put_tag-Pending (clean key 33) (clean value 200) entries (delete_tag key tags) c
                    (unfold delete_tag in
                      All-keep (Pending entries) (λ kv. not (str_eq (clean key 33) kv.0))
                        (delete_tag key tags) deleted))
          ]
    ]

nothing_left : (kv : Bytes × Bytes) → Pending [] kv → IsTag kv
unfolding Pending
nothing_left kv (inl c) = c
nothing_left kv (inr q) = ground arith

-- A key that is not found leaves what the rest of the loop has to come to.
absent-Pending :
    (key : Bytes) (entries : List Bytes) (tags : List (Bytes × Bytes))
    → find_tag key tags ≡ none
    → All (Pending (key ∷ entries)) tags
    → All (Pending entries) tags
unfolding find_tag Pending
absent-Pending key entries [] a h = tt
absent-Pending key entries ((k, v) ∷ tags) a (p, h) = elim (Bool-cases (str_eq key k)) [
  | inl e ↦ ground arith
  | inr e ↦ (still p e, absent-Pending key entries tags (ground arith) h)
]
  where
    still : Pending (key ∷ entries) (k, v) → str_eq key k ≡ false → Pending entries (k, v)
    still (inl c) e = inl c
    still (inr q) e = inr (ground arith)

clean_found-Pending :
    (key : Bytes) (entries : List Bytes) (tags : List (Bytes × Bytes)) (o : Option Bytes)
    → find_tag key tags ≡ o
    → All (Pending (key ∷ entries)) tags
    → All (Pending entries) (clean_found key o tags)
unfolding clean_found
clean_found-Pending key entries tags none e h = absent-Pending key entries tags e h
clean_found-Pending key entries tags (some value) e h = clean_tag-Pending key value entries tags h

clean_tags-IsTag :
    (keys : List Bytes) (tags : List (Bytes × Bytes))
    → All (Pending keys) tags
    → All IsTag (clean_tags keys tags)
unfolding clean_tags
clean_tags-IsTag [] tags h = All-imply (Pending []) IsTag tags nothing_left h
clean_tags-IsTag (key ∷ keys) tags h =
    clean_tags-IsTag keys (clean_found key (find_tag key tags) tags)
      (clean_found-Pending key keys tags (find_tag key tags) refl h)

every_tag-Pending : (tags : List (Bytes × Bytes)) → All (Pending (keys_of tags)) tags
unfolding Pending
every_tag-Pending [] = tt
every_tag-Pending (kv ∷ tags) = (
  inr (rw (str_eq_refl kv.0) refl),
  All-imply (Pending (keys_of tags)) (Pending (keys_of (kv ∷ tags))) tags (λ x p. later x p)
      (every_tag-Pending tags),
)
  where
    later : (x : Bytes × Bytes) → Pending (keys_of tags) x → Pending (keys_of (kv ∷ tags)) x
    later x (inl c) = inl c
    later x (inr q) = inr (ground arith)

-- The main exception is one of the exceptions.
main_from-in_range :
    (i : ℕ) (x : Exception) (xs : List Exception) → main_from i (x ∷ xs) < i + length (x ∷ xs)
unfolding main_from
main_from-in_range i x [] = elim (Bool-cases (is_main x [])) [
  | inl e ↦ rw e (ground arith)
  | inr e ↦ rw e (ground arith)
]
main_from-in_range i x (y ∷ xs) = elim (Bool-cases (is_main x (y ∷ xs))) [
  | inl e ↦ rw e (ground arith)
  | inr e ↦ rw e (omega (arith, main_from-in_range (suc i) y xs))
]

length-lend_frames :
    (fs : List Frame) (i : ℕ) (xs : List Exception) → length (lend_frames fs i xs) ≡ length xs
unfolding lend_frames
length-lend_frames fs i [] = refl
length-lend_frames fs zero (x ∷ xs) = refl
length-lend_frames fs (suc i) (x ∷ xs) = ap suc (length-lend_frames fs i xs)

pub record IsStoredFrame (f : Frame) : Type 0 where
  pub filename_text : IsText 1024 f.filename
  pub abs_path_text : IsText 1024 f.abs_path
  pub function_text : IsText 1024 f.function
  pub module_text : IsText 1024 f.module_name
  pub package_text : IsText 1024 f.package_name
  pub instr_addr_text : IsText 1024 f.instr_addr
  pub image_addr_text : IsText 1024 f.image_addr
  pub symbol_addr_text : IsText 1024 f.symbol_addr

pub record IsStoredException (x : Exception) : Type 0 where
  pub type_text : IsText 200 x.error_type
  pub value_text : IsText 500 x.value
  pub mechanism_text : IsText 200 x.mechanism
  pub frames_texts : All IsStoredFrame x.frames

-- What the rows of an event parsed at `now` rest on, but for the frames of its threads, which `sanitize`
-- leaves as they were sent.
pub record IsStored (now : ℕ) (e : Event) : Type 0 where
  pub platform_text : IsText 64 e.platform
  pub environment_text : IsText 64 e.environment
  pub transaction_text : IsText 200 e.transaction
  pub release_text : IsText 200 e.release
  pub message_text : IsText 500 e.message
  pub error_type_text : IsText 200 e.error_type
  pub device_model_text : IsText 200 e.device_model
  pub os_version_text : IsText 200 e.os_version
  pub sdk_name_text : IsText 100 e.sdk_name
  pub user_id_text : IsText 128 e.user_id
  pub tags_texts : All IsTag e.tags
  pub exceptions_texts : All IsStoredException e.exceptions
  pub primary_in_range : (length e.exceptions ≡ 0) ⊎ (e.primary < length e.exceptions)
  pub at_most_a_minute_ahead : e.timestamp ≤ now + minute
  pub in_microseconds : e.timestamp % 1000 ≡ 0

clean_frame-IsStoredFrame : (f : Frame) → IsStoredFrame (clean_frame f)
unfolding clean_frame
clean_frame-IsStoredFrame f = record {
  filename_text = clean-bounded f.filename 1024;
  abs_path_text = clean-bounded f.abs_path 1024;
  function_text = clean-bounded f.function 1024;
  module_text = clean-bounded f.module_name 1024;
  package_text = clean-bounded f.package_name 1024;
  instr_addr_text = clean-bounded f.instr_addr 1024;
  image_addr_text = clean-bounded f.image_addr 1024;
  symbol_addr_text = clean-bounded f.symbol_addr 1024;
}

cleaned_frames : (fs : List Frame) → All IsStoredFrame (map clean_frame fs)
cleaned_frames [] = tt
cleaned_frames (f ∷ fs) = (clean_frame-IsStoredFrame f, cleaned_frames fs)

clean_exception-IsStoredException : (x : Exception) → IsStoredException (clean_exception x)
unfolding clean_exception
clean_exception-IsStoredException x = record {
  type_text = clean-bounded x.error_type 200;
  value_text = clean-bounded x.value 500;
  mechanism_text = clean-bounded x.mechanism 200;
  frames_texts = cleaned_frames x.frames;
}

cleaned_exceptions : (xs : List Exception) → All IsStoredException (map clean_exception xs)
cleaned_exceptions [] = tt
cleaned_exceptions (x ∷ xs) = (clean_exception-IsStoredException x, cleaned_exceptions xs)

length-map : {A B : Type 0} (f : A → B) (xs : List A) → length (map f xs) ≡ length xs
length-map f [] = refl
length-map f (x ∷ xs) = ap suc (length-map f xs)

main_in_range :
    (xs : List Exception) (fs : List Frame)
    → (length (map clean_exception (lend_frames fs (main_exception xs) xs)) ≡ 0)
      ⊎ (main_exception xs < length (map clean_exception (lend_frames fs (main_exception xs) xs)))
unfolding main_exception
main_in_range [] fs = inl (unfold lend_frames in refl)
main_in_range (x ∷ xs) fs =
    let same =
      length-map clean_exception (lend_frames fs (main_from 0 (x ∷ xs)) (x ∷ xs))
      ∙ length-lend_frames fs (main_from 0 (x ∷ xs)) (x ∷ xs) in
    inr (rw same (omega (arith, main_from-in_range 0 x xs)))

clamped_time : (t now : ℕ) → (clamp_future t now).0 ≤ now + minute
unfolding clamp_future
clamped_time t now = elim (Bool-cases (ltb (now + minute) t)) [
  | inl e ↦ rw e (ground arith)
  | inr e ↦ rw e (ground arith)
]

microseconds : (t : ℕ) → to_microsecond t % 1000 ≡ 0
microseconds t = omega arith

module _ (lib : Library) (header_event_id : Bytes) (fallback : ℕ) (now : ℕ) where
  event_of-IsStored :
      (body : Bytes) (re : RawEvent)
      → IsStored now (sanitize (event_of lib header_event_id fallback body now re))
  unfolding sanitize event_of
  event_of-IsStored body re =
      let t = (clamp_future (or_time (parse_timestamp lib re.timestamp) fallback) now).0 in
      let e = event_of lib header_event_id fallback body now re in
      record {
        platform_text = clean-bounded e.platform 64;
        environment_text = clean-bounded e.environment 64;
        transaction_text = clean-bounded e.transaction 200;
        release_text = clean-bounded e.release 200;
        message_text = clean-bounded e.message 500;
        error_type_text = clean-bounded e.error_type 200;
        device_model_text = clean-bounded e.device_model 200;
        os_version_text = clean-bounded e.os_version 200;
        sdk_name_text = clean-bounded e.sdk_name 100;
        user_id_text = clean-bounded e.user_id 128;
        tags_texts = clean_tags-IsTag (keys_of e.tags) e.tags (every_tag-Pending e.tags);
        exceptions_texts = cleaned_exceptions e.exceptions;
        primary_in_range =
            main_in_range (map exception_of re.exceptions) (thread_frames re.threads);
        at_most_a_minute_ahead =
            omega (arith, clamped_time (or_time (parse_timestamp lib re.timestamp) fallback) now);
        in_microseconds = microseconds t;
      }

  sanitized-IsStored :
      (body : Bytes) (o : Option RawEvent) (e : Event)
      → sanitized lib header_event_id fallback body now o ≡ some e
      → IsStored now e
  sanitized-IsStored body none e h = ground arith
  sanitized-IsStored body (some re) e h =
      subst (IsStored now) (ap (λ o. or_else o e) h) (event_of-IsStored body re)

-- Of every event that `ParseEvent` returns the texts, the tags and the texts of the exceptions and their
-- frames hold no NUL and keep to the columns' bounds, the main exception is one of its exceptions, and
-- the time is at most a minute ahead of the server's, in whole microseconds. The frames of its threads
-- are not among them.
pub parse_event-IsStored :
    (lib : Library) (header_event_id : Bytes) (fallback : ℕ) (body : Bytes) (now : ℕ) (e : Event)
    → parse_event lib header_event_id fallback body now ≡ some e
    → IsStored now e
unfolding parse_event
parse_event-IsStored lib header_event_id fallback body now e h = stored (trim_space body) h
  where
    if_object :
        (b : Bool) (t : Bytes)
        → (if b
            then sanitized lib header_event_id fallback t now (type_errors_dropped (lib.event_of t))
            else none)
          ≡ some e
        → IsStored now e
    if_object true t h =
        sanitized-IsStored lib header_event_id fallback now t (type_errors_dropped (lib.event_of t))
          e h
    if_object false t h = ground arith

    stored : (t : Bytes) → object_event lib header_event_id fallback now t ≡ some e → IsStored now e
    stored [] h = ground arith
    stored (c ∷ s) h = if_object (c == b'{') (c ∷ s) h
