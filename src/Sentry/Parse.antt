-- ===== src/Sentry/Parse.antt =====
-- internal/sentry/envelope.go: `ParseEvent`, from one event's JSON to what is stored.
use crashcart.Base.{
  ℕ, zero, suc, ◌-◌, Bool, true, false, not, ◌||◌, List, [], ◌∷◌, ◌++◌, map, Option, none, some,
  if◌then◌else◌, ltb, ◌==◌, drop, length, get_elem?,
}
use crashcart.Base.Text.{Bytes, codes, str_eq, trim_space, or_else, is_some}
use crashcart.Sentry.Json.{
  Library, RawEvent, RawException, RawMechanism, RawThread, RawBreadcrumb, Formatted,
  type_errors_dropped,
}
use crashcart.Sentry.Frame.{Frame, Exception, DebugImage}
use crashcart.Sentry.Event.{Event, Breadcrumb, tag}
use crashcart.Sentry.Clean.{truncate, normalize_level, or_default_text}
use crashcart.Sentry.Id.{parse_id, derived_id}
use crashcart.Sentry.Times.{parse_timestamp, or_time, clamp_future, to_microsecond, scalar_string}
use crashcart.Sentry.Sanitize.{sanitize, put_tag, max_message}

abbrev thread_stack : RawThread → List Frame
thread_stack t = or_else t.stacktrace []

abbrev first_stack : List Frame → List Frame → List Frame
first_stack [] frames = frames
first_stack (f ∷ fs) frames = f ∷ fs

-- `threadFrames`, from the current stack found so far.
unfoldable pub threads_from : List Frame → List RawThread → List Frame
threads_from current [] = current
threads_from current (t ∷ ts) = elim (thread_stack t) [
  | [] ↦ threads_from current ts
  | f ∷ fs ↦
      let rest = threads_from (if t.current then first_stack current (f ∷ fs) else current) ts in
      if t.crashed then f ∷ fs else rest
]

unfoldable pub thread_frames : List RawThread → List Frame
unfolding threads_from
thread_frames threads = threads_from [] threads

abbrev pub is_last : List Exception → Bool
is_last [] = true
is_last (x ∷ xs) = false

-- The test of the loop of `mainException` for an exception and those after it.
abbrev pub is_main : Exception → List Exception → Bool
is_main x xs = if is_some x.exception_id then not (is_some x.parent_id) else is_last xs

-- `mainException` from the exception at index `i` on.
unfoldable pub main_from : ℕ → List Exception → ℕ
main_from i [] = i - 1
main_from i (x ∷ xs) = let rest = main_from (suc i) xs in if is_main x xs then i else rest

unfoldable pub main_exception : List Exception → ℕ
unfolding main_from
main_exception [] = 0
main_exception (x ∷ xs) = main_from 0 (x ∷ xs)

abbrev first_text : Bytes → Bytes → Bytes → Bytes
first_text a b otherwise =
    if not (str_eq a []) then a else if not (str_eq b []) then b else otherwise

abbrev formatted_or : Option Formatted → Bytes → Bytes
formatted_or none otherwise = otherwise
formatted_or (some m) otherwise = first_text m.formatted m.message otherwise

abbrev exception_text : Option RawException → Bytes
exception_text none = codes "(no message)"
exception_text (some x) =
    let t = or_default_text x.error_type (codes "Error") in
    if str_eq x.value [] then t else t ++ (codes ": " ++ x.value)

-- The message field: a string, else an object with the two texts.
abbrev message_or : Library → Bytes → Bytes → Bytes
message_or lib raw otherwise =
    if str_eq raw []
    then otherwise
    else let text = or_else (lib.text_of raw) [] in
      if not (str_eq text []) then text else formatted_or (lib.formatted_of raw) otherwise

-- `extractMessage`.
unfoldable pub extract_message : Library → RawEvent → ℕ → Bytes
extract_message lib re primary =
    formatted_or re.logentry
      (message_or lib re.message (exception_text (get_elem? re.exceptions primary)))

unfoldable pub put_object :
    Library → List (Bytes × Bytes) → List (Bytes × Bytes) → List (Bytes × Bytes)
put_object lib [] out = out
put_object lib ((k, v) ∷ kvs) out = put_object lib kvs (put_tag k (scalar_string lib v) out)

unfoldable pub put_pairs : Library → List (List Bytes) → List (Bytes × Bytes) → List (Bytes × Bytes)
put_pairs lib [] out = out
put_pairs lib ([] ∷ ps) out = put_pairs lib ps out
put_pairs lib ((a ∷ []) ∷ ps) out = put_pairs lib ps out
put_pairs lib ((a ∷ b ∷ more) ∷ ps) out =
    put_pairs lib ps (put_tag (scalar_string lib a) (scalar_string lib b) out)

abbrev pairs_or_none : Library → Option (List (List Bytes)) → List (Bytes × Bytes)
pairs_or_none lib none = []
pairs_or_none lib (some ps) = put_pairs lib ps []

abbrev object_or_pairs : Library → Bytes → Option (List (Bytes × Bytes)) → List (Bytes × Bytes)
object_or_pairs lib raw (some kvs) = put_object lib kvs []
object_or_pairs lib raw none = pairs_or_none lib (lib.arrays_of raw)

-- `parseTags`.
unfoldable pub parse_tags : Library → Bytes → List (Bytes × Bytes)
unfolding put_object put_pairs
parse_tags lib raw = if str_eq raw [] then [] else object_or_pairs lib raw (lib.object_of raw)

-- The `server_name` tag, unless the event has one.
unfoldable pub with_server_name : Bytes → List (Bytes × Bytes) → List (Bytes × Bytes)
with_server_name name tags =
    if str_eq name [] || is_some (tag (codes "server_name") tags)
    then tags
    else put_tag (codes "server_name") name tags

-- `lastBreadcrumbs`.
unfoldable pub last_breadcrumbs : List RawBreadcrumb → List RawBreadcrumb
last_breadcrumbs list = if ltb 20 (length list) then drop (length list - 20) list else list

unfoldable pub breadcrumb_of : Library → RawBreadcrumb → Breadcrumb
breadcrumb_of lib b =
    let t = parse_timestamp lib b.timestamp in
    record {
      timestamp = if t == 0 then [] else lib.format_rfc3339 t;
      breadcrumb_type = b.breadcrumb_type;
      category = or_default_text b.category (codes "default");
      message = b.message;
      level = or_default_text b.level (codes "info");
      data_json = b.data_json;
    }

abbrev mechanism_of : Option RawMechanism → RawMechanism
mechanism_of (some m) = m
mechanism_of none = record {
  mechanism_type = [];
  handled = none;
  exception_id = none;
  parent_id = none;
}

unfoldable pub exception_of : RawException → Exception
exception_of x =
    let m = mechanism_of x.mechanism in
    record {
      error_type = x.error_type;
      value = x.value;
      frames = or_else x.stacktrace [];
      handled = m.handled;
      mechanism = m.mechanism_type;
      exception_id = m.exception_id;
      parent_id = m.parent_id;
    }

-- The frames of the exception at an index, if it has none.
unfoldable pub lend_frames : List Frame → ℕ → List Exception → List Exception
lend_frames frames i [] = []
lend_frames frames zero (x ∷ xs) = record x { frames = first_stack x.frames frames } ∷ xs
lend_frames frames (suc i) (x ∷ xs) = x ∷ lend_frames frames i xs

abbrev image_with_id : DebugImage → DebugImage
image_with_id im = record im { debug_id = or_default_text im.debug_id im.uuid }

-- The id of the event: its own, the header's, or one made from the body.
unfoldable pub event_id_of : Library → Bytes → Bytes → Bytes → Bytes
event_id_of lib own header body = elim (parse_id own) [
  | some id ↦ id
  | none ↦ elim (parse_id header) [ some id ↦ id | none ↦ derived_id lib.sha256 body ]
]

abbrev main_type : Option Exception → Bytes
main_type none = []
main_type (some x) = x.error_type

abbrev main_handled : Option Exception → Option Bool
main_handled none = none
main_handled (some x) = x.handled

-- The event before `sanitize`.
unfoldable pub event_of : Library → Bytes → ℕ → Bytes → ℕ → RawEvent → Event
unfolding event_id_of with_server_name exception_of breadcrumb_of last_breadcrumbs parse_tags
    lend_frames extract_message main_exception
event_of lib header_event_id fallback body now re =
    let (ts, is_clamped) = clamp_future (or_time (parse_timestamp lib re.timestamp) fallback) now in
    let xs = map exception_of re.exceptions in
    let main = main_exception xs in
    let stack = thread_frames re.threads in
    record {
      event_id = event_id_of lib re.event_id header_event_id body;
      timestamp = to_microsecond ts;
      level = normalize_level re.level;
      message = truncate (extract_message lib re main) max_message;
      platform = re.platform;
      environment = re.environment;
      release = re.release;
      os_version = or_else re.os_version [];
      device_model = or_else re.device_model [];
      transaction = re.transaction;
      error_type = main_type (get_elem? xs main);
      handled = main_handled (get_elem? xs main);
      sdk_name = or_else re.sdk_name [];
      user_id = elim re.user_id [ none ↦ [] | some raw ↦ scalar_string lib raw ];
      tags = with_server_name re.server_name (parse_tags lib re.tags);
      breadcrumbs = map (breadcrumb_of lib) (last_breadcrumbs re.breadcrumbs);
      exceptions = lend_frames stack main xs;
      debug_images = map image_with_id (or_else re.debug_images []);
      sdk_fingerprint = re.fingerprint;
      primary = main;
      thread_frames = if is_last xs then stack else [];
      clamped = is_clamped;
      raw = body;
    }

abbrev pub sanitized : Library → Bytes → ℕ → Bytes → ℕ → Option RawEvent → Option Event
sanitized lib header_event_id fallback body now none = none
sanitized lib header_event_id fallback body now (some re) =
    some (sanitize (event_of lib header_event_id fallback body now re))

-- A text that begins an object.
abbrev pub object_event : Library → Bytes → ℕ → ℕ → Bytes → Option Event
object_event lib header_event_id fallback now [] = none
object_event lib header_event_id fallback now (c ∷ s) =
    if c == b'{'
    then sanitized lib header_event_id fallback (c ∷ s) now
        (type_errors_dropped (lib.event_of (c ∷ s)))
    else none

-- `ParseEvent`: an object of the right syntax.
unfoldable pub parse_event : Library → Bytes → ℕ → Bytes → ℕ → Option Event
parse_event lib header_event_id fallback body now =
    object_event lib header_event_id fallback now (trim_space body)
