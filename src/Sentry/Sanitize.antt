-- ===== src/Sentry/Sanitize.antt =====
-- internal/sentry/envelope.go, `sanitize`: the bounds on the texts of an event.
use crashcart.Base.{
  ℕ, suc, not, ◌||◌, List, [], ◌∷◌, map, Option, none, some, if◌then◌else◌, ltb, keep, length,
}
use crashcart.Base.Text.{Bytes, str_eq}
use crashcart.Base.Runes.{runes}
use crashcart.Sentry.Frame.{Frame, Exception}
use crashcart.Sentry.Event.{Event}
use crashcart.Sentry.Clean.{clean}
use crashcart.Sentry.Reports.{max_release, max_environment}

abbrev pub max_message : ℕ
max_message = 500

abbrev pub max_screen : ℕ
max_screen = 200

abbrev pub max_user_id : ℕ
max_user_id = 128

abbrev pub max_error_type : ℕ
max_error_type = 200

abbrev pub max_device : ℕ
max_device = 200

abbrev pub max_sdk_name : ℕ
max_sdk_name = 100

abbrev pub max_platform : ℕ
max_platform = 64

abbrev pub max_tag_key : ℕ
max_tag_key = 32

abbrev pub max_tag_value : ℕ
max_tag_value = 200

abbrev pub max_frame_field : ℕ
max_frame_field = 1024

-- Deleting a key of a map, and setting one.
unfoldable pub delete_tag : Bytes → List (Bytes × Bytes) → List (Bytes × Bytes)
delete_tag key tags = keep (λ kv. not (str_eq key kv.0)) tags

unfoldable pub put_tag : Bytes → Bytes → List (Bytes × Bytes) → List (Bytes × Bytes)
unfolding delete_tag
put_tag key value tags = (key, value) ∷ delete_tag key tags

-- The step of the loop over the tags: a key that is empty or too long is dropped, one that had to be
-- cleaned is replaced.
unfoldable pub clean_tag : Bytes → Bytes → List (Bytes × Bytes) → List (Bytes × Bytes)
unfolding put_tag delete_tag
clean_tag key value tags =
    let ck = clean key (suc max_tag_key) in
    if str_eq ck [] || ltb max_tag_key (length (runes ck))
    then delete_tag key tags
    else put_tag ck (clean value max_tag_value)
        (if str_eq ck key then tags else delete_tag key tags)

-- The value that the map has for a key now.
unfoldable pub find_tag : Bytes → List (Bytes × Bytes) → Option Bytes
find_tag key [] = none
find_tag key ((k, v) ∷ tags) = let rest = find_tag key tags in if str_eq key k then some v else rest

-- A key that the loop has deleted is not come to.
unfoldable pub clean_found : Bytes → Option Bytes → List (Bytes × Bytes) → List (Bytes × Bytes)
unfolding clean_tag
clean_found key none tags = tags
clean_found key (some value) tags = clean_tag key value tags

-- The loop over the keys that the map held when it began, in an order that Go leaves open, here that of
-- the list. Each gives the value it has by then. A key that the loop adds is not come to: Go leaves open
-- whether it is.
unfoldable pub clean_tags : List Bytes → List (Bytes × Bytes) → List (Bytes × Bytes)
unfolding clean_found find_tag
clean_tags [] tags = tags
clean_tags (key ∷ keys) tags = clean_tags keys (clean_found key (find_tag key tags) tags)

abbrev pub keys_of : List (Bytes × Bytes) → List Bytes
keys_of tags = map (λ (kv : Bytes × Bytes). kv.0) tags

unfoldable pub clean_frame : Frame → Frame
clean_frame f = record f {
  filename = clean f.filename max_frame_field;
  abs_path = clean f.abs_path max_frame_field;
  function = clean f.function max_frame_field;
  module_name = clean f.module_name max_frame_field;
  package_name = clean f.package_name max_frame_field;
  instr_addr = clean f.instr_addr max_frame_field;
  image_addr = clean f.image_addr max_frame_field;
  symbol_addr = clean f.symbol_addr max_frame_field;
}

unfoldable pub clean_exception : Exception → Exception
unfolding clean_frame
clean_exception x = record x {
  error_type = clean x.error_type max_error_type;
  value = clean x.value max_message;
  mechanism = clean x.mechanism max_error_type;
  frames = map clean_frame x.frames;
}

-- `sanitize`.
unfoldable pub sanitize : Event → Event
unfolding clean_exception clean_tags
sanitize e = record e {
  platform = clean e.platform max_platform;
  environment = clean e.environment max_environment;
  transaction = clean e.transaction max_screen;
  release = clean e.release max_release;
  message = clean e.message max_message;
  error_type = clean e.error_type max_error_type;
  device_model = clean e.device_model max_device;
  os_version = clean e.os_version max_device;
  sdk_name = clean e.sdk_name max_sdk_name;
  user_id = clean e.user_id max_user_id;
  tags = clean_tags (keys_of e.tags) e.tags;
  exceptions = map clean_exception e.exceptions;
}
