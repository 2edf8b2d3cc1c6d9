-- ===== src/Sentry/Tests/Samples.antt =====
-- A small envelope and the decoders that read it.
use crashcart.Base.{◌≡◌, refl, false, List, [], ◌∷◌, ◌++◌, Option, none, some, if◌then◌else◌}
use crashcart.Base.Int.{ℤ, pos}
use crashcart.Base.Text.{Bytes, codes, str_eq, trim_space, drop_spaces}
use crashcart.Sentry.Frame.{no_frame}
use crashcart.Sentry.Json.{
  Library, ItemHeader, EnvelopeHeader, RawEvent, RawException, decoded, malformed,
}
use crashcart.Sentry.Envelope.{header_on}
use crashcart.Sentry.Framing.{Piece, item, noise}

abbrev pub envelope_header : EnvelopeHeader
envelope_header = record { event_id = codes "a1b2c3d4e5f6a1b2c3d4e5f6a1b2c3d4"; sent_at = [] }

abbrev pub header_of_type : Bytes → Option ℤ → ItemHeader
header_of_type t n = record {
  item_type = t;
  item_length = n;
  filename = codes "shot.png";
  content_type = [];
  attachment_type = [];
}

abbrev pub raw_exception : RawException
raw_exception = record {
  error_type = codes "Crash";
  value = codes "boom";
  stacktrace = some (record no_frame { function = codes "main" } ∷ []);
  mechanism = none;
}

abbrev pub raw_event : RawEvent
raw_event = record {
  event_id = [];
  timestamp = [];
  level = codes "Warn";
  message = [];
  logentry = none;
  platform = codes "go";
  environment = [];
  release = codes "1.0";
  transaction = [];
  server_name = codes "host";
  tags = [];
  breadcrumbs = [];
  fingerprint = [];
  device_model = none;
  os_version = none;
  exceptions = raw_exception ∷ [];
  threads = [];
  debug_images = none;
  sdk_name = none;
  user_id = none;
}

abbrev item_header : Bytes → Option ItemHeader
item_header s =
    if str_eq s (codes "{a}")
    then some (header_of_type (codes "attachment") (some (pos 3)))
    else if str_eq s (codes "{e}")
    then some (header_of_type (codes "event") none)
    else none

-- Decoders for the texts of the tests only.
abbrev pub library : Library
library = record {
  text_of = λ s. none;
  number_of = λ s. none;
  formatted_of = λ s. none;
  object_of = λ s. none;
  arrays_of = λ s. none;
  envelope_header_of = λ s. if str_eq s (codes "{}") then some envelope_header else none;
  item_header_of = item_header;
  event_of = λ s. if str_eq s (codes "{}") then decoded raw_event else malformed;
  session_of = λ s. none;
  sessions_of = λ s. none;
  user_report_of = λ s. none;
  client_report_of = λ s. none;
  check_in_of = λ s. none;
  parse_time = λ layout s. none;
  format_rfc3339 = λ t. [];
  load_location = λ s. false;
  sha256 = λ s. s;
  parse_cron = λ s. none;
  to_int = λ n. pos 0;
  to_int32 = λ n. pos 0;
}

-- An attachment with a newline in it, a blank line, a line that is no header, and an event.
abbrev pub pieces : List Piece
pieces =
    item (codes "{a}") (header_of_type (codes "attachment") (some (pos 3)))
      (codes "x" ++ b'\n' ∷ codes "y")
    ∷ noise []
    ∷ noise (codes "??")
    ∷ item (codes "{e}") (header_of_type (codes "event") none) (codes "{}")
    ∷ []

pub headers_read :
    (header_on library (codes "{a}") ≡ some (header_of_type (codes "attachment") (some (pos 3))))
    × (header_on library (codes "{e}") ≡ some (header_of_type (codes "event") none))
    × (header_on library [] ≡ none)
    × (header_on library (codes "??") ≡ none)
unfolding str_eq trim_space drop_spaces
headers_read = (refl, refl, refl, refl)
