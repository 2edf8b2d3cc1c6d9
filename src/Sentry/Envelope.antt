-- ===== src/Sentry/Envelope.antt =====
-- internal/sentry/envelope.go: `Parse`, from the body of a request to the items of its envelope.
use crashcart.Base.{
  ℕ, zero, suc, ◌+◌, ◌-◌, Bool, ◌||◌, List, [], ◌∷◌, ◌++◌, Option, none, some, if◌then◌else◌, ltb,
  leb, ◌==◌, take, drop, length,
}
use crashcart.Base.Int.{ℤ, pos, negsuc}
use crashcart.Base.Text.{Bytes, codes, str_eq, trim_space, or_else, cut_at}
use crashcart.Sentry.Json.{Library, ItemHeader, EnvelopeHeader, ClientReportCount}
use crashcart.Sentry.Event.{Event}
use crashcart.Sentry.Clean.{attachment_name, clean_lower}
use crashcart.Sentry.Id.{parse_id}
use crashcart.Sentry.Times.{parse_timestamp, or_time}
use crashcart.Sentry.Parse.{parse_event}
use crashcart.Sentry.Sessions.{Session, parse_sessions}
use crashcart.Sentry.Reports.{
  UserReport, CheckIn, parse_user_report, parse_client_report, parse_check_in,
}

pub record Attachment : Type 0 where
  pub filename : Bytes
  pub content_type : Bytes
  pub attachment_type : Bytes
  pub content : Bytes

pub record Envelope : Type 0 where
  pub event_id : Bytes
  pub events : List Event
  pub sessions : List Session
  pub attachments : List Attachment
  pub user_report : Option UserReport
  pub client_report_counts : List ClientReportCount
  pub check_in : Option CheckIn
  pub dropped : ℕ
  pub invalid : ℕ

abbrev pub empty_envelope : Envelope
empty_envelope = record {
  event_id = [];
  events = [];
  sessions = [];
  attachments = [];
  user_report = none;
  client_report_counts = [];
  check_in = none;
  dropped = 0;
  invalid = 0;
}

abbrev pub max_events : ℕ
max_events = 500

abbrev pub max_sessions : ℕ
max_sessions = 5000

abbrev pub max_attachments : ℕ
max_attachments = 8

abbrev pub max_attachment_size : ℕ
max_attachment_size = 8388608

abbrev pub max_content_type : ℕ
max_content_type = 128

abbrev pub line_or_all : Bytes → Option (Bytes × Bytes) → Bytes × Bytes
line_or_all b none = (b, [])
line_or_all b (some cut) = cut

-- `cutLine`.
unfoldable pub cut_line : Bytes → Bytes × Bytes
cut_line b = line_or_all b (cut_at b'\n' b)

-- What every item of an envelope is read with: its header's id as sent, the time of an event without
-- one, and the server's clock.
pub record Context : Type 0 where
  pub header_event_id : Bytes
  pub fallback : ℕ
  pub now : ℕ

abbrev pub drop_items : ℕ → Envelope → Envelope
drop_items n env = record env { dropped = env.dropped + n }

abbrev pub add_event : Option Event → Envelope → Envelope
add_event none env = record env { invalid = suc env.invalid }
add_event (some ev) env = record env { events = env.events ++ ev ∷ [] }

-- The sessions that fit; those that do not are counted.
unfoldable pub add_sessions : List Session → Envelope → Envelope
add_sessions ss env =
    let n = max_sessions - length env.sessions in
    record env { sessions = env.sessions ++ take n ss; dropped = env.dropped + (length ss - n) }

abbrev pub attachment_of : ItemHeader → Bytes → Attachment
attachment_of ih body = record {
  filename = attachment_name ih.filename;
  content_type = clean_lower ih.content_type max_content_type (codes "application/octet-stream");
  attachment_type = clean_lower ih.attachment_type max_content_type (codes "event.attachment");
  content = body;
}

unfoldable pub add_attachment : ItemHeader → Bytes → Envelope → Envelope
add_attachment ih body env =
    if leb max_attachments (length env.attachments) || ltb max_attachment_size (length body)
    then drop_items 1 env
    else record env { attachments = env.attachments ++ attachment_of ih body ∷ [] }

abbrev pub add_user_report : Option UserReport → Envelope → Envelope
add_user_report none env = drop_items 1 env
add_user_report (some ur) env = record env { user_report = some ur }

abbrev pub add_check_in : Option CheckIn → Envelope → Envelope
add_check_in none env = drop_items 1 env
add_check_in (some ci) env = record env { check_in = some ci }

abbrev pub add_client_report : List ClientReportCount × ℕ → Envelope → Envelope
add_client_report (counts, n) env = record env {
  client_report_counts = env.client_report_counts ++ counts;
  dropped = env.dropped + n;
}

abbrev is_type : Bytes → ItemHeader → Bool
is_type t ih = str_eq ih.item_type t

-- The items other than events and sessions, of which those of unknown types are dropped.
unfoldable pub other_item : Library → Context → ItemHeader → Bytes → Envelope → Envelope
unfolding add_attachment
other_item lib ctx ih body env =
    if is_type (codes "attachment") ih
    then add_attachment ih body env
    else if is_type (codes "user_report") ih
    then add_user_report (parse_user_report lib ctx.header_event_id body) env
    else if is_type (codes "client_report") ih
    then add_client_report (parse_client_report lib body) env
    else if is_type (codes "check_in") ih
    then add_check_in (parse_check_in lib body) env
    else drop_items 1 env

-- The switch on the type of an item.
unfoldable pub handle_item : Library → Context → ItemHeader → Bytes → Envelope → Envelope
unfolding add_sessions other_item
handle_item lib ctx ih body env =
    if is_type (codes "event") ih
    then (if ltb max_events (length env.events)
        then drop_items 1 env
        else add_event (parse_event lib ctx.header_event_id ctx.fallback body ctx.now) env)
    else if is_type (codes "session") ih || is_type (codes "sessions") ih
    then (if leb max_sessions (length env.sessions)
        then drop_items 1 env
        else add_sessions (parse_sessions lib body ctx.now) env)
    else other_item lib ctx ih body env

abbrev pub skip_newline : Bytes → Bytes
skip_newline [] = []
skip_newline (c ∷ rest) = if c == b'\n' then rest else c ∷ rest

-- The body of an item and what follows it: an explicit length that fits wins, otherwise it is the next
-- line.
unfoldable pub split_body : Option ℤ → Bytes → Bytes × Bytes
unfolding cut_line
split_body none rest = cut_line rest
split_body (some (negsuc n)) rest = cut_line rest
split_body (some (pos n)) rest =
    if leb n (length rest) then (take n rest, skip_newline (drop n rest)) else cut_line rest

abbrev pub blank : Bytes → Bool
blank line = str_eq (trim_space line) []

-- The header of the item on a line; a line that is blank or no header is skipped.
abbrev pub header_on : Library → Bytes → Option ItemHeader
header_on lib line = if blank line then none else lib.item_header_of line

-- What is left after an item, and the envelope with it.
abbrev pub item_step : Library → Context → Bytes → Envelope → Option ItemHeader → Bytes × Envelope
item_step lib ctx rest env none = (rest, env)
item_step lib ctx rest env (some ih) =
    let (body, more) = split_body ih.item_length rest in (more, handle_item lib ctx ih body env)

-- One round of the loop.
unfoldable pub parse_step : Library → Context → Bytes → Envelope → Bytes × Envelope
unfolding cut_line split_body handle_item
parse_step lib ctx b env =
    let (line, rest) = cut_line b in item_step lib ctx rest env (header_on lib line)

-- The loop, with a bound on its rounds: `none` if it is too small.
unfoldable pub parse_items : Library → Context → ℕ → Bytes → Envelope → Option Envelope
unfolding parse_step
parse_items lib ctx fuel [] env = some env
parse_items lib ctx zero (c ∷ b) env = none
parse_items lib ctx (suc fuel) (c ∷ b) env =
    let (rest, next) = parse_step lib ctx (c ∷ b) env in parse_items lib ctx fuel rest next

abbrev pub context_of : Library → EnvelopeHeader → ℕ → Context
context_of lib hdr now = record {
  header_event_id = hdr.event_id;
  fallback = or_time (parse_timestamp lib hdr.sent_at) now;
  now = now;
}

abbrev pub with_header : Library → ℕ → Bytes → Option EnvelopeHeader → Option Envelope
with_header lib now rest none = some empty_envelope
with_header lib now rest (some hdr) =
    parse_items lib (context_of lib hdr now) (length rest) rest
      (record empty_envelope { event_id = or_else (parse_id hdr.event_id) [] })

-- `Parse`: a round of the loop for every byte is enough (see Framing).
unfoldable pub parse : Library → Bytes → ℕ → Option Envelope
unfolding parse_items cut_line
parse lib body now =
    let (line, rest) = cut_line body in with_header lib now rest (lib.envelope_header_of line)
