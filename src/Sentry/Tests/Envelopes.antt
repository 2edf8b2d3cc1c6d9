-- ===== src/Sentry/Tests/Envelopes.antt =====
-- Runs of the envelope's model, and each of its theorems at a concrete input.
use crashcart.Base.{◌≤◌, ◌≡◌, refl, [], ◌∷◌, ◌++◌, some, inl, inr, length, All}
use crashcart.Base.Text.{Bytes, codes, str_eq, trim_space, drop_spaces, or_else}
use crashcart.Sentry.Event.{Event}
use crashcart.Sentry.Id.{parse_id}
use crashcart.Sentry.Parse.{parse_event, event_of}
use crashcart.Sentry.Sanitize.{sanitize}
use crashcart.Sentry.Envelope.{Envelope, Attachment, parse, context_of, empty_envelope}
use crashcart.Sentry.Framing.{printed, handle_all, IsFramed, parse-printed, parse_returns}
use crashcart.Sentry.Limits.{parse-limited}
use crashcart.Sentry.Stored.{IsStored, parse_event-IsStored}
use crashcart.Sentry.Tests.Samples.{library, envelope_header, raw_event, pieces, headers_read}

abbrev body : Bytes
body = codes "{}" ++ b'\n' ∷ printed pieces

abbrev result : Envelope
result =
    handle_all library (context_of library envelope_header 7) pieces
      (record empty_envelope { event_id = or_else (parse_id envelope_header.event_id) [] })

header_read : library.envelope_header_of (codes "{}") ≡ some envelope_header
unfolding str_eq
header_read = refl

every_piece : All (IsFramed library) pieces
every_piece =
    let (a, e, blank, bad) = headers_read in
    (
      ((refl, (refl, (refl, tt))), a, inl refl),
      (
        (tt, blank),
        (
          ((refl, (refl, tt)), bad),
          (((refl, (refl, (refl, tt))), e, inr (refl, (refl, (refl, tt)))), tt),
        ),
      ),
    )

parse-printed_example : parse library (codes "{}" ++ b'\n' ∷ printed pieces) 7 ≡ some result
parse-printed_example =
    parse-printed library (codes "{}") envelope_header pieces 7 (refl, (refl, tt)) header_read
      every_piece

body_parses : parse library body 7 ≡ some result
body_parses =
    parse-printed library (codes "{}") envelope_header pieces 7 (refl, (refl, tt)) header_read
      every_piece

parse_returns_example : (env : Envelope) × (parse library body 7 ≡ some env)
parse_returns_example = parse_returns library body 7

parse-limited_example :
    (length result.events ≤ 501)
    × (length result.sessions ≤ 5000)
    × (length result.attachments ≤ 8)
    × All (λ (a : Attachment). length a.content ≤ 8388608) result.attachments
parse-limited_example = parse-limited library body 7 result body_parses

abbrev stored : Event
stored = sanitize (event_of library [] 5 (codes "{}") 7 raw_event)

event_parses : parse_event library [] 5 (codes "{}") 7 ≡ some stored
unfolding parse_event trim_space drop_spaces str_eq
event_parses = refl

parse_event-IsStored_example : IsStored 7 stored
parse_event-IsStored_example = parse_event-IsStored library [] 5 (codes "{}") 7 stored event_parses
