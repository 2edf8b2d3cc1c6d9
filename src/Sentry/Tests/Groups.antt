-- ===== src/Sentry/Tests/Groups.antt =====
-- Runs of the grouping of events, and each of its theorems at a concrete input.
use crashcart.Base.{
  ℕ, ◌+◌, ◌<◌, ◌≡◌, refl, Bool, true, false, List, [], ◌∷◌, ◌++◌, map, Option, none, some, arith,
  length, All,
}
use crashcart.Base.Int.{ℤ, pos}
use crashcart.Base.Text.{
  Bytes, codes, str_eq, trim_space, trim_prefix, drop_spaces, after_prefix, has_prefix, has_suffix,
  contains,
}
use crashcart.Sentry.Hex.{from_hex_digit}
use crashcart.Sentry.Frame.{Frame, DebugImage, no_frame, is_in_app}
use crashcart.Sentry.Event.{Event}
use crashcart.Sentry.Kind.{is_noise, frame_kind}
use crashcart.Sentry.Images.{
  parse_hex, hex_value, image_table, relative, image_for, at_image, relative-at_image,
}
use crashcart.Sentry.Signature.{keeps_lines, all_anonymous, selected, fingerprint}
use crashcart.Sentry.Grouping.{at_line, as_was, fingerprint-at_line}
use crashcart.Sentry.Tests.Samples.{library, raw_event}
use crashcart.Sentry.Parse.{event_of}

abbrev image : DebugImage
image = record {
  image_type = codes "macho";
  debug_id = codes "app";
  uuid = [];
  code_file = [];
  image_addr = codes "0x10";
  image_size = pos 32;
}

address_read : parse_hex (codes "0x18") ≡ some 24
unfolding parse_hex hex_value from_hex_digit trim_prefix after_prefix trim_space drop_spaces str_eq
address_read = refl

relative-at_image_example :
    relative (image_table (image ∷ [])) (codes "0x18")
    ≡ at_image 24 (image ∷ []) (image_for 24 (image ∷ []))
relative-at_image_example =
    relative-at_image (image ∷ []) (codes "0x18") 24 address_read (omega arith)

abbrev stack : List (Frame × ℤ)
stack =
    (
      record no_frame {
        function = codes "main";
        filename = codes "a.go";
        lineno = pos 5;
        in_app = some true;
      },
      pos 9,
    )
    ∷ (
      record no_frame {
        function = codes "run";
        filename = codes "b.go";
        lineno = pos 7;
        in_app = some true;
      },
      pos 8,
    )
    ∷ []

two_named : keeps_lines (map as_was stack) ≡ false
unfolding keeps_lines all_anonymous selected is_noise frame_kind is_in_app str_eq has_prefix
    has_suffix contains after_prefix crashcart.Sentry.Kind.is_placeholder
    crashcart.Base.Text.split_at
two_named = refl

abbrev event : Event
event = event_of library [] 5 (codes "{}") 7 raw_event

fingerprint-at_line_example :
    fingerprint (λ s. s) (λ s. s) event (map at_line stack)
    ≡ fingerprint (λ s. s) (λ s. s) event (map as_was stack)
fingerprint-at_line_example =
    fingerprint-at_line (λ s. s) (λ s. s) event stack (refl, (refl, tt)) two_named
