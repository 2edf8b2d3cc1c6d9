-- ===== src/Sentry/Tests.antt =====
-- Runs of the models of identifiers and platforms, and each theorem at a concrete input.
mod Samples
mod Envelopes
mod Groups
use crashcart.Base.{
  ◌||◌, ◌≡◌, ◌<◌, refl, [], Option, none, some, length, All, replicate, arith, inr, true, false,
}
use crashcart.Base.Text.{
  Bytes, codes, trim_space, drop_spaces, str_eq, contains, has_prefix, has_suffix, after_prefix,
}
use crashcart.Sentry.Platform.{
  flutter, backend, family, platform_family, family_text, is_family, accepts,
}
use crashcart.Sentry.Hex.{IsHexDigit, decode_hex, from_hex_digit, cons_byte, byte_of}
use crashcart.Sentry.Id.{parse_id, checked, normal_text, uuid_value, scan_uuid, parse_id-normal}

abbrev dashed : Bytes
dashed = codes " A1B2C3D4-E5F6-A1B2-C3D4-E5F6A1B2C3D4 "

abbrev id : Bytes
id = codes "a1b2c3d4e5f6a1b2c3d4e5f6a1b2c3d4"

dashed_parses : parse_id dashed ≡ some id
unfolding parse_id checked normal_text trim_space drop_spaces decode_hex from_hex_digit cons_byte
    byte_of
dashed_parses = refl

short_refused : parse_id (codes "a1b2") ≡ none
unfolding parse_id checked normal_text trim_space drop_spaces
short_refused = refl

parse_id-normal_example :
    (length id ≡ 32)
    × All IsHexDigit id
    × (parse_id id ≡ some id)
    × ((v : Option Bytes) × (uuid_value id ≡ inr v) × (scan_uuid v ≡ id))
parse_id-normal_example = parse_id-normal dashed id dashed_parses

families_found :
    (family (codes "other") (codes "sentry.dart.flutter") ≡ flutter)
    × (family (codes "JavaScript") (codes "sentry.javascript.node") ≡ backend)
unfolding family platform_family contains has_prefix after_prefix has_suffix str_eq
families_found = (refl, refl)
