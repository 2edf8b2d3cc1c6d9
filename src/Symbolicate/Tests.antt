-- ===== src/Symbolicate/Tests.antt =====
-- Runs of the models of source maps and ProGuard mappings, and each theorem at a concrete input.
use crashcart.Base.{
  ℕ, ◌+◌, ◌≤◌, ◌<◌, ◌≡◌, refl, Bool, true, false, List, [], ◌∷◌, Option, none, some, arith, ltb,
  All, not, find_row,
}
use crashcart.Base.Int.{pos, negsuc, ◌+ℤ◌, ◌-ℤ◌}
use crashcart.Base.Text.{
  Bytes, codes, str_eq, split_at, trim_suffix, after_prefix, has_prefix, contains, or_else,
}
use crashcart.Sentry.Frame.{Frame, no_frame}
use crashcart.Symbolicate.Vlq.{decode_vlqs, decode_from, b64_index, finish}
use crashcart.Symbolicate.RoundTrip.{
  encode_vlqs, encode_vlq, encode_digits, b64_digit, decode_vlqs-encode_vlqs,
}
use crashcart.Symbolicate.Search.{search, sort_search}
use crashcart.Symbolicate.SourceMap.{
  RawMap, raw_map, no_sections, parse_source_map, plain_map, add_lines, add_segments, add_segment,
  rooted_sources, rooted, sort_mappings, insert_mapping, mapping_less, text_at,
}
use crashcart.Symbolicate.Lookup.{resolve, moved_to, last_before, is_after, column_of, before_index}
use crashcart.Symbolicate.Scan.{resolve-last_before}
use crashcart.Symbolicate.Files.{base_name, before_query}
use crashcart.Symbolicate.ProGuard.{
  ProguardMethod, ProGuardMapping, expand_by, expanded, covers, last_of,
}
use crashcart.Symbolicate.Inlined.{IsKept, expand_by-first}

decode_runs : decode_vlqs (codes "AAgBC") ≡ some (pos 0 ∷ pos 0 ∷ pos 16 ∷ pos 1 ∷ [])
unfolding decode_vlqs decode_from b64_index finish
decode_runs = refl

encode_runs : encode_vlqs (pos 16 ∷ negsuc 0 ∷ []) ≡ codes "gBD"
unfolding encode_vlqs encode_vlq encode_digits b64_digit
encode_runs = refl

bad_digit : decode_vlqs (codes "A!") ≡ none
unfolding decode_vlqs decode_from b64_index finish
bad_digit = refl

-- A query that holds a slash hides the file's name: the base name is taken first.
query_with_slash : before_query (base_name (codes "x/app.js?from=/a")) ≡ codes "a"
unfolding before_query base_name crashcart.Base.Text.after_last
query_with_slash = refl

decode_vlqs-encode_vlqs_example :
    decode_vlqs (encode_vlqs (pos 16 ∷ negsuc 1000 ∷ [])) ≡ some (pos 16 ∷ negsuc 1000 ∷ [])
decode_vlqs-encode_vlqs_example =
    decode_vlqs-encode_vlqs (pos 16 ∷ negsuc 1000 ∷ []) (omega arith, (omega arith, tt))

abbrev document : RawMap
document =
    raw_map (codes "a.ts" ∷ []) (codes "src/") (codes "f" ∷ []) (codes "AAAAA,IACC;;CAEE")
      no_sections

abbrev frame : Frame
frame = record no_frame {
  filename = codes "app.js";
  abs_path = codes "/app.js";
  function = codes "x";
  lineno = pos 1;
  colno = pos 7;
}

resolve_runs : resolve (parse_source_map document).mappings frame ≡ record no_frame {
  filename = codes "src/a.ts";
  abs_path = [];
  function = codes "x";
  lineno = pos 2;
  colno = pos 2;
}
unfolding resolve moved_to before_index is_after sort_search search parse_source_map plain_map
    add_lines add_segments add_segment rooted_sources rooted sort_mappings insert_mapping
    mapping_less text_at decode_vlqs decode_from b64_index finish str_eq split_at trim_suffix
    after_prefix has_prefix contains ◌+ℤ◌ ◌-ℤ◌
resolve_runs = refl

resolve-last_before_example :
    resolve (parse_source_map document).mappings frame
    ≡ moved_to frame
        (last_before (is_after (pos 1) (column_of frame)) (parse_source_map document).mappings)
resolve-last_before_example = resolve-last_before document frame refl

abbrev inlined : ProguardMethod
inlined = record {
  class_name = codes "a.B";
  method_name = codes "inner";
  args = [];
  has_range = true;
  obf_start = pos 1;
  obf_end = pos 4;
  orig_start = pos 10;
  orig_end = pos 13;
}

abbrev outer : ProguardMethod
outer = record inlined { method_name = codes "outer"; orig_start = pos 30; orig_end = pos 30 }

abbrev no_mapping : ProGuardMapping
no_mapping = record { classes = []; methods = [] }

expand_by-first_example :
    (last_of frame (expand_by no_mapping (codes "a.B") frame (inlined ∷ outer ∷ []))
      ≡ expanded no_mapping (codes "a.B") frame (
          or_else
            (find_row (covers frame.lineno) (inlined ∷ outer ∷ []))
            (or_else (find_row (λ k. not k.has_range) (inlined ∷ outer ∷ [])) inlined)))
    × All (IsKept frame) (expand_by no_mapping (codes "a.B") frame (inlined ∷ outer ∷ []))
expand_by-first_example = expand_by-first no_mapping (codes "a.B") frame inlined (outer ∷ [])
