-- ===== src/Symbolicate/SourceMap.antt =====
-- internal/symbolicate/sourcemap.go: parsing a decoded source map document and resolving frames.
-- The JSON document is a parameter's result; Go's int is an int64, which wraps.
use crashcart.Base.{
  ℕ, ◌+◌, Bool, true, false, not, ◌&&◌, List, [], ◌∷◌, ◌++◌, map, if◌then◌else◌, get_elem?,
}
use crashcart.Base.Int.{ℤ, pos, negsuc, ◌+ℤ◌, ltb_ℤ, eqb_ℤ, int64}
use crashcart.Base.Text.{Bytes, codes, str_eq, split_at, trim_suffix, has_prefix, contains, or_else}
use crashcart.Symbolicate.Vlq.{decode_vlqs}

pub record Mapping : Type 0 where
  pub gen_line : ℤ
  pub gen_col : ℤ
  pub source : Bytes
  pub orig_line : ℤ
  pub orig_col : ℤ
  pub name : Bytes
  pub has_orig : Bool

-- The document as encoding/json reads it, with its sections in order; `bad_section` is one whose map
-- is missing or does not parse.
mutual
  pub data RawMap : Type 0 where
    raw_map : List Bytes → Bytes → List Bytes → Bytes → RawSections → RawMap

  pub data RawSections : Type 0 where
    no_sections : RawSections
    bad_section : RawSections → RawSections
    section : ℤ → ℤ → RawMap → RawSections → RawSections

pub record SourceMap : Type 0 where
  pub sources : List Bytes
  pub names : List Bytes
  pub mappings : List Mapping

-- The order of `sortMappings`.
unfoldable pub mapping_less : Mapping → Mapping → Bool
mapping_less a b =
    if eqb_ℤ a.gen_line b.gen_line then ltb_ℤ a.gen_col b.gen_col else ltb_ℤ a.gen_line b.gen_line

unfoldable pub insert_mapping : Mapping → List Mapping → List Mapping
insert_mapping m [] = m ∷ []
insert_mapping m (k ∷ ms) =
    let rest = insert_mapping m ms in if mapping_less k m then k ∷ rest else m ∷ k ∷ ms

-- `sortMappings`: stable.
unfoldable pub sort_mappings : List Mapping → List Mapping
sort_mappings [] = []
sort_mappings (m ∷ ms) = insert_mapping m (sort_mappings ms)

-- `srcIdx`, `origLine`, `origCol`, `nameIdx`, which run through the whole document.
pub record Decoder : Type 0 where
  pub src_idx : ℤ
  pub orig_line : ℤ
  pub orig_col : ℤ
  pub name_idx : ℤ

-- `xs[i]`, or the empty text out of range.
unfoldable pub text_at : List Bytes → ℤ → Bytes
text_at xs (pos n) = or_else (get_elem? xs n) []
text_at xs (negsuc n) = []

abbrev no_mapping : ℕ → ℤ → Mapping
no_mapping line col = record {
  gen_line = pos (line + 1);
  gen_col = col;
  source = [];
  orig_line = pos 0;
  orig_col = pos 0;
  name = [];
  has_orig = false;
}

abbrev moved : ℤ → ℤ → ℤ → Decoder → Decoder
moved v1 v2 v3 d = record d {
  src_idx = int64 (d.src_idx +ℤ v1);
  orig_line = int64 (d.orig_line +ℤ v2);
  orig_col = int64 (d.orig_col +ℤ v3);
}

abbrev original : List Bytes → Decoder → Mapping → Mapping
original sources d m = record m {
  source = text_at sources d.src_idx;
  orig_line = int64 (d.orig_line +ℤ pos 1);
  orig_col = d.orig_col;
  has_orig = true;
}

-- What one decoded segment adds: 1, 4 or 5 fields count.
unfoldable pub add_segment :
    List Bytes → List Bytes → ℕ → Decoder → ℤ → List ℤ → Decoder × ℤ × List Mapping
add_segment sources names line d gen_col [] = (d, gen_col, [])
add_segment sources names line d gen_col (v0 ∷ v1 ∷ v2 ∷ v3 ∷ v4 ∷ vs) =
    let col = int64 (gen_col +ℤ v0) in
    let d1 = moved v1 v2 v3 d in
    let d2 = record d1 { name_idx = int64 (d.name_idx +ℤ v4) } in
    let m = record (original sources d1 (no_mapping line col)) {
      name = text_at names d2.name_idx;
    } in
    (d2, col, m ∷ [])
add_segment sources names line d gen_col (v0 ∷ v1 ∷ v2 ∷ v3 ∷ []) =
    let col = int64 (gen_col +ℤ v0) in
    let d1 = moved v1 v2 v3 d in (d1, col, original sources d1 (no_mapping line col) ∷ [])
add_segment sources names line d gen_col (v0 ∷ vs) =
    let col = int64 (gen_col +ℤ v0) in (d, col, no_mapping line col ∷ [])

-- The segments of one line; a segment that does not decode is skipped.
unfoldable pub add_segments :
    List Bytes → List Bytes → ℕ → Decoder → ℤ → List Bytes → Decoder × List Mapping
unfolding add_segment
add_segments sources names line d gen_col [] = (d, [])
add_segments sources names line d gen_col (seg ∷ segs) =
    let (d1, col, ms) = add_segment sources names line d gen_col (or_else (decode_vlqs seg) []) in
    let (d2, rest) = add_segments sources names line d1 col segs in (d2, ms ++ rest)

unfoldable pub add_lines : List Bytes → List Bytes → ℕ → Decoder → List Bytes → List Mapping
unfolding add_segments
add_lines sources names line d [] = []
add_lines sources names line d (segs ∷ lines) =
    let (d1, ms) = add_segments sources names line d (pos 0) (split_at b',' segs) in
    ms ++ add_lines sources names (line + 1) d1 lines

unfoldable pub rooted : Bytes → Bytes → Bytes
rooted root src =
    if not (str_eq src []) && not (has_prefix src root) && not (contains src (codes "://"))
    then root ++ src
    else src

unfoldable pub rooted_sources : Bytes → List Bytes → List Bytes
rooted_sources [] sources = sources
rooted_sources (c ∷ root) sources =
    map (rooted (trim_suffix (c ∷ root) (codes "/") ++ codes "/")) sources

-- The column offset applies to the section's first line only.
unfoldable pub offset_mapping : ℤ → ℤ → Mapping → Mapping
offset_mapping line col m = record m {
  gen_col = if eqb_ℤ m.gen_line (pos 1) then int64 (m.gen_col +ℤ col) else m.gen_col;
  gen_line = int64 (m.gen_line +ℤ line);
}

abbrev no_map : SourceMap
no_map = record { sources = []; names = []; mappings = [] }

-- A section's map before those of the later sections.
unfoldable pub fold_section : ℤ → ℤ → SourceMap → SourceMap → SourceMap
fold_section line col sub rest = record {
  sources = sub.sources ++ rest.sources;
  names = sub.names ++ rest.names;
  mappings = map (offset_mapping line col) sub.mappings ++ rest.mappings;
}

unfoldable pub plain_map : List Bytes → Bytes → List Bytes → Bytes → SourceMap
unfolding add_lines
plain_map sources root names mappings =
    let full = rooted_sources root sources in
    record {
      sources = full;
      names = names;
      mappings = sort_mappings (
          add_lines full names 0
            (record { src_idx = pos 0; orig_line = pos 0; orig_col = pos 0; name_idx = pos 0 })
            (split_at b';' mappings));
    }

unfoldable pub sorted_map : SourceMap → SourceMap
sorted_map all = record all { mappings = sort_mappings all.mappings }

-- `ParseSourceMap`, of a plain or an indexed document.
unfoldable mutual
  pub parse_source_map : RawMap → SourceMap
  parse_source_map (raw_map sources root names mappings no_sections) =
      plain_map sources root names mappings
  parse_source_map (raw_map sources root names mappings (bad_section rest)) =
      sorted_map (parse_sections rest)
  parse_source_map (raw_map sources root names mappings (section line col sub rest)) =
      sorted_map (fold_section line col (parse_source_map sub) (parse_sections rest))

  pub parse_sections : RawSections → SourceMap
  parse_sections no_sections = no_map
  parse_sections (bad_section rest) = parse_sections rest
  parse_sections (section line col sub rest) =
      fold_section line col (parse_source_map sub) (parse_sections rest)
