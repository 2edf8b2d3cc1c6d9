-- ===== src/Symbolicate/Files.antt =====
-- internal/symbolicate/sourcemap.go, `SourceMapSet`: the maps of one release by file name. Go walks a
-- map of files in any order: here they come as a list, with the document that each parses to.
use crashcart.Base.{
  Bool, false, not, ◌||◌, List, [], ◌∷◌, Option, none, some, if◌then◌else◌, ◌==◌, length,
}
use crashcart.Base.Text.{Bytes, codes, str_eq, trim_suffix, after_last, or_else}
use crashcart.Symbolicate.SourceMap.{RawMap, SourceMap, parse_source_map}
use crashcart.Sentry.Frame.{Frame, frame_eq}
use crashcart.Symbolicate.Lookup.{resolve}

-- `baseName`.
unfoldable pub base_name : Bytes → Bytes
base_name p = or_else (after_last (λ c. c == b'/' || c == b'\\') p) p

pub record SourceMapSet : Type 0 where
  pub by_file : List (Bytes × SourceMap)
  pub single : Option SourceMap

unfoldable pub map_of : Bytes → List (Bytes × SourceMap) → Option SourceMap
map_of name [] = none
map_of name ((key, sm) ∷ files) =
    let rest = map_of name files in if str_eq name key then some sm else rest

-- `set.byFile[key] = sm`.
unfoldable pub put_map : Bytes → SourceMap → List (Bytes × SourceMap) → List (Bytes × SourceMap)
put_map key sm [] = (key, sm) ∷ []
put_map key sm ((k, old) ∷ files) =
    let rest = put_map key sm files in if str_eq key k then (k, sm) ∷ files else (k, old) ∷ rest

unfoldable pub add_files : List (Bytes × Option RawMap) → SourceMapSet → SourceMapSet
add_files [] set = set
add_files ((name, none) ∷ files) set = add_files files set
add_files ((name, some raw) ∷ files) set =
    let sm = parse_source_map raw in
    let key = trim_suffix (base_name name) (codes ".map") in
    add_files files (record { by_file = put_map key sm set.by_file; single = some sm })

-- `NewSourceMapSet`: the one map is kept for frames without a file only if it is the only one.
unfoldable pub new_source_map_set : List (Bytes × Option RawMap) → SourceMapSet
unfolding add_files
new_source_map_set files =
    let set = add_files files (record { by_file = []; single = none }) in
    if length set.by_file == 1 then set else record set { single = none }

-- `name[:i]` at the first `?` or `#`.
unfoldable pub before_query : Bytes → Bytes
before_query [] = []
before_query (c ∷ s) = let rest = before_query s in if c == b'?' || c == b'#' then [] else c ∷ rest

-- The file name that a frame is looked up by.
unfoldable pub frame_file : Frame → Bytes
frame_file f = before_query (base_name (if str_eq f.filename [] then f.abs_path else f.filename))

unfoldable pub resolve_by : Option SourceMap → Frame → Frame
resolve_by none f = f
resolve_by (some sm) f = resolve sm.mappings f

abbrev pub or_single : Bytes → SourceMapSet → Option SourceMap → Option SourceMap
or_single name set (some sm) = some sm
or_single name set none = if str_eq name [] then set.single else none

-- `SourceMapSet.Resolve`.
unfoldable pub set_resolve : SourceMapSet → Frame → Frame
unfolding resolve_by
set_resolve set f =
    let name = frame_file f in resolve_by (or_single name set (map_of name set.by_file)) f

-- `ResolveAll` of a map or a set: the frames, and whether any changed.
unfoldable pub resolve_all : (Frame → Frame) → List Frame → List Frame × Bool
resolve_all resolve_one [] = ([], false)
resolve_all resolve_one (f ∷ frames) =
    let (out, changed) = resolve_all resolve_one frames in
    (resolve_one f ∷ out, not (frame_eq (resolve_one f) f) || changed)
