-- ===== src/Symbolicate/Lookup.antt =====
-- internal/symbolicate/sourcemap.go: `Resolve`, and the order of the mappings that it searches.
use crashcart.Base.{
  ℕ, ◌≡◌, suc, zero, Bool, true, false, not, ◌&&◌, ◌||◌, List, [], ◌∷◌, Option, none, some,
  if◌then◌else◌, arith, ◌==◌, All, All-imply, Bool-cases, inl, inr, get_elem?, length,
}
use crashcart.Base.Int.{ℤ, pos, ◌+ℤ◌, ◌-ℤ◌, ltb_ℤ, eqb_ℤ, int64}
use crashcart.Base.Text.{str_eq}
use crashcart.Sentry.Frame.{Frame}
use crashcart.Symbolicate.Search.{sort_search}
use crashcart.Symbolicate.SourceMap.{
  Mapping, RawMap, raw_map, no_sections, bad_section, section, mapping_less, insert_mapping,
  sort_mappings, plain_map, sorted_map, parse_source_map,
}

-- Sentry columns count from 1, source maps from 0.
abbrev pub column_of : Frame → ℤ
column_of f = if ltb_ℤ (pos 0) f.colno then f.colno -ℤ pos 1 else f.colno

-- The mapping lies after the position of the frame.
unfoldable pub is_after : ℤ → ℤ → Mapping → Bool
is_after line col m = ltb_ℤ line m.gen_line || (eqb_ℤ m.gen_line line && ltb_ℤ col m.gen_col)

abbrev pub or_after : ℤ → ℤ → Option Mapping → Bool
or_after line col none = true
or_after line col (some m) = is_after line col m

-- The predicate that is searched, by index.
abbrev pub after_at : ℤ → ℤ → List Mapping → ℕ → Bool
after_at line col ms i = or_after line col (get_elem? ms i)

-- The mapping before index `r`, if there is one.
unfoldable pub before_index : List Mapping → ℕ → Option Mapping
before_index ms zero = none
before_index ms (suc r) = get_elem? ms r

-- What a mapping that was found makes of a frame.
unfoldable pub moved_to : Frame → Option Mapping → Frame
moved_to f none = f
moved_to f (some m) = if not m.has_orig || not (eqb_ℤ m.gen_line f.lineno) then f else record f {
  filename = if str_eq m.source [] then f.filename else m.source;
  abs_path = if str_eq m.source [] then f.abs_path else [];
  function = if str_eq m.name [] then f.function else m.name;
  lineno = m.orig_line;
  colno = int64 (m.orig_col +ℤ pos 1);
}

-- `Resolve`.
unfoldable pub resolve : List Mapping → Frame → Frame
unfolding moved_to before_index
resolve ms f =
    if ltb_ℤ f.lineno (pos 1) || (length ms == 0)
    then f
    else moved_to f (before_index ms (sort_search (length ms) (after_at f.lineno (column_of f) ms)))

-- The last mapping that is not after the position, by a scan.
unfoldable pub last_before : (Mapping → Bool) → List Mapping → Option Mapping
last_before after [] = none
last_before after (m ∷ ms) = elim (last_before after ms) [
  | some k ↦ some k
  | none ↦ if after m then none else some m
]

abbrev pub IsSorted : List Mapping → Type 0
IsSorted [] = Unit
IsSorted (m ∷ ms) = All (λ k. mapping_less k m ≡ false) ms × IsSorted ms

mapping_less_trans :
    (a b c : Mapping)
    → mapping_less b a ≡ false
    → mapping_less c b ≡ false
    → mapping_less c a ≡ false
unfolding mapping_less
mapping_less_trans a b c h k = ground arith

mapping_less_asym : (a b : Mapping) → mapping_less a b ≡ true → mapping_less b a ≡ false
unfolding mapping_less
mapping_less_asym a b h = ground arith

insert_mapping-All :
    (m low : Mapping) (ms : List Mapping)
    → mapping_less m low ≡ false
    → All (λ k. mapping_less k low ≡ false) ms
    → All (λ k. mapping_less k low ≡ false) (insert_mapping m ms)
unfolding insert_mapping
insert_mapping-All m low [] e h = (e, tt)
insert_mapping-All m low (k ∷ ms) e h = elim (Bool-cases (mapping_less k m)) [
  | inl q ↦ rw q (h.0, insert_mapping-All m low ms e h.1)
  | inr q ↦ rw q (e, h)
]

insert_mapping-IsSorted :
    (m : Mapping) (ms : List Mapping) → IsSorted ms → IsSorted (insert_mapping m ms)
unfolding insert_mapping
insert_mapping-IsSorted m [] h = (tt, tt)
insert_mapping-IsSorted m (k ∷ ms) h = elim (Bool-cases (mapping_less k m)) [
  | inl q ↦
      rw q
        (insert_mapping-All m k ms (mapping_less_asym k m q) h.0, insert_mapping-IsSorted m ms h.1)
  | inr q ↦ rw q ((q, All-imply _ _ ms (λ j e. mapping_less_trans m k j q e) h.0), h)
]

pub sort_mappings-IsSorted : (ms : List Mapping) → IsSorted (sort_mappings ms)
unfolding sort_mappings
sort_mappings-IsSorted [] = tt
sort_mappings-IsSorted (m ∷ ms) =
    insert_mapping-IsSorted m (sort_mappings ms) (sort_mappings-IsSorted ms)

pub parse_source_map-IsSorted : (raw : RawMap) → IsSorted (parse_source_map raw).mappings
unfolding parse_source_map plain_map sorted_map
parse_source_map-IsSorted (raw_map sources root names mappings no_sections) =
    sort_mappings-IsSorted _
parse_source_map-IsSorted (raw_map sources root names mappings (bad_section rest)) =
    sort_mappings-IsSorted _
parse_source_map-IsSorted (raw_map sources root names mappings (section line col sub rest)) =
    sort_mappings-IsSorted _

pub is_after_mono :
    (line col : ℤ) (a b : Mapping)
    → mapping_less b a ≡ false
    → is_after line col a ≡ true
    → is_after line col b ≡ true
unfolding mapping_less is_after
is_after_mono line col a b h k = ground arith
