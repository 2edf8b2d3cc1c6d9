-- ===== src/Symbolicate/ProGuard.antt =====
-- internal/symbolicate/proguard.go: reading a mapping file, and expanding a frame to the frames that
-- R8 inlined into it. The two line patterns are Go regexps, parameters; no line is longer than the
-- scanner's 16 MB.
use crashcart.Base.{
  ℕ, ◌+◌, ◌-◌, ◌*◌, Bool, false, not, ◌&&◌, ◌||◌, List, [], ◌∷◌, ◌++◌, map, reverse, Option, none,
  some, if◌then◌else◌, ◌==◌, min, keep, find_row,
}
use crashcart.Base.Int.{ℤ, pos, ◌+ℤ◌, ◌-ℤ◌, ltb_ℤ, leb_ℤ, int64}
use crashcart.Base.Text.{
  Bytes, codes, str_eq, has_prefix, split_at, trim_space, after_last, before_last, cut_at, or_else,
}
use crashcart.Sentry.Frame.{Frame, frame_eq}

pub record ProguardMethod : Type 0 where
  pub class_name : Bytes
  pub method_name : Bytes
  pub args : Bytes
  pub has_range : Bool
  pub obf_start : ℤ
  pub obf_end : ℤ
  pub orig_start : ℤ
  pub orig_end : ℤ

-- The maps as lists: of a class the last line counts, the methods of a key stand in file order.
pub record ProGuardMapping : Type 0 where
  pub classes : List (Bytes × Bytes)
  pub methods : List (Bytes × ProguardMethod)

-- The groups of `pgMethodRe`; an absent group is empty.
pub record MethodMatch : Type 0 where
  pub obf_start : Bytes
  pub obf_end : Bytes
  pub name : Bytes
  pub args : Bytes
  pub orig_start : Bytes
  pub orig_end : Bytes
  pub obf_name : Bytes

unfoldable pub decimal_from : ℕ → Bytes → ℕ
decimal_from n [] = n
decimal_from n (c ∷ s) = decimal_from (n * 10 + (c - b'0')) s

-- `atoi` on a group of digits: past the range Go returns the greatest int.
unfoldable pub atoi : Bytes → ℤ
unfolding decimal_from
atoi s = pos (min (decimal_from 0 s) 9223372036854775807)

-- The last dot that is not the first byte parts a qualified name.
unfoldable pub qualified : Bytes → Bytes → Bytes × Bytes
qualified class_name name = elim (before_last (λ c. c == b'.') name) [
  | none ↦ (class_name, name)
  | some [] ↦ (class_name, name)
  | some (c ∷ front) ↦ (c ∷ front, or_else (after_last (λ c. c == b'.') name) name)
]

unfoldable pub method_of : Bytes → MethodMatch → ProguardMethod
unfolding qualified
method_of orig_class mm =
    let (class_name, method_name) = qualified orig_class mm.name in
    record {
      class_name = class_name;
      method_name = method_name;
      args = mm.args;
      has_range = not (str_eq mm.obf_start []);
      obf_start = atoi mm.obf_start;
      obf_end = atoi mm.obf_end;
      orig_start = atoi mm.orig_start;
      orig_end = atoi mm.orig_end;
    }

-- The scanner drops a carriage return at a line's end.
abbrev drop_return : Bytes → Bytes
drop_return line = elim (reverse line) [
  | [] ↦ []
  | c ∷ rest ↦ if c == 13 then reverse rest else line
]

module _ (class_re : Bytes → Option (Bytes × Bytes)) (method_re : Bytes → Option MethodMatch) where
  -- The lines from one on, under the class that the last class line named.
  unfoldable pub parse_lines : Bytes → Bytes → List Bytes → ProGuardMapping → ProGuardMapping
  parse_lines obf_class orig_class [] m = m
  parse_lines obf_class orig_class (line ∷ lines) m =
      let skipped = parse_lines obf_class orig_class lines m in
      if str_eq (trim_space line) [] || has_prefix line (codes "#")
      then skipped
      else elim (class_re line) [
        | some (orig, obf) ↦
            parse_lines obf orig lines (record m { classes = (obf, orig) ∷ m.classes })
        | none ↦ elim (method_re line) [
          | none ↦ skipped
          | some mm ↦
              let added = parse_lines obf_class orig_class lines (record m {
                methods =
                    m.methods ++ (obf_class ++ (b'.' ∷ mm.obf_name), method_of orig_class mm) ∷ [];
              }) in
              if str_eq obf_class [] then skipped else added
        ]
      ]

  -- `ParseProGuard`.
  unfoldable pub parse_proguard : Bytes → ProGuardMapping
  unfolding parse_lines
  parse_proguard content =
      parse_lines [] [] (map drop_return (split_at 10 content))
        (record { classes = []; methods = [] })

abbrev pub class_of : ProGuardMapping → Bytes → Option Bytes
class_of m class = elim (find_row (λ (c : Bytes × Bytes). str_eq class c.0) m.classes) [
  | none ↦ none
  | some (obf, orig) ↦ some orig
]

abbrev pub methods_of : ProGuardMapping → Bytes → List ProguardMethod
methods_of m key =
    map (λ (c : Bytes × ProguardMethod). c.1)
      (keep (λ (c : Bytes × ProguardMethod). str_eq key c.0) m.methods)

-- `origLine`.
unfoldable pub orig_line : ProguardMethod → ℤ → ℤ
orig_line c line =
    if ltb_ℤ (pos 0) c.orig_start
      && ltb_ℤ c.orig_start c.orig_end
      && c.has_range
      && leb_ℤ c.obf_start line
    then int64 (c.orig_start +ℤ int64 (line -ℤ c.obf_start))
    else if ltb_ℤ (pos 0) c.orig_start
    then c.orig_start
    else line

abbrev is_placeholder_file : Bytes → Bool
is_placeholder_file f =
    str_eq f []
    || str_eq f (codes "SourceFile")
    || str_eq f (codes "Unknown Source")
    || str_eq f (codes "Unknown")
    || str_eq f (codes "Native Method")

-- The class name without its package and what follows its first `$`, if that is not its first byte.
unfoldable pub outer_name : Bytes → Bytes
outer_name class =
    let name = or_else (after_last (λ c. c == b'.') class) class in
    elim (cut_at b'$' name) [
      | none ↦ name
      | some ([], rest) ↦ name
      | some (c ∷ front, rest) ↦ c ∷ front
    ]

-- `deobfuscatedFile`.
unfoldable pub deobfuscated_file : Bytes → Bytes → Bytes
deobfuscated_file filename class =
    let name = outer_name class in
    if not (is_placeholder_file filename)
    then filename
    else if str_eq name []
    then filename
    else name ++ codes ".java"

-- The entry covers the line.
unfoldable pub covers : ℤ → ProguardMethod → Bool
covers line c = c.has_range && leb_ℤ c.obf_start line && leb_ℤ line c.obf_end

-- The candidates of a frame: the method's, or the class renamed, or none.
unfoldable pub candidates : ProGuardMapping → Bytes → Frame → List ProguardMethod
candidates m class f = elim (methods_of m (class ++ (b'.' ∷ f.function))) [
  | c ∷ cs ↦ c ∷ cs
  | [] ↦ elim (class_of m class) [
    | none ↦ []
    | some cls ↦
        record {
          class_name = cls;
          method_name = f.function;
          args = [];
          has_range = false;
          obf_start = pos 0;
          obf_end = pos 0;
          orig_start = pos 0;
          orig_end = pos 0;
        }
        ∷ []
  ]
]

abbrev pub or_declared :
    ProguardMethod → List ProguardMethod → List ProguardMethod → List ProguardMethod
or_declared c cs [] = or_else (find_row (λ k. not k.has_range) (c ∷ cs)) c ∷ []
or_declared c cs (k ∷ ks) = k ∷ ks

-- The entries that cover the line, or else the first without a range, or else the first.
unfoldable pub chain_of : ℤ → ProguardMethod → List ProguardMethod → List ProguardMethod
chain_of line c cs = or_declared c cs (keep (covers line) (c ∷ cs))

-- One frame of the chain. A missing class has the empty name.
unfoldable pub expanded : ProGuardMapping → Bytes → Frame → ProguardMethod → Frame
expanded m class f c = record f {
  module_name = c.class_name;
  function = c.method_name;
  lineno = orig_line c f.lineno;
  filename =
      deobfuscated_file
        (if str_eq c.class_name (or_else (class_of m class) []) then f.filename else [])
        c.class_name;
}

unfoldable pub expand_by : ProGuardMapping → Bytes → Frame → List ProguardMethod → List Frame
unfolding chain_of
expand_by m class f [] = f ∷ []
expand_by m class f (c ∷ cs) = map (expanded m class f) (reverse (chain_of f.lineno c cs))

abbrev pub class_name_of : Frame → Bytes
class_name_of f = if str_eq f.module_name [] then f.filename else f.module_name

-- `Expand`.
unfoldable pub expand : ProGuardMapping → Frame → List Frame
unfolding expand_by
expand m f =
    let class = class_name_of f in
    if str_eq class [] then f ∷ [] else expand_by m class f (candidates m class f)

abbrev pub last_of : Frame → List Frame → Frame
last_of f [] = f
last_of f (g ∷ frames) = last_of g frames

-- `Resolve`: the innermost of the expanded frames.
unfoldable pub resolve_innermost : ProGuardMapping → Frame → Frame
resolve_innermost m f = last_of f (expand m f)

abbrev pub is_same : Frame → List Frame → Bool
is_same f (g ∷ []) = frame_eq g f
is_same f _ = false

-- `ResolveAll`.
unfoldable pub expand_all : ProGuardMapping → List Frame → List Frame × Bool
expand_all m [] = ([], false)
expand_all m (f ∷ frames) =
    let (out, changed) = expand_all m frames in
    (expand m f ++ out, not (is_same f (expand m f)) || changed)
