-- ===== src/Sentry/Frame.antt =====
-- internal/sentry/envelope.go: stack frames, exceptions and debug images, as the SDK sent them.
use crashcart.Base.{Bool, true, false, ◌&&◌, List, Option, none, some, []}
use crashcart.Base.Int.{ℤ, pos, eqb_ℤ}
use crashcart.Base.Text.{Bytes, str_eq, or_else}

-- A frame; the innermost one stands last in a stack.
pub record Frame : Type 0 where
  pub filename : Bytes
  pub abs_path : Bytes
  pub function : Bytes
  pub module_name : Bytes
  pub package_name : Bytes
  pub lineno : ℤ
  pub colno : ℤ
  pub in_app : Option Bool
  pub instr_addr : Bytes
  pub image_addr : Bytes
  pub symbol_addr : Bytes

-- `IsInApp`.
unfoldable pub is_in_app : Frame → Bool
is_in_app f = or_else f.in_app false

pub record Exception : Type 0 where
  pub error_type : Bytes
  pub value : Bytes
  pub frames : List Frame
  pub handled : Option Bool
  pub mechanism : Bytes
  pub exception_id : Option ℤ
  pub parent_id : Option ℤ

pub record DebugImage : Type 0 where
  pub image_type : Bytes
  pub debug_id : Bytes
  pub uuid : Bytes
  pub code_file : Bytes
  pub image_addr : Bytes
  pub image_size : ℤ

-- No frame at all.
abbrev pub no_frame : Frame
no_frame = record {
  filename = [];
  abs_path = [];
  function = [];
  module_name = [];
  package_name = [];
  lineno = pos 0;
  colno = pos 0;
  in_app = none;
  instr_addr = [];
  image_addr = [];
  symbol_addr = [];
}

abbrev option_eq : Option Bool → Option Bool → Bool
option_eq none none = true
option_eq (some true) (some true) = true
option_eq (some false) (some false) = true
option_eq _ _ = false

-- Equality of two frames; the flag is the same pointer when one is a copy of the other.
unfoldable pub frame_eq : Frame → Frame → Bool
frame_eq f g =
    str_eq f.filename g.filename
    && str_eq f.abs_path g.abs_path
    && str_eq f.function g.function
    && str_eq f.module_name g.module_name
    && str_eq f.package_name g.package_name
    && eqb_ℤ f.lineno g.lineno
    && eqb_ℤ f.colno g.colno
    && option_eq f.in_app g.in_app
    && str_eq f.instr_addr g.instr_addr
    && str_eq f.image_addr g.image_addr
    && str_eq f.symbol_addr g.symbol_addr
