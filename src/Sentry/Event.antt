-- ===== src/Sentry/Event.antt =====
-- internal/sentry/envelope.go: the parsed event. Times are those of Times.
use crashcart.Base.{
  ℕ, Bool, false, not, List, [], ◌∷◌, Option, none, some, if◌then◌else◌, get_elem?,
}
use crashcart.Base.Text.{Bytes, codes, str_eq, or_else}
use crashcart.Sentry.Frame.{Frame, Exception, DebugImage}

pub record Breadcrumb : Type 0 where
  pub timestamp : Bytes
  pub breadcrumb_type : Bytes
  pub category : Bytes
  pub message : Bytes
  pub level : Bytes
  -- The JSON of `data`.
  pub data_json : Bytes

pub record Event : Type 0 where
  pub event_id : Bytes
  pub timestamp : ℕ
  pub level : Bytes
  pub message : Bytes
  pub platform : Bytes
  pub environment : Bytes
  pub release : Bytes
  pub os_version : Bytes
  pub device_model : Bytes
  pub transaction : Bytes
  pub error_type : Bytes
  pub handled : Option Bool
  pub sdk_name : Bytes
  pub user_id : Bytes
  pub tags : List (Bytes × Bytes)
  pub breadcrumbs : List Breadcrumb
  pub exceptions : List Exception
  pub debug_images : List DebugImage
  pub sdk_fingerprint : List Bytes
  pub primary : ℕ
  pub thread_frames : List Frame
  pub clamped : Bool
  pub raw : Bytes

-- A value of the tags, which are a map: the first entry of the key.
unfoldable pub tag : Bytes → List (Bytes × Bytes) → Option Bytes
tag key [] = none
tag key ((k, v) ∷ tags) = let rest = tag key tags in if str_eq key k then some v else rest

-- `DeviceID`.
unfoldable pub device_id : Event → Bytes
device_id e = or_else (tag (codes "device_id") e.tags) []

-- `IsUnhandled`.
unfoldable pub is_unhandled : Event → Bool
is_unhandled e = elim e.handled [ none ↦ false | some h ↦ not h ]

abbrev frames_at : List Exception → ℕ → List Frame
frames_at xs i = elim (get_elem? xs i) [ none ↦ [] | some x ↦ x.frames ]

-- `Frames`. The index of the main exception is always in range (see Sentry/Parse).
unfoldable pub frames : Event → List Frame
frames e = elim e.exceptions [ [] ↦ e.thread_frames | x ∷ xs ↦ frames_at (x ∷ xs) e.primary ]
