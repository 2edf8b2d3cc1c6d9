-- ===== src/Store/Cursor.antt =====
-- internal/store/cursor.go: the position of a page of events, and its text in a URL. Go's time package
-- is a parameter: times, the zero time, and the RFC 3339 text both ways.
use crashcart.Base.{
  ℕ, ◌≡◌, refl, Bool, true, false, [], ◌∷◌, ◌++◌, Option, none, some, if◌then◌else◌, arith, ◌==◌,
  All, ap, ◌∙◌,
}
use crashcart.Base.Text.{Bytes, cut_at, str_eq}
use crashcart.Sentry.Id.{parse_id}

pub record TimePackage : Type 1 where
  pub Time : Type 0
  pub zero_time : Time
  pub is_zero : Time → Bool
  pub format : Time → Bytes
  pub parse : Bytes → Option Time

-- What the text of a time is documented to be: read back as the same time, without an underscore.
pub record IsRfc3339 (time : TimePackage) : Type 0 where
  pub parse-format : (t : time.Time) → time.parse (time.format t) ≡ some t
  pub no_underscore : (t : time.Time) → All (λ c. (c == b'_') ≡ false) (time.format t)

pub cut_at-append :
    (sep : ℕ) (a b : Bytes)
    → All (λ c. (c == sep) ≡ false) a
    → cut_at sep (a ++ sep ∷ b) ≡ some (a, b)
unfolding cut_at
cut_at-append sep [] b h = let self : (sep == sep) ≡ true = ground arith in rw self refl
cut_at-append sep (c ∷ a) b h = rw (h.0, cut_at-append sep a b h.1) refl

module _ (time : TimePackage) where
  pub record Cursor : Type 0 where
    pub at : time.Time
    pub event_id : Bytes

  -- `String`.
  unfoldable pub cursor_text : Cursor → Bytes
  cursor_text c = if time.is_zero c.at then [] else time.format c.at ++ b'_' ∷ c.event_id

  unfoldable pub with_id : time.Time → Option Bytes → Option Cursor
  with_id t none = none
  with_id t (some eid) = some (record { at = t; event_id = eid })

  unfoldable pub with_time : Bytes → Option time.Time → Option Cursor
  unfolding with_id
  with_time id none = none
  with_time id (some t) = with_id t (parse_id id)

  unfoldable pub parse_parts : Option (Bytes × Bytes) → Option Cursor
  unfolding with_time
  parse_parts none = none
  parse_parts (some (ts, [])) = none
  parse_parts (some (ts, c ∷ id)) = with_time (c ∷ id) (time.parse ts)

  -- `ParseCursor`.
  unfoldable pub parse_cursor : Bytes → Option Cursor
  unfolding parse_parts
  parse_cursor [] = some (record { at = time.zero_time; event_id = [] })
  parse_cursor (c ∷ s) = parse_parts (cut_at b'_' (c ∷ s))

  parse_cursor-cut :
      (a b : Bytes)
      → All (λ c. (c == b'_') ≡ false) a
      → parse_cursor (a ++ b'_' ∷ b) ≡ parse_parts (some (a, b))
  unfolding parse_cursor
  parse_cursor-cut [] b h = ap parse_parts (cut_at-append b'_' [] b h)
  parse_cursor-cut (c ∷ a) b h = ap parse_parts (cut_at-append b'_' (c ∷ a) b h)

  parse_parts-id :
      (t : time.Time) (ts id : Bytes)
      → time.parse ts ≡ some t
      → parse_id id ≡ some id
      → str_eq id [] ≡ false
      → parse_parts (some (ts, id)) ≡ some (record { at = t; event_id = id })
  unfolding parse_parts with_time with_id str_eq
  parse_parts-id t ts [] h k e = ground arith
  parse_parts-id t ts (c ∷ id) h k e = rw (h, k) refl

  -- The text of a cursor at an event is parsed back to the cursor, if times are read back as they
  -- were written and the event's id is a normal one.
  pub parse_cursor-cursor_text :
      IsRfc3339 time
      → (c : Cursor) → time.is_zero c.at ≡ false
      → parse_id c.event_id ≡ some c.event_id
      → str_eq c.event_id [] ≡ false
      → parse_cursor (cursor_text c) ≡ some c
  unfolding cursor_text
  parse_cursor-cursor_text rfc c set normal there = rw set (
      parse_cursor-cut (time.format c.at) c.event_id (rfc.no_underscore c.at)
      ∙ parse_parts-id c.at (time.format c.at) c.event_id (rfc.parse-format c.at) normal there)
