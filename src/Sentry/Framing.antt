-- ===== src/Sentry/Framing.antt =====
-- The framing of internal/sentry/envelope.go: the loop ends, and gives back the items of a printed envelope.
use crashcart.Base.{
  ℕ, zero, suc, ◌-◌, ◌≤◌, ◌≡◌, refl, ◌⊎◌, inl, inr, true, false, List, [], ◌∷◌, ◌++◌, Option, none,
  some, arith, leb, ◌==◌, take, drop, length, Bool-cases, ap, All, length-append,
}
use crashcart.Base.Int.{ℤ, pos, negsuc}
use crashcart.Base.Text.{Bytes, cut_at, or_else, before_more}
use crashcart.Sentry.Json.{Library, ItemHeader, EnvelopeHeader}
use crashcart.Sentry.Id.{parse_id}
use crashcart.Sentry.Envelope.{
  Envelope, Context, cut_line, line_or_all, split_body, skip_newline, handle_item, header_on,
  item_step, parse_step, parse_items, parse, context_of, empty_envelope, with_header,
}

rest_of-more :
    (c : ℕ) (b : Bytes) (o : Option (Bytes × Bytes))
    → (line_or_all (c ∷ b) (before_more c o)).1 ≡ (line_or_all b o).1
rest_of-more c b none = refl
rest_of-more c b (some cut) = refl

length-cut_line : (b : Bytes) → length (cut_line b).1 ≤ length b - 1
unfolding cut_line cut_at
length-cut_line [] = ground arith
length-cut_line (c ∷ b) = elim (Bool-cases (c == b'\n')) [
  | inl e ↦ rw e (ground arith)
  | inr e ↦ rw (e, rest_of-more c b (cut_at b'\n' b)) (omega (arith, length-cut_line b))
]

length-drop : (n : ℕ) (b : Bytes) → length (drop n b) ≤ length b
length-drop zero b = ground arith
length-drop (suc n) [] = ground arith
length-drop (suc n) (c ∷ b) = omega (arith, length-drop n b)

length-skip_newline : (b : Bytes) → length (skip_newline b) ≤ length b
length-skip_newline [] = ground arith
length-skip_newline (c ∷ b) = elim (Bool-cases (c == b'\n')) [
  | inl e ↦ rw e (ground arith)
  | inr e ↦ rw e (ground arith)
]

length-split_body : (n : Option ℤ) (b : Bytes) → length (split_body n b).1 ≤ length b
unfolding split_body
length-split_body none b = omega (arith, length-cut_line b)
length-split_body (some (negsuc n)) b = omega (arith, length-cut_line b)
length-split_body (some (pos n)) b = elim (Bool-cases (leb n (length b))) [
  | inl e ↦ rw e (omega (arith, length-skip_newline (drop n b), length-drop n b))
  | inr e ↦ rw e (omega (arith, length-cut_line b))
]

module _ (lib : Library) (ctx : Context) where
  length-item_step :
      (b : Bytes) (env : Envelope) (o : Option ItemHeader)
      → length (item_step lib ctx b env o).0 ≤ length b
  length-item_step b env none = ground arith
  length-item_step b env (some ih) = length-split_body ih.item_length b

  -- Every round takes a byte at least.
  length-parse_step :
      (c : ℕ) (b : Bytes) (env : Envelope) → length (parse_step lib ctx (c ∷ b) env).0 ≤ length b
  unfolding parse_step
  length-parse_step c b env = omega (
    arith,
    length-item_step (cut_line (c ∷ b)).1 env (header_on lib (cut_line (c ∷ b)).0),
    length-cut_line (c ∷ b),
  )

  parse_items-enough :
      (fuel : ℕ) (b : Bytes) (env : Envelope)
      → length b ≤ fuel
      → (next : Envelope) × (parse_items lib ctx fuel b env ≡ some next)
  unfolding parse_items
  parse_items-enough fuel [] env h = (env, refl)
  parse_items-enough zero (c ∷ b) env h = ground arith
  parse_items-enough (suc fuel) (c ∷ b) env h =
      parse_items-enough fuel (parse_step lib ctx (c ∷ b) env).0 (parse_step lib ctx (c ∷ b) env).1
        (omega (arith, length-parse_step c b env))

-- A part of an envelope's text: an item with its header's line and its body, or a line that says of no
-- item (it is blank or not the syntax of a header).
pub data Piece : Type 0 where
  item : Bytes → ItemHeader → Bytes → Piece
  noise : Bytes → Piece

abbrev printed_piece : Piece → Bytes → Bytes
printed_piece (item line ih body) rest = line ++ b'\n' ∷ (body ++ b'\n' ∷ rest)
printed_piece (noise line) rest = line ++ b'\n' ∷ rest

-- The text of an envelope after its first line.
unfoldable pub printed : List Piece → Bytes
printed [] = []
printed (p ∷ ps) = printed_piece p (printed ps)

abbrev OneLine : Bytes → Type 0
OneLine = All (λ c. (c == b'\n') ≡ false)

-- A header says the length of the body, or the body is one line.
abbrev IsMeasured : Option ℤ → Bytes → Type 0
IsMeasured n body = (n ≡ some (pos (length body))) ⊎ (n ≡ none) × OneLine body

abbrev pub IsFramed : Library → Piece → Type 0
IsFramed lib (item line ih body) =
    OneLine line × (header_on lib line ≡ some ih) × IsMeasured ih.item_length body
IsFramed lib (noise line) = OneLine line × (header_on lib line ≡ none)

abbrev pub handle_piece : Library → Context → Piece → Envelope → Envelope
handle_piece lib ctx (item line ih body) env = handle_item lib ctx ih body env
handle_piece lib ctx (noise line) env = env

unfoldable pub handle_all : Library → Context → List Piece → Envelope → Envelope
handle_all lib ctx [] env = env
handle_all lib ctx (p ∷ ps) env = handle_all lib ctx ps (handle_piece lib ctx p env)

cut_at-append :
    (line rest : Bytes) → OneLine line → cut_at b'\n' (line ++ b'\n' ∷ rest) ≡ some (line, rest)
unfolding cut_at
cut_at-append [] rest h = refl
cut_at-append (c ∷ line) rest h = rw (h.0, cut_at-append line rest h.1) refl

cut_line-append :
    (line rest : Bytes) → OneLine line → cut_line (line ++ b'\n' ∷ rest) ≡ (line, rest)
unfolding cut_line
cut_line-append line rest h = rw (cut_at-append line rest h) refl

take-append : (a b : Bytes) → take (length a) (a ++ b) ≡ a
take-append [] b = refl
take-append (c ∷ a) b = rw (take-append a b) refl

drop-append : (a b : Bytes) → drop (length a) (a ++ b) ≡ b
drop-append [] b = refl
drop-append (c ∷ a) b = drop-append a b

split_body-append :
    (n : Option ℤ) (body rest : Bytes)
    → IsMeasured n body
    → split_body n (body ++ b'\n' ∷ rest) ≡ (body, rest)
unfolding split_body
split_body-append n body rest (inl e) =
    let fits : leb (length body) (length (body ++ b'\n' ∷ rest)) ≡ true =
      rw (length-append body (b'\n' ∷ rest)) (ground arith) in
    rw (e, fits, take-append body (b'\n' ∷ rest), drop-append body (b'\n' ∷ rest)) refl
split_body-append n body rest (inr (e, h)) = rw e (cut_line-append body rest h)

module _ (lib : Library) (ctx : Context) where
  parse_step-line :
      (line b : Bytes) (env : Envelope)
      → OneLine line
      → parse_step lib ctx (line ++ b'\n' ∷ b) env ≡ item_step lib ctx b env (header_on lib line)
  unfolding parse_step
  parse_step-line line b env h = rw (cut_line-append line b h) refl

  parse_items-step :
      (fuel : ℕ) (line b : Bytes) (env : Envelope)
      → OneLine line
      → parse_items lib ctx (suc fuel) (line ++ b'\n' ∷ b) env ≡ (
          let step = item_step lib ctx b env (header_on lib line) in
          parse_items lib ctx fuel step.0 step.1)
  unfolding parse_items
  parse_items-step fuel [] b env h =
      let e : parse_step lib ctx (b'\n' ∷ b) env ≡ item_step lib ctx b env (header_on lib []) =
        parse_step-line [] b env h in
      ap (λ s. parse_items lib ctx fuel s.0 s.1) e
  parse_items-step fuel (c ∷ line) b env h =
      let e : parse_step lib ctx (c ∷ (line ++ b'\n' ∷ b)) env
          ≡ item_step lib ctx b env (header_on lib (c ∷ line)) =
        parse_step-line (c ∷ line) b env h in
      ap (λ s. parse_items lib ctx fuel s.0 s.1) e

  piece_step :
      (p : Piece) (rest : Bytes) (env : Envelope) (fuel : ℕ)
      → IsFramed lib p
      → parse_items lib ctx (suc fuel) (printed_piece p rest) env
        ≡ parse_items lib ctx fuel rest (handle_piece lib ctx p env)
  piece_step (item line ih body) rest env fuel (l, e, m) =
      rw
        (
          parse_items-step fuel line (body ++ b'\n' ∷ rest) env l,
          e,
          split_body-append ih.item_length body rest m,
        )
        refl
  piece_step (noise line) rest env fuel (l, e) = rw (parse_items-step fuel line rest env l, e) refl

  length-printed_piece :
      (p : Piece) (rest : Bytes) → suc (length rest) ≤ length (printed_piece p rest)
  length-printed_piece (item line ih body) rest =
      rw (length-append line (b'\n' ∷ (body ++ b'\n' ∷ rest)), length-append body (b'\n' ∷ rest))
        (ground arith)
  length-printed_piece (noise line) rest = rw (length-append line (b'\n' ∷ rest)) (ground arith)

  -- Enough rounds handle the pieces in order.
  parse_items-printed :
      (ps : List Piece) (env : Envelope) (fuel : ℕ)
      → All (IsFramed lib) ps
      → length (printed ps) ≤ fuel
      → parse_items lib ctx fuel (printed ps) env ≡ some (handle_all lib ctx ps env)
  unfolding printed handle_all
  parse_items-printed [] env fuel h e = unfold parse_items in refl
  parse_items-printed (p ∷ ps) env zero h e = ground (arith, length-printed_piece p (printed ps))
  parse_items-printed (p ∷ ps) env (suc fuel) h e = rw (piece_step p (printed ps) env fuel h.0) (
      parse_items-printed ps (handle_piece lib ctx p env) fuel h.1
        (omega (arith, length-printed_piece p (printed ps))))

-- `Parse` gives back an envelope: of a text made of a header's line and then of items and lines of noise
-- in any order, it handles every item once, in order, with the very bytes of its body (newlines included
-- where the item's header says the length), and an unreadable line costs no item.
pub parse-printed :
    (lib : Library) (line : Bytes) (hdr : EnvelopeHeader) (ps : List Piece) (now : ℕ)
    → All (λ c. (c == b'\n') ≡ false) line
    → lib.envelope_header_of line ≡ some hdr
    → All (IsFramed lib) ps
    → parse lib (line ++ b'\n' ∷ printed ps) now
      ≡ some (
          handle_all lib
            (context_of lib hdr now)
            ps
            (record empty_envelope { event_id = or_else (parse_id hdr.event_id) [] }))
unfolding parse
parse-printed lib line hdr ps now l e h =
    rw (cut_line-append line (printed ps) l, e)
      (parse_items-printed lib (context_of lib hdr now) ps
        (record empty_envelope { event_id = or_else (parse_id hdr.event_id) [] })
        (length (printed ps)) h (ground arith))

-- `Parse` ends on every body: a round for each of its bytes is enough.
pub parse_returns :
    (lib : Library) (body : Bytes) (now : ℕ) → (env : Envelope) × (parse lib body now ≡ some env)
unfolding parse
parse_returns lib body now = returns (lib.envelope_header_of (cut_line body).0)
  where
    returns :
        (o : Option EnvelopeHeader)
        → (env : Envelope) × (with_header lib now (cut_line body).1 o ≡ some env)
    returns none = (empty_envelope, refl)
    returns (some hdr) =
        parse_items-enough lib (context_of lib hdr now) (length (cut_line body).1) (cut_line body).1
          (record empty_envelope { event_id = or_else (parse_id hdr.event_id) [] }) (ground arith)
