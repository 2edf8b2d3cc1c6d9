-- ===== src/Ingest/Scrub.antt =====
-- internal/ingest/pii.go and ingest.go: redaction of a whole event. The patterns are Go regexps, and
-- the user object is decoded and encoded by encoding/json: parameters.
use crashcart.Base.{
  ℕ, Bool, false, not, ◌&&◌, ◌||◌, List, [], ◌∷◌, map, Option, none, some, if◌then◌else◌, some_row,
}
use crashcart.Base.Text.{Bytes, codes, str_eq}
use crashcart.Sentry.Frame.{Exception}
use crashcart.Sentry.Event.{Event, Breadcrumb, tag}
use crashcart.Ingest.Redact.{redact_text, redact_user_id, redact_tags}

-- A value of the user object.
pub data Value : Type 0 where
  text : Bytes → Value
  other : Bytes → Value

pub record Patterns : Type 0 where
  pub replace_emails : Bytes → Bytes
  pub cards : Bytes → List (ℕ × ℕ)
  pub phones : Bytes → List (ℕ × ℕ)
  pub replace_ip_addresses : Bytes → Bytes
  -- The document's fields, the user object's, and the two encoded again.
  pub fields_of : Bytes → Option (List (Bytes × Bytes))
  pub user_of : Bytes → Option (List (Bytes × Value))
  pub user_text : List (Bytes × Value) → Option Bytes
  pub document_text : List (Bytes × Bytes) → Option Bytes

unfoldable pub scrub_text : Patterns → Bytes → Bytes
scrub_text p s = redact_text p.replace_emails p.cards p.phones s

-- `RedactRaw`.
unfoldable pub redact_raw : Patterns → Bytes → Bytes
unfolding scrub_text
redact_raw p s = p.replace_ip_addresses (scrub_text p s)

abbrev is_name : Bytes → Bool
is_name k = str_eq k (codes "id") || str_eq k (codes "username")

-- A field that the masking changes: an id or a name, as a text that is not empty.
abbrev is_masked : Bytes × Value → Bool
is_masked (k, text s) = is_name k && not (str_eq s [])
is_masked (k, other s) = false

abbrev masked_field : Bytes × Value → Bytes × Value
masked_field (k, text s) = if is_name k then (k, text (redact_user_id s)) else (k, text s)
masked_field (k, other s) = (k, other s)

unfoldable pub set_user : Bytes → List (Bytes × Bytes) → List (Bytes × Bytes)
set_user u [] = []
set_user u ((k, v) ∷ fields) = (k, (if str_eq k (codes "user") then u else v)) ∷ set_user u fields

abbrev encoded : Patterns → Bytes → List (Bytes × Bytes) → Option Bytes → Bytes
encoded p raw top none = raw
encoded p raw top (some u) = elim (p.document_text (set_user u top)) [ none ↦ raw | some out ↦ out ]

abbrev masked_user : Patterns → Bytes → List (Bytes × Bytes) → Option (List (Bytes × Value)) → Bytes
masked_user p raw top none = raw
masked_user p raw top (some user) =
    if some_row is_masked user then encoded p raw top (p.user_text (map masked_field user)) else raw

abbrev user_in : Patterns → Bytes → List (Bytes × Bytes) → Option Bytes → Bytes
user_in p raw top none = raw
user_in p raw top (some []) = raw
user_in p raw top (some (c ∷ s)) = masked_user p raw top (p.user_of (c ∷ s))

-- `redactRawUser`.
unfoldable pub redact_raw_user : Patterns → Bytes → Bytes
unfolding set_user
redact_raw_user p raw = elim (p.fields_of raw) [
  | none ↦ raw
  | some top ↦ user_in p raw top (tag (codes "user") top)
]

abbrev scrub_exception : Patterns → Exception → Exception
scrub_exception p x = record x { value = scrub_text p x.value }

abbrev scrub_breadcrumb : Patterns → Breadcrumb → Breadcrumb
scrub_breadcrumb p b = record b { message = scrub_text p b.message }

-- `redact`.
unfoldable pub redact : Patterns → Event → Event
redact p e = record e {
  message = scrub_text p e.message;
  transaction = scrub_text p e.transaction;
  tags = redact_tags (scrub_text p) e.tags;
  user_id = redact_user_id e.user_id;
  exceptions = map (scrub_exception p) e.exceptions;
  breadcrumbs = map (scrub_breadcrumb p) e.breadcrumbs;
  raw = redact_raw_user p (redact_raw p e.raw);
}
