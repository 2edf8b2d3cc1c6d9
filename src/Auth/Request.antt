-- ===== src/Auth/Request.antt =====
-- internal/auth/auth.go and access.go: addresses, keys and origins read from a request. A header may
-- come on several lines, of which net/http's Get reads the first. X-Forwarded-For, where proxies add
-- theirs, is all its lines; the others are the text that Get gives, empty if there is none. net/url
-- and SHA-256 are parameters' results.
use crashcart.Base.{
  ℕ, ◌≡◌, refl, Bool, true, false, not, ◌&&◌, ◌||◌, List, [], ◌∷◌, ◌++◌, map, Option, none, some,
  if◌then◌else◌, ◌==◌, All,
}
use crashcart.Base.Text.{
  Bytes, codes, str_eq, trim_space, trim_prefix, trim_suffix, after_prefix, cut_at, after_last,
  before_last, split_at, trim_byte, lower_byte, or_else, after_last-append, after_last-none,
}
use crashcart.Sentry.Hex.{encode_hex}

pub record Request : Type 0 where
  pub x_forwarded_for : List Bytes
  pub x_forwarded_proto : Bytes
  pub x_sentry_auth : Bytes
  pub authorization : Bytes
  pub remote_addr : Bytes
  pub host : Bytes
  pub tls : Bool
  -- `URL.Query().Get("sentry_key")`.
  pub query_sentry_key : Bytes

abbrev is_comma : ℕ → Bool
is_comma c = c == b','

abbrev is_colon : ℕ → Bool
is_colon c = c == b':'

-- `Header.Get` on the lines of a header.
abbrev pub header_get : List Bytes → Bytes
header_get [] = []
header_get (line ∷ lines) = line

-- `clientIP`.
unfoldable pub client_ip : Request → Bool → Bytes
client_ip r trust_proxy =
    let xf = header_get r.x_forwarded_for in
    if trust_proxy && not (str_eq xf [])
    then trim_space (or_else (after_last is_comma xf) xf)
    else or_else (before_last is_colon r.remote_addr) r.remote_addr

-- `IPCredential`.
unfoldable pub ip_credential : Bool → Request → Bytes
ip_credential trust_proxy r = codes "ip:" ++ client_ip r trust_proxy

abbrev pub bearer_token : Request → Bytes
bearer_token r = trim_space (trim_prefix r.authorization (codes "Bearer"))

-- `BearerCredential`: by the token's digest.
unfoldable pub bearer_credential : (Bytes → Bytes) → Request → Bytes
bearer_credential sha256 r =
    let tok = bearer_token r in if str_eq tok [] then [] else codes "k:" ++ encode_hex (sha256 tok)

-- One `key=value` of the Sentry header: the value, if the key is `sentry_key`.
unfoldable pub sentry_key_field : Bytes → Option Bytes
sentry_key_field kv = elim (cut_at b'=' (trim_space kv)) [
  | none ↦ none
  | some (k, v) ↦
      if str_eq (trim_space k) (codes "sentry_key")
      then some (trim_byte b'"' (trim_space v))
      else none
]

unfoldable pub first_sentry_key : List Bytes → Bytes
first_sentry_key [] = []
first_sentry_key (kv ∷ kvs) = or_else (sentry_key_field kv) (first_sentry_key kvs)

-- `sentryKeyFrom`.
unfoldable pub sentry_key_from : Bytes → Bytes
sentry_key_from h = elim (after_prefix (codes "Sentry ") (trim_space h)) [
  | none ↦ []
  | some fields ↦ first_sentry_key (split_at b',' fields)
]

-- `SentryKey`.
unfoldable pub sentry_key : Request → Bytes
sentry_key r =
    let from_sentry_auth = sentry_key_from r.x_sentry_auth in
    let from_authorization = sentry_key_from r.authorization in
    if not (str_eq from_sentry_auth [])
    then from_sentry_auth
    else if not (str_eq from_authorization [])
    then from_authorization
    else r.query_sentry_key

abbrev first_of : List Bytes → Bytes
first_of [] = []
first_of (w ∷ ws) = w

-- `strings.EqualFold` with "https": U+017F folds to s as well.
unfoldable pub is_https : Bytes → Bool
is_https s =
    str_eq (map lower_byte s) (codes "https")
    || str_eq (map lower_byte s) (codes "http" ++ 0xc5 ∷ 0xbf ∷ [])

-- `Scheme`.
unfoldable pub scheme : Request → Bool → Bytes
scheme r trust_proxy =
    if r.tls
    then codes "https"
    else if trust_proxy
        && not (str_eq r.x_forwarded_proto [])
        && is_https (trim_space (first_of (split_at b',' r.x_forwarded_proto)))
    then codes "https"
    else codes "http"

-- `BaseURL`.
unfoldable pub base_url : Request → Bytes → Bool → Bytes
base_url r public_url trust_proxy =
    if not (str_eq public_url [])
    then trim_suffix public_url (codes "/")
    else scheme r trust_proxy ++ (codes "://" ++ r.host)

has_comma-nonempty : (front addr : Bytes) → str_eq (front ++ b',' ∷ addr) [] ≡ false
unfolding str_eq
has_comma-nonempty [] addr = refl
has_comma-nonempty (c ∷ front) addr = refl

-- A request without the headers that name other addresses, schemes and credentials.
abbrev pub bare : Request → Request
bare r = record r {
  x_forwarded_for = [];
  x_forwarded_proto = [];
  x_sentry_auth = [];
  authorization = [];
  host = [];
  query_sentry_key = [];
}

-- Behind a trusted proxy that appends its address to the first X-Forwarded-For line, or sends the only
-- one, clientIP is the address it appended, whatever the client sent before it and on further lines; a
-- line that the proxy adds after one of the client's has no say. Without a trusted proxy, neither the
-- headers nor the query have a say.
pub client_ip-unforgeable :
    (r : Request) (forged addr : Bytes) (more : List Bytes)
    → All (λ c. is_comma c ≡ false) addr
    → str_eq addr [] ≡ false
    → (client_ip (record r { x_forwarded_for = (forged ++ b',' ∷ addr) ∷ more }) true
        ≡ trim_space addr)
      × (client_ip (record r { x_forwarded_for = addr ∷ more }) true ≡ trim_space addr)
      × (client_ip r false ≡ client_ip (bare r) false)
unfolding client_ip
client_ip-unforgeable r forged addr more h some_addr = (
  rw (has_comma-nonempty forged addr, after_last-append is_comma forged addr b',' refl h) refl,
  rw (some_addr, after_last-none is_comma addr h) refl,
  refl,
)
