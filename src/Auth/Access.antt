-- ===== src/Auth/Access.antt =====
-- internal/auth/access.go: API keys and viewer sessions over the accounts of internal/store. The
-- random tokens and SHA-256 are parameters; the database does not fail.
use crashcart.Base.{
  ℕ, ◌+◌, ◌*◌, ◌≡◌, refl, true, false, List, [], ◌∷◌, ◌++◌, Option, none, some, if◌then◌else◌,
  arith, ◌==◌, take, find_row, some_row, Bool-cases, inl, inr, ap, find_row-append, ◌∙◌, ◌<◌,
}
use crashcart.Base.Text.{Bytes, codes, str_eq, str_eq_refl}
use crashcart.Store.Accounts.{
  User, UserSession, ApiKey, count_users, create_user_session, get_user_session, user_of,
  is_session, delete_user_session, create_api_key, get_api_key_by_hash, touch_api_key, sessions_end,
}

pub record Actor : Type 0 where
  pub user_id : ℕ
  pub key_id : ℕ
  pub name : Bytes

-- `SessionTTL`: 30 days, in microseconds.
abbrev pub session_ttl : ℕ
session_ttl = 30 * 24 * 3600000000

-- `KeyPrefix`.
abbrev pub key_prefix : Bytes
key_prefix = codes "cc_"

-- `Access.CreateAPIKey`: the keys, and the secret, which is shown once.
unfoldable pub new_api_key :
    (Bytes → Bytes)
    → Bytes
    → ℕ
    → ℕ
    → Bytes
    → Option ℕ
    → List ApiKey
    → Option (List ApiKey × ApiKey) × Bytes
new_api_key sha256 token now id name created_by keys =
    let secret = key_prefix ++ token in
    (create_api_key now id name (sha256 secret) (take 11 secret) created_by keys, secret)

unfoldable pub let_in : ℕ → List ApiKey → Option ApiKey → List ApiKey × Option Actor
let_in now keys none = (keys, none)
let_in now keys (some k) =
    (touch_api_key now k.id keys, some (record { user_id = 0; key_id = k.id; name = k.name }))

-- `APIKey`: the keys after, and the actor, or `none` for 401.
unfoldable pub api_key_gate : (Bytes → Bytes) → ℕ → Bytes → List ApiKey → List ApiKey × Option Actor
unfolding let_in
api_key_gate sha256 now tok keys =
    if str_eq tok [] then (keys, none) else let_in now keys (get_api_key_by_hash (sha256 tok) keys)

unfoldable pub with_cookie :
    Bytes → Option (List UserSession) → Option (List UserSession × Bytes × ℕ)
with_cookie token none = none
with_cookie token (some after) = some (after, token, 2592000)

-- `Login` with a fresh token: the sessions and the cookie's value and age in seconds.
unfoldable pub login :
    (Bytes → Bytes)
    → Bytes
    → ℕ
    → ℕ
    → List User
    → List UserSession
    → Option (List UserSession × Bytes × ℕ)
unfolding with_cookie
login sha256 token now user_id users sessions =
    with_cookie token
      (create_user_session (sha256 token) user_id (now + session_ttl) users sessions)

-- `Logout`: the sessions without the request's.
unfoldable pub logout : (Bytes → Bytes) → Bytes → List UserSession → List UserSession
logout sha256 cookie sessions =
    if str_eq cookie [] then sessions else delete_user_session (sha256 cookie) sessions

abbrev pub actor_of : Option User → Option Actor
actor_of none = none
actor_of (some u) = some (record { user_id = u.id; key_id = 0; name = u.email })

-- `Identify`: the actor that a cookie names, if any.
unfoldable pub identify : (Bytes → Bytes) → ℕ → Bytes → List User → List UserSession → Option Actor
identify sha256 now cookie users sessions =
    if str_eq cookie []
    then none
    else actor_of (get_user_session now (sha256 cookie) users sessions)

pub data Gate : Type 0 where
  through : Actor → Gate
  sign_in : Gate
  set_up : Gate

unfoldable pub gate_of : List User → Option Actor → Gate
gate_of users (some a) = through a
gate_of users none = if count_users users == 0 then set_up else sign_in

-- `Session`: the user passes, or is sent to /setup while no user exists, else to /login.
unfoldable pub session_gate : (Bytes → Bytes) → ℕ → Bytes → List User → List UserSession → Gate
unfolding gate_of
session_gate sha256 now cookie users sessions =
    gate_of users (identify sha256 now cookie users sessions)

logged_in :
    (now until : ℕ) (hash : Bytes) (user : User) (users : List User) (sessions : List UserSession)
    → find_row (λ u. u.id == user.id) users ≡ some user
    → find_row (is_session now hash) sessions ≡ none
    → now < until
    → get_user_session now hash users
        (sessions ++ record { token_hash = hash; user_id = user.id; expires_at = until } ∷ [])
      ≡ some user
unfolding get_user_session user_of
logged_in now until hash user users sessions u s lt =
    let mine : is_session now hash
          (record { token_hash = hash; user_id = user.id; expires_at = until })
        ≡ true =
      rw (str_eq_refl hash) (ground arith) in
    ap (user_of users) (
      find_row-append (is_session now hash) sessions
        (record { token_hash = hash; user_id = user.id; expires_at = until }) s mine)
    ∙ u

no_session :
    (now : ℕ) (hash : Bytes) (sessions : List UserSession)
    → some_row (λ s. str_eq hash s.token_hash) sessions ≡ false
    → find_row (is_session now hash) sessions ≡ none
no_session now hash [] h = refl
no_session now hash (s ∷ sessions) h =
    let mine : is_session now hash s ≡ false = ground arith in
    rw mine (no_session now hash sessions (ground arith))

known_user :
    (id : ℕ) (user : User) (users : List User)
    → find_row (λ u. u.id == id) users ≡ some user
    → some_row (λ u. u.id == id) users ≡ true
known_user id user [] h = ground arith
known_user id user (u ∷ users) h = elim (Bool-cases (u.id == id)) [
  | inl e ↦ rw e refl
  | inr e ↦ rw e (known_user id user users (ground arith))
]

-- Logging a user in with a token that is not in use gives a cookie of that token that `Session` lets
-- through as the user for 30 days, and that names nobody after `Logout`.
pub login-session_gate :
    (sha256 : Bytes → Bytes) (now later : ℕ) (token : Bytes) (user : User) (users : List User)
    (sessions : List UserSession)
    → str_eq token [] ≡ false
    → find_row (λ u. u.id == user.id) users ≡ some user
    → some_row (λ s. str_eq (sha256 token) s.token_hash) sessions ≡ false
    → later < now + session_ttl
    → (after : List UserSession) × (login sha256 token now user.id users sessions
        ≡ some (after, token, 2592000))
      × (session_gate sha256 later token users after
          ≡ through (record { user_id = user.id; key_id = 0; name = user.email }))
      × (identify sha256 later token users (logout sha256 token after) ≡ none)
unfolding session_gate identify gate_of logout login create_user_session with_cookie
login-session_gate sha256 now later token user users sessions c u s lt =
    let after : List UserSession =
      sessions
      ++ record { token_hash = sha256 token; user_id = user.id; expires_at = now + session_ttl }
        ∷ [] in
    (
      after,
      rw (s, known_user user.id user users u) refl,
      rw
          (
            c,
            logged_in later (now + session_ttl) (sha256 token) user users sessions u
                (no_session later (sha256 token) sessions s) lt,
          )
          refl,
      rw (c, (sessions_end later later (sha256 token) users after (omega arith)).1) refl,
    )
