-- ===== src/Store/Accounts.antt =====
-- internal/store/auth.go: users, viewer sessions and API keys, each statement as a function on rows.
-- Times are instants in microseconds.
use crashcart.Base.{
  map, ℕ, ◌+◌, ◌≤◌, ◌≡◌, refl, Bool, true, false, not, ◌&&◌, ◌||◌, List, [], ◌∷◌, ◌++◌, Option,
  none, some, if◌then◌else◌, arith, ltb, ◌==◌, keep, count, length, some_row, update_where,
  find_row, Bool-cases, inl, inr, ap,
}
use crashcart.Base.Text.{Bytes, str_eq}

pub record User : Type 0 where
  pub id : ℕ
  pub email : Bytes
  pub name : Bytes
  pub password_hash : Bytes
  pub created_at : ℕ

pub record UserSession : Type 0 where
  pub token_hash : Bytes
  pub user_id : ℕ
  pub expires_at : ℕ

pub record ApiKey : Type 0 where
  pub id : ℕ
  pub name : Bytes
  pub key_hash : Bytes
  pub prefix : Bytes
  pub created_by : Option ℕ
  pub created_at : ℕ
  pub last_used_at : Option ℕ
  pub revoked_at : Option ℕ

-- `CountUsers`.
unfoldable pub count_users : List User → ℕ
count_users users = length users

-- `CreateUser`, with the next id: an e-mail address in use is an error.
unfoldable pub create_user : ℕ → ℕ → Bytes → Bytes → Bytes → List User → Option (List User × User)
create_user now id email name password_hash users =
    let user : User = record {
      id = id;
      email = email;
      name = name;
      password_hash = password_hash;
      created_at = now;
    } in
    if some_row (λ u. str_eq email u.email) users then none else some (users ++ user ∷ [], user)

-- `GetUserByEmail`.
unfoldable pub get_user_by_email : Bytes → List User → Option User
get_user_by_email email users = find_row (λ u. str_eq email u.email) users

-- `SetUserPassword`: the rows affected.
unfoldable pub set_user_password : ℕ → Bytes → List User → List User × ℕ
set_user_password id password_hash users = (
  update_where (λ u. u.id == id) (λ u. record u { password_hash = password_hash }) users,
  count (λ u. u.id == id) users,
)

-- `ON DELETE SET NULL` of a key's creator.
abbrev pub forget_creator : ℕ → ApiKey → ApiKey
forget_creator id k = record k {
  created_by = elim k.created_by [ none ↦ none | some u ↦ if u == id then none else some u ];
}

-- `DeleteUser`: the user's sessions go with the row, and keys stay without their creator.
unfoldable pub delete_user :
    ℕ
    → List User
    → List UserSession
    → List ApiKey
    → (List User × List UserSession × List ApiKey) × ℕ
delete_user id users sessions keys = (
  (
    keep (λ u. not (u.id == id)) users,
    keep (λ s. not (s.user_id == id)) sessions,
    map (forget_creator id) keys,
  ),
  count (λ u. u.id == id) users,
)

-- `CreateUserSession`: a token in use or an unknown user is an error.
unfoldable pub create_user_session :
    Bytes → ℕ → ℕ → List User → List UserSession → Option (List UserSession)
create_user_session token_hash user_id expires_at users sessions =
    if some_row (λ s. str_eq token_hash s.token_hash) sessions
      || not (some_row (λ u. u.id == user_id) users)
    then none
    else some (
        sessions
        ++ record { token_hash = token_hash; user_id = user_id; expires_at = expires_at } ∷ [])

-- The live session of a token.
abbrev pub is_session : ℕ → Bytes → UserSession → Bool
is_session now token_hash s = str_eq token_hash s.token_hash && ltb now s.expires_at

unfoldable pub user_of : List User → Option UserSession → Option User
user_of users none = none
user_of users (some s) = find_row (λ u. u.id == s.user_id) users

-- `GetUserSession`.
unfoldable pub get_user_session : ℕ → Bytes → List User → List UserSession → Option User
unfolding user_of
get_user_session now token_hash users sessions =
    user_of users (find_row (is_session now token_hash) sessions)

-- `DeleteUserSession`.
unfoldable pub delete_user_session : Bytes → List UserSession → List UserSession
delete_user_session token_hash sessions = keep (λ s. not (str_eq token_hash s.token_hash)) sessions

-- `ExpireUserSessions`: the rows affected.
unfoldable pub expire_user_sessions : ℕ → List UserSession → List UserSession × ℕ
expire_user_sessions now sessions =
    (keep (λ s. not (ltb s.expires_at now)) sessions, count (λ s. ltb s.expires_at now) sessions)

abbrev pub is_revoked : ApiKey → Bool
is_revoked k = elim k.revoked_at [ none ↦ false | some at ↦ true ]

-- `CreateAPIKey`, with the next id: a hash in use is an error.
unfoldable pub create_api_key :
    ℕ → ℕ → Bytes → Bytes → Bytes → Option ℕ → List ApiKey → Option (List ApiKey × ApiKey)
create_api_key now id name key_hash prefix created_by keys =
    let key : ApiKey = record {
      id = id;
      name = name;
      key_hash = key_hash;
      prefix = prefix;
      created_by = created_by;
      created_at = now;
      last_used_at = none;
      revoked_at = none;
    } in
    if some_row (λ k. str_eq key_hash k.key_hash) keys then none else some (keys ++ key ∷ [], key)

abbrev pub is_live_key : Bytes → ApiKey → Bool
is_live_key key_hash k = str_eq key_hash k.key_hash && not (is_revoked k)

-- `GetAPIKeyByHash`.
unfoldable pub get_api_key_by_hash : Bytes → List ApiKey → Option ApiKey
get_api_key_by_hash key_hash keys = find_row (is_live_key key_hash) keys

abbrev pub minute : ℕ
minute = 60000000

abbrev pub used_before : ℕ → ApiKey → Bool
used_before now k = elim k.last_used_at [ none ↦ true | some at ↦ ltb (at + minute) now ]

-- `TouchAPIKey`.
unfoldable pub touch_api_key : ℕ → ℕ → List ApiKey → List ApiKey
touch_api_key now id keys =
    update_where (λ k. (k.id == id) && used_before now k)
      (λ k. record k { last_used_at = some now }) keys

-- `RevokeAPIKey`: the rows affected.
unfoldable pub revoke_api_key : ℕ → ℕ → List ApiKey → List ApiKey × ℕ
revoke_api_key now id keys = (
  update_where (λ k. (k.id == id) && not (is_revoked k)) (λ k. record k { revoked_at = some now })
      keys,
  count (λ k. (k.id == id) && not (is_revoked k)) keys,
)

module _ {A : Type 0} where
  find_row-keep :
      (p q : A → Bool) (rows : List A)
      → ((x : A) → p x ≡ true → q x ≡ true)
      → find_row p (keep q rows) ≡ find_row p rows
  find_row-keep p q [] h = refl
  find_row-keep p q (x ∷ rows) h = elim (Bool-cases (q x)) [
    | inl e ↦ rw (e, find_row-keep p q rows h) refl
    | inr e ↦ elim (Bool-cases (p x)) [
      | inl y ↦ ground (arith, h x y)
      | inr y ↦ rw (e, y) (find_row-keep p q rows h)
    ]
  ]

  find_row-dropped :
      (p q : A → Bool) (rows : List A)
      → ((x : A) → p x ≡ true → q x ≡ false)
      → find_row p (keep q rows) ≡ none
  find_row-dropped p q [] h = refl
  find_row-dropped p q (x ∷ rows) h = elim (Bool-cases (q x)) [
    | inr e ↦ rw e (find_row-dropped p q rows h)
    | inl e ↦ elim (Bool-cases (p x)) [
      | inl y ↦ ground (arith, h x y)
      | inr y ↦ rw (e, y) (find_row-dropped p q rows h)
    ]
  ]

-- The sweep of expired sessions never signs anyone out or in: from then on each token names the user
-- that it would have named; and a token whose session was deleted names nobody.
pub sessions_end :
    (now later : ℕ) (token : Bytes) (users : List User) (sessions : List UserSession)
    → now ≤ later
    → (get_user_session later token users (expire_user_sessions now sessions).0
        ≡ get_user_session later token users sessions)
      × (get_user_session later token users (delete_user_session token sessions) ≡ none)
unfolding get_user_session expire_user_sessions delete_user_session user_of
sessions_end now later token users sessions le = (
  ap (user_of users) (
      find_row-keep (is_session later token) (λ s. not (ltb s.expires_at now)) sessions
        (λ s h. ground arith)),
  ap (user_of users) (
      find_row-dropped (is_session later token) (λ s. not (str_eq token s.token_hash)) sessions
        (λ s h. ground arith)),
)

-- No secret gives a revoked key again.
pub revoked_stays_out :
    (now id : ℕ) (key_hash : Bytes) (keys : List ApiKey) (k : ApiKey)
    → get_api_key_by_hash key_hash (revoke_api_key now id keys).0 ≡ some k
    → (k.id == id) ≡ false
unfolding get_api_key_by_hash revoke_api_key
revoked_stays_out now id key_hash [] k h = ground arith
revoked_stays_out now id key_hash (j ∷ keys) k h =
    elim (Bool-cases ((j.id == id) && not (is_revoked j))) [
      | inl e ↦ revoked_stays_out now id key_hash keys k (ground arith)
      | inr e ↦ elim (Bool-cases (is_live_key key_hash j)) [
        | inl l ↦ ground arith
        | inr l ↦ revoked_stays_out now id key_hash keys k (ground arith)
      ]
    ]
