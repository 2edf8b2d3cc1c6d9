-- ===== src/Auth/Tests.antt =====
-- Runs of the models of internal/auth, and each theorem at a concrete input.
use crashcart.Base.{
  ℕ, ◌+◌, ◌%◌, ◌≡◌, ◌≤◌, refl, true, false, [], ◌∷◌, ◌++◌, some, arith, List, none,
}
use crashcart.Base.Text.{
  codes, str_eq, trim_space, drop_spaces, after_prefix, split_at, cut_at, trim_byte, drop_byte,
  after_last, before_last, Bytes,
}
use crashcart.Store.Accounts.{User, UserSession}
use crashcart.Auth.Access.{login, logout, identify, session_gate, through, login-session_gate}
use crashcart.Auth.Limiter.{no_requests, limited}
use crashcart.Auth.Window.{run, limited_exactly}
use crashcart.Auth.Request.{
  Request, client_ip, client_ip-unforgeable, bare, sentry_key_from, sentry_key_field,
  first_sentry_key,
}

abbrev request : Request
request = record {
  x_forwarded_for = codes "9.9.9.9, 10.0.0.7" ∷ [];
  x_forwarded_proto = [];
  x_sentry_auth = [];
  authorization = [];
  remote_addr = codes "10.1.1.1:5000";
  host = [];
  tls = false;
  query_sentry_key = [];
}

client_ips :
    (client_ip request true ≡ codes "10.0.0.7") × (client_ip request false ≡ codes "10.1.1.1")
unfolding client_ip str_eq trim_space drop_spaces after_last before_last
client_ips = (refl, refl)

key_read :
    sentry_key_from (codes "Sentry sentry_version=7, sentry_key=\"abc\",sentry_client=x")
    ≡ codes "abc"
unfolding sentry_key_from sentry_key_field first_sentry_key after_prefix split_at cut_at trim_byte
    drop_byte trim_space drop_spaces str_eq
key_read = refl

limited_exactly_example :
    ((limited 1
        (codes "k")
        119
        (run 1 ((codes "k", 59) ∷ (codes "k", 60) ∷ []) no_requests)).1.passes
      ≡ false)
    × ((limited 1
            (codes "k")
            119
            (run 1 ((codes "k", 59) ∷ (codes "k", 60) ∷ []) no_requests)).1.passes
          ≡ false
        → (wait : ℕ) × ((limited 1
              (codes "k")
              119
              (run 1 ((codes "k", 59) ∷ (codes "k", 60) ∷ []) no_requests)).1.retry_after
            ≡ some wait)
          × (1 ≤ wait)
          × (wait ≤ 60)
          × ((119 + wait) % 60 ≡ 0))
unfolding str_eq
limited_exactly_example =
    limited_exactly 1 ((codes "k", 59) ∷ (codes "k", 60) ∷ []) (codes "k") 119
      (omega arith, (omega arith, (omega arith, tt)))

client_ip-unforgeable_example :
    (client_ip
        (record request { x_forwarded_for = (codes "9.9.9.9" ++ b',' ∷ codes "10.0.0.7") ∷ [] })
        true
      ≡ trim_space (codes "10.0.0.7"))
    × (client_ip (record request { x_forwarded_for = codes "10.0.0.7" ∷ [] }) true
        ≡ trim_space (codes "10.0.0.7"))
    × (client_ip request false ≡ client_ip (bare request) false)
unfolding str_eq
client_ip-unforgeable_example =
    client_ip-unforgeable request (codes "9.9.9.9") (codes "10.0.0.7") []
      (refl, (refl, (refl, (refl, (refl, (refl, (refl, (refl, tt)))))))) refl

abbrev ann : User
ann = record { id = 1; email = codes "a@b.c"; name = []; password_hash = []; created_at = 5 }

-- A stand-in for a digest.
abbrev digest : Bytes → Bytes
digest s = 0 ∷ s

login-session_gate_example :
    (after : List UserSession) × (login digest (7 ∷ []) 10 1 (ann ∷ []) []
      ≡ some (after, 7 ∷ [], 2592000))
    × (session_gate digest 99 (7 ∷ []) (ann ∷ []) after
        ≡ through (record { user_id = 1; key_id = 0; name = codes "a@b.c" }))
    × (identify digest 99 (7 ∷ []) (ann ∷ []) (logout digest (7 ∷ []) after) ≡ none)
unfolding str_eq
login-session_gate_example =
    login-session_gate digest 10 99 (7 ∷ []) ann (ann ∷ []) [] refl refl refl (omega arith)
