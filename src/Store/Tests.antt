-- ===== src/Store/Tests.antt =====
-- Runs of the models of internal/store, and each theorem at a concrete input.
use crashcart.Base.{
  List, [], ◌∷◌, ℕ, ◌≡◌, refl, false, none, some, ◌==◌, replicate, suc, zero, All, arith, length,
}
use crashcart.Base.Text.{codes, str_eq, trim_space, drop_spaces}
use crashcart.Sentry.Hex.{decode_hex, from_hex_digit, cons_byte, byte_of}
use crashcart.Sentry.Id.{parse_id, checked, normal_text}
use crashcart.Store.Accounts.{
  User, UserSession, ApiKey, get_user_session, user_of, expire_user_sessions, delete_user_session,
  get_api_key_by_hash, revoke_api_key, sessions_end, revoked_stays_out,
}
use crashcart.Store.Cursor.{
  TimePackage, IsRfc3339, Cursor, cursor_text, parse_cursor, parse_cursor-cursor_text,
}

-- Times as numbers, written as so many ticks.
abbrev ticks : TimePackage
ticks = record {
  Time = ℕ;
  zero_time = 0;
  is_zero = λ t. t == 0;
  format = λ t. replicate t b'1';
  parse = λ s. some (length s);
}

length-replicate : (n : ℕ) → length {A = ℕ} (replicate n b'1') ≡ n
length-replicate zero = refl
length-replicate (suc n) = omega (arith, length-replicate n)

replicate-underscore : (n : ℕ) → All (λ c. (c == b'_') ≡ false) (replicate n b'1')
replicate-underscore zero = tt
replicate-underscore (suc n) = (refl, replicate-underscore n)

ticks-IsRfc3339 : IsRfc3339 ticks
ticks-IsRfc3339 = record {
  parse-format = λ t. rw (length-replicate t) refl;
  no_underscore = replicate-underscore;
}

abbrev position : Cursor ticks
position = record { at = 3; event_id = codes "a1b2c3d4e5f6a1b2c3d4e5f6a1b2c3d4" }

position-id :
    parse_id (codes "a1b2c3d4e5f6a1b2c3d4e5f6a1b2c3d4")
    ≡ some (codes "a1b2c3d4e5f6a1b2c3d4e5f6a1b2c3d4")
unfolding parse_id checked normal_text trim_space drop_spaces decode_hex from_hex_digit cons_byte
    byte_of
position-id = refl

there : str_eq (codes "a1b2c3d4e5f6a1b2c3d4e5f6a1b2c3d4") [] ≡ false
unfolding str_eq
there = refl

parse_cursor-cursor_text_example : parse_cursor ticks (cursor_text ticks position) ≡ some position
parse_cursor-cursor_text_example =
    parse_cursor-cursor_text ticks ticks-IsRfc3339 position refl position-id there

abbrev ann : User
ann = record {
  id = 1;
  email = codes "a@b.c";
  name = codes "Ann";
  password_hash = [];
  created_at = 5;
}

abbrev sessions : List UserSession
sessions = record { token_hash = 7 ∷ []; user_id = 1; expires_at = 20 } ∷ []

abbrev key : ℕ → ApiKey
key id = record {
  id = id;
  name = codes "ci";
  key_hash = 9 ∷ [];
  prefix = codes "cc_";
  created_by = none;
  created_at = 5;
  last_used_at = none;
  revoked_at = none;
}

signed_in :
    (get_user_session 19 (7 ∷ []) (ann ∷ []) sessions ≡ some ann)
    × (get_user_session 20 (7 ∷ []) (ann ∷ []) sessions ≡ none)
unfolding get_user_session user_of str_eq
signed_in = (refl, refl)

sessions_end_example :
    (get_user_session 15 (7 ∷ []) (ann ∷ []) (expire_user_sessions 10 sessions).0
      ≡ get_user_session 15 (7 ∷ []) (ann ∷ []) sessions)
    × (get_user_session 15 (7 ∷ []) (ann ∷ []) (delete_user_session (7 ∷ []) sessions) ≡ none)
sessions_end_example = sessions_end 10 15 (7 ∷ []) (ann ∷ []) sessions (omega arith)

revoked_stays_out_example : (2 == 1) ≡ false
revoked_stays_out_example = revoked_stays_out 8 1 (9 ∷ []) (key 1 ∷ key 2 ∷ []) (key 2) found
  where
    found : get_api_key_by_hash (9 ∷ []) (revoke_api_key 8 1 (key 1 ∷ key 2 ∷ [])).0 ≡ some (key 2)
    found = unfold get_api_key_by_hash revoke_api_key str_eq in refl
