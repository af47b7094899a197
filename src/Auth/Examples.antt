-- ===== src/Auth/Examples.antt =====
-- One user who registers, logs in again, refreshes and logs out. Every password has the key `00ab`, and
-- a token is its own hash.
use yovi_es1c.Prelude.{◌≡◌, ◌↔◌, ◌≤◌, refl, true, some, none, [], ◌∷◌, arith}
use yovi_es1c.Prelude.Text.{Text, split}
use yovi_es1c.Prelude.Maps.{string_eq}
use yovi_es1c.Prelude.Query.{find, update_where, count_where}
use yovi_es1c.Auth.Tables.{
  find_user_by_username, find_user_by_id, create_user, has_session, create_session,
  count_active_sessions, store_refresh_token, find_refresh_token_by_hash, revoke_session_by_id,
  revoke_tokens, revoke_refresh_token, revoke_refresh_token_family,
}
use yovi_es1c.Auth.Password.{
  Derive, IsKey, hash_password, verify_password, verify_parts, verify_password-hash_password,
}
use yovi_es1c.Auth.Hex.{hex_of, digit, bytes_of, nibble}
use yovi_es1c.Auth.Service.{
  Crypto, Draw, Auth, ok, err, invalid_refresh_token, sign_access_token, issue_token, issue_session,
  register_answer, register, make_room, login_answer, open_login, login, rotate, refresh_stored,
  refresh, logout,
}
use yovi_es1c.Auth.Calls.{Call, register_call, login_call, refresh_call, step, run, no_rows}
use yovi_es1c.Auth.Safety.{refresh-only_once, refresh-closes_family, logout-closes_session}
use yovi_es1c.Auth.Limits.{run-at_most_three}

abbrev zeros : Derive
zeros password salt = 0 ∷ 171 ∷ []

abbrev salt_text : Text
salt_text = b's' ∷ []

abbrev crypto : Crypto
crypto = record {
  derive = zeros;
  hash_refresh_token = λ token. token;
  sign = λ user_id session_id username. session_id;
}

abbrev draw1 : Draw
draw1 = record { salt = salt_text; session_id = "s1"; refresh_token = "t1"; family_id = "f1" }

abbrev draw2 : Draw
draw2 = record { salt = salt_text; session_id = "s2"; refresh_token = "t2"; family_id = "f2" }

abbrev draw3 : Draw
draw3 = record { salt = salt_text; session_id = "s3"; refresh_token = "t3"; family_id = "f3" }

abbrev draw4 : Draw
draw4 = record { salt = salt_text; session_id = "s4"; refresh_token = "t4"; family_id = "f4" }

abbrev registration : Call
registration = register_call "ana" (b'p' ∷ []) "web" none draw1 0

abbrev next_login : Draw → Call
next_login draw = login_call "ana" (b'p' ∷ []) "web" none draw 10

zeros-IsKey : IsKey zeros
zeros-IsKey = record {
  are_bytes = λ p s. (omega arith, (omega arith, tt));
  not_empty = λ p s e. cc;
  fixed_length = λ p q s t. refl;
}

verify_password-hash_password_example :
    (verify_password zeros (b'p' ∷ []) (hash_password zeros (b'q' ∷ []) salt_text) ≡ some true)
    ↔ (zeros (b'p' ∷ []) salt_text ≡ zeros (b'q' ∷ []) salt_text)
verify_password-hash_password_example =
    verify_password-hash_password zeros (b'p' ∷ []) (b'q' ∷ []) salt_text zeros-IsKey
      (omega arith, tt) (λ e. cc)

first_refresh :
    (refresh crypto (run crypto no_rows (registration ∷ [])) (some "t1") draw2 5).1
    ≡ ok (record { access_token = "s1"; refresh_token = "t2"; session_id = "s1" })
unfolding run step register register_answer issue_session issue_token create_user create_session
    sign_access_token store_refresh_token hash_password refresh refresh_stored rotate
    find_refresh_token_by_hash has_session revoke_refresh_token revoke_tokens update_where
    count_where find find_user_by_id
first_refresh = refl

refresh-only_once_example :
    (refresh crypto
      (run crypto
        (refresh crypto (run crypto no_rows (registration ∷ [])) (some "t1") draw2 5).0
        (next_login draw3 ∷ []))
      (some "t1")
      draw4
      20).1
    ≡ err invalid_refresh_token
refresh-only_once_example =
    refresh-only_once crypto (registration ∷ []) (next_login draw3 ∷ []) "t1" draw2 5 _ draw4 20
      first_refresh

run-at_most_three_example :
    count_active_sessions
      (run crypto no_rows
        (registration ∷ next_login draw2 ∷ next_login draw3 ∷ next_login draw4 ∷ [])).db
      1
    ≤ 3
run-at_most_three_example =
    run-at_most_three crypto
      (registration ∷ next_login draw2 ∷ next_login draw3 ∷ next_login draw4 ∷ []) 1

logout-closes_session_example :
    (refresh crypto
      (run crypto (logout (run crypto no_rows (registration ∷ [])) (some "s1") 5) [])
      (some "t1")
      draw2
      6).1
    ≡ err invalid_refresh_token
unfolding run step register register_answer issue_session issue_token create_user create_session
    sign_access_token store_refresh_token hash_password find_refresh_token_by_hash has_session
    logout revoke_session_by_id update_where count_where find
logout-closes_session_example =
    logout-closes_session crypto (run crypto no_rows (registration ∷ [])) "s1" 5 [] "t1" _ draw2 6
      refl refl refl refl

abbrev refreshed_once : Auth
refreshed_once = run crypto no_rows (registration ∷ refresh_call (some "t1") draw2 5 ∷ [])

refresh-closes_family_example :
    ((refresh crypto refreshed_once (some "t1") draw3 6).1 ≡ err invalid_refresh_token)
    × ((refresh crypto
          (run crypto (refresh crypto refreshed_once (some "t1") draw3 6).0 (next_login draw3 ∷ []))
          (some "t2")
          draw4
          7).1
        ≡ err invalid_refresh_token)
unfolding run step register register_answer issue_session issue_token create_user create_session
    sign_access_token store_refresh_token hash_password refresh refresh_stored rotate
    find_refresh_token_by_hash has_session revoke_refresh_token revoke_tokens update_where
    count_where find find_user_by_id revoke_refresh_token_family login open_login make_room
    login_answer find_user_by_username verify_password verify_parts bytes_of nibble hex_of digit
    count_active_sessions split
refresh-closes_family_example =
    refresh-closes_family crypto refreshed_once "t1" _ draw3 6 (next_login draw3 ∷ []) "t2" _ draw4
      7 refl refl refl (refl, tt) refl refl
