-- ===== src/Auth/Service.antt =====
-- auth/src/services/auth.service.ts. The clock and what randomBytes and randomUUID draw are arguments;
-- scrypt, SHA-256 and the signing of access tokens are parameters. `log` lists the metrics that are
-- recorded, the latest first; the timers are left out.
use Prim.Native.String.{String}
use yovi_es1c.Prelude.{
  ℕ, ◌+◌, ◌*◌, Bool, true, false, leb, ltb, if◌then◌else◌, Option, none, some, is_some, List, ◌∷◌,
}
use mathlib.Core.Option
use yovi_es1c.Prelude.Text.{Text}
use yovi_es1c.Prelude.Maps.{string_eq, same}
use yovi_es1c.Auth.Password.{Derive, hash_password, verify_password}
use yovi_es1c.Auth.Tables.{
  Db, UserRow, RefreshTokenRecord, find_user_by_username, find_user_by_id, create_user,
  create_session, count_active_sessions, revoke_oldest_active_session, revoke_session_by_id,
  store_refresh_token, find_refresh_token_by_hash, revoke_refresh_token,
  revoke_refresh_token_family, revoke_all_user_sessions,
}

pub data AuthError : Type 0 where
  user_already_exists bad_credentials invalid_refresh_token unexpected_error : AuthError

pub data Result (A : Type 0) : Type 0 where
  ok : A → Result A
  err : AuthError → Result A

pub data RegisterResult : Type 0 where
  registered user_exists register_unexpected : RegisterResult

pub data LoginResult : Type 0 where
  logged_in wrong_credentials login_unexpected : LoginResult

pub data RefreshResult : Type 0 where
  refreshed missing_token token_not_found revoked_token expired_token refresh_unexpected :
      RefreshResult

pub data RevocationReason : Type 0 where
  login_revoke_all refresh_token_reuse refresh_expired refresh_rotation logout_one logout_every :
      RevocationReason

pub data AuthEvent : Type 0 where
  register_attempt : RegisterResult → AuthEvent
  login_attempt : LoginResult → AuthEvent
  simple_login_attempt : Bool → AuthEvent
  refresh_attempt : RefreshResult → AuthEvent
  revocation : RevocationReason → ℕ → AuthEvent
  refresh_token_issued inc_active tokens_issued : AuthEvent
  dec_active : ℕ → AuthEvent

-- SHA-256 in hexadecimal, and jwt.sign for a user, a session and a name.
pub record Crypto : Type 0 where
  pub derive : Derive
  pub hash_refresh_token : String → String
  pub sign : ℕ → String → Option String → String

-- What is drawn at random for one call.
pub record Draw : Type 0 where
  pub salt : Text
  pub session_id : String
  pub refresh_token : String
  pub family_id : String

pub record IssuedSession : Type 0 where
  pub access_token : String
  pub refresh_token : String
  pub session_id : String
  pub device_id : String

pub record AuthResponse : Type 0 where
  pub issued : IssuedSession
  pub user_id : ℕ
  pub username : String

pub record RefreshResponse : Type 0 where
  pub access_token : String
  pub refresh_token : String
  pub session_id : String

pub record Auth : Type 0 where
  pub db : Db
  pub log : List AuthEvent

abbrev pub recorded : Auth → AuthEvent → Auth
recorded st event = record st { log = event ∷ st.log }

abbrev pub refresh_token_ttl_ms : ℕ
refresh_token_ttl_ms = 7 * 24 * 60 * 60 * 1000

-- `if (revoked > 0)`: the revocation is recorded, and the gauge of active tokens goes down.
abbrev pub revoked_with : RevocationReason → Auth → Db × ℕ → Auth
revoked_with reason st (db, n) =
    if ltb 0 n
    then record { db = db; log = dec_active n ∷ revocation reason n ∷ st.log }
    else record st { db = db }

module _ (c : Crypto) where
  -- signAccessToken.
  unfoldable pub sign_access_token : Auth → ℕ → String → Option String → Auth × String
  sign_access_token st user_id session_id username =
      (recorded st tokens_issued, c.sign user_id session_id username)

  -- issueSession once the session's row is there.
  unfoldable pub issue_token : Auth → ℕ → String → String → Draw → ℕ → Auth × Option IssuedSession
  unfolding sign_access_token
  issue_token st user_id username device_id draw now =
      let (signed, access_token) = sign_access_token st user_id draw.session_id (some username) in
      elim (store_refresh_token signed.db user_id draw.session_id
        (c.hash_refresh_token draw.refresh_token) draw.family_id (now + refresh_token_ttl_ms)) [
          | none ↦ (signed, none)
          | some db ↦ (
            record { db = db; log = inc_active ∷ refresh_token_issued ∷ signed.log },
            some (record {
              access_token = access_token;
              refresh_token = draw.refresh_token;
              session_id = draw.session_id;
              device_id = device_id;
            }),
          )
        ]

  -- issueSession; `none` is the error of a broken constraint.
  unfoldable pub issue_session :
      Auth → ℕ → String → String → Option String → Draw → ℕ → Auth × Option IssuedSession
  issue_session st user_id username device_id device_name draw now =
      elim (create_session st.db draw.session_id user_id device_id device_name now) [
        | none ↦ (st, none)
        | some db ↦ issue_token (record st { db = db }) user_id username device_id draw now
      ]

  -- The end of register: an error of a constraint, in any of the tables, is reported as a user
  -- who exists.
  unfoldable pub register_answer :
      Auth × Option IssuedSession → ℕ → String → Auth × Result AuthResponse
  register_answer (st, none) user_id username =
      (recorded st (register_attempt user_exists), err user_already_exists)
  register_answer (st, some issued) user_id username = (
    recorded st (register_attempt registered),
    ok (record { issued = issued; user_id = user_id; username = username }),
  )

  unfoldable pub register :
      Auth → String → Text → String → Option String → Draw → ℕ → Auth × Result AuthResponse
  register st username password device_id device_name draw now =
      elim (create_user st.db username (hash_password c.derive password draw.salt)) [
        | none ↦ (recorded st (register_attempt user_exists), err user_already_exists)
        | some (db, user_id) ↦
            register_answer
              (issue_session (record st { db = db }) user_id username device_id device_name draw
                now)
              user_id username
      ]

  -- The two records of a failed login.
  abbrev pub login_failed : Auth → LoginResult → AuthError → Auth × Result AuthResponse
  login_failed st reason error =
      (recorded (recorded st (login_attempt reason)) (simple_login_attempt false), err error)

  unfoldable pub login_answer : Auth × Option IssuedSession → UserRow → Auth × Result AuthResponse
  login_answer (st, none) user = login_failed st login_unexpected unexpected_error
  login_answer (st, some issued) user = (
    recorded (recorded st (login_attempt logged_in)) (simple_login_attempt true),
    ok (record { issued = issued; user_id = user.id; username = user.username }),
  )

  -- The gauge of active tokens is not lowered here.
  abbrev pub made_room : Auth → Db × ℕ → Auth
  made_room st (db, n) =
      if ltb 0 n
      then record { db = db; log = revocation login_revoke_all n ∷ st.log }
      else record st { db = db }

  -- At three active sessions the oldest one makes room.
  unfoldable pub make_room : Auth → ℕ → ℕ → Auth
  make_room st user_id now =
      if leb 3 (count_active_sessions st.db user_id)
      then made_room st (revoke_oldest_active_session st.db user_id now)
      else st

  -- login once the password is verified.
  unfoldable pub open_login :
      Auth → UserRow → String → Option String → Draw → ℕ → Auth × Result AuthResponse
  open_login st user device_id device_name draw now =
      login_answer
        (issue_session (make_room st user.id now) user.id user.username device_id device_name draw
          now)
        user

  unfoldable pub login :
      Auth → String → Text → String → Option String → Draw → ℕ → Auth × Result AuthResponse
  login st username password device_id device_name draw now =
      elim (find_user_by_username st.db username) [
        | none ↦ login_failed st wrong_credentials bad_credentials
        | some user ↦ elim (verify_password c.derive password user.password_hash) [
          | none ↦ login_failed st login_unexpected unexpected_error
          | some false ↦ login_failed st wrong_credentials bad_credentials
          | some true ↦ open_login st user device_id device_name draw now
        ]
      ]

  abbrev pub refresh_failed : Auth → RefreshResult → Auth × Result RefreshResponse
  refresh_failed st reason = (recorded st (refresh_attempt reason), err invalid_refresh_token)

  -- refresh for a live token: it is revoked, and the next one of its family is stored.
  unfoldable pub rotate : Auth → RefreshTokenRecord → Draw → ℕ → Auth × Result RefreshResponse
  unfolding sign_access_token
  rotate st stored draw now =
      let revoked = revoked_with refresh_rotation st (revoke_refresh_token st.db stored.id now) in
      elim (store_refresh_token revoked.db stored.user_id stored.session_id
        (c.hash_refresh_token draw.refresh_token) stored.family_id (now + refresh_token_ttl_ms)) [
          | none ↦ (recorded revoked (refresh_attempt refresh_unexpected), err unexpected_error)
          | some db ↦
              let issued : Auth = record {
                db = db;
                log = inc_active ∷ refresh_token_issued ∷ revoked.log;
              } in
              let username =
                Option.map (λ (u : UserRow). u.username) (find_user_by_id db stored.user_id) in
              let (signed, access_token) =
                sign_access_token issued stored.user_id stored.session_id username in
              (
                recorded signed (refresh_attempt refreshed),
                ok (record {
                  access_token = access_token;
                  refresh_token = draw.refresh_token;
                  session_id = stored.session_id;
                }),
              )
        ]

  -- refresh for a token that is stored: a revoked one revokes its family.
  unfoldable pub refresh_stored :
      Auth → RefreshTokenRecord → Draw → ℕ → Auth × Result RefreshResponse
  refresh_stored st stored draw now =
      if is_some stored.revoked_at
      then refresh_failed
          (revoked_with refresh_token_reuse st
            (revoke_refresh_token_family st.db stored.family_id now))
          revoked_token
      else if leb stored.expires_at now
      then refresh_failed
          (revoked_with refresh_expired st (revoke_refresh_token st.db stored.id now)) expired_token
      else rotate st stored draw now

  -- A token that is not there is `none`; the source takes an empty one for that as well.
  unfoldable pub refresh : Auth → Option String → Draw → ℕ → Auth × Result RefreshResponse
  refresh st none draw now = refresh_failed st missing_token
  refresh st (some token) draw now =
      if same token ""
      then refresh_failed st missing_token
      else elim (find_refresh_token_by_hash st.db (c.hash_refresh_token token)) [
        | none ↦ refresh_failed st token_not_found
        | some stored ↦ refresh_stored st stored draw now
      ]

unfoldable pub logout : Auth → Option String → ℕ → Auth
logout st none now = st
logout st (some session_id) now =
    if same session_id ""
    then st
    else revoked_with logout_one st (revoke_session_by_id st.db session_id now)

unfoldable pub logout_all : Auth → ℕ → ℕ → Auth
logout_all st user_id now =
    revoked_with logout_every st (revoke_all_user_sessions st.db user_id now)
