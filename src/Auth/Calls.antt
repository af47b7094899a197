-- ===== src/Auth/Calls.antt =====
-- The calls of the service one after the other, from empty tables, and what each of them leaves of a
-- property of the tables that the queries keep.
use Prim.Native.String.{String}
use yovi_es1c.Prelude.{
  ℕ, ◌≡◌, refl, sym, ap, inl, inr, Bool, true, false, not, Bool-cases, Option-cases, Option, some,
  none, List, ◌∷◌, [], ltb, leb, All, ◌∈◌, is_some,
}
use mathlib.Core.Path.{subst}
use yovi_es1c.Prelude.Text.{Text}
use yovi_es1c.Prelude.Maps.{string_eq, same}
use yovi_es1c.Prelude.Query.{find-mem}
use yovi_es1c.Auth.Tables.{
  Db, UserRow, SessionRow, RefreshTokenRecord, is_live, create_user, create_session,
  find_refresh_token_by_hash, find_user_by_username, revoke_session_by_id, revoke_tokens,
  revoke_refresh_token, revoke_refresh_token_family, revoke_all_user_sessions,
  revoke_oldest_active_session, oldest, active_sessions, count_active_sessions,
}
use yovi_es1c.Auth.Password.{hash_password, verify_password}
use yovi_es1c.Auth.Service.{
  Crypto, Draw, Auth, RevocationReason, IssuedSession, revoked_with, register, register_answer,
  login, login_answer, made_room, open_login, make_room, issue_session, issue_token, rotate,
  refresh_stored, refresh, logout, logout_all,
}

pub data Call : Type 0 where
  register_call login_call : String → Text → String → Option String → Draw → ℕ → Call
  refresh_call : Option String → Draw → ℕ → Call
  logout_call : Option String → ℕ → Call
  logout_all_call : ℕ → ℕ → Call

unfoldable pub step : Crypto → Auth → Call → Auth
step c st (register_call username password device_id device_name draw now) =
    (register c st username password device_id device_name draw now).0
step c st (login_call username password device_id device_name draw now) =
    (login c st username password device_id device_name draw now).0
step c st (refresh_call token draw now) = (refresh c st token draw now).0
step c st (logout_call session_id now) = logout st session_id now
step c st (logout_all_call user_id now) = logout_all st user_id now

unfoldable pub run : Crypto → Auth → List Call → Auth
run c st [] = st
run c st (call ∷ calls) = run c (step c st call) calls

abbrev pub no_rows : Auth
no_rows = record {
  db = record { users = []; sessions = []; tokens = []; next_user = 1; next_token = 1 };
  log = [];
}

pub revoked_with_db :
    (reason : RevocationReason) (st : Auth) (r : Db × ℕ) → (revoked_with reason st r).db ≡ r.0
revoked_with_db reason st (db, n) = elim (Bool-cases (ltb 0 n)) [ inl h ↦ rw h | inr h ↦ rw h ]

pub found-mem :
    (db : Db) (token_hash : String) (t : RefreshTokenRecord)
    → find_refresh_token_by_hash db token_hash ≡ some t
    → (t ∈ db.tokens) × (same t.token_hash token_hash ≡ true)
unfolding find_refresh_token_by_hash
found-mem db token_hash t e = find-mem _ db.tokens t e

-- A condition on what a call draws for a new session.
abbrev pub FineCall : (Draw → Type 0) → Call → Type 0
FineCall Fine (register_call _ _ _ _ draw _) = Fine draw
FineCall Fine (login_call _ _ _ _ draw _) = Fine draw
FineCall Fine (refresh_call _ _ _) = Unit {0}
FineCall Fine (logout_call _ _) = Unit {0}
FineCall Fine (logout_all_call _ _) = Unit {0}

-- Making room only closes a session.
module _ (c : Crypto) (P : Db → Type 0)
    (on_close : (db : Db) (session_id : String) (now : ℕ)
      → P db
      → P (revoke_session_by_id db session_id now).0) where
  made_room-keeps : (st : Auth) (r : Db × ℕ) → P r.0 → P (made_room c st r).db
  made_room-keeps st (db, n) p = elim (Bool-cases (ltb 0 n)) [ inl h ↦ rw h p | inr h ↦ rw h p ]

  pub make_room-keeps : (st : Auth) (user_id now : ℕ) → P st.db → P (make_room c st user_id now).db
  unfolding make_room revoke_oldest_active_session
  make_room-keeps st user_id now p =
      elim (Bool-cases (leb 3 (count_active_sessions st.db user_id))) [
        | inl h ↦
            rw (h, make_room)
              (made_room-keeps st _ (oldest_keeps (oldest (active_sessions st.db user_id)) refl))
        | inr h ↦ rw (h, make_room) p
      ]
    where
      oldest_keeps :
          (o : Option SessionRow)
          → oldest (active_sessions st.db user_id) ≡ o
          → P (revoke_oldest_active_session st.db user_id now).0
      oldest_keeps none e = rw (e, revoke_oldest_active_session) p
      oldest_keeps (some s) e = rw (e, revoke_oldest_active_session) (on_close st.db s.id now p)

-- A property that the service's own steps keep, for the draws that are `Fine`. A user who gets a
-- session is `Ready` for it, by the registration or by the room that a login makes.
module _ (c : Crypto) (P : Db → Type 0) (Ready : Db → ℕ → Type 0) (Fine : Draw → Type 0)
    (on_user : (db : Db) (username : String) (password_hash : Text) (r : Db × ℕ)
      → create_user db username password_hash ≡ some r
      → P db
      → P r.0 × Ready r.0 r.1)
    (on_room : (st : Auth) (username : String) (user : UserRow) (now : ℕ)
      → find_user_by_username st.db username ≡ some user
      → P st.db
      → P (make_room c st user.id now).db × Ready (make_room c st user.id now).db user.id)
    (on_issue : (st : Auth) (db : Db) (user_id : ℕ) (username device_id : String)
        (device_name : Option String) (draw : Draw) (now : ℕ)
      → create_session st.db draw.session_id user_id device_id device_name now ≡ some db
      → Fine draw
      → P st.db
      → Ready st.db user_id
      → P (issue_token c (record st { db = db }) user_id username device_id draw now).0.db)
    (on_rotate : (st : Auth) (stored : RefreshTokenRecord) (draw : Draw) (now : ℕ)
      → stored ∈ st.db.tokens
      → is_live stored ≡ true
      → P st.db
      → P (rotate c st stored draw now).0.db)
    (on_revoke : (db : Db) (test : RefreshTokenRecord → Bool) (now : ℕ)
      → P db
      → P (revoke_tokens db test now).0)
    (on_close : (db : Db) (session_id : String) (now : ℕ)
      → P db
      → P (revoke_session_by_id db session_id now).0)
    (on_close_all : (db : Db) (user_id now : ℕ)
      → P db
      → P (revoke_all_user_sessions db user_id now).0) where
  revoked-keeps :
      (reason : RevocationReason) (st : Auth) (r : Db × ℕ) → P r.0 → P (revoked_with reason st r).db
  revoked-keeps reason st r p = subst P (sym (revoked_with_db reason st r)) p

  issue_session-keeps :
      (st : Auth) (user_id : ℕ) (username device_id : String) (device_name : Option String)
      (draw : Draw) (now : ℕ)
      → Fine draw
      → P st.db
      → Ready st.db user_id
      → P (issue_session c st user_id username device_id device_name draw now).0.db
  unfolding issue_session
  issue_session-keeps st user_id username device_id device_name draw now fine p ready =
      elim (Option-cases (create_session st.db draw.session_id user_id device_id device_name now)) [
        | inl e ↦ rw (e, issue_session) p
        | inr (db, e) ↦
            rw (e, issue_session)
              (on_issue st db user_id username device_id device_name draw now e fine p ready)
      ]

  register_answer-db :
      (r : Auth × Option IssuedSession) (user_id : ℕ) (username : String)
      → (register_answer c r user_id username).0.db ≡ r.0.db
  unfolding register_answer
  register_answer-db (st, none) user_id username = refl
  register_answer-db (st, some issued) user_id username = refl

  login_answer-db :
      (r : Auth × Option IssuedSession) (user : UserRow) → (login_answer c r user).0.db ≡ r.0.db
  unfolding login_answer
  login_answer-db (st, none) user = refl
  login_answer-db (st, some issued) user = refl

  register-keeps :
      (st : Auth) (username : String) (password : Text) (device_id : String)
      (device_name : Option String) (draw : Draw) (now : ℕ)
      → Fine draw
      → P st.db
      → P (register c st username password device_id device_name draw now).0.db
  unfolding register
  register-keeps st username password device_id device_name draw now fine p =
      elim (Option-cases (create_user st.db username (hash_password c.derive password draw.salt))) [
        | inl e ↦ rw (e, register) p
        | inr ((db, user_id), e) ↦
            rw (e, register)
              (let made = on_user st.db username _ (db, user_id) e p in
                subst P (sym (register_answer-db _ user_id username)) (
                  issue_session-keeps (record st { db = db }) user_id username device_id device_name
                    draw now fine made.0 made.1))
      ]

  open_login-keeps :
      (st : Auth) (username : String) (user : UserRow) (device_id : String)
      (device_name : Option String) (draw : Draw) (now : ℕ)
      → find_user_by_username st.db username ≡ some user
      → Fine draw
      → P st.db
      → P (open_login c st user device_id device_name draw now).0.db
  unfolding open_login
  open_login-keeps st username user device_id device_name draw now e fine p =
      let made = on_room st username user now e p in
      subst P (sym (login_answer-db _ user)) (
        issue_session-keeps _ user.id user.username device_id device_name draw now fine made.0
          made.1)

  login-keeps :
      (st : Auth) (username : String) (password : Text) (device_id : String)
      (device_name : Option String) (draw : Draw) (now : ℕ)
      → Fine draw
      → P st.db
      → P (login c st username password device_id device_name draw now).0.db
  unfolding login
  login-keeps st username password device_id device_name draw now fine p =
      elim (Option-cases (find_user_by_username st.db username)) [
        | inl e ↦ rw (e, login) p
        | inr (user, e) ↦
            verified user e (verify_password c.derive password user.password_hash) refl
      ]
    where
      verified :
          (user : UserRow)
          → find_user_by_username st.db username ≡ some user
          → (o : Option Bool) → verify_password c.derive password user.password_hash ≡ o
          → P (login c st username password device_id device_name draw now).0.db
      verified user e none k = rw (e, k, login) p
      verified user e (some false) k = rw (e, k, login) p
      verified user e (some true) k =
          rw (e, k, login)
            (open_login-keeps st username user device_id device_name draw now e fine p)

  refresh_stored-keeps :
      (st : Auth) (stored : RefreshTokenRecord) (draw : Draw) (now : ℕ)
      → stored ∈ st.db.tokens
      → P st.db
      → P (refresh_stored c st stored draw now).0.db
  unfolding refresh_stored revoke_refresh_token revoke_refresh_token_family
  refresh_stored-keeps st stored draw now m p = elim (Bool-cases (is_some stored.revoked_at)) [
    | inl h ↦ rw (h, refresh_stored) (revoked-keeps _ st _ (on_revoke st.db _ now p))
    | inr h ↦ elim (Bool-cases (leb stored.expires_at now)) [
      | inl k ↦ rw (h, k, refresh_stored) (revoked-keeps _ st _ (on_revoke st.db _ now p))
      | inr k ↦ rw (h, k, refresh_stored) (on_rotate st stored draw now m (ap not h) p)
    ]
  ]

  refresh-keeps :
      (st : Auth) (token : Option String) (draw : Draw) (now : ℕ)
      → P st.db
      → P (refresh c st token draw now).0.db
  unfolding refresh
  refresh-keeps st none draw now p = p
  refresh-keeps st (some token) draw now p = elim (Bool-cases (same token "")) [
    | inl h ↦ rw (h, refresh) p
    | inr h ↦ elim (Option-cases (find_refresh_token_by_hash st.db (c.hash_refresh_token token))) [
      | inl e ↦ rw (h, e, refresh) p
      | inr (stored, e) ↦
          rw (h, e, refresh)
            (refresh_stored-keeps st stored draw now (found-mem st.db _ stored e).0 p)
    ]
  ]

  logout-keeps :
      (st : Auth) (session_id : Option String) (now : ℕ) → P st.db → P (logout st session_id now).db
  unfolding logout
  logout-keeps st none now p = p
  logout-keeps st (some session_id) now p = elim (Bool-cases (same session_id "")) [
    | inl h ↦ rw (h, logout) p
    | inr h ↦ rw (h, logout) (revoked-keeps _ st _ (on_close st.db session_id now p))
  ]

  pub step-keeps : (st : Auth) (call : Call) → FineCall Fine call → P st.db → P (step c st call).db
  unfolding step logout_all
  step-keeps st (register_call username password device_id device_name draw now) fine p =
      register-keeps st username password device_id device_name draw now fine p
  step-keeps st (login_call username password device_id device_name draw now) fine p =
      login-keeps st username password device_id device_name draw now fine p
  step-keeps st (refresh_call token draw now) fine p = refresh-keeps st token draw now p
  step-keeps st (logout_call session_id now) fine p = logout-keeps st session_id now p
  step-keeps st (logout_all_call user_id now) fine p =
      revoked-keeps _ st _ (on_close_all st.db user_id now p)

  pub run-keeps :
      (st : Auth) (calls : List Call) → All (FineCall Fine) calls → P st.db → P (run c st calls).db
  unfolding run
  run-keeps st [] fine p = p
  run-keeps st (call ∷ calls) (f, fine) p =
      run-keeps (step c st call) calls fine (step-keeps st call f p)
