-- ===== src/Auth/Tables.antt =====
-- auth/src/repositories/credentials.repository.ts: the tables users_credentials, sessions and
-- refresh_tokens as lists of rows in the order of insertion, and each query as the function that its
-- SQL text says. An insertion that breaks a key or a UNIQUE column gives `none`. A transaction is one
-- step; the timers around the queries and failures of the connection are left out.
use Prim.Native.String.{String}
use yovi_es1c.Prelude.{
  ℕ, ◌+◌, Bool, not, ◌&&◌, ◌==◌, leb, ltb, if◌then◌else◌, Option, none, some, is_some, List, [],
  ◌∷◌, ◌++◌, keep, any,
}
use yovi_es1c.Prelude.Text.{Text}
use yovi_es1c.Prelude.Maps.{string_eq, same}
use yovi_es1c.Prelude.Query.{find, update_where, count_where}

pub record UserRow : Type 0 where
  pub id : ℕ
  pub username : String
  pub password_hash : Text

pub record SessionRow : Type 0 where
  pub id : String
  pub user_id : ℕ
  pub device_id : String
  pub device_name : Option String
  pub created_at : ℕ
  pub revoked_at : Option ℕ

pub record RefreshTokenRecord : Type 0 where
  pub id : ℕ
  pub user_id : ℕ
  pub session_id : String
  pub token_hash : String
  pub family_id : String
  pub expires_at : ℕ
  pub revoked_at : Option ℕ

-- The tables, and the next values of the two SERIAL columns.
pub record Db : Type 0 where
  pub users : List UserRow
  pub sessions : List SessionRow
  pub tokens : List RefreshTokenRecord
  pub next_user : ℕ
  pub next_token : ℕ

-- `revoked_at IS NULL`.
abbrev pub is_active : SessionRow → Bool
is_active s = not (is_some s.revoked_at)

abbrev pub is_live : RefreshTokenRecord → Bool
is_live t = not (is_some t.revoked_at)

abbrev pub revoked_session : ℕ → SessionRow → SessionRow
revoked_session now s = record s { revoked_at = some now }

abbrev pub revoked_token : ℕ → RefreshTokenRecord → RefreshTokenRecord
revoked_token now t = record t { revoked_at = some now }

unfoldable pub find_user_by_username : Db → String → Option UserRow
find_user_by_username db username = find (λ u. same u.username username) db.users

unfoldable pub find_user_by_id : Db → ℕ → Option UserRow
find_user_by_id db user_id = find (λ u. u.id == user_id) db.users

unfoldable pub create_user : Db → String → Text → Option (Db × ℕ)
create_user db username password_hash =
    if any (λ u. same u.username username) db.users
    then none
    else some (
      record db {
        users =
            db.users
            ++ record { id = db.next_user; username = username; password_hash = password_hash }
              ∷ [];
        next_user = db.next_user + 1;
      },
      db.next_user,
    )

unfoldable pub has_session : Db → String → Bool
has_session db session_id = any (λ s. same s.id session_id) db.sessions

unfoldable pub create_session : Db → String → ℕ → String → Option String → ℕ → Option Db
create_session db session_id user_id device_id device_name now =
    if has_session db session_id
    then none
    else some (record db {
      sessions =
          db.sessions
          ++ record {
            id = session_id;
            user_id = user_id;
            device_id = device_id;
            device_name = device_name;
            created_at = now;
            revoked_at = none;
          }
            ∷ [];
    })

unfoldable pub count_active_sessions : Db → ℕ → ℕ
count_active_sessions db user_id =
    count_where (λ s. (s.user_id == user_id) && is_active s) db.sessions

-- The UPDATEs of revokeSessionById and of revokeOldestActiveSession, which are the same two.
unfoldable pub revoke_session_by_id : Db → String → ℕ → Db × ℕ
revoke_session_by_id db session_id now =
    let revoke = λ (t : RefreshTokenRecord). same t.session_id session_id && is_live t in
    (
      record db {
        sessions =
            update_where (λ s. same s.id session_id && is_active s) (revoked_session now)
              db.sessions;
        tokens = update_where revoke (revoked_token now) db.tokens;
      },
      count_where revoke db.tokens,
    )

-- `ORDER BY created_at ASC LIMIT 1`.
unfoldable pub oldest : List SessionRow → Option SessionRow
oldest [] = none
oldest (s ∷ ss) = elim (oldest ss) [
  | none ↦ some s
  | some t ↦ if leb s.created_at t.created_at then some s else some t
]

-- The rows that the SELECT of revokeOldestActiveSession ranges over.
abbrev pub active_sessions : Db → ℕ → List SessionRow
active_sessions db user_id = keep (λ s. (s.user_id == user_id) && is_active s) db.sessions

unfoldable pub revoke_oldest_active_session : Db → ℕ → ℕ → Db × ℕ
revoke_oldest_active_session db user_id now = elim (oldest (active_sessions db user_id)) [
  | none ↦ (db, 0)
  | some s ↦ revoke_session_by_id db s.id now
]

unfoldable pub store_refresh_token : Db → ℕ → String → String → String → ℕ → Option Db
store_refresh_token db user_id session_id token_hash family_id expires_at =
    if any (λ t. same t.token_hash token_hash) db.tokens
    then none
    else some (record db {
      tokens =
          db.tokens
          ++ record {
            id = db.next_token;
            user_id = user_id;
            session_id = session_id;
            token_hash = token_hash;
            family_id = family_id;
            expires_at = expires_at;
            revoked_at = none;
          }
            ∷ [];
      next_token = db.next_token + 1;
    })

unfoldable pub find_refresh_token_by_hash : Db → String → Option RefreshTokenRecord
find_refresh_token_by_hash db token_hash = find (λ t. same t.token_hash token_hash) db.tokens

-- The rest revoke the live tokens that a test picks out.
unfoldable pub revoke_tokens : Db → (RefreshTokenRecord → Bool) → ℕ → Db × ℕ
revoke_tokens db test now =
    let revoke = λ (t : RefreshTokenRecord). test t && is_live t in
    (
      record db { tokens = update_where revoke (revoked_token now) db.tokens },
      count_where revoke db.tokens,
    )

unfoldable pub revoke_refresh_token : Db → ℕ → ℕ → Db × ℕ
revoke_refresh_token db token_id now = revoke_tokens db (λ t. t.id == token_id) now

unfoldable pub revoke_refresh_token_family : Db → String → ℕ → Db × ℕ
revoke_refresh_token_family db family_id now =
    revoke_tokens db (λ t. same t.family_id family_id) now

unfoldable pub revoke_all_user_sessions : Db → ℕ → ℕ → Db × ℕ
revoke_all_user_sessions db user_id now =
    let revoke = λ (t : RefreshTokenRecord). (t.user_id == user_id) && is_live t in
    (
      record db {
        sessions =
            update_where (λ s. (s.user_id == user_id) && is_active s) (revoked_session now)
              db.sessions;
        tokens = update_where revoke (revoked_token now) db.tokens;
      },
      count_where revoke db.tokens,
    )

unfoldable pub count_active_refresh_tokens : Db → ℕ → ℕ
count_active_refresh_tokens db now = count_where (λ t. is_live t && ltb now t.expires_at) db.tokens
