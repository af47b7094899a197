-- ===== src/Auth/Limits.antt =====
-- auth/src/services/auth.service.ts: at most three active sessions for each user.
use Prim.Native.String.{String}
use mathlib.Core.Path.{subst}
use yovi_es1c.Prelude.{
  ℕ, ◌≡◌, refl, inl, inr, Bool, false, ◌==◌, ==_iff, ◌+◌, ◌≤◌, ◌<◌, leb, ltb, Bool-cases, Option,
  some, none, List, [], ◌∷◌, All, All-append, arith, any,
}
use yovi_es1c.Prelude.Text.{Text}
use yovi_es1c.Prelude.Maps.{string_eq, same}
use yovi_es1c.Prelude.Query.{
  find-mem, update_where, count_where, All-mem, All-update_where, count_where-append,
  count_where-update_le,
}
use yovi_es1c.Auth.Tables.{
  Db, UserRow, RefreshTokenRecord, store_refresh_token, revoke_tokens, revoke_refresh_token,
  SessionRow, revoked_session, has_session, find_user_by_username, create_user, create_session,
  count_active_sessions, revoke_oldest_active_session, revoke_session_by_id,
  revoke_all_user_sessions,
}
use yovi_es1c.Auth.Service.{Crypto, Auth, made_room, make_room}
use yovi_es1c.Auth.Oldest.{open_of, room}
use yovi_es1c.Auth.Marks.{some_inj}
use yovi_es1c.Auth.Calls.{Call, run, run-keeps, make_room-keeps, no_rows}
use yovi_es1c.Auth.Reuse.{issue_token-keeps, rotate-keeps}
use yovi_es1c.Auth.Unique.{always_fine}

-- At most three active sessions for each user, and the users' numbers are below the next one.
pub record Limited (db : Db) : Type 0 where
  pub at_most : (user_id : ℕ) → count_active_sessions db user_id ≤ 3
  pub sessions_below : All (λ (s : SessionRow). s.user_id < db.next_user) db.sessions
  pub users_below : All (λ (u : UserRow). u.id < db.next_user) db.users

-- Closing sessions opens none, and the tokens do not matter.
closed-Limited :
    (db : Db) (p : SessionRow → Bool) (now : ℕ) (ts : List RefreshTokenRecord)
    → Limited db
    → Limited
        (record db { sessions = update_where p (revoked_session now) db.sessions; tokens = ts })
unfolding count_active_sessions
closed-Limited db p now ts l = record {
  at_most = λ user_id.
      let le =
        count_where-update_le (open_of user_id) p (revoked_session now) db.sessions
          (λ s h. ground arith) in
      let old = l.at_most user_id in omega arith;
  sessions_below =
      All-update_where (λ s. s.user_id < db.next_user) p (revoked_session now) db.sessions
        (λ s h. h) l.sessions_below;
  users_below = l.users_below;
}

tokens-Limited :
    (db : Db) (ts : List RefreshTokenRecord) (n : ℕ)
    → Limited db
    → Limited (record db { tokens = ts; next_token = n })
unfolding count_active_sessions
tokens-Limited db ts n l = record {
  at_most = l.at_most;
  sessions_below = l.sessions_below;
  users_below = l.users_below;
}

store_refresh_token-Limited :
    (db db' : Db) (user_id : ℕ) (session_id token_hash family_id : String) (expires_at : ℕ)
    → store_refresh_token db user_id session_id token_hash family_id expires_at ≡ some db'
    → Limited db
    → Limited db'
unfolding store_refresh_token
store_refresh_token-Limited db db' user_id session_id token_hash family_id expires_at e l =
    elim (Bool-cases (any (λ t. same t.token_hash token_hash) db.tokens)) [
      | inl k ↦ absurd (let f : none ≡ some db' = rw k at e in cc)
      | inr k ↦ subst Limited (some_inj (rw k at e)) (tokens-Limited db _ _ l)
    ]

-- A user has room for one more session.
pub record Ready (db : Db) (user_id : ℕ) : Type 0 where
  pub at_most_two : count_active_sessions db user_id ≤ 2
  pub below : user_id < db.next_user

create_session-Limited :
    (db db' : Db) (session_id : String) (user_id : ℕ) (device_id : String)
    (device_name : Option String) (now : ℕ)
    → create_session db session_id user_id device_id device_name now ≡ some db'
    → Limited db
    → Ready db user_id
    → Limited db'
unfolding create_session count_active_sessions count_where
create_session-Limited db db' session_id user_id device_id device_name now e l r =
    elim (Bool-cases (has_session db session_id)) [
      | inl k ↦ absurd (let f : none ≡ some db' = rw k at e in cc)
      | inr k ↦ subst Limited (some_inj (rw k at e)) (record {
        at_most = λ u. elim (Bool-cases (user_id == u)) [
          | inl h ↦
              let h' = (==_iff user_id u).0 h in
              let few = r.at_most_two in
              rw (count_where-append (open_of u) db.sessions _, h, ← h') (omega arith)
          | inr h ↦
              let old = l.at_most u in
              rw (count_where-append (open_of u) db.sessions _, h) (omega arith)
        ];
        sessions_below = All-append _ db.sessions _ l.sessions_below (r.below, tt);
        users_below = l.users_below;
      })
    ]

below-none :
    (ss : List SessionRow) (n : ℕ)
    → All (λ (s : SessionRow). s.user_id < n) ss
    → count_where (open_of n) ss ≡ 0
unfolding count_where
below-none [] n h = refl
below-none (s ∷ ss) n (lt, h) =
    let rest = below-none ss n h in
    let other : (s.user_id == n) ≡ false = ground arith in rw (other, rest)

below-weaken :
    {A : Type 0} (f : A → ℕ) (xs : List A) (n : ℕ)
    → All (λ x. f x < n) xs
    → All (λ x. f x < n + 1) xs
below-weaken f [] n h = tt
below-weaken f (x ∷ xs) n (lt, h) = (omega arith, below-weaken f xs n h)

create_user-Limited :
    (db : Db) (username : String) (password_hash : Text) (r : Db × ℕ)
    → create_user db username password_hash ≡ some r
    → Limited db
    → Limited r.0 × Ready r.0 r.1
unfolding create_user count_active_sessions
create_user-Limited db username password_hash r e l =
    elim (Bool-cases (any (λ u. same u.username username) db.users)) [
      | inl h ↦ absurd (let f : none ≡ some r = rw h at e in cc)
      | inr h ↦
          subst (λ (x : Db × ℕ). Limited x.0 × Ready x.0 x.1) (some_inj (rw h at e))
            (
              record {
                at_most = l.at_most;
                sessions_below = below-weaken (λ s. s.user_id) db.sessions _ l.sessions_below;
                users_below =
                    All-append _ db.users _
                      (below-weaken (λ (u : UserRow). u.id) db.users _ l.users_below)
                      (omega arith, tt);
              },
              record {
                at_most_two =
                    let z = below-none db.sessions db.next_user l.sessions_below in omega arith;
                below = omega arith;
              },
            )
    ]

revoke_session_by_id-Limited :
    (db : Db) (session_id : String) (now : ℕ)
    → Limited db
    → Limited (revoke_session_by_id db session_id now).0
unfolding revoke_session_by_id
revoke_session_by_id-Limited db session_id now l = closed-Limited db _ now _ l

made_room-db : (c : Crypto) (st : Auth) (r : Db × ℕ) → (made_room c st r).db ≡ r.0
made_room-db c st (db, n) = elim (Bool-cases (ltb 0 n)) [ inl h ↦ rw h | inr h ↦ rw h ]

no_rows-Limited : Limited no_rows.db
unfolding count_active_sessions count_where
no_rows-Limited = record { at_most = λ u. omega arith; sessions_below = tt; users_below = tt }

make_room-two :
    (c : Crypto) (st : Auth) (user_id now : ℕ)
    → count_active_sessions st.db user_id ≤ 3
    → count_active_sessions (make_room c st user_id now).db user_id ≤ 2
unfolding make_room
make_room-two c st user_id now most =
    elim (Bool-cases (leb 3 (count_active_sessions st.db user_id))) [
      | inl h ↦
          let three : 3 ≤ count_active_sessions st.db user_id = ground arith in
          let fewer = room st.db user_id now three in
          rw (h, make_room, made_room-db c st (revoke_oldest_active_session st.db user_id now))
            (omega arith)
      | inr h ↦ rw (h, make_room) (ground arith)
    ]

make_room-Ready :
    (c : Crypto) (st : Auth) (username : String) (user : UserRow) (now : ℕ)
    → find_user_by_username st.db username ≡ some user
    → Limited st.db
    → Limited (make_room c st user.id now).db × Ready (make_room c st user.id now).db user.id
unfolding find_user_by_username revoke_session_by_id
make_room-Ready c st username user now e l =
    let m = find-mem _ st.db.users user e in
    let below = All-mem _ st.db.users user l.users_below m.0 in
    let keeps = make_room-keeps c Limited revoke_session_by_id-Limited st user.id now l in
    (
      keeps,
      record {
        at_most_two = make_room-two c st user.id now (l.at_most user.id);
        below = make_room-keeps c (λ db. user.id < db.next_user) close_below st user.id now below;
      },
    )
  where
    close_below :
        (db : Db) (session_id : String) (now : ℕ)
        → user.id < db.next_user
        → user.id < (revoke_session_by_id db session_id now).0.next_user
    close_below db session_id now h = h

-- After any calls from empty tables, every user has at most three active sessions.
pub run-at_most_three :
    (c : Crypto) (calls : List Call) (user_id : ℕ)
    → count_active_sessions (run c no_rows calls).db user_id ≤ 3
unfolding revoke_refresh_token revoke_tokens revoke_all_user_sessions
run-at_most_three c calls user_id =
    (run-keeps c Limited Ready (λ draw. Unit {0}) create_user-Limited (make_room-Ready c)
        (λ st db user_id username device_id device_name draw now e fine l ready.
          let l' =
            create_session-Limited st.db db draw.session_id user_id device_id device_name now e l
              ready in
          issue_token-keeps Limited c _ user_id username device_id draw now l' (λ db' k.
            store_refresh_token-Limited db db' user_id draw.session_id _ draw.family_id _ k l'))
        (λ st t draw now i live l.
          rotate-keeps Limited c st t draw now (tokens-Limited st.db _ _ l) (λ old db p k.
            store_refresh_token-Limited old db t.user_id t.session_id _ t.family_id _ k p))
        (λ db test now. tokens-Limited db _ _) revoke_session_by_id-Limited
        (λ db user_id now. closed-Limited db _ now _) no_rows calls (always_fine calls)
        no_rows-Limited).at_most
      user_id
