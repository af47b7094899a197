-- ===== src/Auth/Reuse.antt =====
-- auth/src/services/auth.service.ts: refresh tokens that are used again, and sessions that are closed.
use Prim.Native.String.{String}
use mathlib.Core.Path.{subst}
use yovi_es1c.Prelude.{
  ℕ, ◌≡◌, sym, ap, ◌∙◌, inl, inr, true, false, ◌+◌, Bool-cases, Option-cases, Option, some, none,
  List, All, ◌∈◌, is_some, not,
}
use yovi_es1c.Prelude.Maps.{string_eq, same}
use yovi_es1c.Prelude.Query.{All-mem}
use yovi_es1c.Auth.Tables.{
  Db, RefreshTokenRecord, is_live, has_session, create_session, store_refresh_token,
  find_refresh_token_by_hash, revoke_refresh_token,
}
use yovi_es1c.Auth.Service.{
  Crypto, Draw, Auth, invalid_refresh_token, err, revoked_with, refresh_rotation, issue_token,
  rotate, refresh_stored, refresh, refresh_token_ttl_ms,
}
use yovi_es1c.Auth.Marks.{
  Mark, of_session, of_family, of_token, marked, known, Dead, Avoids, create_session-Dead,
  store_refresh_token-Dead, create_user-Dead, revoke_tokens-Dead, revoke_session_by_id-Dead,
  revoke_all_user_sessions-Dead,
}
use yovi_es1c.Auth.Calls.{
  Call, FineCall, run, found-mem, revoked_with_db, run-keeps, make_room-keeps,
}

-- What a call must not draw, for the tokens with a mark to stay dead: only the name of a family
-- can come twice, as the other two are kept apart by the tables.
abbrev pub Undrawn : Mark → Draw → Type 0
Undrawn (of_session s) draw = Unit {0}
Undrawn (of_family f) draw = same draw.family_id f ≡ false
Undrawn (of_token h) draw = Unit {0}

-- The tables that storing a token gives, when it does.
module _ (P : Db → Type 0) (c : Crypto) where
  pub issue_token-keeps :
      (st : Auth) (user_id : ℕ) (username device_id : String) (draw : Draw) (now : ℕ)
      → P st.db
      → ((db : Db)
          → store_refresh_token st.db user_id draw.session_id
              (c.hash_refresh_token draw.refresh_token)
              draw.family_id
              (now + refresh_token_ttl_ms)
            ≡ some db
          → P db)
      → P (issue_token c st user_id username device_id draw now).0.db
  unfolding issue_token
  issue_token-keeps st user_id username device_id draw now p stored =
      elim (Option-cases (
        store_refresh_token st.db user_id draw.session_id (c.hash_refresh_token draw.refresh_token)
          draw.family_id (now + refresh_token_ttl_ms))) [
            | inl e ↦ rw (e, issue_token) p
            | inr (db, e) ↦ rw (e, issue_token) (stored db e)
          ]

  pub rotate-keeps :
      (st : Auth) (t : RefreshTokenRecord) (draw : Draw) (now : ℕ)
      → P (revoke_refresh_token st.db t.id now).0
      → ((old db : Db)
          → P old
          → store_refresh_token old t.user_id t.session_id
              (c.hash_refresh_token draw.refresh_token)
              t.family_id
              (now + refresh_token_ttl_ms)
            ≡ some db
          → P db)
      → P (rotate c st t draw now).0.db
  unfolding rotate
  rotate-keeps st t draw now p stored =
      let revoked = revoked_with refresh_rotation st (revoke_refresh_token st.db t.id now) in
      let q : P revoked.db = subst P (sym (revoked_with_db refresh_rotation st _)) p in
      elim (Option-cases (
        store_refresh_token revoked.db t.user_id t.session_id
          (c.hash_refresh_token draw.refresh_token) t.family_id (now + refresh_token_ttl_ms))) [
            | inl e ↦ rw (e, rotate) q
            | inr (db, e) ↦ rw (e, rotate) (stored revoked.db db q e)
          ]

not_marked :
    (db : Db) (t : RefreshTokenRecord) (m : Mark)
    → t ∈ db.tokens
    → is_live t ≡ true
    → Dead m db
    → marked m t ≡ false
not_marked db t m i live d = elim (Bool-cases (marked m t)) [
  | inl h ↦ absurd (let no = All-mem _ db.tokens t d.revoked i h in cc)
  | inr h ↦ h
]

marked-Avoids :
    (t : RefreshTokenRecord) (m : Mark) → marked m t ≡ false → Avoids m t.session_id t.family_id
marked-Avoids t (of_session s) h = h
marked-Avoids t (of_family f) h = h
marked-Avoids t (of_token k) h = tt

created-Avoids :
    (db db' : Db) (draw : Draw) (user_id : ℕ) (device_id : String) (device_name : Option String)
    (now : ℕ) (m : Mark)
    → create_session db draw.session_id user_id device_id device_name now ≡ some db'
    → Undrawn m draw
    → known m db ≡ true
    → Avoids m draw.session_id draw.family_id
unfolding create_session
created-Avoids db db' draw user_id device_id device_name now (of_session s) e u k =
    elim (Bool-cases (same draw.session_id s)) [
      | inl h ↦
          let k' : has_session db draw.session_id ≡ true =
            subst (λ x. has_session db x ≡ true) (sym ((string_eq.beq_iff _ _).0 h)) k in
          absurd (let f : none ≡ some db' = rw k' at e in cc)
      | inr h ↦ h
    ]
created-Avoids db db' draw user_id device_id device_name now (of_family f) e u k = u
created-Avoids db db' draw user_id device_id device_name now (of_token h) e u k = tt

pub run-Dead :
    (c : Crypto) (m : Mark) (st : Auth) (calls : List Call)
    → All (FineCall (Undrawn m)) calls
    → Dead m st.db
    → Dead m (run c st calls).db
unfolding revoke_refresh_token
run-Dead c m st calls fine d =
    run-keeps c (Dead m) (λ db user_id. Unit {0}) (Undrawn m)
      (λ db username password_hash r e d. (create_user-Dead db username password_hash r m e d, tt))
      (λ st username user now e d. (
        make_room-keeps c (Dead m)
            (λ db session_id now. revoke_session_by_id-Dead db session_id now m) st user.id now d,
        tt,
      ))
      (λ st db user_id username device_id device_name draw now e undrawn d ready.
        let d' =
          create_session-Dead st.db db draw.session_id user_id device_id device_name now m e d in
        issue_token-keeps (Dead m) c _ user_id username device_id draw now d' (λ db' k.
          store_refresh_token-Dead db db' user_id draw.session_id _ draw.family_id _ m k
            (created-Avoids st.db db draw user_id device_id device_name now m e undrawn
              d.known_mark)
            d'))
      (λ st t draw now i live d.
        rotate-keeps (Dead m) c st t draw now (revoke_tokens-Dead st.db _ now m d) (λ old db p k.
          store_refresh_token-Dead old db t.user_id t.session_id _ t.family_id _ m k
            (marked-Avoids t m (not_marked st.db t m i live d)) p))
      (λ db test now. revoke_tokens-Dead db test now m)
      (λ db session_id now. revoke_session_by_id-Dead db session_id now m)
      (λ db user_id now. revoke_all_user_sessions-Dead db user_id now m) st calls fine d

-- A token whose row has a dead mark is refused.
pub refresh-of_Dead :
    (c : Crypto) (m : Mark) (st : Auth) (token : String) (draw : Draw) (now : ℕ)
    → ((t : RefreshTokenRecord)
        → find_refresh_token_by_hash st.db (c.hash_refresh_token token) ≡ some t
        → marked m t ≡ true)
    → Dead m st.db
    → (refresh c st (some token) draw now).1 ≡ err invalid_refresh_token
unfolding refresh refresh_stored
refresh-of_Dead c m st token draw now has d = elim (Bool-cases (same token "")) [
  | inl h ↦ rw (h, refresh)
  | inr h ↦ elim (Option-cases (find_refresh_token_by_hash st.db (c.hash_refresh_token token))) [
    | inl e ↦ rw (h, e, refresh)
    | inr (t, e) ↦
        let dead = All-mem _ st.db.tokens t d.revoked (found-mem st.db _ t e).0 (has t e) in
        let r = revoked_row t dead in rw (h, e, r, refresh, refresh_stored)
  ]
]
  where
    revoked_row : (t : RefreshTokenRecord) → is_live t ≡ false → is_some t.revoked_at ≡ true
    revoked_row t e = elim (Bool-cases (is_some t.revoked_at)) [
      | inl k ↦ k
      | inr k ↦ absurd (let n = ap not (sym k) ∙ e in cc)
    ]
