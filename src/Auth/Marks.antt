-- ===== src/Auth/Marks.antt =====
-- Tokens that are marked by their session, their family or their hash: once all marked tokens are
-- revoked, that stays so under every query.
use Prim.Native.String.{String}
use mathlib.Core.Path.{subst}
use yovi_es1c.Prelude.{
  ℕ, ◌≡◌, refl, sym, ap, ◌∙◌, inl, inr, Bool, true, false, ◌||◌, ◌&&◌, Bool-cases, Option, some,
  none, List, ◌++◌, any, ◌==◌, All, All-append,
}
use yovi_es1c.Prelude.Text.{Text}
use yovi_es1c.Prelude.Maps.{string_eq, same}
use yovi_es1c.Prelude.Query.{update_where, All-update_where, any-update_where, any-append}
use yovi_es1c.Auth.Tables.{
  Db, UserRow, SessionRow, RefreshTokenRecord, is_live, is_active, revoked_session, revoked_token,
  has_session, create_session, store_refresh_token, revoke_session_by_id, revoke_tokens,
  revoke_all_user_sessions, create_user,
}

pub data Mark : Type 0 where
  of_session of_family of_token : String → Mark

abbrev pub marked : Mark → RefreshTokenRecord → Bool
marked (of_session s) t = same t.session_id s
marked (of_family f) t = same t.family_id f
marked (of_token h) t = same t.token_hash h

unfoldable pub has_family : Db → String → Bool
has_family db family_id = any (λ t. same t.family_id family_id) db.tokens

unfoldable pub has_hash : Db → String → Bool
has_hash db token_hash = any (λ t. same t.token_hash token_hash) db.tokens

abbrev pub known : Mark → Db → Bool
known (of_session s) db = has_session db s
known (of_family f) db = has_family db f
known (of_token h) db = has_hash db h

-- Every token with the mark is revoked, and what the mark names is in the tables.
pub record Dead (m : Mark) (db : Db) : Type 0 where
  pub revoked : All (λ t. marked m t ≡ true → is_live t ≡ false) db.tokens
  pub known_mark : known m db ≡ true

marked-revoked :
    (m : Mark) (now : ℕ) (t : RefreshTokenRecord) → marked m (revoked_token now t) ≡ marked m t
marked-revoked (of_session s) now t = refl
marked-revoked (of_family f) now t = refl
marked-revoked (of_token h) now t = refl

-- An update of the sessions and a revocation of tokens.
module _ (db : Db) (p : RefreshTokenRecord → Bool) (q : SessionRow → Bool) (now : ℕ) where
  abbrev pub updated : Db
  updated = record db {
    sessions = update_where q (revoked_session now) db.sessions;
    tokens = update_where p (revoked_token now) db.tokens;
  }

  pub known-updated : (m : Mark) → known m updated ≡ known m db
  unfolding has_session has_family has_hash
  known-updated (of_session s) = any-update_where _ q (revoked_session now) db.sessions (λ x. refl)
  known-updated (of_family f) = any-update_where _ p (revoked_token now) db.tokens (λ x. refl)
  known-updated (of_token h) = any-update_where _ p (revoked_token now) db.tokens (λ x. refl)

  pub updated-Dead : (m : Mark) → Dead m db → Dead m updated
  updated-Dead m d = record {
    revoked =
        All-update_where (λ t. marked m t ≡ true → is_live t ≡ false) p (revoked_token now)
          db.tokens (λ t keeps e. refl) d.revoked;
    known_mark = known-updated m ∙ d.known_mark;
  }

pub known-revoke_tokens :
    (db : Db) (test : RefreshTokenRecord → Bool) (now : ℕ) (m : Mark)
    → known m (revoke_tokens db test now).0 ≡ known m db
unfolding revoke_tokens has_session has_family has_hash
known-revoke_tokens db test now (of_session s) = refl
known-revoke_tokens db test now (of_family f) =
    any-update_where _ (λ t. test t && is_live t) (revoked_token now) db.tokens (λ x. refl)
known-revoke_tokens db test now (of_token h) =
    any-update_where _ (λ t. test t && is_live t) (revoked_token now) db.tokens (λ x. refl)

pub revoke_tokens-Dead :
    (db : Db) (test : RefreshTokenRecord → Bool) (now : ℕ) (m : Mark)
    → Dead m db
    → Dead m (revoke_tokens db test now).0
unfolding revoke_tokens has_session has_family has_hash
revoke_tokens-Dead db test now m d = record {
  revoked =
      All-update_where (λ t. marked m t ≡ true → is_live t ≡ false) (λ t. test t && is_live t)
        (revoked_token now) db.tokens (λ t keeps e. refl) d.revoked;
  known_mark = known-revoke_tokens db test now m ∙ d.known_mark;
}

pub revoke_session_by_id-Dead :
    (db : Db) (session_id : String) (now : ℕ) (m : Mark)
    → Dead m db
    → Dead m (revoke_session_by_id db session_id now).0
unfolding revoke_session_by_id
revoke_session_by_id-Dead db session_id now m d =
    updated-Dead db (λ t. same t.session_id session_id && is_live t)
      (λ s. same s.id session_id && is_active s) now m d

pub some_inj : {A : Type 0} {x y : A} → some x ≡ some y → x ≡ y
some_inj e = cc

any_more : {A : Type 0} (q : A → Bool) (xs ys : List A) → any q xs ≡ true → any q (xs ++ ys) ≡ true
any_more q xs ys h = any-append q xs ys ∙ ap (λ b. b || any q ys) h

-- A new row in the table of sessions keeps what a mark names.
known-sessions :
    (db : Db) (rows : List SessionRow) (m : Mark)
    → known m db ≡ true
    → known m (record db { sessions = db.sessions ++ rows }) ≡ true
unfolding has_session has_family has_hash
known-sessions db rows (of_session s) h = any_more (λ r. same r.id s) db.sessions rows h
known-sessions db rows (of_family f) h = h
known-sessions db rows (of_token k) h = h

pub create_session-Dead :
    (db db' : Db) (session_id : String) (user_id : ℕ) (device_id : String)
    (device_name : Option String) (now : ℕ) (m : Mark)
    → create_session db session_id user_id device_id device_name now ≡ some db'
    → Dead m db
    → Dead m db'
unfolding create_session
create_session-Dead db db' session_id user_id device_id device_name now m e d =
    elim (Bool-cases (has_session db session_id)) [
      | inl h ↦ absurd (let f : none ≡ some db' = rw h at e in cc)
      | inr h ↦
          subst (Dead m) (some_inj (rw h at e))
            (record { revoked = d.revoked; known_mark = known-sessions db _ m d.known_mark })
    ]

-- A token with this session and this family does not get the mark.
abbrev pub Avoids : Mark → String → String → Type 0
Avoids (of_session s) session_id family_id = same session_id s ≡ false
Avoids (of_family f) session_id family_id = same family_id f ≡ false
Avoids (of_token h) session_id family_id = Unit {0}

known-tokens :
    (db : Db) (rows : List RefreshTokenRecord) (next : ℕ) (m : Mark)
    → known m db ≡ true
    → known m (record db { tokens = db.tokens ++ rows; next_token = next }) ≡ true
unfolding has_session has_family has_hash
known-tokens db rows next (of_session s) h = h
known-tokens db rows next (of_family f) h = any_more (λ r. same r.family_id f) db.tokens rows h
known-tokens db rows next (of_token k) h = any_more (λ r. same r.token_hash k) db.tokens rows h

-- The column token_hash is UNIQUE, so that a new token has no hash that is known.
Avoids-marked :
    (db : Db) (t : RefreshTokenRecord) (m : Mark)
    → Avoids m t.session_id t.family_id
    → has_hash db t.token_hash ≡ false
    → known m db ≡ true
    → marked m t ≡ false
Avoids-marked db t (of_session s) a u k = a
Avoids-marked db t (of_family f) a u k = a
Avoids-marked db t (of_token h) a u k = elim (Bool-cases (same t.token_hash h)) [
  | inl e ↦ absurd (
      let e' : t.token_hash ≡ h = (string_eq.beq_iff _ _).0 e in
      let k' = subst (λ x. has_hash db x ≡ true) (sym e') k in cc)
  | inr e ↦ e
]

pub store_refresh_token-Dead :
    (db db' : Db) (user_id : ℕ) (session_id token_hash family_id : String) (expires_at : ℕ)
    (m : Mark)
    → store_refresh_token db user_id session_id token_hash family_id expires_at ≡ some db'
    → Avoids m session_id family_id
    → Dead m db
    → Dead m db'
unfolding store_refresh_token has_hash
store_refresh_token-Dead db db' user_id session_id token_hash family_id expires_at m e a d =
    elim (Bool-cases (has_hash db token_hash)) [
      | inl h ↦ absurd (let f : none ≡ some db' = rw h at e in cc)
      | inr h ↦ subst (Dead m) (some_inj (rw h at e)) (record {
        revoked =
            All-append _ db.tokens _ d.revoked
              ((λ k. sym k ∙ Avoids-marked db _ m a h d.known_mark), tt);
        known_mark = known-tokens db _ _ m d.known_mark;
      })
    ]

known-users :
    (db : Db) (rows : List UserRow) (next : ℕ) (m : Mark)
    → known m db ≡ true
    → known m (record db { users = rows; next_user = next }) ≡ true
unfolding has_session has_family has_hash
known-users db rows next (of_session s) h = h
known-users db rows next (of_family f) h = h
known-users db rows next (of_token k) h = h

pub create_user-Dead :
    (db : Db) (username : String) (password_hash : Text) (r : Db × ℕ) (m : Mark)
    → create_user db username password_hash ≡ some r
    → Dead m db
    → Dead m r.0
unfolding create_user has_session has_family has_hash
create_user-Dead db username password_hash r m e d =
    elim (Bool-cases (any (λ u. same u.username username) db.users)) [
      | inl h ↦ absurd (let f : none ≡ some r = rw h at e in cc)
      | inr h ↦
          subst (λ (x : Db × ℕ). Dead m x.0) (some_inj (rw h at e))
            (record { revoked = d.revoked; known_mark = known-users db _ _ m d.known_mark })
    ]

pub revoke_all_user_sessions-Dead :
    (db : Db) (user_id now : ℕ) (m : Mark)
    → Dead m db
    → Dead m (revoke_all_user_sessions db user_id now).0
unfolding revoke_all_user_sessions
revoke_all_user_sessions-Dead db user_id now m d =
    updated-Dead db (λ t. (t.user_id == user_id) && is_live t)
      (λ s. (s.user_id == user_id) && is_active s) now m d
