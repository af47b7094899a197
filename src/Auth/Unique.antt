-- ===== src/Auth/Unique.antt =====
-- auth/src/repositories/credentials.repository.ts: the hash of a refresh token names one row.
use Prim.Native.String.{String}
use mathlib.Core.Path.{subst}
use yovi_es1c.Prelude.{
  ℕ, ◌≡◌, ap, inl, inr, Bool, false, ◌≤◌, Bool-cases, Option, some, none, List, [], ◌∷◌, All, arith,
  any,
}
use yovi_es1c.Prelude.Text.{Text}
use yovi_es1c.Prelude.Maps.{string_eq, same}
use yovi_es1c.Prelude.Query.{count_where-update_le, update_where, count_where, count_where-snoc_le}
use yovi_es1c.Auth.Tables.{
  Db, RefreshTokenRecord, revoked_token, has_session, create_user, create_session,
  store_refresh_token, revoke_session_by_id, revoke_tokens, revoke_refresh_token,
  revoke_all_user_sessions,
}
use yovi_es1c.Auth.Service.{Crypto, Auth}
use yovi_es1c.Auth.Marks.{has_hash, some_inj}
use yovi_es1c.Auth.Calls.{
  Call, register_call, login_call, refresh_call, logout_call, logout_all_call, FineCall, run,
  no_rows, run-keeps, make_room-keeps,
}
use yovi_es1c.Auth.Reuse.{issue_token-keeps, rotate-keeps}

-- The column token_hash is UNIQUE.
abbrev pub UniqueHashes : Db → Type 0
UniqueHashes db = (h : String) → count_where (λ t. same t.token_hash h) db.tokens ≤ 1

store_refresh_token-UniqueHashes :
    (db db' : Db) (user_id : ℕ) (session_id token_hash family_id : String) (expires_at : ℕ)
    → store_refresh_token db user_id session_id token_hash family_id expires_at ≡ some db'
    → UniqueHashes db
    → UniqueHashes db'
unfolding store_refresh_token has_hash
store_refresh_token-UniqueHashes db db' user_id session_id token_hash family_id expires_at e u =
    elim (Bool-cases (has_hash db token_hash)) [
      | inl k ↦ absurd (let f : none ≡ some db' = rw k at e in cc)
      | inr k ↦ subst UniqueHashes (some_inj (rw k at e)) (λ h.
          count_where-snoc_le (λ t. same t.token_hash h) db.tokens _ (u h)
            (λ same_hash.
              subst (λ x. has_hash db x ≡ false) ((string_eq.beq_iff _ _).0 same_hash) k))
    ]

same_tokens-create_session :
    (db db' : Db) (session_id : String) (user_id : ℕ) (device_id : String)
    (device_name : Option String) (now : ℕ)
    → create_session db session_id user_id device_id device_name now ≡ some db'
    → db.tokens ≡ db'.tokens
unfolding create_session
same_tokens-create_session db db' session_id user_id device_id device_name now e =
    elim (Bool-cases (has_session db session_id)) [
      | inl h ↦ absurd (let f : none ≡ some db' = rw h at e in cc)
      | inr h ↦ ap (λ (x : Db). x.tokens) (some_inj (rw h at e))
    ]

same_tokens-create_user :
    (db : Db) (username : String) (password_hash : Text) (r : Db × ℕ)
    → create_user db username password_hash ≡ some r
    → db.tokens ≡ r.0.tokens
unfolding create_user
same_tokens-create_user db username password_hash r e =
    elim (Bool-cases (any (λ u. same u.username username) db.users)) [
      | inl h ↦ absurd (let f : none ≡ some r = rw h at e in cc)
      | inr h ↦ ap (λ (x : Db × ℕ). x.0.tokens) (some_inj (rw h at e))
    ]

UniqueTokens : List RefreshTokenRecord → Type 0
UniqueTokens ts = (h : String) → count_where (λ t. same t.token_hash h) ts ≤ 1

updated-UniqueTokens :
    (ts : List RefreshTokenRecord) (p : RefreshTokenRecord → Bool) (now : ℕ)
    → UniqueTokens ts
    → UniqueTokens (update_where p (revoked_token now) ts)
unfolding UniqueTokens
updated-UniqueTokens ts p now u h =
    let le = count_where-update_le (λ t. same t.token_hash h) p (revoked_token now) ts (λ x k. k) in
    let old = u h in omega arith

pub run-UniqueHashes :
    (c : Crypto) (st : Auth) (calls : List Call)
    → All (FineCall (λ draw. Unit {0})) calls
    → UniqueHashes st.db
    → UniqueHashes (run c st calls).db
unfolding UniqueTokens revoke_refresh_token revoke_tokens revoke_session_by_id
    revoke_all_user_sessions
run-UniqueHashes c st calls fine u =
    run-keeps c UniqueHashes (λ db user_id. Unit {0}) (λ draw. Unit {0})
      (λ db username password_hash r e u.
        (subst UniqueTokens (same_tokens-create_user db username password_hash r e) u, tt))
      (λ st username user now e u. (
        make_room-keeps c UniqueHashes
            (λ db session_id now u. updated-UniqueTokens db.tokens _ now u) st user.id now u,
        tt,
      ))
      (λ st db user_id username device_id device_name draw now e undrawn u ready.
        let u' : UniqueHashes db =
          subst UniqueTokens
            (same_tokens-create_session st.db db draw.session_id user_id device_id device_name now
              e)
            u in
        issue_token-keeps UniqueHashes c _ user_id username device_id draw now u' (λ db' k.
          store_refresh_token-UniqueHashes db db' user_id draw.session_id _ draw.family_id _ k u'))
      (λ st t draw now i live u.
        rotate-keeps UniqueHashes c st t draw now (updated-UniqueTokens st.db.tokens _ now u)
          (λ old db p k.
            store_refresh_token-UniqueHashes old db t.user_id t.session_id _ t.family_id _ k p))
      (λ db test now u. updated-UniqueTokens db.tokens _ now u)
      (λ db session_id now u. updated-UniqueTokens db.tokens _ now u)
      (λ db user_id now u. updated-UniqueTokens db.tokens _ now u) st calls fine u

pub always_fine : (calls : List Call) → All (FineCall (λ draw. Unit {0})) calls
always_fine [] = tt
always_fine (register_call _ _ _ _ _ _ ∷ calls) = (tt, always_fine calls)
always_fine (login_call _ _ _ _ _ _ ∷ calls) = (tt, always_fine calls)
always_fine (refresh_call _ _ _ ∷ calls) = (tt, always_fine calls)
always_fine (logout_call _ _ ∷ calls) = (tt, always_fine calls)
always_fine (logout_all_call _ _ ∷ calls) = (tt, always_fine calls)

pub no_rows-UniqueHashes : UniqueHashes no_rows.db
unfolding count_where
no_rows-UniqueHashes h = omega arith
