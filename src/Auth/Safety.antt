-- ===== src/Auth/Safety.antt =====
-- auth/src/services/auth.service.ts: what a revocation takes away for good.
use Prim.Native.String.{String}
use mathlib.Core.Path.{subst}
use yovi_es1c.Prelude.{
  ==_iff, ℕ, ◌≡◌, refl, sym, ap, ◌∙◌, inl, inr, Bool, true, false, ◌&&◌, ◌==◌, leb, Bool-cases,
  Option-cases, some, List, [], ◌∷◌, All, is_some, arith,
}
use yovi_es1c.Prelude.Maps.{string_eq, same, same_refl}
use yovi_es1c.Prelude.Query.{any-mem, update_where, All-mem, All-of_mem, counted_once}
use yovi_es1c.Auth.Tables.{
  Db, RefreshTokenRecord, is_live, is_active, revoked_token as revoked_row, has_session,
  find_refresh_token_by_hash, revoke_session_by_id, revoke_tokens, revoke_refresh_token,
  revoke_refresh_token_family,
}
use yovi_es1c.Auth.Service.{
  Crypto, Draw, Auth, invalid_refresh_token, RefreshResponse, Result, ok, err, revoked_with,
  refresh_failed, refresh_token_reuse, revoked_token, logout_one, rotate, refresh_stored, refresh,
  logout,
}
use yovi_es1c.Auth.Marks.{
  Mark, of_session, of_family, of_token, marked, known, known-revoke_tokens, known-updated,
  has_hash, has_family, Dead, some_inj, store_refresh_token-Dead,
}
use yovi_es1c.Auth.Calls.{Call, FineCall, run, no_rows, found-mem, revoked_with_db}
use yovi_es1c.Auth.Reuse.{rotate-keeps, run-Dead, refresh-of_Dead}
use yovi_es1c.Auth.Unique.{no_rows-UniqueHashes, run-UniqueHashes, always_fine}

-- A revocation that takes every token with the mark leaves none alive.
updated_marks :
    (m : Mark) (test : RefreshTokenRecord → Bool) (now : ℕ) (ts : List RefreshTokenRecord)
    → All (λ t. marked m t ≡ true → test t ≡ true) ts
    → All
        (λ t. marked m t ≡ true → is_live t ≡ false)
        (update_where (λ t. test t && is_live t) (revoked_row now) ts)
unfolding update_where
updated_marks m test now [] h = tt
updated_marks m test now (t ∷ ts) (p, h) = elim (Bool-cases (test t && is_live t)) [
  | inl e ↦ rw e ((λ k. refl), updated_marks m test now ts h)
  | inr e ↦ rw e ((λ k. let q = p k in rw q at e), updated_marks m test now ts h)
]

revoked-Dead :
    (db : Db) (m : Mark) (test : RefreshTokenRecord → Bool) (now : ℕ)
    → All (λ t. marked m t ≡ true → test t ≡ true) db.tokens
    → known m db ≡ true
    → Dead m (revoke_tokens db test now).0
unfolding revoke_tokens
revoked-Dead db m test now h k = record {
  revoked = updated_marks m test now db.tokens h;
  known_mark = known-revoke_tokens db test now m ∙ k;
}

-- The row of the token that a successful refresh was given.
record Accepted (c : Crypto) (st : Auth) (token : String) (draw : Draw) (now : ℕ) : Type 0 where
  row : RefreshTokenRecord
  found : find_refresh_token_by_hash st.db (c.hash_refresh_token token) ≡ some row
  rotated : refresh c st (some token) draw now ≡ rotate c st row draw now

accepted :
    (c : Crypto) (st : Auth) (token : String) (draw : Draw) (now : ℕ) (r : RefreshResponse)
    → (refresh c st (some token) draw now).1 ≡ ok r
    → Accepted c st token draw now
unfolding refresh refresh_stored
accepted c st token draw now r e = elim (Bool-cases (same token "")) [
  | inl h ↦ absurd (let f : err invalid_refresh_token ≡ ok r = rw (h, refresh) at e in cc)
  | inr h ↦ elim (Option-cases (find_refresh_token_by_hash st.db (c.hash_refresh_token token))) [
    | inl k ↦ absurd (let f : err invalid_refresh_token ≡ ok r = rw (h, k, refresh) at e in cc)
    | inr (t, k) ↦ elim (Bool-cases (is_some t.revoked_at)) [
      | inl v ↦ absurd (
          let f : err invalid_refresh_token ≡ ok r = rw (h, k, v, refresh, refresh_stored) at e in
          cc)
      | inr v ↦ elim (Bool-cases (leb t.expires_at now)) [
        | inl x ↦ absurd (
            let f : err invalid_refresh_token ≡ ok r =
              rw (h, k, v, x, refresh, refresh_stored) at e in
            cc)
        | inr x ↦ record { row = t; found = k; rotated = rw (h, k, v, x, refresh, refresh_stored) }
      ]
    ]
  ]
]

same_row : (t u : RefreshTokenRecord) → t ≡ u → (t.id == u.id) ≡ true
same_row t u e = (==_iff t.id u.id).1 (ap (λ (x : RefreshTokenRecord). x.id) e)

-- After any calls from empty tables, once a refresh has accepted a token, no refresh accepts that
-- token again, whatever calls come in between: the answer is InvalidRefreshTokenError.
pub refresh-only_once :
    (c : Crypto) (before after : List Call) (token : String) (draw : Draw) (now : ℕ)
    (r : RefreshResponse) (draw' : Draw) (now' : ℕ)
    → (refresh c (run c no_rows before) (some token) draw now).1 ≡ ok r
    → (refresh c
        (run c (refresh c (run c no_rows before) (some token) draw now).0 after)
        (some token)
        draw'
        now').1
      ≡ err invalid_refresh_token
unfolding revoke_refresh_token has_hash
refresh-only_once c before after token draw now r draw' now' e =
    let st = run c no_rows before in
    let a = accepted c st token draw now r e in
    let h = c.hash_refresh_token token in
    let m = of_token h in
    let found = found-mem st.db h a.row a.found in
    let unique = run-UniqueHashes c no_rows before (always_fine before) no_rows-UniqueHashes in
    let only =
      counted_once (λ t. same t.token_hash h) st.db.tokens a.row (unique h) found.0 found.1 in
    let ids =
      All-of_mem (λ t. marked m t ≡ true → (t.id == a.row.id) ≡ true) st.db.tokens
        (λ t i k. same_row t a.row (All-mem _ st.db.tokens t only i k)) in
    let known_hash = any-mem (λ t. same t.token_hash h) st.db.tokens a.row found.0 found.1 in
    let dead =
      rotate-keeps (Dead m) c st a.row draw now
        (revoked-Dead st.db m (λ t. t.id == a.row.id) now ids known_hash)
        (λ old db p k.
          store_refresh_token-Dead old db a.row.user_id a.row.session_id _ a.row.family_id _ m k tt
            p) in
    let dead' =
      run-Dead c m _ after (always_fine after)
        (subst (λ (x : Auth × Result RefreshResponse). Dead m x.0.db) (sym a.rotated) dead) in
    refresh-of_Dead c m _ token draw' now' (λ t k. (found-mem _ h t k).1) dead'

reuse :
    (c : Crypto) (st : Auth) (token : String) (t : RefreshTokenRecord) (draw : Draw) (now : ℕ)
    → same token "" ≡ false
    → find_refresh_token_by_hash st.db (c.hash_refresh_token token) ≡ some t
    → is_live t ≡ false
    → refresh c st (some token) draw now
      ≡ refresh_failed c
          (revoked_with refresh_token_reuse st (revoke_refresh_token_family st.db t.family_id now))
          revoked_token
unfolding refresh refresh_stored
reuse c st token t draw now filled found dead =
    let r : is_some t.revoked_at ≡ true = ground (arith, Bool-cases (is_some t.revoked_at)) in
    rw (filled, found, r, refresh, refresh_stored)

-- A refresh with a token that is revoked already gives InvalidRefreshTokenError and revokes the
-- token's whole family: after any further calls that do not draw the family's name again, a refresh
-- with a token of the family gives InvalidRefreshTokenError.
pub refresh-closes_family :
    (c : Crypto) (st : Auth) (token : String) (t : RefreshTokenRecord) (draw : Draw) (now : ℕ)
    (after : List Call) (token' : String) (t' : RefreshTokenRecord) (draw' : Draw) (now' : ℕ)
    → same token "" ≡ false
    → find_refresh_token_by_hash st.db (c.hash_refresh_token token) ≡ some t
    → is_live t ≡ false
    → All (FineCall (λ drawn. same drawn.family_id t.family_id ≡ false)) after
    → find_refresh_token_by_hash
        (run c (refresh c st (some token) draw now).0 after).db
        (c.hash_refresh_token token')
      ≡ some t'
    → same t'.family_id t.family_id ≡ true
    → ((refresh c st (some token) draw now).1 ≡ err invalid_refresh_token)
      × ((refresh c (run c (refresh c st (some token) draw now).0 after) (some token') draw' now').1
          ≡ err invalid_refresh_token)
unfolding revoke_refresh_token_family has_family
refresh-closes_family c st token t draw now after token' t' draw' now' filled found dead fine found'
      family =
    let answer = reuse c st token t draw now filled found dead in
    let m = of_family t.family_id in
    let i = (found-mem st.db _ t found).0 in
    let there : known m st.db ≡ true =
      any-mem (λ x. same x.family_id t.family_id) st.db.tokens t i (same_refl t.family_id) in
    let closed =
      revoked-Dead st.db m (λ x. same x.family_id t.family_id) now
        (All-of_mem _ st.db.tokens (λ x k e. e)) there in
    let at_once : Dead m (refresh c st (some token) draw now).0.db =
      subst (λ (x : Auth × Result RefreshResponse). Dead m x.0.db) (sym answer)
        (subst (Dead m) (sym (revoked_with_db refresh_token_reuse st _)) closed) in
    (
      ap (λ (x : Auth × Result RefreshResponse). x.1) answer,
      refresh-of_Dead c m _ token' draw' now'
          (λ x k.
            let e : x ≡ t' = some_inj (sym k ∙ found') in
            subst (λ (y : RefreshTokenRecord). same y.family_id t.family_id ≡ true) (sym e) family)
          (run-Dead c m _ after fine at_once),
    )

-- Once a session that the tables hold is logged out, a refresh with a token of that session gives
-- InvalidRefreshTokenError, after any further calls.
pub logout-closes_session :
    (c : Crypto) (st : Auth) (session_id : String) (now : ℕ) (after : List Call) (token : String)
    (t : RefreshTokenRecord) (draw : Draw) (now' : ℕ)
    → same session_id "" ≡ false
    → has_session st.db session_id ≡ true
    → find_refresh_token_by_hash
        (run c (logout st (some session_id) now) after).db
        (c.hash_refresh_token token)
      ≡ some t
    → same t.session_id session_id ≡ true
    → (refresh c (run c (logout st (some session_id) now) after) (some token) draw now').1
      ≡ err invalid_refresh_token
unfolding logout revoke_session_by_id
logout-closes_session c st session_id now after token t draw now' filled there found of_it =
    let m = of_session session_id in
    let closed : Dead m (revoke_session_by_id st.db session_id now).0 = record {
      revoked =
          updated_marks m (λ x. same x.session_id session_id) now st.db.tokens
            (All-of_mem _ st.db.tokens (λ x k e. e));
      known_mark =
          known-updated st.db (λ x. same x.session_id session_id && is_live x)
            (λ s. same s.id session_id && is_active s) now m
          ∙ there;
    } in
    let at_once : Dead m (logout st (some session_id) now).db =
      rw (filled, logout) (subst (Dead m) (sym (revoked_with_db logout_one st _)) closed) in
    refresh-of_Dead c m _ token draw now'
      (λ x k.
        let e : x ≡ t = some_inj (sym k ∙ found) in
        subst (λ (y : RefreshTokenRecord). same y.session_id session_id ≡ true) (sym e) of_it)
      (run-Dead c m _ after (always_fine after) at_once)
