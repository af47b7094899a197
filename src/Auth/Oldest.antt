-- ===== src/Auth/Oldest.antt =====
-- auth/src/repositories/credentials.repository.ts: which session revokeOldestActiveSession closes.
use yovi_es1c.Prelude.{
  ℕ, ◌≡◌, refl, sym, ap, ◌∙◌, inl, inr, Bool, true, ◌&&◌, ◌==◌, ◌≤◌, ◌<◌, leb, Bool-cases,
  Option-cases, some, none, List, [], ◌∷◌, ◌∈◌, arith, keep,
}
use yovi_es1c.Prelude.Maps.{string_eq, same_refl}
use yovi_es1c.Prelude.Query.{count_where, count_where-update_lt}
use yovi_es1c.Auth.Tables.{
  Db, SessionRow, is_active, revoked_session, count_active_sessions, oldest, active_sessions,
  revoke_oldest_active_session, revoke_session_by_id,
}
use yovi_es1c.Auth.Marks.{some_inj}

-- The sessions of a list of rows that a user has open.
abbrev pub open_of : ℕ → SessionRow → Bool
open_of user_id s = (s.user_id == user_id) && is_active s

-- The oldest of some rows is one of them.
oldest-mem : (ss : List SessionRow) (s : SessionRow) → oldest ss ≡ some s → s ∈ ss
unfolding oldest
oldest-mem [] s e = cc
oldest-mem (x ∷ ss) s e = elim (Option-cases (oldest ss)) [
  | inl h ↦ inl (sym (some_inj (rw h at e)))
  | inr (t, h) ↦ elim (Bool-cases (leb x.created_at t.created_at)) [
    | inl k ↦ inl (sym (some_inj (rw (h, k) at e)))
    | inr k ↦ inr (oldest-mem ss s (h ∙ rw (h, k) at e))
  ]
]

keep-mem :
    {A : Type 0} (p : A → Bool) (xs : List A) (x : A) → x ∈ keep p xs → (x ∈ xs) × (p x ≡ true)
keep-mem p [] x m = absurd m
keep-mem p (y ∷ xs) x m = elim (Bool-cases (p y)) [
  | inl h ↦ elim (rw h at m) [
    | inl e ↦ (inl e, ap p e ∙ h)
    | inr k ↦ let r = keep-mem p xs x k in (inr r.0, r.1)
  ]
  | inr h ↦ let r = keep-mem p xs x (rw h at m) in (inr r.0, r.1)
]

oldest-some :
    (s : SessionRow) (ss : List SessionRow) → (t : SessionRow) × (oldest (s ∷ ss) ≡ some t)
unfolding oldest
oldest-some s ss = elim (Option-cases (oldest ss)) [
  | inl h ↦ (s, rw h)
  | inr (t, h) ↦ elim (Bool-cases (leb s.created_at t.created_at)) [
    | inl k ↦ (s, rw (h, k))
    | inr k ↦ (t, rw (h, k))
  ]
]

oldest-none : (ss : List SessionRow) → oldest ss ≡ none → ss ≡ []
oldest-none [] e = refl
oldest-none (s ∷ ss) e =
    let (t, k) = oldest-some s ss in absurd (let f : none ≡ some t = sym e ∙ k in cc)

count-keep : (p : SessionRow → Bool) (ss : List SessionRow) → keep p ss ≡ [] → count_where p ss ≡ 0
unfolding count_where
count-keep p [] e = refl
count-keep p (s ∷ ss) e = ground (arith, count-keep p ss)

-- Three sessions less the oldest are two.
pub room :
    (db : Db) (user_id now : ℕ)
    → 3 ≤ count_active_sessions db user_id
    → count_active_sessions (revoke_oldest_active_session db user_id now).0 user_id
      < count_active_sessions db user_id
unfolding count_active_sessions revoke_oldest_active_session revoke_session_by_id
room db user_id now h = elim (Option-cases (oldest (active_sessions db user_id))) [
  | inl e ↦
      absurd (let z = count-keep (open_of user_id) db.sessions (oldest-none _ e) in omega arith)
  | inr (s, e) ↦
      let k = keep-mem (open_of user_id) db.sessions s (oldest-mem _ s e) in
      rw (e, revoke_oldest_active_session)
        (count_where-update_lt (open_of user_id) _ (revoked_session now) db.sessions s
          (λ x. ground arith) k.0 k.1 (ground (arith, same_refl s.id, k.1)))
]
