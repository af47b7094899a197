-- ===== src/Session/Stored.antt =====
-- What the parts of a handler do to the store: errors, messages and counters leave it alone, and a
-- save writes the one session.
use Prim.Native.String.{String}
use yovi_es1c.Prelude.{ℕ, ◌≡◌, refl, Bool, true, false, Option, some, none, arith}
use yovi_es1c.Prelude.Maps.{string_eq}
use yovi_es1c.Board.Layout.{Symbol}
use yovi_es1c.Session.State.{SessionState}
use yovi_es1c.Session.Store.{SessionStore}
use yovi_es1c.Session.Service.{
  MoveErrorCode, Result, err, version_conflict, Config, Service, save_state, emit_session_state,
  throw_move_error, throw_version_conflict, settle, logged, count_move, commit_move, commit_swap,
}

module _ (S : SessionStore) (cfg : Config) (sv : Service S cfg) where
  -- A refusal leaves the store alone and is the given error.
  pub throw_move_error_lem :
      {A : Type 0} (match_id : String) (user_id : ℕ) (code : MoveErrorCode) (track : Bool)
      → let r : Service S cfg × Result A = throw_move_error S cfg sv match_id user_id code track in
        (r.0.store ≡ sv.store) × (r.1 ≡ err code)
  unfolding throw_move_error
  throw_move_error_lem match_id user_id code true = (refl, refl)
  throw_move_error_lem match_id user_id code false = (refl, refl)

  pub throw_version_conflict_lem :
      {A : Type 0} (state : SessionState) (match_id : String) (user_id : ℕ)
      → let r : Service S cfg × Result A = throw_version_conflict S cfg sv state match_id user_id in
        (r.0.store ≡ sv.store) × (r.1 ≡ err version_conflict)
  unfolding throw_version_conflict emit_session_state
  throw_version_conflict_lem state match_id user_id = (refl, refl)

  pub store-emit_session_state :
      (state : SessionState) → (emit_session_state S cfg sv state).store ≡ sv.store
  unfolding emit_session_state
  store-emit_session_state state = refl

  pub store-settle :
      (state : SessionState) (w : Option Symbol) → (settle S cfg sv state w).store ≡ sv.store
  unfolding settle
  store-settle state none = refl
  store-settle state (some w) = ground arith

  pub store-save_state :
      (state : SessionState) → (save_state S cfg sv state).store ≡ S.write sv.store state
  unfolding save_state
  store-save_state state = refl

module _ (S : SessionStore) (cfg : Config) (sv : Service S cfg) (next : SessionState) where
  pub store-commit_move : (commit_move S cfg sv next).store ≡ S.write sv.store next
  unfolding commit_move
  store-commit_move =
      store-settle S cfg (logged S cfg (save_state S cfg sv next) count_move) next next.winner

  pub store-commit_swap : (commit_swap S cfg sv next).store ≡ S.write sv.store next
  unfolding commit_swap
  store-commit_swap = refl
