-- ===== src/Session/Sweep.antt =====
-- Maintenance and lookup: sweepExpiredSessions, and getActiveSessionForUser with its summary, of
-- OnlineSessionService.ts without Redis. The sessions that the repository lists are an argument,
-- and so is the random number of each match.
use Prim.Native.String.{String}
use yovi_es1c.Prelude.{
  ℕ, ◌+◌, Bool, true, false, not, ◌&&◌, leb, if◌then◌else◌, Option, none, some, List, [], ◌∷◌,
}
use mathlib.Core.Option
use yovi_es1c.Prelude.Text.{Text}
use yovi_es1c.Prelude.Maps.{nat_eq, lookup}
use yovi_es1c.Rules.{MatchRules}
use yovi_es1c.Session.State.{
  SessionState, SessionStatus, SessionSource, PlayerState, waiting_reconnect, is_terminal,
  current_player, is_participant, find_opponent,
}
use yovi_es1c.Session.Store.{SessionStore}
use yovi_es1c.Session.Service.{Config, Service, Result, ok}
use yovi_es1c.Session.Handlers.{is_past, expire_grace, handle_turn_timeout}

abbrev pub is_waiting : SessionStatus → Bool
is_waiting waiting_reconnect = true
is_waiting _ = false

-- What counts as swept after expireGrace.
abbrev pub ended : Result (Option SessionState) → ℕ
ended (ok (some state)) = if is_terminal state then 1 else 0
ended _ = 0

-- The first player in the session's order whose deadline has passed.
unfoldable pub expired_player :
    (Option (Option ℕ) → ℕ → Bool) → SessionState → ℕ → Option PlayerState
expired_player past session now =
    if past (lookup session.players.0.user_id session.reconnect_deadline) now
    then some session.players.0
    else if past (lookup session.players.1.user_id session.reconnect_deadline) now
    then some session.players.1
    else none

module _ (S : SessionStore) (cfg : Config) where
  unfoldable pub sweep_session : Service S cfg → SessionState → (String → ℕ) → ℕ → Service S cfg × ℕ
  sweep_session sv session draw now =
      if is_terminal session
      then (sv, 0)
      else if is_waiting session.status
      then elim (expired_player (is_past S cfg) session now) [
        | none ↦ (sv, 0)
        | some player ↦
            let (sv', next_state) = expire_grace S cfg sv session.match_id player.user_id now in
            (sv', ended next_state)
      ]
      else if leb session.timer_ends_at now
      then (
        handle_turn_timeout S cfg sv session.match_id (current_player session).user_id
            session.version (draw session.match_id) now,
        1,
      )
      else (sv, 0)

  unfoldable pub sweep_expired_sessions :
      Service S cfg → List SessionState → (String → ℕ) → ℕ → Service S cfg × ℕ
  sweep_expired_sessions sv [] draw now = (sv, 0)
  sweep_expired_sessions sv (session ∷ sessions) draw now =
      let (u, n) = sweep_session sv session draw now in
      let (w, m) = sweep_expired_sessions u sessions draw now in (w, n + m)

pub record ActiveOnlineSessionSummary : Type 0 where
  pub match_id : String
  pub board_size : ℕ
  pub status : SessionStatus
  pub ranked : Bool
  pub source : SessionSource
  pub rules : MatchRules
  pub reconnect_deadline : Option ℕ
  pub opponent : Option (ℕ × Text)

abbrev flatten : Option (Option ℕ) → Option ℕ
flatten none = none
flatten (some d) = d

unfoldable pub to_active_session_summary : SessionState → ℕ → ActiveOnlineSessionSummary
to_active_session_summary state user_id = record {
  match_id = state.match_id;
  board_size = state.size;
  status = state.status;
  ranked = state.ranked;
  source = state.source;
  rules = state.rules;
  reconnect_deadline = flatten (lookup user_id state.reconnect_deadline);
  opponent =
      Option.map (λ (p : PlayerState). (p.user_id, p.username)) (find_opponent state user_id);
}

-- The `find` of getActiveSessionForUser.
unfoldable pub find_active : List SessionState → ℕ → Option SessionState
find_active [] user_id = none
find_active (s ∷ ss) user_id =
    let rest = find_active ss user_id in
    if not (is_terminal s) && is_participant s user_id then some s else rest

unfoldable pub get_active_session_for_user :
    List SessionState → ℕ → Option ActiveOnlineSessionSummary
get_active_session_for_user sessions user_id =
    Option.map (λ s. to_active_session_summary s user_id) (find_active sessions user_id)
