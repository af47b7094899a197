-- ===== src/Session/Service.antt =====
-- The handlers of OnlineSessionService.ts with their effects. A handler runs under the lock of its
-- match (withMatchLock), so it is one step; the clock, the random number and what
-- MatchService.createMatch returns are arguments. `log` records the calls that leave the service,
-- the latest first: messages to rooms, counters, and matches to persist.
use Prim.Native.String.{String}
use yovi_es1c.Prelude.{
  ℕ, Bool, true, false, not, ◌&&◌, if◌then◌else◌, Option, none, some, List, ◌∷◌, any,
}
use yovi_es1c.Prelude.Text.{Text}
use yovi_es1c.Prelude.Maps.{nat_eq, string_eq, same}
use yovi_es1c.Rules.{MatchRules}
use yovi_es1c.Board.Layout.{Symbol, black, red}
use yovi_es1c.Session.State.{
  SessionState, PlayerState, ChatMessage, Turn, SessionSource, is_terminal,
}
use yovi_es1c.Session.Store.{SessionStore}

pub data MoveErrorCode : Type 0 where
  version_conflict not_your_turn invalid_move session_not_found reconnect_expired session_terminal
        unauthorized duplicate_event pie_rule_not_available friend_invite_not_found
        friend_invite_expired friend_invite_forbidden friend_invite_already_pending :
      MoveErrorCode

-- The payload of `session:state`.
pub record SessionStatePayload : Type 0 where
  pub match_id : String
  pub layout : Text
  pub size : ℕ
  pub rules : MatchRules
  pub turn : Turn
  pub version : ℕ
  pub timer_ends_at : ℕ
  pub players : PlayerState × PlayerState
  pub winner : Option Symbol
  pub messages : List ChatMessage
  pub ranked : Bool
  pub source : SessionSource

pub data SessionEvent : Type 0 where
  session_created session_finished player_disconnected player_reconnected reconnect_refused
        player_forfeited :
      SessionEvent

pub data Effect : Type 0 where
  emit_state : SessionStatePayload → Effect
  emit_error : String → ℕ → MoveErrorCode → Effect
  emit_chat : String → ChatMessage → Effect
  count_move count_chat count_timeout inc_active dec_active : Effect
  count_move_error : MoveErrorCode → Effect
  count_event : SessionEvent → Effect
  create_match : ℕ → SessionState → Effect
  finish_match : ℕ → Bool → ℕ → Text → Effect

-- `err` is a thrown OnlineSessionError, `crash` a TypeError.
pub data Result (A : Type 0) : Type 0 where
  ok : A → Result A
  err : MoveErrorCode → Result A
  crash : Result A

pub record Config : Type 0 where
  pub turn_timeout_sec : ℕ
  pub reconnect_grace_sec : ℕ
  -- The id that createMatch gives to a user's record of a finished session; `none` if it fails.
  pub created_id : ℕ → SessionState → Option ℕ

unfoldable pub payload_of : SessionState → SessionStatePayload
payload_of state = record {
  match_id = state.match_id;
  layout = state.layout;
  size = state.size;
  rules = state.rules;
  turn = state.turn;
  version = state.version;
  timer_ends_at = state.timer_ends_at;
  players = state.players;
  winner = state.winner;
  messages = state.messages;
  ranked = state.ranked;
  source = state.source;
}

abbrev pub same_symbol : Symbol → Symbol → Bool
same_symbol black black = true
same_symbol red red = true
same_symbol _ _ = false

-- updateActiveGameMetric.
unfoldable pub active_metric : Option SessionState → SessionState → List Effect → List Effect
active_metric none state log = if is_terminal state then log else inc_active ∷ log
active_metric (some previous) state log =
    if not (is_terminal previous) && is_terminal state then dec_active ∷ log else log

module _ (S : SessionStore) (cfg : Config) where
  pub record Service : Type 0 where
    pub store : S.Store
    pub log : List Effect
    pub persisted : List String

  abbrev pub logged : Service → Effect → Service
  logged sv e = record sv { log = e ∷ sv.log }

  -- getState.
  abbrev pub get_state : Service → String → Option SessionState
  get_state sv match_id = S.read sv.store match_id

  unfoldable pub save_state : Service → SessionState → Service
  unfolding active_metric
  save_state sv state = record sv {
    store = S.write sv.store state;
    log = active_metric (get_state sv state.match_id) state sv.log;
  }

  unfoldable pub emit_session_state : Service → SessionState → Service
  emit_session_state sv state = logged sv (emit_state (payload_of state))

  -- throwMoveError.
  unfoldable pub throw_move_error :
      {A : Type 0} → Service → String → ℕ → MoveErrorCode → Bool → Service × Result A
  throw_move_error sv match_id user_id code track = (
    logged (if track then logged sv (count_move_error code) else sv)
        (emit_error match_id user_id code),
    err code,
  )

  -- The branch of a version conflict: the caller is sent the error and everybody the state.
  unfoldable pub throw_version_conflict :
      {A : Type 0} → Service → SessionState → String → ℕ → Service × Result A
  throw_version_conflict sv state match_id user_id = (
    emit_session_state
        (logged (logged sv (count_move_error version_conflict))
          (emit_error match_id user_id version_conflict))
        state,
    err version_conflict,
  )

  -- The part of persistOnlineResult for one player.
  unfoldable pub persist_player :
      SessionState → Symbol → PlayerState → PlayerState → List Effect → List Effect
  persist_player state winner player opponent log = elim (cfg.created_id player.user_id state) [
    | none ↦ create_match player.user_id state ∷ log
    | some id ↦
        finish_match id (same_symbol player.symbol winner) opponent.user_id player.username
        ∷ create_match player.user_id state
        ∷ log
  ]

  -- The two players are persisted concurrently; the log lists one after the other.
  unfoldable pub persist_online_result : Service → SessionState → Symbol → Service
  unfolding persist_player
  persist_online_result sv state winner =
      let (p, q) = state.players in
      if any (same state.match_id) sv.persisted then sv else record sv {
        persisted = state.match_id ∷ sv.persisted;
        log = persist_player state winner q p (persist_player state winner p q sv.log);
      }

  -- `if (nextState.winner)`: the session is over.
  unfoldable pub settle : Service → SessionState → Option Symbol → Service
  unfolding persist_online_result
  settle sv state none = sv
  settle sv state (some winner) =
      persist_online_result (logged sv (count_event session_finished)) state winner

  -- What handleMove and handleTurnTimeout do with the next state.
  unfoldable pub commit_move : Service → SessionState → Service
  unfolding save_state emit_session_state settle
  commit_move sv next =
      emit_session_state (settle (logged (save_state sv next) count_move) next next.winner) next

  -- What handlePieSwap and handleTurnTimeout do with the swapped state.
  unfoldable pub commit_swap : Service → SessionState → Service
  unfolding save_state emit_session_state
  commit_swap sv next = emit_session_state (logged (save_state sv next) count_move) next
