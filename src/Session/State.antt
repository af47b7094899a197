-- ===== src/Session/State.antt =====
-- The data of a session (gameservice/src/types/online.ts) and the tests on it
-- (isTerminal, the participant tests and isPieSwapLegal of OnlineSessionService.ts).
use Prim.Native.String.{String}
use yovi_es1c.Prelude.{
  ℕ, Bool, true, false, not, ◌&&◌, ◌||◌, ◌==◌, if◌then◌else◌, Option, none, some, List,
}
use yovi_es1c.Prelude.Text.{Text}
use yovi_es1c.Prelude.Maps.{Map}
use yovi_es1c.Rules.{MatchRules}
use yovi_es1c.Board.Layout.{Symbol, count_stones}

pub data OpponentType : Type 0 where
  human bot : OpponentType

pub data ConnectionState : Type 0 where
  connected disconnected : ConnectionState

pub data SessionSource : Type 0 where
  matchmaking friend : SessionSource

pub data SessionStatus : Type 0 where
  created active waiting_reconnect finished abandoned expired cancelled : SessionStatus

-- closeReason; `null` is `open_still`.
pub data CloseReason : Type 0 where
  by_winner by_abandon by_expiry by_cancel open_still : CloseReason

pub data Turn : Type 0 where
  first second : Turn

pub record PlayerState : Type 0 where
  pub user_id : ℕ
  pub username : Text
  pub symbol : Symbol

pub record ChatMessage : Type 0 where
  pub user_id : ℕ
  pub username : Text
  pub text : Text
  pub timestamp : ℕ

pub record SessionState : Type 0 where
  pub match_id : String
  pub layout : Text
  pub size : ℕ
  pub rules : MatchRules
  pub turn : Turn
  pub version : ℕ
  pub timer_ends_at : ℕ
  pub players : PlayerState × PlayerState
  pub opponent_type : OpponentType
  pub status : SessionStatus
  pub close_reason : CloseReason
  pub connection : Map ℕ ConnectionState
  pub reconnect_deadline : Map ℕ (Option ℕ)
  pub winner : Option Symbol
  pub messages : List ChatMessage
  pub ranked : Bool
  pub source : SessionSource

-- isTerminal.
abbrev pub is_terminal_status : SessionStatus → Bool
is_terminal_status finished = true
is_terminal_status abandoned = true
is_terminal_status expired = true
is_terminal_status cancelled = true
is_terminal_status _ = false

unfoldable pub is_terminal : SessionState → Bool
is_terminal state = is_terminal_status state.status

-- `state.players[state.turn]`.
abbrev pub player_at : PlayerState × PlayerState → Turn → PlayerState
player_at (p, q) first = p
player_at (p, q) second = q

unfoldable pub current_player : SessionState → PlayerState
current_player state = player_at state.players state.turn

-- `state.players.some((player) => player.userId === userId)`.
unfoldable pub is_participant : SessionState → ℕ → Bool
is_participant state user_id =
    (state.players.0.user_id == user_id) || (state.players.1.user_id == user_id)

-- `state.players.find((player) => player.userId !== userId)`.
unfoldable pub find_opponent : SessionState → ℕ → Option PlayerState
find_opponent state user_id =
    if not (state.players.0.user_id == user_id)
    then some state.players.0
    else if not (state.players.1.user_id == user_id)
    then some state.players.1
    else none

abbrev pub is_second : Turn → Bool
is_second first = false
is_second second = true

unfoldable pub is_pie_swap_legal : SessionState → Bool
is_pie_swap_legal state =
    state.rules.pie_rule.enabled && (is_second state.turn && (count_stones state.layout == 1))

abbrev pub other_turn : Turn → Turn
other_turn first = second
other_turn second = first
