-- ===== src/Session/Transitions.antt =====
-- The state transitions of OnlineSessionService.ts, without their effects: createSession,
-- buildStateAfterMove, buildPieSwapState and the next states of markDisconnected, reconnect,
-- expireGrace, abandon and addChatMessage; and the choice of an action when a turn times out.
use Prim.Native.String.{String}
use yovi_es1c.Prelude.{
  ℕ, suc, ◌+◌, ◌*◌, ◌%◌, Bool, ◌==◌, ltb, if◌then◌else◌, Option, none, some, List, [], ◌∷◌, ◌++◌,
  map, length, get_elem?, keep, drop,
}
use yovi_es1c.Prelude.Text.{Text}
use yovi_es1c.Prelude.Int.{pos}
use yovi_es1c.Prelude.Maps.{nat_eq, insert}
use yovi_es1c.Rules.{MatchRules}
use yovi_es1c.Board.Layout.{
  Symbol, black, red, rows_of, empty_layout, set_cell, swap_layout, MoveCommand, is_move_valid,
}
use yovi_es1c.Board.Winner.{resolve_winner}
use yovi_es1c.Session.State.{
  SessionState, PlayerState, ChatMessage, OpponentType, SessionSource, connected, disconnected,
  first, other_turn, active, waiting_reconnect, finished, abandoned, expired, by_winner, by_abandon,
  by_expiry, open_still, is_pie_swap_legal,
}

-- TurnTimerService.buildTimerEndsAt.
unfoldable pub build_timer_ends_at : ℕ → ℕ → ℕ
build_timer_ends_at turn_timeout_sec now = now + turn_timeout_sec * 1000

pub record SessionPlayer : Type 0 where
  pub user_id : ℕ
  pub username : Text

-- The arguments of createSession; `rules` are those that resolveRulesForMatch returned.
pub record NewSession : Type 0 where
  pub match_id : String
  pub size : ℕ
  pub players : SessionPlayer × SessionPlayer
  pub opponent_type : OpponentType
  pub rules : MatchRules
  pub ranked : Bool
  pub source : SessionSource

abbrev with_symbol : SessionPlayer → Symbol → PlayerState
with_symbol p s = record { user_id = p.user_id; username = p.username; symbol = s }

-- The state that createSession saves.
unfoldable pub initial_state : NewSession → ℕ → ℕ → SessionState
unfolding build_timer_ends_at
initial_state n turn_timeout_sec now = record {
  match_id = n.match_id;
  layout = empty_layout n.size;
  size = n.size;
  rules = n.rules;
  turn = first;
  version = 0;
  timer_ends_at = build_timer_ends_at turn_timeout_sec now;
  players = (with_symbol n.players.0 black, with_symbol n.players.1 red);
  opponent_type = n.opponent_type;
  status = active;
  close_reason = open_still;
  connection = insert n.players.1.user_id connected (insert n.players.0.user_id connected []);
  reconnect_deadline = insert n.players.1.user_id none (insert n.players.0.user_id none []);
  winner = none;
  messages = [];
  ranked = n.ranked;
  source = n.source;
}

-- The state after a move whose board has this winner, or none.
unfoldable pub after_layout : SessionState → Text → Option Symbol → ℕ → SessionState
after_layout state layout none timer = record state {
  layout = layout;
  turn = other_turn state.turn;
  version = state.version + 1;
  timer_ends_at = timer;
  winner = none;
  status = active;
  close_reason = open_still;
}
after_layout state layout (some s) timer = record state {
  layout = layout;
  version = state.version + 1;
  winner = some s;
  status = finished;
  close_reason = by_winner;
}

unfoldable pub build_state_after_move : ℕ → ℕ → SessionState → ℕ → ℕ → Symbol → SessionState
unfolding build_timer_ends_at
build_state_after_move turn_timeout_sec now state row col symbol =
    let next_layout = set_cell state.layout row col symbol in
    after_layout state next_layout (resolve_winner next_layout state.size)
      (build_timer_ends_at turn_timeout_sec now)

unfoldable pub build_pie_swap_state : ℕ → ℕ → SessionState → SessionState
unfolding build_timer_ends_at
build_pie_swap_state turn_timeout_sec now state = record state {
  layout = swap_layout state.layout;
  turn = first;
  version = state.version + 1;
  timer_ends_at = build_timer_ends_at turn_timeout_sec now;
}

-- The next state of markDisconnected.
unfoldable pub disconnected_state : ℕ → ℕ → SessionState → ℕ → SessionState
disconnected_state reconnect_grace_sec now state user_id = record state {
  connection = insert user_id disconnected state.connection;
  reconnect_deadline =
      insert user_id (some (now + reconnect_grace_sec * 1000)) state.reconnect_deadline;
  status = waiting_reconnect;
  version = state.version + 1;
}

-- The next state of reconnect.
unfoldable pub reconnected_state : SessionState → ℕ → SessionState
reconnected_state state user_id = record state {
  connection = insert user_id connected state.connection;
  reconnect_deadline = insert user_id none state.reconnect_deadline;
  status = active;
  version = state.version + 1;
}

-- The winner and the next state of expireGrace.
unfoldable pub forfeit_winner : SessionState → ℕ → Symbol
forfeit_winner state user_id = if state.players.0.user_id == user_id then red else black

unfoldable pub expired_state : SessionState → ℕ → SessionState
unfolding forfeit_winner
expired_state state user_id = record state {
  connection = insert user_id disconnected state.connection;
  winner = some (forfeit_winner state user_id);
  status = expired;
  close_reason = by_expiry;
  version = state.version + 1;
}

-- The next state of abandon.
unfoldable pub abandoned_state : SessionState → Symbol → SessionState
abandoned_state state winner = record state {
  status = abandoned;
  close_reason = by_abandon;
  winner = some winner;
  version = state.version + 1;
}

-- The next state of addChatMessage: at most the last hundred messages stay.
unfoldable pub with_message : SessionState → ChatMessage → SessionState
with_message state message =
    let next_messages = state.messages ++ message ∷ [] in
    record state {
      messages = if ltb 100 (length next_messages) then drop 1 next_messages else next_messages;
    }

pub data TimeoutAction : Type 0 where
  move : MoveCommand → TimeoutAction
  swap : TimeoutAction

-- The positions of one row, from a column on.
unfoldable pub row_moves : ℕ → ℕ → Text → List MoveCommand
row_moves row col [] = []
row_moves row col (c ∷ cells) =
    record { row = pos row; col = pos col } ∷ row_moves row (suc col) cells

-- The positions of the rows, in the order of the two loops.
unfoldable pub board_moves : ℕ → List Text → List MoveCommand
board_moves row [] = []
board_moves row (r ∷ rs) = row_moves row 0 r ++ board_moves (suc row) rs

unfoldable pub legal_actions : SessionState → List TimeoutAction
legal_actions state =
    let moves =
      keep (is_move_valid state.layout state.rules) (board_moves 0 (rows_of state.layout)) in
    if is_pie_swap_legal state then swap ∷ map move moves else map move moves

-- pickRandomLegalTimeoutAction, with the 32-bit random number that secureRandomInt draws.
unfoldable pub pick_timeout_action : SessionState → ℕ → Option TimeoutAction
pick_timeout_action state draw =
    let actions = legal_actions state in
    if length actions == 0 then none else get_elem? actions (draw % length actions)
