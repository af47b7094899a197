-- ===== src/Session/Handlers.antt =====
-- The handlers of OnlineSessionService.ts, each the whole body that runs under the match's lock.
-- A refusal is the error code that the source throws; the service comes back with its log.
use Prim.Native.String.{String}
use yovi_es1c.Prelude.{
  ℕ, Bool, true, false, not, ◌==◌, leb, if◌then◌else◌, Option, none, some, is_some, List,
}
use yovi_es1c.Prelude.Int.{pos_part}
use yovi_es1c.Prelude.Maps.{nat_eq, lookup}
use yovi_es1c.Rules.{CellDraw, resolve_rules_for_match}
use yovi_es1c.Board.Layout.{MoveCommand, is_move_valid}
use yovi_es1c.Session.State.{
  SessionState, PlayerState, is_terminal, current_player, is_participant, find_opponent,
  is_pie_swap_legal,
}
use yovi_es1c.Session.Transitions.{
  NewSession, initial_state, build_state_after_move, build_pie_swap_state, disconnected_state,
  reconnected_state, forfeit_winner, expired_state, abandoned_state, TimeoutAction, move, swap,
  pick_timeout_action,
}
use yovi_es1c.Session.Store.{SessionStore}
use yovi_es1c.Session.Service.{
  not_your_turn, invalid_move, session_not_found, reconnect_expired, session_terminal, unauthorized,
  pie_rule_not_available, Result, ok, err, crash, Config, Service, logged, get_state, save_state,
  emit_session_state, throw_move_error, throw_version_conflict, settle, commit_move, commit_swap,
  emit_error, count_event, count_timeout, session_created, player_disconnected, player_reconnected,
  reconnect_refused, player_forfeited,
}

module _ (S : SessionStore) (cfg : Config) where
  abbrev Outcome : Type 0
  Outcome = Service S cfg × Result SessionState

  abbrev Answer : Type 0
  Answer = Service S cfg × Result (Option SessionState)

  -- createSession; `draws` are the random cells of resolveRulesForMatch, and `none` says that they
  -- were used up.
  unfoldable pub create_session :
      Service S cfg → NewSession → List CellDraw → ℕ → Option (Service S cfg × SessionState)
  create_session sv n draws now = elim (resolve_rules_for_match n.size n.rules draws) [
    | none ↦ none
    | some rules ↦
        let state = initial_state (record n { rules = rules }) cfg.turn_timeout_sec now in
        some (logged S cfg (save_state S cfg sv state) (count_event session_created), state)
  ]

  -- handleMove, once the session is found.
  unfoldable pub move_in : Service S cfg → SessionState → String → ℕ → MoveCommand → ℕ → ℕ → Outcome
  move_in sv state match_id user_id command expected_version now =
      if is_terminal state
      then throw_move_error S cfg sv match_id user_id session_terminal true
      else if not (expected_version == state.version)
      then throw_version_conflict S cfg sv state match_id user_id
      else if not ((current_player state).user_id == user_id)
      then throw_move_error S cfg sv match_id user_id not_your_turn true
      else if not (is_move_valid state.layout state.rules command)
      then throw_move_error S cfg sv match_id user_id invalid_move true
      else let next =
          build_state_after_move cfg.turn_timeout_sec now state (pos_part command.row)
            (pos_part command.col) (current_player state).symbol in
        (commit_move S cfg sv next, ok next)

  unfoldable pub handle_move : Service S cfg → String → ℕ → MoveCommand → ℕ → ℕ → Outcome
  handle_move sv match_id user_id command expected_version now =
      elim (get_state S cfg sv match_id) [
        | none ↦ throw_move_error S cfg sv match_id user_id session_not_found true
        | some state ↦ move_in sv state match_id user_id command expected_version now
      ]

  -- handlePieSwap, once the session is found.
  unfoldable pub swap_in : Service S cfg → SessionState → String → ℕ → ℕ → ℕ → Outcome
  swap_in sv state match_id user_id expected_version now =
      if is_terminal state
      then throw_move_error S cfg sv match_id user_id session_terminal false
      else if not (expected_version == state.version)
      then throw_version_conflict S cfg sv state match_id user_id
      else if not ((current_player state).user_id == user_id)
      then throw_move_error S cfg sv match_id user_id not_your_turn true
      else if not (is_pie_swap_legal state)
      then throw_move_error S cfg sv match_id user_id pie_rule_not_available false
      else let next = build_pie_swap_state cfg.turn_timeout_sec now state in
        (commit_swap S cfg sv next, ok next)

  unfoldable pub handle_pie_swap : Service S cfg → String → ℕ → ℕ → ℕ → Outcome
  handle_pie_swap sv match_id user_id expected_version now = elim (get_state S cfg sv match_id) [
    | none ↦ throw_move_error S cfg sv match_id user_id session_not_found false
    | some state ↦ swap_in sv state match_id user_id expected_version now
  ]

  unfoldable pub mark_disconnected : Service S cfg → String → ℕ → ℕ → Answer
  mark_disconnected sv match_id user_id now = elim (get_state S cfg sv match_id) [
    | none ↦ (sv, ok none)
    | some state ↦
        if is_terminal state
        then (sv, ok (some state))
        else if not (is_participant state user_id)
        then (sv, ok (some state))
        else let next = disconnected_state cfg.reconnect_grace_sec now state user_id in
          (
            logged S cfg (save_state S cfg sv next) (count_event player_disconnected),
            ok (some next),
          )
  ]

  -- `deadline !== null && deadline <= now`; a participant has an entry.
  abbrev pub is_past : Option (Option ℕ) → ℕ → Bool
  is_past (some (some deadline)) now = leb deadline now
  is_past _ now = false

  unfoldable pub reconnect : Service S cfg → String → ℕ → ℕ → Answer
  reconnect sv match_id user_id now = elim (get_state S cfg sv match_id) [
    | none ↦ (sv, ok none)
    | some state ↦
        if not (is_participant state user_id)
        then (sv, err unauthorized)
        else if is_terminal state
        then (sv, err session_terminal)
        else if is_past (lookup user_id state.reconnect_deadline) now
        then (
          logged S cfg (logged S cfg sv (count_event reconnect_refused))
              (emit_error match_id user_id reconnect_expired),
          err reconnect_expired,
        )
        else let next = reconnected_state state user_id in
          (logged S cfg (save_state S cfg sv next) (count_event player_reconnected), ok (some next))
  ]

  -- expireGrace, once the grace of the user in the session has run out. In the source `deadline`
  -- must be truthy, so that a deadline 0 never expires.
  unfoldable pub forfeit : Service S cfg → SessionState → ℕ → Service S cfg
  forfeit sv state user_id =
      let next = expired_state state user_id in
      let saved = logged S cfg (save_state S cfg sv next) (count_event player_forfeited) in
      emit_session_state S cfg (settle S cfg saved next (some (forfeit_winner state user_id))) next

  abbrev pub is_overdue : Option (Option ℕ) → ℕ → Bool
  is_overdue (some (some deadline)) now = if deadline == 0 then false else leb deadline now
  is_overdue _ now = false

  unfoldable pub expire_grace : Service S cfg → String → ℕ → ℕ → Answer
  expire_grace sv match_id user_id now = elim (get_state S cfg sv match_id) [
    | none ↦ (sv, ok none)
    | some state ↦
        if is_terminal state
        then (sv, ok (some state))
        else if is_overdue (lookup user_id state.reconnect_deadline) now
        then (forfeit sv state user_id, ok (some (expired_state state user_id)))
        else (sv, ok (some state))
  ]

  -- abandon, at the opponent that the source reads with `!`.
  abbrev abandon_to : Service S cfg → SessionState → Option PlayerState → Answer
  abandon_to sv state none = (sv, crash)
  abandon_to sv state (some opponent) =
      let next = abandoned_state state opponent.symbol in
      let saved = save_state S cfg sv next in
      (
        emit_session_state S cfg (settle S cfg saved next (some opponent.symbol)) next,
        ok (some next),
      )

  unfoldable pub abandon : Service S cfg → String → ℕ → Answer
  abandon sv match_id user_id = elim (get_state S cfg sv match_id) [
    | none ↦ (sv, ok none)
    | some state ↦
        if not (is_participant state user_id)
        then (sv, err unauthorized)
        else if is_terminal state
        then (sv, ok (some state))
        else abandon_to sv state (find_opponent state user_id)
  ]

  -- handleTurnTimeout at the chosen action.
  unfoldable pub act : Service S cfg → SessionState → ℕ → Option TimeoutAction → Service S cfg
  act sv state now none = sv
  act sv state now (some swap) =
      commit_swap S cfg sv (build_pie_swap_state cfg.turn_timeout_sec now state)
  act sv state now (some (move command)) = commit_move S cfg sv (
      build_state_after_move cfg.turn_timeout_sec now state (pos_part command.row)
        (pos_part command.col) (current_player state).symbol)

  -- `draw` is the random number of secureRandomInt.
  unfoldable pub handle_turn_timeout : Service S cfg → String → ℕ → ℕ → ℕ → ℕ → Service S cfg
  unfolding act
  handle_turn_timeout sv match_id user_id expected_version draw now =
      elim (get_state S cfg sv match_id) [
        | none ↦ sv
        | some state ↦
            if is_some state.winner
            then sv
            else if not (state.version == expected_version)
            then sv
            else if not ((current_player state).user_id == user_id)
            then sv
            else act (logged S cfg sv count_timeout) state now (pick_timeout_action state draw)
      ]
