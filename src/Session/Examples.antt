-- ===== src/Session/Examples.antt =====
-- The session service on a store in memory, with a session of two users on a board of three rows.
use yovi_es1c.Prelude.{List, ◌+◌, ◌≡◌, ◌≢◌, ◌↔◌, refl, true, false, some, none, [], ◌∷◌, arith}
use yovi_es1c.Prelude.Text.{split, join}
use yovi_es1c.Prelude.Int.{pos}
use yovi_es1c.Prelude.Maps.{lookup, insert}
use yovi_es1c.Rules.{
  MatchRules, default_match_rules, normalize_match_rules, resolve_rules_for_match,
}
use yovi_es1c.Board.Layout.{
  MoveCommand, empty_layout, red, black, get_cell, set_cell, is_move_valid, count_stones,
}
use yovi_es1c.Board.Coords.{
  coords_from_row_col, neighbors_of, next_cell, row_col_from_coords, checked_cell,
}
use yovi_es1c.Board.Winner.{check_winner, resolve_winner, scan, cells_of, has_symbol, has, explore}
use yovi_es1c.Session.State.{
  ChatMessage, SessionState, human, matchmaking, is_terminal, is_participant, current_player,
  is_pie_swap_legal, find_opponent, abandoned,
}
use yovi_es1c.Session.Transitions.{
  NewSession, initial_state, build_state_after_move, build_pie_swap_state, after_layout,
  abandoned_state, pick_timeout_action, legal_actions, board_moves, row_moves, TimeoutAction, move,
}
use yovi_es1c.Session.Validity.{IsValid}
use yovi_es1c.Session.Store.{memory_store, get, save}
use yovi_es1c.Session.Service.{
  Config, Service, get_state, save_state, logged, count_event, session_created, ok, commit_move,
  settle, emit_session_state, invalid_move, pie_rule_not_available, persist_online_result,
}
use yovi_es1c.Session.Handlers.{
  move_in, swap_in, create_session, handle_move, handle_pie_swap, abandon,
}
use yovi_es1c.Session.History.{Step, creates, moves, abandons, Reach, here, next, AllValid}
use yovi_es1c.Session.Finality.{Reach-AllValid, Reach-final, one_move_per_version}
use yovi_es1c.Session.PieRule.{swap_once}
use yovi_es1c.Session.Accepted.{
  Outcome, can_move, after_move, after_swap, handle_move-Outcome, handle_pie_swap-Outcome,
}
use yovi_es1c.Session.Timeouts.{
  IsLegal, pick_timeout_action-IsLegal, pick_timeout_action-eq-none_iff,
}
use yovi_es1c.Session.Forfeits.{Opponent, abandon-winner}
use yovi_es1c.Session.Chat.{sanitized, chat_end}
use yovi_es1c.Session.Overlap.{Runs, start, calls, overlaps, Runs-AllValid}
use yovi_es1c.Session.Lost.{chat-loses_move}

abbrev pub rules : MatchRules
rules = record default_match_rules { pie_rule = record { enabled = true } }

abbrev game : NewSession
game = record {
  match_id = "g";
  size = 3;
  players =
      (record { user_id = 7; username = b'a' ∷ [] }, record { user_id = 8; username = b'b' ∷ [] });
  opponent_type = human;
  rules = rules;
  ranked = true;
  source = matchmaking;
}

abbrev pub settings : Config
settings = record {
  turn_timeout_sec = 25;
  reconnect_grace_sec = 60;
  created_id = λ user_id state. some user_id;
}

abbrev pub idle : Service memory_store settings
idle = record { store = []; log = []; persisted = [] }

abbrev pub opened : SessionState
opened = initial_state game 25 1000

abbrev pub serving : Service memory_store settings
serving =
    logged memory_store settings (save_state memory_store settings idle opened)
      (count_event session_created)

game_created : create_session memory_store settings idle game [] 1000 ≡ some (serving, opened)
unfolding create_session resolve_rules_for_match normalize_match_rules
game_created = refl

game_found : get_state memory_store settings serving "g" ≡ some opened
unfolding save_state get save lookup insert initial_state
game_found = refl

idle-AllValid : AllValid memory_store settings idle
unfolding get lookup
idle-AllValid id s e = cc

game-Step : Step memory_store settings idle serving
unfolding get lookup
game-Step = creates game [] 1000 opened refl (omega arith) (omega arith) game_created

pub serving-AllValid : AllValid memory_store settings serving
serving-AllValid =
    Reach-AllValid memory_store settings idle serving idle-AllValid (next here game-Step)

abbrev top : MoveCommand
top = record { row = pos 0; col = pos 0 }

opened_old : opened.version ≢ 4
unfolding initial_state
opened_old = omega arith

opened_takes_8 : is_participant opened 8 ≡ true
unfolding is_participant initial_state
opened_takes_8 = refl

opened_open : is_terminal opened ≡ false
unfolding is_terminal initial_state
opened_open = refl

top_picked : pick_timeout_action opened 6 ≡ some (move top)
unfolding pick_timeout_action legal_actions initial_state empty_layout is_pie_swap_legal board_moves
    row_moves is_move_valid split get_cell
top_picked = refl

abbrev played : SessionState
played = build_state_after_move 25 2000 opened 0 0 black

abbrev playing : Service memory_store settings
playing = (handle_move memory_store settings serving "g" 7 top 0 2000).0

top_accepted : (handle_move memory_store settings serving "g" 7 top 0 2000).1 ≡ ok played
unfolding handle_move get lookup save_state save insert initial_state move_in is_terminal
    current_player is_move_valid split empty_layout
top_accepted = refl

playing-AllValid : AllValid memory_store settings playing
playing-AllValid =
    Reach-AllValid memory_store settings serving playing serving-AllValid
      (next here (moves "g" 7 top 0 2000 refl))

abbrev taken : SessionState
taken = build_pie_swap_state 25 3000 played

top_taken : (handle_pie_swap memory_store settings playing "g" 8 1 3000).1 ≡ ok taken
unfolding handle_move handle_pie_swap get lookup save_state save insert initial_state move_in
    swap_in is_terminal current_player is_move_valid split join empty_layout commit_move
    build_state_after_move after_layout settle resolve_winner check_winner scan cells_of has_symbol
    get_cell set_cell has explore coords_from_row_col neighbors_of next_cell row_col_from_coords
    checked_cell is_pie_swap_legal count_stones emit_session_state
top_taken = refl

-- The moves of one user against one version.
one_move_per_version_example :
    (handle_move memory_store settings playing "g" 7 top 0 4000).1 ≢ ok played
one_move_per_version_example =
    one_move_per_version memory_store settings serving playing "g" 7 7 0 2000 4000 top top played
      played serving-AllValid top_accepted here

swap_once_example :
    (handle_pie_swap memory_store settings
      (handle_pie_swap memory_store settings playing "g" 8 1 3000).0
      "g"
      7
      2
      4000).1
    ≢ ok taken
swap_once_example =
    swap_once memory_store settings playing _ "g" 8 7 1 2 3000 4000 taken taken playing-AllValid
      top_taken here

handle_move-Outcome_example :
    Outcome memory_store settings serving "g" 7 0 2000
      (can_move memory_store settings serving "g" 7 0 2000 top)
      invalid_move
      (after_move memory_store settings serving "g" 7 0 2000 top)
      (handle_move memory_store settings serving "g" 7 top 0 2000)
handle_move-Outcome_example = handle_move-Outcome memory_store settings serving "g" 7 0 2000 top

handle_pie_swap-Outcome_example :
    Outcome memory_store settings playing "g" 8 1 3000 is_pie_swap_legal pie_rule_not_available
      (after_swap memory_store settings playing "g" 8 1 3000)
      (handle_pie_swap memory_store settings playing "g" 8 1 3000)
handle_pie_swap-Outcome_example = handle_pie_swap-Outcome memory_store settings playing "g" 8 1 3000

-- The second player's message, on the session as it was before the move.
abbrev talking : Service memory_store settings
talking =
    (chat_end memory_store settings playing opened 8 (b'b' ∷ []) (sanitized (b'h' ∷ b'i' ∷ []))
      2500).0

game_overlapped : Runs memory_store settings idle talking
game_overlapped =
    overlaps "g" opened 8 (b'b' ∷ []) (sanitized (b'h' ∷ b'i' ∷ [])) 2500 (calls start game-Step)
      game_found (calls (calls start game-Step) (moves "g" 7 top 0 2000 refl)) refl

Runs-AllValid_example : AllValid memory_store settings talking
Runs-AllValid_example =
    Runs-AllValid memory_store settings idle talking idle-AllValid game_overlapped

abbrev top_played : Reach memory_store settings serving playing
top_played = next here (moves "g" 7 top 0 2000 refl)

-- The first player leaves.
abbrev pub left : SessionState
left = abandoned_state opened red

abbrev pub leaving : Service memory_store settings
leaving = (abandon memory_store settings serving "g" 7).0

left_found : get_state memory_store settings leaving "g" ≡ some left
unfolding abandon get lookup save_state save insert initial_state is_terminal is_participant
    find_opponent settle emit_session_state abandoned_state persist_online_result
left_found = refl

left_over : is_terminal left ≡ true
unfolding is_terminal abandoned_state
left_over = refl

leaving-AllValid : AllValid memory_store settings leaving
leaving-AllValid =
    Reach-AllValid memory_store settings serving leaving serving-AllValid
      (next here (abandons "g" 7 refl))

Reach-final_example :
    (messages : List ChatMessage) × (get_state memory_store settings
        (handle_move memory_store settings leaving "g" 8 top 1 3000).0
        "g"
      ≡ some (record left { messages = messages }))
Reach-final_example =
    Reach-final memory_store settings leaving _ "g" left leaving-AllValid
      (next here (moves "g" 8 top 1 3000 refl)) left_found left_over

chat-loses_move_example :
    let final =
      (chat_end memory_store settings playing opened 8
        (b'b' ∷ [])
        (sanitized (b'h' ∷ b'i' ∷ []))
        2500).0 in
    (get_state memory_store settings playing "g" ≡ some played)
    × (played.version ≡ 1)
    × (u : SessionState) × (get_state memory_store settings final "g" ≡ some u)
    × (u.version ≡ opened.version)
    × (u.layout ≡ opened.layout)
chat-loses_move_example =
    chat-loses_move memory_store settings serving "g" 7 0 2000 top opened played 8 (b'b' ∷ [])
      (b'h' ∷ b'i' ∷ []) 2500 serving-AllValid game_found top_accepted

pick_timeout_action-IsLegal_example : IsLegal opened (move top)
pick_timeout_action-IsLegal_example = pick_timeout_action-IsLegal opened 6 (move top) top_picked

pick_timeout_action-eq-none_iff_example :
    (pick_timeout_action opened 6 ≡ none) ↔ ((a : TimeoutAction) → ¬ IsLegal opened a)
pick_timeout_action-eq-none_iff_example = pick_timeout_action-eq-none_iff opened 6

opened-IsValid : IsValid opened
opened-IsValid = (serving-AllValid "g" opened game_found).0

abandon-winner_example :
    (o : Opponent opened 8) × (t : SessionState) × ((abandon memory_store settings serving "g" 8).1
      ≡ ok (some t))
    × (get_state memory_store settings (abandon memory_store settings serving "g" 8).0 "g" ≡ some t)
    × (t.version ≡ opened.version + 1)
    × (is_terminal t ≡ true)
    × (t.status ≡ abandoned)
    × (t.winner ≡ some o.player.symbol)
unfolding initial_state
abandon-winner_example =
    abandon-winner memory_store settings serving "g" 8 opened game_found refl opened-IsValid
      opened_takes_8 opened_open
