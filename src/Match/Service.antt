-- ===== src/Match/Service.antt =====
-- gameservice/src/services/MatchService.ts and its repository: a list of matches and a list of moves.
-- What the bot service answers is an argument, `none` when the call fails or times out; the metrics are
-- left out.
use Prim.Native.String.{String}
use yovi_es1c.Prelude.{
  map, ℕ, ◌+◌, ◌%◌, Bool, true, false, not, ◌==◌, leb, if◌then◌else◌, Option, none, some, List, [],
  ◌∷◌, ◌++◌, keep, any, map,
}
use yovi_es1c.Prelude.Text.{Text}
use yovi_es1c.Prelude.Words.{text_eq}
use yovi_es1c.Prelude.Maps.{same}
use yovi_es1c.Prelude.Query.{find, update_where, delete_where}
use yovi_es1c.Rules.{MatchRules, CellDraw, resolve_rules_for_match, normalize_match_rules}
use yovi_es1c.Ranking.Service.{MatchMode}
use yovi_es1c.Match.Layouts.{
  lower, Player, bot, MatchMove, BotPlayResponse, resolve_current_layout,
  extract_layout_from_bot_payload, pick_fallback_layout, build_board, count_stones,
}

pub data MatchStatus : Type 0 where
  ongoing finished : MatchStatus

pub record Match : Type 0 where
  pub id : ℕ
  pub user_id : ℕ
  pub board_size : ℕ
  pub difficulty : Text
  pub status : MatchStatus
  pub mode : MatchMode
  pub rules : MatchRules
  pub ranked : Bool
  pub winner : Option String

pub record MoveRow : Type 0 where
  pub match_id : ℕ
  pub move : MatchMove

pub record Matches : Type 0 where
  pub matches : List Match
  pub moves : List MoveRow
  pub next_match : ℕ

abbrev pub is_ongoing : MatchStatus → Bool
is_ongoing ongoing = true
is_ongoing finished = false

unfoldable pub get_match_by_id : Matches → ℕ → Option Match
get_match_by_id db id = find (λ m. m.id == id) db.matches

-- listMoves; they are sorted by resolve_current_layout.
unfoldable pub list_moves : Matches → ℕ → List MatchMove
list_moves db match_id = map (λ (r : MoveRow). r.move) (keep (λ r. r.match_id == match_id) db.moves)

unfoldable pub add_move : Matches → ℕ → Text → Player → ℕ → Matches
add_move db match_id position player move_number = record db {
  moves =
      db.moves
      ++ record {
        match_id = match_id;
        move = record { position_yen = position; player = player; move_number = move_number };
      }
        ∷ [];
}

-- The honey cells are drawn from `draws`; `none` when these do not suffice.
unfoldable pub create_match :
    Matches → ℕ → ℕ → Text → MatchMode → MatchRules → Bool → List CellDraw → Option (Matches × ℕ)
create_match db user_id board_size difficulty mode rules ranked draws =
    elim (resolve_rules_for_match board_size rules draws) [
      | none ↦ none
      | some resolved ↦ some (
        record db {
          matches =
              db.matches
              ++ record {
                id = db.next_match;
                user_id = user_id;
                board_size = board_size;
                difficulty = difficulty;
                status = ongoing;
                mode = mode;
                rules = resolved;
                ranked = ranked;
                winner = none;
              }
                ∷ [];
          next_match = db.next_match + 1;
        },
        db.next_match,
      )
    ]

-- MatchRepository.finishMatch.
unfoldable pub finish_match_row : Matches → ℕ → String → Matches
finish_match_row db match_id winner = record db {
  matches =
      update_where (λ m. m.id == match_id)
        (λ m. record m { status = finished; winner = some winner }) db.matches;
}

pub record YenPosition : Type 0 where
  pub size : ℕ
  pub turn : ℕ
  pub layout : Text
  pub rules : MatchRules

unfoldable pub build_yen_position : ℕ → Text → MatchRules → YenPosition
build_yen_position board_size layout rules = record {
  size = board_size;
  turn = count_stones layout % 2;
  layout = layout;
  rules = rules;
}

-- What the bot service answers to a position and a bot id, if it answers in time.
abbrev pub BotService : Type 0
BotService = YenPosition → Text → Option BotPlayResponse

-- The bot id is the difficulty in lower case; of the letters that toLowerCase changes, those are
-- taken whose lower case is one of a to z, the letters of the names of the bots.
unfoldable pub get_bot_move_with_timeout : BotService → ℕ → Text → Text → MatchRules → Option Text
get_bot_move_with_timeout play board_size difficulty current rules =
    elim (play (build_yen_position board_size current rules) (map lower difficulty)) [
      | none ↦ none
      | some payload ↦ extract_layout_from_bot_payload payload board_size current
    ]

abbrev pub is_played : Text → List MatchMove → Bool
is_played layout moves = any (λ m. same m.position_yen layout) moves

-- The bot's layout unless it was played before, else the fallback.
unfoldable pub chosen_layout : Option Text → List MatchMove → Option Text → Option Text
chosen_layout none moves fallback = fallback
chosen_layout (some layout) moves fallback =
    if not (is_played layout moves) then some layout else fallback

-- `Math.max(0, ...)`.
unfoldable pub max_number : List MatchMove → ℕ
max_number [] = 0
max_number (m ∷ ms) =
    let rest = max_number ms in if leb m.move_number rest then rest else m.move_number

unfoldable pub choose_bot_move : BotService → Match → List MatchMove → Option Text
choose_bot_move play match moves =
    let current = resolve_current_layout match.board_size moves in
    chosen_layout
      (get_bot_move_with_timeout play match.board_size match.difficulty current
        (normalize_match_rules match.rules))
      moves (pick_fallback_layout match.board_size current)

unfoldable pub play_bot_move : BotService → Matches → Match → Matches
play_bot_move play db match =
    let moves = list_moves db match.id in
    elim (choose_bot_move play match moves) [
      | none ↦ db
      | some chosen ↦ add_move db match.id chosen bot (max_number moves + 1)
    ]

unfoldable pub apply_bot_move : BotService → Matches → ℕ → Matches
apply_bot_move play db match_id = elim (get_match_by_id db match_id) [
  | none ↦ db
  | some match ↦ if is_ongoing match.status then play_bot_move play db match else db
]

-- The matches whose bot task runs, and whether a task starts: at most one for each match.
unfoldable pub queue_bot_move : List ℕ → ℕ → List ℕ × Bool
queue_bot_move tasks match_id =
    if any (λ t. t == match_id) tasks then (tasks, false) else (match_id ∷ tasks, true)

-- `finally`: the task is over.
unfoldable pub end_bot_task : List ℕ → ℕ → List ℕ
end_bot_task tasks match_id = delete_where (λ t. t == match_id) tasks

pub record MatchState : Type 0 where
  pub match_row : Match
  pub moves : List MatchMove
  pub layout : Text
  pub board : List (List ℕ)
  pub bot_is_processing : Bool

-- `botStatus` is done unless a task of the match runs.
unfoldable pub get_match_state : Matches → List ℕ → ℕ → Option MatchState
get_match_state db tasks id = elim (get_match_by_id db id) [
  | none ↦ none
  | some match ↦
      let moves = list_moves db id in
      let layout = resolve_current_layout match.board_size moves in
      some (record {
        match_row = match;
        moves = moves;
        layout = layout;
        board = build_board match.board_size layout;
        bot_is_processing = any (λ t. t == id) tasks;
      })
]
