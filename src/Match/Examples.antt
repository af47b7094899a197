-- ===== src/Match/Examples.antt =====
-- A match of size two: the user has taken the top cell.
use yovi_es1c.Prelude.{◌≡◌, ◌≢◌, ◌↔◌, ◌+◌, refl, true, some, none, [], ◌∷◌, arith}
use yovi_es1c.Prelude.Text.{Text, split}
use yovi_es1c.Prelude.Query.{find}
use yovi_es1c.Rules.{default_match_rules}
use yovi_es1c.Board.Layout.{dot, get_cell}
use yovi_es1c.Board.Triangle.{IsBoard}
use yovi_es1c.Ranking.Service.{bot_mode}
use yovi_es1c.Match.Layouts.{
  Position, user, bot, MatchMove, is_serialized_layout, are_rows, resolve_current_layout,
  ordered_moves, place_move, latest_move, latest_layout, pick_fallback_layout,
}
use yovi_es1c.Match.Shape.{Inside, resolve_current_layout-IsBoard}
use yovi_es1c.Match.Fallback.{Fills, pick_fallback_layout-Fills}
use yovi_es1c.Match.Service.{
  Match, Matches, BotService, ongoing, get_match_by_id, list_moves, add_move, max_number,
  apply_bot_move,
}
use yovi_es1c.Match.BotMoves.{apply_bot_move-moves}

abbrev top : Text
top = b'B' ∷ b'/' ∷ b'.' ∷ b'.' ∷ []

abbrev first : MatchMove
first = record { position_yen = top; player = user; move_number = 1 }

abbrev match_one : Match
match_one = record {
  id = 1;
  user_id = 7;
  board_size = 2;
  difficulty = b'E' ∷ b'a' ∷ b's' ∷ b'y' ∷ [];
  status = ongoing;
  mode = bot_mode;
  rules = default_match_rules;
  ranked = true;
  winner = none;
}

abbrev stored : Matches
stored = record {
  matches = match_one ∷ [];
  moves = record { match_id = 1; move = first } ∷ [];
  next_match = 2;
}

abbrev silent : BotService
silent position difficulty = none

abbrev corner : Position
corner = record { row = 1; col = 0 }

corner-Inside : Inside 2 corner
corner-Inside = record { row_lt = omega arith; col_le = omega arith }

resolve_current_layout-IsBoard_example : IsBoard 2 (resolve_current_layout 2 (first ∷ []))
resolve_current_layout-IsBoard_example = resolve_current_layout-IsBoard 2 (first ∷ []) (omega arith)

pick_fallback_layout-Fills_example :
    ((layout : Text) → pick_fallback_layout 2 top ≡ some layout → Fills 2 top layout)
    × ((pick_fallback_layout 2 top ≡ none)
        ↔ ((p : Position) → Inside 2 p → get_cell top p.row p.col ≢ some dot))
pick_fallback_layout-Fills_example = pick_fallback_layout-Fills 2 top

apply_bot_move-moves_example :
    (layout : Text) × (apply_bot_move silent stored 1
      ≡ add_move stored 1 layout bot (max_number (list_moves stored 1) + 1))
    × IsBoard 2 layout
unfolding get_match_by_id find list_moves resolve_current_layout ordered_moves place_move
    latest_move latest_layout is_serialized_layout are_rows get_cell split
apply_bot_move-moves_example =
    apply_bot_move-moves silent stored match_one corner refl refl corner-Inside refl
