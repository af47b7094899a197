-- ===== src/Board/Examples.antt =====
-- The board's functions and theorems on small boards.
use yovi_es1c.Prelude.{ℕ, ◌≡◌, refl, ◌↔◌, true, false, some, none, [], ◌∷◌, arith}
use yovi_es1c.Prelude.Text.{Text, split, join}
use yovi_es1c.Prelude.Int.{pos}
use yovi_es1c.Rules.{default_match_rules}
use yovi_es1c.Board.Layout.{
  black, red, dot, empty_layout, set_cell, get_cell, is_move_valid, is_honey_blocked,
}
use yovi_es1c.Board.Coords.{
  coords_from_row_col, neighbors_of, next_cell, row_col_from_coords, checked_cell,
}
use yovi_es1c.Board.Winner.{check_winner, resolve_winner, scan, cells_of, has_symbol, has, explore}
use yovi_es1c.Prelude.Int.{negsuc}
use yovi_es1c.Board.Layout.{MoveCommand}
use yovi_es1c.Board.Cells.{InRange, is_move_valid_iff}
use yovi_es1c.Board.Triangle.{IsBoard}
use yovi_es1c.Board.Winner.Connection.{Wins}
use yovi_es1c.Board.Winner.Search.{check_winner_iff, resolve_winner_iff}

first_move :
    set_cell (empty_layout 3) 1 0 black ≡ b'.' ∷ b'/' ∷ b'B' ∷ b'.' ∷ b'/' ∷ b'.' ∷ b'.' ∷ b'.' ∷ []
unfolding set_cell empty_layout split join
first_move = refl

-- Black holds the first column of a board of three rows.
abbrev column : Text
column = b'B' ∷ b'/' ∷ b'B' ∷ b'R' ∷ b'/' ∷ b'B' ∷ b'.' ∷ b'R' ∷ []

-- One stone on a board of two rows.
abbrev corner : Text
corner = b'.' ∷ b'/' ∷ b'B' ∷ b'.' ∷ []

column_won : check_winner column 3 black ≡ true
unfolding check_winner split scan cells_of has_symbol get_cell has explore coords_from_row_col
    neighbors_of next_cell row_col_from_coords checked_cell
column_won = refl

column_not_red : check_winner column 3 red ≡ false
unfolding check_winner split scan cells_of has_symbol get_cell has explore coords_from_row_col
    neighbors_of next_cell row_col_from_coords checked_cell
column_not_red = refl

check_winner_iff_example : (check_winner column 3 black ≡ true) ↔ Wins column 3 black
check_winner_iff_example = check_winner_iff column 3 black

resolve_winner_iff_example :
    ((resolve_winner column 3 ≡ some black) ↔ Wins column 3 black)
    × ((resolve_winner column 3 ≡ some red) ↔ ((¬ Wins column 3 black) × Wins column 3 red))
    × ((resolve_winner column 3 ≡ none) ↔ ((¬ Wins column 3 black) × (¬ Wins column 3 red)))
resolve_winner_iff_example = resolve_winner_iff column 3

corner_top : get_cell corner 0 0 ≡ some dot
unfolding get_cell split
corner_top = refl

corner-InRange : InRange corner 0 0
unfolding split
corner-InRange = record { row_lt = omega arith; col_lt = omega arith }

abbrev left_of_corner : MoveCommand
left_of_corner = record { row = pos 1; col = negsuc 0 }

is_move_valid_iff_example : (is_move_valid corner default_match_rules left_of_corner ≡ true) ↔ (
    (row : ℕ) × (col : ℕ) × (left_of_corner ≡ record { row = pos row; col = pos col })
    × (get_cell corner row col ≡ some dot)
    × (is_honey_blocked default_match_rules row col ≡ false))
is_move_valid_iff_example = is_move_valid_iff corner default_match_rules left_of_corner

corner-IsBoard : IsBoard 2 corner
unfolding split
corner-IsBoard = record { height = refl; triangle = ground arith }

corner_open : resolve_winner corner 2 ≡ none
unfolding resolve_winner check_winner split scan cells_of has_symbol get_cell has explore
    coords_from_row_col neighbors_of next_cell row_col_from_coords checked_cell
corner_open = refl
