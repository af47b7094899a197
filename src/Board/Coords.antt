-- ===== src/Board/Coords.antt =====
-- Cube coordinates of a cell: coordsFromRowCol, rowColFromCoords and the neighbour list of
-- checkWinner (OnlineSessionService.ts), with JavaScript's negative numbers.
use yovi_es1c.Prelude.{ℕ, ◌||◌, not, if◌then◌else◌, Option, none, some, List, [], ◌∷◌}
use yovi_es1c.Prelude.Int.{ℤ, pos, pos_part, ◌+ℤ◌, ◌-ℤ◌, ltb_ℤ, leb_ℤ, eq_ℤ}

-- A row and a column.
abbrev pub Cell : Type 0
Cell = ℕ × ℕ

pub record Coords : Type 0 where
  pub x : ℤ
  pub y : ℤ
  pub z : ℤ

unfoldable pub coords_from_row_col : ℕ → ℕ → ℕ → Coords
coords_from_row_col row col size = record {
  x = pos size -ℤ pos 1 -ℤ pos row;
  y = pos col;
  z = pos row -ℤ pos col;
}

-- The three guards of rowColFromCoords, at the row and column that it computes.
unfoldable pub checked_cell : ℕ → ℤ → ℤ → ℤ → Option Cell
checked_cell size row col z =
    if ltb_ℤ row (pos 0) || leb_ℤ (pos size) row
    then none
    else if ltb_ℤ col (pos 0) || ltb_ℤ row col
    then none
    else if not (eq_ℤ (row -ℤ col) z)
    then none
    else some (pos_part row, pos_part col)

unfoldable pub row_col_from_coords : Coords → ℕ → Option Cell
row_col_from_coords coords size =
    checked_cell size (pos size -ℤ pos 1 -ℤ coords.x) coords.y coords.z

abbrev one : ℤ
one = pos 1

-- The array `neighbors`, in its order.
unfoldable pub neighbors_of : Coords → List Coords
neighbors_of c =
    record { x = c.x -ℤ one; y = c.y +ℤ one; z = c.z }
    ∷ record { x = c.x -ℤ one; y = c.y; z = c.z +ℤ one }
    ∷ record { x = c.x +ℤ one; y = c.y -ℤ one; z = c.z }
    ∷ record { x = c.x; y = c.y -ℤ one; z = c.z +ℤ one }
    ∷ record { x = c.x +ℤ one; y = c.y; z = c.z -ℤ one }
    ∷ record { x = c.x; y = c.y +ℤ one; z = c.z -ℤ one }
    ∷ []

-- The two `continue` guards on a neighbour, then rowColFromCoords; `none` is skipped.
unfoldable pub next_cell : ℕ → Coords → Option Cell
next_cell size n =
    if ltb_ℤ n.x (pos 0) || ltb_ℤ n.y (pos 0) || ltb_ℤ n.z (pos 0)
    then none
    else if not (eq_ℤ (n.x +ℤ n.y +ℤ n.z) (pos size -ℤ one))
    then none
    else row_col_from_coords n size
