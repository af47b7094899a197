-- ===== src/Board/Winner/Adjacency.antt =====
-- The neighbours that the search computes are the adjacent cells of the board.
use yovi_es1c.Prelude.{
  ℕ, suc, ◌+◌, ◌-◌, ◌==◌, if◌then◌else◌, ◌≤◌, ◌<◌, ◌≡◌, ◌⊎◌, ◌||◌, true, none, some, arith,
}
use yovi_es1c.Prelude.Int.{pos, eq_ℤ, ltb_ℤ, ◌+ℤ◌, ◌-ℤ◌}
use yovi_es1c.Board.Coords.{
  Cell, Coords, coords_from_row_col, checked_cell, row_col_from_coords, next_cell,
}

abbrev pub OnBoard : ℕ → Cell → Type 0
OnBoard size (row, col) = (col ≤ row) × (row < size)

-- Two cells of the triangular board share an edge: one row down, one row up, or in a row.
abbrev pub Adjacent : Cell → Cell → Type 0
Adjacent (r, c) (s, d) =
    ((s ≡ r + 1) × ((d ≡ c) ⊎ (d ≡ c + 1)))
    ⊎ (((r ≡ s + 1) × ((c ≡ d) ⊎ (c ≡ d + 1))) ⊎ ((s ≡ r) × ((d ≡ c + 1) ⊎ (c ≡ d + 1))))

pub Adjacent-symm : (p q : Cell) → Adjacent p q → Adjacent q p
Adjacent-symm p q h = ground arith

-- Coordinates given by numbers.
abbrev pub at : ℕ → ℕ → ℕ → Coords
at x y z = record { x = pos x; y = pos y; z = pos z }

-- On the board the coordinates are numbers that add up to the last row.
pub coords-at :
    (size row col : ℕ)
    → OnBoard size (row, col)
    → coords_from_row_col row col size ≡ at (size - 1 - row) col (row - col)
unfolding coords_from_row_col
coords-at size row col h = ground arith

sub_one : (n : ℕ) → pos (suc n) -ℤ pos 1 ≡ pos n
sub_one n = ground arith

add_one : (n : ℕ) → pos n +ℤ pos 1 ≡ pos (suc n)
add_one n = ground arith

sum_test :
    (size x y z : ℕ) → eq_ℤ (pos x +ℤ pos y +ℤ pos z) (pos size -ℤ pos 1) ≡ (x + y + z + 1 == size)
sum_test size x y z = ground arith

row_lem : (x y z : ℕ) → pos (x + y + z + 1) -ℤ pos 1 -ℤ pos x ≡ pos (y + z)
row_lem x y z = ground arith

checked_cell-at :
    (size y z : ℕ)
    → y + z < size
    → checked_cell size (pos (y + z)) (pos y) (pos z) ≡ some (y + z, y)
unfolding checked_cell
checked_cell-at size y z h = ground arith

row_col-at : (x y z : ℕ) → row_col_from_coords (at x y z) (x + y + z + 1) ≡ some (y + z, y)
unfolding row_col_from_coords
row_col-at x y z = rw (row_lem x y z) (checked_cell-at (x + y + z + 1) y z (omega arith))

-- Coordinates with the right sum lead to their cell, and others nowhere.
next_cell-at :
    (size x y z : ℕ)
    → next_cell size (at x y z) ≡ (if x + y + z + 1 == size then some (y + z, y) else none)
unfolding next_cell
next_cell-at size x y z = ground (arith, sum_test size x y z, row_col-at x y z)

next_cell-at_sum : (x y z : ℕ) → next_cell (x + y + z + 1) (at x y z) ≡ some (y + z, y)
next_cell-at_sum x y z = ground (arith, next_cell-at (x + y + z + 1) x y z)

-- Coordinates with a negative part lead nowhere.
pub next_cell-negative :
    (size : ℕ) (n : Coords)
    → ltb_ℤ n.x (pos 0) || ltb_ℤ n.y (pos 0) || ltb_ℤ n.z (pos 0) ≡ true
    → next_cell size n ≡ none
unfolding next_cell
next_cell-negative size n h = rw h

-- The six neighbours, each with the coordinate that must not be zero.
abbrev pub down_right : ℕ → ℕ → ℕ → Coords
down_right x y z = record { x = pos x -ℤ pos 1; y = pos y +ℤ pos 1; z = pos z }

abbrev pub down_left : ℕ → ℕ → ℕ → Coords
down_left x y z = record { x = pos x -ℤ pos 1; y = pos y; z = pos z +ℤ pos 1 }

abbrev pub up_left : ℕ → ℕ → ℕ → Coords
up_left x y z = record { x = pos x +ℤ pos 1; y = pos y -ℤ pos 1; z = pos z }

abbrev pub left : ℕ → ℕ → ℕ → Coords
left x y z = record { x = pos x; y = pos y -ℤ pos 1; z = pos z +ℤ pos 1 }

abbrev pub up_right : ℕ → ℕ → ℕ → Coords
up_right x y z = record { x = pos x +ℤ pos 1; y = pos y; z = pos z -ℤ pos 1 }

abbrev pub right : ℕ → ℕ → ℕ → Coords
right x y z = record { x = pos x; y = pos y +ℤ pos 1; z = pos z -ℤ pos 1 }

pub down_right_cell :
    (x y z : ℕ) → next_cell (suc x + y + z + 1) (down_right (suc x) y z) ≡ some (suc (y + z), suc y)
down_right_cell x y z =
    ground (arith, sub_one x, add_one y, next_cell-at (suc x + y + z + 1) x (suc y) z)

pub down_left_cell :
    (x y z : ℕ) → next_cell (suc x + y + z + 1) (down_left (suc x) y z) ≡ some (suc (y + z), y)
down_left_cell x y z =
    ground (arith, sub_one x, add_one z, next_cell-at (suc x + y + z + 1) x y (suc z))

pub up_left_cell :
    (x y z : ℕ) → next_cell (x + suc y + z + 1) (up_left x (suc y) z) ≡ some (y + z, y)
up_left_cell x y z =
    ground (arith, add_one x, sub_one y, next_cell-at (x + suc y + z + 1) (suc x) y z)

pub left_cell :
    (x y z : ℕ) → next_cell (x + suc y + z + 1) (left x (suc y) z) ≡ some (suc (y + z), y)
left_cell x y z = ground (arith, sub_one y, add_one z, next_cell-at (x + suc y + z + 1) x y (suc z))

pub up_right_cell :
    (x y z : ℕ) → next_cell (x + y + suc z + 1) (up_right x y (suc z)) ≡ some (y + z, y)
up_right_cell x y z =
    ground (arith, add_one x, sub_one z, next_cell-at (x + y + suc z + 1) (suc x) y z)

pub right_cell :
    (x y z : ℕ) → next_cell (x + y + suc z + 1) (right x y (suc z)) ≡ some (suc (y + z), suc y)
right_cell x y z =
    ground (arith, add_one y, sub_one z, next_cell-at (x + y + suc z + 1) x (suc y) z)
