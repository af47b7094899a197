-- ===== src/Board/Winner/Sides.antt =====
-- The three sides of the board, and the tests by which checkWinner flags them.
use yovi_es1c.Prelude.{ℕ, ◌+◌, ◌≡◌, true, arith}
use yovi_es1c.Prelude.Int.{pos, eq_ℤ}
use yovi_es1c.Board.Coords.{Cell, coords_from_row_col}
use yovi_es1c.Board.Winner.Adjacency.{OnBoard, coords-at}

-- The side that a flag stands for.
abbrev pub OnA : ℕ → Cell → Type 0
OnA size p = p.0 + 1 ≡ size

abbrev pub OnB : Cell → Type 0
OnB p = p.1 ≡ 0

abbrev pub OnC : Cell → Type 0
OnC p = p.0 ≡ p.1

-- On the board the three flag tests say which sides the cell lies on.
module _ (size row col : ℕ) (h : OnBoard size (row, col)) where
  pub x_test : (eq_ℤ (coords_from_row_col row col size).x (pos 0) ≡ true) → OnA size (row, col)
  x_test e = ground (arith, coords-at size row col h)

  pub x_test_iff : OnA size (row, col) → eq_ℤ (coords_from_row_col row col size).x (pos 0) ≡ true
  x_test_iff e = ground (arith, coords-at size row col h)

  pub y_test : (eq_ℤ (coords_from_row_col row col size).y (pos 0) ≡ true) → OnB (row, col)
  y_test e = ground (arith, coords-at size row col h)

  pub y_test_iff : OnB (row, col) → eq_ℤ (coords_from_row_col row col size).y (pos 0) ≡ true
  y_test_iff e = ground (arith, coords-at size row col h)

  pub z_test : (eq_ℤ (coords_from_row_col row col size).z (pos 0) ≡ true) → OnC (row, col)
  z_test e = ground (arith, coords-at size row col h)

  pub z_test_iff : OnC (row, col) → eq_ℤ (coords_from_row_col row col size).z (pos 0) ≡ true
  z_test_iff e = ground (arith, coords-at size row col h)
