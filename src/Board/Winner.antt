-- ===== src/Board/Winner.antt =====
-- checkWinner and resolveWinner (OnlineSessionService.ts): a breadth-first search from each
-- unvisited stone. The sets of keys `row-col` are lists of cells; the queue has its front at the head.
pub mod Adjacency
pub mod Neighbors
pub mod Connection
pub mod Visits
pub mod Sides
pub mod Explore
pub mod Search
use package.yovi_es1c.Prelude.{
  ℕ, zero, suc, ◌+◌, Bool, true, false, not, ◌&&◌, ◌||◌, ◌==◌, if◌then◌else◌, Option, none, some,
  List, [], ◌∷◌, ◌++◌, length,
}
use package.yovi_es1c.Prelude.Text.{Text}
use package.yovi_es1c.Prelude.Int.{pos, eq_ℤ}
use package.yovi_es1c.Board.Layout.{Symbol, black, red, char_of, get_cell}
use package.yovi_es1c.Board.Coords.{Cell, Coords, coords_from_row_col, neighbors_of, next_cell}

abbrev pub cell_eq : Cell → Cell → Bool
cell_eq p q = (p.0 == q.0) && (p.1 == q.1)

-- `visited.has(key)`.
unfoldable pub has : List Cell → Cell → Bool
has [] p = false
has (q ∷ qs) p = cell_eq q p || has qs p

abbrev pub is_char : ℕ → Option ℕ → Bool
is_char c none = false
is_char c (some d) = d == c

-- `rows[row]?.[col] === symbol`.
unfoldable pub has_symbol : Text → Symbol → Cell → Bool
has_symbol layout symbol (row, col) = is_char (char_of symbol) (get_cell layout row col)

pub row_cells : ℕ → ℕ → List Cell
row_cells row zero = []
row_cells row (suc n) = row_cells row n ++ (row, n) ∷ []

-- The cells in the order of the two `for` loops.
unfoldable pub cells_of : ℕ → List Cell
unfolding row_cells
cells_of zero = []
cells_of (suc row) = cells_of row ++ row_cells row (suc row)

-- The queue and the visited set.
pub record Frontier : Type 0 where
  pub queue : List Cell
  pub visited : List Cell

-- touchesA, touchesB and touchesC.
pub record Touches : Type 0 where
  pub a : Bool
  pub b : Bool
  pub c : Bool

pub record Outcome : Type 0 where
  pub won : Bool
  pub visited : List Cell

abbrev pub untouched : Touches
untouched = record { a = false; b = false; c = false }

abbrev pub touches_all : Touches → Bool
touches_all t = t.a && t.b && t.c

module _ (layout : Text) (size : ℕ) (symbol : Symbol) where
  -- The last two guards of the loop over the neighbours, and the push.
  unfoldable pub push_cell : Option Cell → Frontier → Frontier
  push_cell none f = f
  push_cell (some p) f =
      if has f.visited p
      then f
      else if not (has_symbol layout symbol p)
      then f
      else record { queue = f.queue ++ p ∷ []; visited = p ∷ f.visited }

  unfoldable pub push_neighbors : List Coords → Frontier → Frontier
  unfolding push_cell
  push_neighbors [] f = f
  push_neighbors (n ∷ ns) f = push_neighbors ns (push_cell (next_cell size n) f)

  -- The flags after the cell at `coords` is taken from the queue.
  unfoldable pub touch : Coords → Touches → Touches
  touch coords t = record {
    a = eq_ℤ coords.x (pos 0) || t.a;
    b = eq_ℤ coords.y (pos 0) || t.b;
    c = eq_ℤ coords.z (pos 0) || t.c;
  }

  -- The `while` loop. Each round takes one cell, and each cell is queued once, so one round for
  -- each cell of the board is enough; `won = false` with no fuel left is not reached.
  unfoldable pub explore : ℕ → List Cell → List Cell → Touches → Outcome
  unfolding push_neighbors touch
  explore zero queue visited t = record { won = false; visited = visited }
  explore (suc fuel) [] visited t = record { won = false; visited = visited }
  explore (suc fuel) ((row, col) ∷ queue) visited t =
      let coords = coords_from_row_col row col size in
      let t' = touch coords t in
      let f = push_neighbors (neighbors_of coords) (record { queue = queue; visited = visited }) in
      let rest = explore fuel f.queue f.visited t' in
      if touches_all t' then record { won = true; visited = visited } else rest

  -- The two `for` loops over the cells.
  unfoldable pub scan : List Cell → List Cell → Bool
  scan [] visited = false
  scan (p ∷ ps) visited =
      let skip = scan ps visited in
      let run = explore (suc (length (cells_of size))) (p ∷ []) (p ∷ visited) untouched in
      let rest = scan ps run.visited in
      if not (has_symbol layout symbol p)
      then skip
      else if has visited p
      then skip
      else if run.won
      then true
      else rest

unfoldable pub check_winner : Text → ℕ → Symbol → Bool
check_winner layout size symbol = scan layout size symbol (cells_of size) []

unfoldable pub resolve_winner : Text → ℕ → Option Symbol
resolve_winner layout size =
    if check_winner layout size black
    then some black
    else if check_winner layout size red
    then some red
    else none
