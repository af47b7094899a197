-- ===== src/Board/Cells.antt =====
-- Reading, writing and counting the cells of a layout.
use yovi_es1c.Prelude.{
  refl, ◌∙◌, ℕ, zero, suc, ◌<◌, ◌≡◌, ap, ◌≢◌, ◌↔◌, inl, inr, true, false, ◌&&◌, ◌==◌, if◌then◌else◌,
  Bool-cases, some, List, [], ◌∷◌, arith, length, get_elem?, get_or, set, All, All-set, All-get_or,
  length-set, get_elem?-set_self, get_elem?-set_ne, get_elem?-eq-get_or, take-drop-set,
}
use yovi_es1c.Prelude.Text.{Text, Without, split-Without, split-join}
use yovi_es1c.Prelude.Int.{ℤ, pos, negsuc}
use yovi_es1c.Rules.{MatchRules}
use yovi_es1c.Board.Layout.{
  MoveCommand, Symbol, black, red, char_of, dot, slash, rows_of, cell_of_row, get_cell, set_cell,
  is_honey_blocked, is_move_valid,
}

-- The position lies on a row of the layout.
pub record InRange (layout : Text) (row col : ℕ) : Type 0 where
  pub row_lt : row < length (rows_of layout)
  pub col_lt : col < length (get_or (rows_of layout) row [])

char-ne-slash : (s : Symbol) → char_of s ≢ slash
char-ne-slash black = omega arith
char-ne-slash red = omega arith

-- The written rows.
abbrev put : List Text → ℕ → ℕ → ℕ → List Text
put rows row col c = set rows row (set (get_or rows row []) col c)

put-ne-nil : (rows : List Text) (row col c : ℕ) → row < length rows → put rows row col c ≢ []
put-ne-nil rows row col c h e =
    absurd (omega (arith, ap length e, length-set rows row (set (get_or rows row []) col c)))

put-Without :
    (rows : List Text) (row col : ℕ) (s : Symbol)
    → All (Without slash) rows
    → All (Without slash) (put rows row col (char_of s))
put-Without rows row col s h = All-set (Without slash) rows row _ h (
    All-set (λ c. c ≢ slash) _ col (char_of s) (All-get_or (Without slash) rows row [] h tt)
      (char-ne-slash s))

-- The rows after a write are the old rows with one cell replaced.
pub rows_of-set_cell :
    (layout : Text) (row col : ℕ) (s : Symbol)
    → InRange layout row col
    → rows_of (set_cell layout row col s) ≡ put (rows_of layout) row col (char_of s)
unfolding set_cell
rows_of-set_cell layout row col s v =
    rw (take-drop-set (get_or (rows_of layout) row []) col (char_of s) v.col_lt) (
      split-join slash _ (put-ne-nil (rows_of layout) row col (char_of s) v.row_lt)
        (put-Without (rows_of layout) row col s (split-Without slash layout)))

cell_of_row-put :
    (rows : List Text) (row col c row' col' : ℕ)
    → row < length rows
    → col < length (get_or rows row [])
    → cell_of_row (get_elem? (put rows row col c) row') col'
      ≡ (if (row == row') && (col == col') then some c else cell_of_row (get_elem? rows row') col')
cell_of_row-put rows row col c row' col' h k = elim (Bool-cases (row == row')) [
  | inl same ↦ ground (
    arith,
    same,
    get_elem?-set_self rows row (set (get_or rows row []) col c) h,
    get_elem?-eq-get_or rows row [] h,
    get_elem?-set_self (get_or rows row []) col c k,
    get_elem?-set_ne (get_or rows row []) col col' c,
  )
  | inr other ↦
      ground (arith, other, get_elem?-set_ne rows row row' (set (get_or rows row []) col c))
]

-- After a write in range, the written cell holds the symbol and every other cell is as before.
pub get_cell-set_cell :
    (layout : Text) (row col : ℕ) (s : Symbol) (row' col' : ℕ)
    → InRange layout row col
    → get_cell (set_cell layout row col s) row' col'
      ≡ (if (row == row') && (col == col') then some (char_of s) else get_cell layout row' col')
unfolding get_cell
get_cell-set_cell layout row col s row' col' v =
    rw (rows_of-set_cell layout row col s v)
      (cell_of_row-put (rows_of layout) row col (char_of s) row' col' v.row_lt v.col_lt)

-- A cell that can be read is in range.
pub InRange-of_get_cell :
    (layout : Text) (row col : ℕ) (c : ℕ)
    → get_cell layout row col ≡ some c
    → InRange layout row col
unfolding get_cell
InRange-of_get_cell layout row col c e = record {
  row_lt = row_lt (rows_of layout) row e;
  col_lt = col_lt (rows_of layout) row e;
}
  where
    elem_lt : (xs : Text) (i : ℕ) → get_elem? xs i ≡ some c → i < length xs
    elem_lt [] i e = cc
    elem_lt (x ∷ xs) zero e = omega arith
    elem_lt (x ∷ xs) (suc i) e = omega (arith, elem_lt xs i e)

    row_lt :
        (rows : List Text) (i : ℕ) → cell_of_row (get_elem? rows i) col ≡ some c → i < length rows
    row_lt [] i e = cc
    row_lt (x ∷ xs) zero e = omega arith
    row_lt (x ∷ xs) (suc i) e = omega (arith, row_lt xs i e)

    col_lt :
        (rows : List Text) (i : ℕ)
        → cell_of_row (get_elem? rows i) col ≡ some c
        → col < length (get_or rows i [])
    col_lt [] i e = cc
    col_lt (x ∷ xs) zero e = elem_lt x col e
    col_lt (x ∷ xs) (suc i) e = col_lt xs i e

-- The same at a position that is not negative.
pub natural_valid_iff :
    (layout : Text) (rules : MatchRules) (row col : ℕ)
    → (is_move_valid layout rules (record { row = pos row; col = pos col }) ≡ true)
      ↔ ((get_cell layout row col ≡ some dot) × (is_honey_blocked rules row col ≡ false))
unfolding is_move_valid
natural_valid_iff layout rules row col =
    (λ h. ground arith, λ h. ground (arith, InRange-of_get_cell layout row col dot h.0))

-- The cell of a valid move.
valid_cell :
    (layout : Text) (rules : MatchRules) (r c : ℤ)
    → is_move_valid layout rules (record { row = r; col = c }) ≡ true
    → (row : ℕ) × (col : ℕ) × (◌≡◌ {A = MoveCommand}
        (record { row = r; col = c })
        (record { row = pos row; col = pos col }))
      × (get_cell layout row col ≡ some dot)
      × (is_honey_blocked rules row col ≡ false)
unfolding is_move_valid
valid_cell layout rules (pos r) (pos c) h =
    let (cell, free) = (natural_valid_iff layout rules r c).0 h in (r, c, refl, cell, free)
valid_cell layout rules (negsuc r) c h = absurd (ground arith)
valid_cell layout rules (pos r) (negsuc c) h = absurd (ground arith)

-- A move, at any two integers, is valid exactly when they are a row and a column that are not
-- negative, the layout holds `.` there, and the rules do not block the cell.
pub is_move_valid_iff :
    (layout : Text) (rules : MatchRules) (move : MoveCommand)
    → (is_move_valid layout rules move ≡ true) ↔ (
        (row : ℕ) × (col : ℕ) × (move ≡ record { row = pos row; col = pos col })
        × (get_cell layout row col ≡ some dot)
        × (is_honey_blocked rules row col ≡ false))
is_move_valid_iff layout rules move = (
  valid_cell layout rules move.row move.col,
  λ (row, col, e, cell, free).
      ap (is_move_valid layout rules) e ∙ (natural_valid_iff layout rules row col).1 (cell, free),
)
