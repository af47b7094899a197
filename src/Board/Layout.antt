-- ===== src/Board/Layout.antt =====
-- Layout text: getCell, setCell, countStones, isHoneyBlocked, isMoveValid, the empty layout of
-- createSession and the swapped layout of buildPieSwapState (OnlineSessionService.ts).
use yovi_es1c.Prelude.{
  ℕ, zero, suc, Bool, false, not, ◌&&◌, ◌||◌, ◌==◌, if◌then◌else◌, Option, none, some, List, [],
  ◌∷◌, ◌++◌, map, length, get_elem?, get_or, set, take, drop, replicate, keep, any,
}
use yovi_es1c.Prelude.Text.{Text, split, join}
use yovi_es1c.Prelude.Int.{ℤ, pos, pos_part, ltb_ℤ, leb_ℤ}
use yovi_es1c.Rules.{MatchRules}

pub data Symbol : Type 0 where
  black red : Symbol

abbrev pub dot : ℕ
dot = b'.'

abbrev pub slash : ℕ
slash = b'/'

-- The character of a symbol.
abbrev pub char_of : Symbol → ℕ
char_of black = b'B'
char_of red = b'R'

-- `layout.split('/')`.
abbrev pub rows_of : Text → List Text
rows_of layout = split slash layout

unfoldable pub dot_rows : ℕ → ℕ → List Text
dot_rows idx zero = []
dot_rows idx (suc n) = replicate (suc idx) dot ∷ dot_rows (suc idx) n

-- `Array.from({ length: size }, (_, idx) => '.'.repeat(idx + 1)).join('/')`.
unfoldable pub empty_layout : ℕ → Text
unfolding dot_rows join
empty_layout size = join slash (dot_rows 0 size)

abbrev pub cell_of_row : Option Text → ℕ → Option ℕ
cell_of_row none col = none
cell_of_row (some row) col = get_elem? row col

-- `rows[row]?.[col] ?? ''`; `none` is the empty text.
unfoldable pub get_cell : Text → ℕ → ℕ → Option ℕ
get_cell layout row col = cell_of_row (get_elem? (rows_of layout) row) col

-- The callers have checked the position; the source throws at a row that is not there, the model
-- leaves the layout as it was.
unfoldable pub set_cell : Text → ℕ → ℕ → Symbol → Text
set_cell layout row col symbol =
    let rows = rows_of layout in
    let target = get_or rows row [] in
    join slash (set rows row (take col target ++ (char_of symbol ∷ drop (suc col) target)))

abbrev pub is_stone : ℕ → Bool
is_stone cell = (cell == b'B') || (cell == b'R')

unfoldable pub count_stones : Text → ℕ
count_stones layout = length (keep is_stone layout)

unfoldable pub is_honey_blocked : MatchRules → ℕ → ℕ → Bool
is_honey_blocked rules row col =
    if not rules.honey.enabled
    then false
    else any (λ cell. (cell.row == row) && (cell.col == col)) rules.honey.blocked_cells

-- A requested position; JavaScript numbers may be negative.
pub record MoveCommand : Type 0 where
  pub row : ℤ
  pub col : ℤ

abbrev pub is_dot : Option ℕ → Bool
is_dot none = false
is_dot (some c) = c == dot

unfoldable pub is_move_valid : Text → MatchRules → MoveCommand → Bool
unfolding get_cell is_honey_blocked
is_move_valid layout rules move =
    let rows = rows_of layout in
    let row = pos_part move.row in
    let col = pos_part move.col in
    if ltb_ℤ move.row (pos 0) || leb_ℤ (pos (length rows)) move.row
    then false
    else if ltb_ℤ move.col (pos 0) || leb_ℤ (pos (length (get_or rows row []))) move.col
    then false
    else if is_honey_blocked rules row col
    then false
    else is_dot (get_cell layout row col)

-- `symbol === 'B' ? 'R' : 'B'` under the pattern /[BR]/g.
abbrev pub swap_char : ℕ → ℕ
swap_char c = if c == b'B' then b'R' else if c == b'R' then b'B' else c

unfoldable pub swap_layout : Text → Text
swap_layout layout = map swap_char layout
