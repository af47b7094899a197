-- ===== src/Match/Layouts.antt =====
-- The private methods of gameservice/src/services/MatchService.ts on layouts and positions.
use yovi_es1c.Prelude.{
  ℕ, zero, suc, ◌+◌, ◌-◌, ◌*◌, ◌%◌, Bool, true, ◌&&◌, ◌||◌, ◌==◌, leb, ltb, if◌then◌else◌, Option,
  none, some, List, [], ◌∷◌, map, length, get_elem?, get_or, set, keep, all,
}
use yovi_es1c.Prelude.Text.{Text, join}
use yovi_es1c.Prelude.Words.{trim, is_empty}
use yovi_es1c.Board.Layout.{
  Symbol, black, red, char_of, dot, slash, rows_of, dot_rows, cell_of_row, is_stone,
}

pub data Player : Type 0 where
  user bot : Player

pub record MatchMove : Type 0 where
  pub position_yen : Text
  pub player : Player
  pub move_number : ℕ

unfoldable pub build_empty_layout : ℕ → Text
build_empty_layout board_size = join slash (dot_rows 0 board_size)

-- `/^[BR.]+$/`.
abbrev pub is_cell : ℕ → Bool
is_cell c = (c == b'B') || (c == b'R') || (c == dot)

-- `rows.every`, from the row of an index on.
unfoldable pub are_rows : ℕ → List Text → Bool
are_rows i [] = true
are_rows i (row ∷ rows) = (length row == suc i) && all is_cell row && are_rows (suc i) rows

unfoldable pub is_serialized_layout : Text → ℕ → Bool
is_serialized_layout position board_size =
    let rows = rows_of position in (length rows == board_size) && are_rows 0 rows

-- `toLowerCase`, as far as a result of it is one of the letters a to z: the capitals and the Kelvin
-- sign.
abbrev pub lower : ℕ → ℕ
lower c = if leb b'A' c && leb c b'Z' then c + 32 else if c == 8490 then b'k' else c

abbrev pub is_digit : ℕ → Bool
is_digit c = leb b'0' c && leb c b'9'

-- `Number` of a text of digits.
unfoldable pub number_of : ℕ → Text → ℕ
number_of n [] = n
number_of n (c ∷ s) = number_of (n * 10 + (c - b'0')) s

pub record Position : Type 0 where
  pub row : ℕ
  pub col : ℕ

-- The position of a column letter and a row number that starts at one.
unfoldable pub position_of : ℕ → ℕ → ℕ → Option Position
position_of letter number board_size =
    let col = letter - 97 in
    let row = number - 1 in
    if (number == 0) || leb board_size row
    then none
    else if ltb row col
    then none
    else some (record { row = row; col = col })

-- `/^([a-z])(\d+)$/`.
unfoldable pub parse_lowered : Text → ℕ → Option Position
parse_lowered [] board_size = none
parse_lowered (letter ∷ digits) board_size =
    if (leb 97 letter && leb letter 122) && (ltb 0 (length digits) && all is_digit digits)
    then position_of letter (number_of 0 digits) board_size
    else none

unfoldable pub parse_legacy_position : Text → ℕ → Option Position
parse_legacy_position position board_size = parse_lowered (map lower (trim position)) board_size

-- `chars[col] = symbol` and `join('')`: past the end the symbol is appended.
unfoldable pub put_char : Text → ℕ → ℕ → Text
put_char [] col c = c ∷ []
put_char (x ∷ xs) zero c = c ∷ xs
put_char (x ∷ xs) (suc col) c = x ∷ put_char xs col c

-- The rows that are written to are there.
unfoldable pub set_layout_cell : Text → ℕ → ℕ → Symbol → Text
set_layout_cell layout row col symbol =
    let rows = rows_of layout in
    join slash (set rows row (put_char (get_or rows row []) col (char_of symbol)))

unfoldable pub count_stones : Text → ℕ
count_stones layout = length (keep is_stone layout)

unfoldable pub next_symbol_for_layout : Text → Symbol
next_symbol_for_layout layout = if count_stones layout % 2 == 0 then black else red

-- `left.move_number - right.move_number`, a stable sort.
unfoldable pub place_move : MatchMove → List MatchMove → List MatchMove
place_move move [] = move ∷ []
place_move move (m ∷ ms) =
    let rest = place_move move ms in
    if leb move.move_number m.move_number then move ∷ m ∷ ms else m ∷ rest

unfoldable pub ordered_moves : List MatchMove → List MatchMove
ordered_moves [] = []
ordered_moves (m ∷ ms) = place_move m (ordered_moves ms)

unfoldable pub latest_move : List MatchMove → Option MatchMove
latest_move [] = none
latest_move (m ∷ []) = some m
latest_move (m ∷ n ∷ ms) = latest_move (n ∷ ms)

abbrev pub symbol_of : Player → Symbol
symbol_of user = black
symbol_of bot = red

-- The loop over the moves in the old notation.
unfoldable pub replay : Text → ℕ → List MatchMove → Text
replay layout board_size [] = layout
replay layout board_size (move ∷ moves) =
    elim (parse_legacy_position move.position_yen board_size) [
      | none ↦ replay layout board_size moves
      | some p ↦
          replay (set_layout_cell layout p.row p.col (symbol_of move.player)) board_size moves
    ]

-- `latestPosition && isSerializedLayout(latestPosition, boardSize)`.
unfoldable pub latest_layout : Option MatchMove → ℕ → Option Text
latest_layout none board_size = none
latest_layout (some move) board_size =
    let position = trim move.position_yen in
    if is_empty position
    then none
    else if is_serialized_layout position board_size
    then some position
    else none

unfoldable pub resolve_current_layout : ℕ → List MatchMove → Text
resolve_current_layout board_size moves =
    let ordered = ordered_moves moves in
    elim (latest_layout (latest_move ordered) board_size) [
      | none ↦ replay (build_empty_layout board_size) board_size ordered
      | some layout ↦ layout
    ]

-- The inner loop of pickFallbackLayout: the first free column from `col` on among `n`.
unfoldable pub free_col : Option Text → ℕ → ℕ → Option ℕ
free_col row col zero = none
free_col row col (suc n) =
    let rest = free_col row (suc col) n in
    elim (cell_of_row row col) [ none ↦ rest | some c ↦ if c == dot then some col else rest ]

-- The outer loop: the first free cell from `row` on among `n` rows.
unfoldable pub free_cell : List Text → ℕ → ℕ → Option Position
free_cell rows row zero = none
free_cell rows row (suc n) =
    let rest = free_cell rows (suc row) n in
    elim (free_col (get_elem? rows row) 0 (suc row)) [
      | none ↦ rest
      | some col ↦ some (record { row = row; col = col })
    ]

unfoldable pub pick_fallback_layout : ℕ → Text → Option Text
pick_fallback_layout board_size current = elim (free_cell (rows_of current) 0 board_size) [
  | none ↦ none
  | some p ↦ some (set_layout_cell current p.row p.col (next_symbol_for_layout current))
]

-- A part of the bot's answer: an object, with its `layout` when that is a text, a text, or neither.
pub data Candidate : Type 0 where
  layout_object : Option Text → Candidate
  text : Text → Candidate
  nothing : Candidate

unfoldable pub normalize_returned_layout : Candidate → ℕ → Text → Option Text
normalize_returned_layout (layout_object none) board_size current = none
normalize_returned_layout (layout_object (some layout)) board_size current =
    if is_serialized_layout layout board_size then some layout else none
normalize_returned_layout (text candidate) board_size current =
    if is_serialized_layout candidate board_size
    then some candidate
    else elim (parse_legacy_position candidate board_size) [
      | none ↦ none
      | some p ↦ some (set_layout_cell current p.row p.col (next_symbol_for_layout current))
    ]
normalize_returned_layout nothing board_size current = none

pub record BotPlayResponse : Type 0 where
  pub position : Candidate
  pub position_yen : Candidate
  pub move : Candidate

unfoldable pub first_layout : List Candidate → ℕ → Text → Option Text
first_layout [] board_size current = none
first_layout (c ∷ cs) board_size current =
    let rest = first_layout cs board_size current in
    elim (normalize_returned_layout c board_size current) [
      | none ↦ rest
      | some layout ↦ if is_empty layout then rest else some layout
    ]

unfoldable pub extract_layout_from_bot_payload : BotPlayResponse → ℕ → Text → Option Text
extract_layout_from_bot_payload payload board_size current =
    first_layout (payload.position ∷ payload.position_yen ∷ payload.move ∷ []) board_size current

-- `rows[rowIndex]?.[colIndex] ?? '.'` on and below the diagonal, `.` elsewhere.
abbrev pub board_cell : Option ℕ → ℕ
board_cell none = dot
board_cell (some c) = c

unfoldable pub board_row : Option Text → ℕ → ℕ → ℕ → List ℕ
board_row cells row col zero = []
board_row cells row col (suc n) =
    (if leb col row then board_cell (cell_of_row cells col) else dot)
    ∷ board_row cells row (suc col) n

unfoldable pub board_rows : List Text → ℕ → ℕ → ℕ → List (List ℕ)
board_rows rows board_size row zero = []
board_rows rows board_size row (suc n) =
    board_row (get_elem? rows row) row 0 board_size ∷ board_rows rows board_size (suc row) n

unfoldable pub build_board : ℕ → Text → List (List ℕ)
build_board board_size layout = board_rows (rows_of layout) board_size 0 board_size
