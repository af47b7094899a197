-- ===== src/Match/Shape.antt =====
-- gameservice/src/services/MatchService.ts: the layouts it makes are boards.
use yovi_es1c.Prelude.{
  ℕ, zero, suc, ◌≡◌, ◌↔◌, refl, sym, ap, inl, inr, ◌+◌, ◌-◌, ◌≤◌, ◌<◌, Bool, true, false, ◌&&◌,
  ◌||◌, ◌==◌, ==_iff, leb, ltb, Bool-cases, Option-cases, Option, some, none, List, [], ◌∷◌, ◌++◌,
  all, All, arith, take, drop, set, get_or, length,
}
use mathlib.Core.Path.{subst}
use yovi_es1c.Prelude.Text.{Text, join}
use yovi_es1c.Prelude.Words.{trim, is_empty}
use yovi_es1c.Board.Layout.{Symbol, char_of, slash, rows_of, empty_layout, set_cell}
use yovi_es1c.Board.Cells.{InRange}
use yovi_es1c.Board.Triangle.{IsCell, IsTriangle, IsBoard, empty_layout-IsBoard, set_cell-IsBoard}
use yovi_es1c.Match.Layouts.{
  is_cell, is_digit, number_of, are_rows, is_serialized_layout, build_empty_layout, put_char,
  set_layout_cell, Position, position_of, parse_lowered, parse_legacy_position, MatchMove, replay,
  latest_layout, latest_move, ordered_moves, resolve_current_layout, symbol_of,
  next_symbol_for_layout, normalize_returned_layout, Candidate, layout_object, text, nothing,
  first_layout,
}

is_cell_iff : (c : ℕ) → (is_cell c ≡ true) ↔ IsCell c
is_cell_iff c = ground arith

all_cells_iff : (r : Text) → (all is_cell r ≡ true) ↔ All IsCell r
all_cells_iff [] = (λ e. tt, λ h. refl)
all_cells_iff (c ∷ r) =
    let (to, from) = is_cell_iff c in
    let (to', from') = all_cells_iff r in
    (λ e. (to (left _ _ e), to' (right _ _ e)), λ (h, k). rw (from h, from' k))
  where
    left : (x y : Bool) → (x && y) ≡ true → x ≡ true
    left true y e = refl
    left false y e = absurd (let f : false ≡ true = e in cc)

    right : (x y : Bool) → (x && y) ≡ true → y ≡ true
    right true y e = e
    right false y e = absurd (let f : false ≡ true = e in cc)

are_rows_iff : (i : ℕ) (rows : List Text) → (are_rows i rows ≡ true) ↔ IsTriangle i rows
unfolding are_rows
are_rows_iff i [] = (λ e. tt, λ h. refl)
are_rows_iff i (r ∷ rows) =
    let cells = all_cells_iff r in
    let rest = are_rows_iff (suc i) rows in
    let len = ==_iff (length r) (suc i) in
    elim (Bool-cases (length r == suc i)) [
      | inl a ↦ elim (Bool-cases (all is_cell r)) [
        | inl b ↦ rw (a, b) (λ e. (len.0 a, cells.0 b, rest.0 e), λ (x, y, z). rest.1 z)
        | inr b ↦
            rw (a, b)
              (
                λ e. absurd (let f : false ≡ true = e in cc),
                λ (x, y, z). absurd (let f = cells.1 y in cc),
              )
      ]
      | inr a ↦ rw a (
        λ e. absurd (let f : false ≡ true = e in cc),
        λ (x, y, z). absurd (let f = len.1 x in cc),
      )
    ]

-- A text is taken for a layout of a size exactly when it is a board of that size: as many rows, row i
-- of i + 1 cells, and only free cells and stones.
pub is_serialized_layout_iff :
    (layout : Text) (size : ℕ) → (is_serialized_layout layout size ≡ true) ↔ IsBoard size layout
unfolding is_serialized_layout
is_serialized_layout_iff layout size =
    let rows = are_rows_iff 0 (rows_of layout) in
    let height = ==_iff (length (rows_of layout)) size in
    elim (Bool-cases (length (rows_of layout) == size)) [
      | inl a ↦
          rw a (λ e. record { height = height.0 a; triangle = rows.0 e }, λ b. rows.1 b.triangle)
      | inr a ↦ rw a (
        λ e. absurd (let f : false ≡ true = e in cc),
        λ b. absurd (let f = height.1 b.height in cc),
      )
    ]

put_char-eq : (xs : Text) (i c : ℕ) → put_char xs i c ≡ take i xs ++ (c ∷ drop (suc i) xs)
unfolding put_char
put_char-eq [] zero c = refl
put_char-eq [] (suc i) c = refl
put_char-eq (x ∷ xs) zero c = refl
put_char-eq (x ∷ xs) (suc i) c = ap (◌∷◌ x) (put_char-eq xs i c)

-- Both services write a cell alike: setLayoutCell is setCell of the online sessions, out of range too.
pub set_layout_cell-eq-set_cell :
    (layout : Text) (row col : ℕ) (s : Symbol)
    → set_layout_cell layout row col s ≡ set_cell layout row col s
unfolding set_layout_cell set_cell
set_layout_cell-eq-set_cell layout row col s =
    ap (λ r. join slash (set (rows_of layout) row r))
      (put_char-eq (get_or (rows_of layout) row []) col (char_of s))

row_length :
    (i row : ℕ) (rs : List Text)
    → IsTriangle i rs
    → row < length rs
    → length (get_or rs row []) ≡ suc (i + row)
row_length i row [] t h = absurd (omega arith)
row_length i zero (r ∷ rs) (l, a, t) h = omega (arith, l)
row_length i (suc row) (r ∷ rs) (l, a, t) h =
    omega (arith, row_length (suc i) row rs t (omega arith))

-- A position on or below the diagonal of a board.
pub record Inside (size : ℕ) (p : Position) : Type 0 where
  pub row_lt : p.row < size
  pub col_le : p.col ≤ p.row

Inside-InRange :
    (size : ℕ) (layout : Text) (p : Position)
    → IsBoard size layout
    → Inside size p
    → InRange layout p.row p.col
Inside-InRange size layout p b v =
    let h = b.height in
    let lt = v.row_lt in
    let le = v.col_le in
    record {
      row_lt = omega arith;
      col_lt = omega (arith, row_length 0 p.row (rows_of layout) b.triangle (omega arith));
    }

pub set_layout_cell-IsBoard :
    (size : ℕ) (layout : Text) (p : Position) (s : Symbol)
    → IsBoard size layout
    → Inside size p
    → IsBoard size (set_layout_cell layout p.row p.col s)
set_layout_cell-IsBoard size layout p s b v =
    subst (IsBoard size) (sym (set_layout_cell-eq-set_cell layout p.row p.col s))
      (set_cell-IsBoard size layout p.row p.col s b (Inside-InRange size layout p b v))

some_inj : {A : Type 0} {x y : A} → some x ≡ some y → x ≡ y
some_inj e = cc

position_of-Inside :
    (letter number size : ℕ) (p : Position)
    → position_of letter number size ≡ some p
    → Inside size p
unfolding position_of
position_of-Inside letter number size p e =
    elim (Bool-cases ((number == 0) || leb size (number - 1))) [
      | inl h ↦ absurd (let f : none ≡ some p = rw (h, position_of) at e in cc)
      | inr h ↦ elim (Bool-cases (ltb (number - 1) (letter - 97))) [
        | inl k ↦ absurd (let f : none ≡ some p = rw (h, k, position_of) at e in cc)
        | inr k ↦
            subst (Inside size) (some_inj (rw (h, k, position_of) at e))
              (record { row_lt = ground arith; col_le = ground arith })
      ]
    ]

parse_lowered-Inside :
    (s : Text) (size : ℕ) (p : Position) → parse_lowered s size ≡ some p → Inside size p
unfolding parse_lowered
parse_lowered-Inside [] size p e = absurd (let f : none ≡ some p = e in cc)
parse_lowered-Inside (letter ∷ digits) size p e =
    elim (Bool-cases
      ((leb 97 letter && leb letter 122) && (ltb 0 (length digits) && all is_digit digits))) [
        | inl h ↦ position_of-Inside letter (number_of 0 digits) size p (rw (h, parse_lowered) at e)
        | inr h ↦ absurd (let f : none ≡ some p = rw (h, parse_lowered) at e in cc)
      ]

-- A position that is read lies on the board.
pub parse_legacy_position-Inside :
    (position : Text) (size : ℕ) (p : Position)
    → parse_legacy_position position size ≡ some p
    → Inside size p
unfolding parse_legacy_position
parse_legacy_position-Inside position size p e = parse_lowered-Inside _ size p e

replay-IsBoard :
    (size : ℕ) (layout : Text) (moves : List MatchMove)
    → IsBoard size layout
    → IsBoard size (replay layout size moves)
unfolding replay
replay-IsBoard size layout [] b = b
replay-IsBoard size layout (m ∷ ms) b =
    elim (Option-cases (parse_legacy_position m.position_yen size)) [
      | inl e ↦ rw (e, replay) (replay-IsBoard size layout ms b)
      | inr (p, e) ↦
          rw (e, replay)
            (replay-IsBoard size (set_layout_cell layout p.row p.col (symbol_of m.player)) ms (
              set_layout_cell-IsBoard size layout p (symbol_of m.player) b
                (parse_legacy_position-Inside m.position_yen size p e)))
    ]

latest_layout-IsBoard :
    (move : Option MatchMove) (size : ℕ) (layout : Text)
    → latest_layout move size ≡ some layout
    → IsBoard size layout
unfolding latest_layout
latest_layout-IsBoard none size layout e = absurd (let f : none ≡ some layout = e in cc)
latest_layout-IsBoard (some m) size layout e = elim (Bool-cases (is_empty (trim m.position_yen))) [
  | inl h ↦ absurd (let f : none ≡ some layout = rw (h, latest_layout) at e in cc)
  | inr h ↦ elim (Bool-cases (is_serialized_layout (trim m.position_yen) size)) [
    | inl k ↦
        subst (IsBoard size) (some_inj (rw (h, k, latest_layout) at e))
          ((is_serialized_layout_iff (trim m.position_yen) size).0 k)
    | inr k ↦ absurd (let f : none ≡ some layout = rw (h, k, latest_layout) at e in cc)
  ]
]

build_empty_layout-IsBoard : (size : ℕ) → 0 < size → IsBoard size (build_empty_layout size)
unfolding build_empty_layout empty_layout
build_empty_layout-IsBoard size h = empty_layout-IsBoard size h

-- Whatever moves are stored, in the new or the old notation or neither, the current layout of a match is
-- a board of the match's size, when that is not zero.
pub resolve_current_layout-IsBoard :
    (size : ℕ) (moves : List MatchMove)
    → 0 < size
    → IsBoard size (resolve_current_layout size moves)
unfolding resolve_current_layout
resolve_current_layout-IsBoard size moves h =
    elim (Option-cases (latest_layout (latest_move (ordered_moves moves)) size)) [
      | inl e ↦
          rw (e, resolve_current_layout)
            (replay-IsBoard size _ (ordered_moves moves) (build_empty_layout-IsBoard size h))
      | inr (layout, e) ↦ rw (e, resolve_current_layout) (latest_layout-IsBoard _ size layout e)
    ]

-- What the bot service answers is taken only as a board.
normalize_returned_layout-IsBoard :
    (c : Candidate) (size : ℕ) (current layout : Text)
    → IsBoard size current
    → normalize_returned_layout c size current ≡ some layout
    → IsBoard size layout
unfolding normalize_returned_layout
normalize_returned_layout-IsBoard (layout_object none) size current layout b e =
    absurd (let f : none ≡ some layout = e in cc)
normalize_returned_layout-IsBoard (layout_object (some l)) size current layout b e =
    elim (Bool-cases (is_serialized_layout l size)) [
      | inl h ↦
          subst (IsBoard size) (some_inj (rw (h, normalize_returned_layout) at e))
            ((is_serialized_layout_iff l size).0 h)
      | inr h ↦ absurd (let f : none ≡ some layout = rw (h, normalize_returned_layout) at e in cc)
    ]
normalize_returned_layout-IsBoard (text l) size current layout b e =
    elim (Bool-cases (is_serialized_layout l size)) [
      | inl h ↦
          subst (IsBoard size) (some_inj (rw (h, normalize_returned_layout) at e))
            ((is_serialized_layout_iff l size).0 h)
      | inr h ↦ elim (Option-cases (parse_legacy_position l size)) [
        | inl k ↦
            absurd (let f : none ≡ some layout = rw (h, k, normalize_returned_layout) at e in cc)
        | inr (p, k) ↦ subst (IsBoard size) (some_inj (rw (h, k, normalize_returned_layout) at e)) (
            set_layout_cell-IsBoard size current p (next_symbol_for_layout current) b
              (parse_legacy_position-Inside l size p k))
      ]
    ]
normalize_returned_layout-IsBoard nothing size current layout b e =
    absurd (let f : none ≡ some layout = e in cc)

pub first_layout-IsBoard :
    (cs : List Candidate) (size : ℕ) (current layout : Text)
    → IsBoard size current
    → first_layout cs size current ≡ some layout
    → IsBoard size layout
unfolding first_layout
first_layout-IsBoard [] size current layout b e = absurd (let f : none ≡ some layout = e in cc)
first_layout-IsBoard (c ∷ cs) size current layout b e =
    elim (Option-cases (normalize_returned_layout c size current)) [
      | inl k ↦ first_layout-IsBoard cs size current layout b (rw (k, first_layout) at e)
      | inr (l, k) ↦ elim (Bool-cases (is_empty l)) [
        | inl h ↦ first_layout-IsBoard cs size current layout b (rw (k, h, first_layout) at e)
        | inr h ↦
            subst (IsBoard size) (some_inj (rw (k, h, first_layout) at e))
              (normalize_returned_layout-IsBoard c size current l b k)
      ]
    ]
