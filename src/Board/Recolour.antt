-- ===== src/Board/Recolour.antt =====
-- Boards without a winner: the empty board, and a recoloured board whose colours have not won.
use mathlib.Core.Option
use yovi_es1c.Prelude.{
  ℕ, zero, suc, ◌≡◌, refl, sym, ◌∙◌, false, Option, none, some, List, [], ◌∷◌, map, arith,
  get_elem?, replicate, ◌<◌,
}
use yovi_es1c.Prelude.Text.{Text}
use yovi_es1c.Board.Layout.{
  Symbol, black, red, char_of, dot, rows_of, dot_rows, empty_layout, cell_of_row, get_cell,
  swap_char, swap_layout,
}
use yovi_es1c.Board.Coords.{Cell}
use yovi_es1c.Board.Triangle.{rows_of-empty_layout, rows_of-swap_layout}
use yovi_es1c.Board.Winner.{is_char, has_symbol, resolve_winner}
use yovi_es1c.Board.Winner.Connection.{Stone, Linked, here, step, Wins}
use yovi_es1c.Board.Winner.Search.{resolve_winner_iff}

abbrev pub flip : Symbol → Symbol
flip black = red
flip red = black

get_elem?-map :
    (f : ℕ → ℕ) (r : Text) (i : ℕ) → get_elem? (map f r) i ≡ Option.map f (get_elem? r i)
get_elem?-map f [] i = refl
get_elem?-map f (c ∷ r) zero = refl
get_elem?-map f (c ∷ r) (suc i) = get_elem?-map f r i

cell_of_row-map :
    (f : ℕ → ℕ) (rs : List Text) (row col : ℕ)
    → cell_of_row (get_elem? (map (map f) rs) row) col
      ≡ Option.map f (cell_of_row (get_elem? rs row) col)
cell_of_row-map f [] row col = refl
cell_of_row-map f (r ∷ rs) zero col = get_elem?-map f r col
cell_of_row-map f (r ∷ rs) (suc row) col = cell_of_row-map f rs row col

-- Every cell of a recoloured layout is the recoloured cell.
pub get_cell-swap_layout :
    (layout : Text) (row col : ℕ)
    → get_cell (swap_layout layout) row col ≡ Option.map swap_char (get_cell layout row col)
unfolding get_cell
get_cell-swap_layout layout row col =
    rw (rows_of-swap_layout layout) (cell_of_row-map swap_char (rows_of layout) row col)

is_char-swap :
    (s : Symbol) (o : Option ℕ)
    → is_char (char_of s) (Option.map swap_char o) ≡ is_char (char_of (flip s)) o
is_char-swap s none = refl
is_char-swap black (some c) = ground arith
is_char-swap red (some c) = ground arith

has_symbol-swap_layout :
    (layout : Text) (s : Symbol) (p : Cell)
    → has_symbol (swap_layout layout) s p ≡ has_symbol layout (flip s) p
unfolding has_symbol
has_symbol-swap_layout layout s (row, col) =
    rw (get_cell-swap_layout layout row col) (is_char-swap s (get_cell layout row col))

Stone-swap :
    (layout : Text) (size : ℕ) (s : Symbol) (p : Cell)
    → Stone (swap_layout layout) size s p
    → Stone layout size (flip s) p
Stone-swap layout size s p (o, e) = (o, sym (has_symbol-swap_layout layout s p) ∙ e)

module _ {layout : Text} {size : ℕ} {s : Symbol} where
  Linked-swap :
      {p q : Cell} → Linked (swap_layout layout) size s p q → Linked layout size (flip s) p q
  Linked-swap here = here
  Linked-swap (step {r} l a t) = step (Linked-swap l) a (Stone-swap layout size s r t)

  -- A colour that wins on the recoloured board has won with the other colour before.
  pub Wins-swap : Wins (swap_layout layout) size s → Wins layout size (flip s)
  Wins-swap w = record {
    start = w.start;
    stone = Stone-swap layout size s w.start w.stone;
    touches = record {
      a = w.touches.a;
      b = w.touches.b;
      c = w.touches.c;
      to_a = Linked-swap w.touches.to_a;
      to_b = Linked-swap w.touches.to_b;
      to_c = Linked-swap w.touches.to_c;
      last_row = w.touches.last_row;
      first_col = w.touches.first_col;
      diagonal = w.touches.diagonal;
    };
  }

-- Recolouring a board that nobody has won gives a board that nobody has won.
pub resolve_winner-swap_layout :
    (layout : Text) (size : ℕ)
    → resolve_winner layout size ≡ none
    → resolve_winner (swap_layout layout) size ≡ none
resolve_winner-swap_layout layout size h =
    let (b, r) = (resolve_winner_iff layout size).2.0 h in
    (resolve_winner_iff (swap_layout layout) size).2.1 (λ w. r (Wins-swap w), λ w. b (Wins-swap w))

dots_no_char :
    (s : Symbol) (n col : ℕ) → is_char (char_of s) (get_elem? (replicate n dot) col) ≡ false
dots_no_char s zero col = refl
dots_no_char black (suc n) zero = refl
dots_no_char red (suc n) zero = refl
dots_no_char s (suc n) (suc col) = dots_no_char s n col

dot_rows_no_char :
    (s : Symbol) (i n row col : ℕ)
    → is_char (char_of s) (cell_of_row (get_elem? (dot_rows i n) row) col) ≡ false
unfolding dot_rows
dot_rows_no_char s i zero row col = refl
dot_rows_no_char s i (suc n) zero col = dots_no_char s (suc i) col
dot_rows_no_char s i (suc n) (suc row) col = dot_rows_no_char s (suc i) n row col

empty_no_symbol :
    (size : ℕ) (s : Symbol) (p : Cell) → 0 < size → has_symbol (empty_layout size) s p ≡ false
unfolding has_symbol get_cell
empty_no_symbol size s (row, col) h =
    rw (rows_of-empty_layout size h) (dot_rows_no_char s 0 size row col)

not-Wins-empty : (size : ℕ) (s : Symbol) → 0 < size → ¬ Wins (empty_layout size) size s
not-Wins-empty size s h w = let e = empty_no_symbol size s w.start h in let f = w.stone.1 in cc

-- Nobody has won on the empty board.
pub resolve_winner-empty_layout :
    (size : ℕ) → 0 < size → resolve_winner (empty_layout size) size ≡ none
resolve_winner-empty_layout size h =
    (resolve_winner_iff (empty_layout size) size).2.1
      (not-Wins-empty size black h, not-Wins-empty size red h)
