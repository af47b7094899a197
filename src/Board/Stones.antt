-- ===== src/Board/Stones.antt =====
-- Counting stones: a move on a free cell adds one, and recolouring keeps the number.
use yovi_es1c.Prelude.{
  ℕ, zero, suc, ◌+◌, ◌≡◌, refl, sym, ap, ◌∙◌, some, List, [], ◌∷◌, ◌++◌, arith, length, get_elem?,
  get_or, set, keep,
}
use yovi_es1c.Prelude.Text.{Text, join, join-split}
use yovi_es1c.Board.Layout.{
  Symbol, black, red, char_of, dot, slash, rows_of, cell_of_row, get_cell, set_cell, is_stone,
  count_stones, swap_layout,
}
use yovi_es1c.Board.Cells.{InRange-of_get_cell, rows_of-set_cell}

abbrev stones : Text → ℕ
stones t = length (keep is_stone t)

abbrev row_stones : List Text → ℕ
row_stones [] = 0
row_stones (r ∷ rs) = stones r + row_stones rs

stones-append : (a b : Text) → stones (a ++ b) ≡ stones a + stones b
stones-append [] b = omega arith
stones-append (c ∷ a) b = ground (arith, stones-append a b)

stones-join : (rs : List Text) → stones (join slash rs) ≡ row_stones rs
unfolding join
stones-join [] = refl
stones-join (r ∷ []) = omega arith
stones-join (r ∷ s ∷ rs) =
    omega (arith, stones-append r (slash ∷ join slash (s ∷ rs)), stones-join (s ∷ rs))

-- The stones of a layout are those of its rows.
count_stones-rows : (layout : Text) → count_stones layout ≡ row_stones (rows_of layout)
unfolding count_stones
count_stones-rows layout = ap stones (sym (join-split slash layout)) ∙ stones-join (rows_of layout)

stones-set :
    (r : Text) (i : ℕ) (s : Symbol)
    → get_elem? r i ≡ some dot
    → stones (set r i (char_of s)) ≡ stones r + 1
stones-set [] i s e = cc
stones-set (c ∷ r) zero black e = ground arith
stones-set (c ∷ r) zero red e = ground arith
stones-set (c ∷ r) (suc i) s e = ground (arith, stones-set r i s e)

row_stones-set :
    (rs : List Text) (i j : ℕ) (s : Symbol)
    → cell_of_row (get_elem? rs i) j ≡ some dot
    → row_stones (set rs i (set (get_or rs i []) j (char_of s))) ≡ row_stones rs + 1
row_stones-set [] i j s e = cc
row_stones-set (r ∷ rs) zero j s e = omega (arith, stones-set r j s e)
row_stones-set (r ∷ rs) (suc i) j s e = omega (arith, row_stones-set rs i j s e)

-- A stone put on a free cell makes one stone more.
pub count_stones-set_cell :
    (layout : Text) (row col : ℕ) (s : Symbol)
    → get_cell layout row col ≡ some dot
    → count_stones (set_cell layout row col s) ≡ count_stones layout + 1
unfolding get_cell
count_stones-set_cell layout row col s e =
    let v = InRange-of_get_cell layout row col dot (unfold get_cell in e) in
    omega (
      arith,
      count_stones-rows (set_cell layout row col s),
      count_stones-rows layout,
      ap row_stones (rows_of-set_cell layout row col s v),
      row_stones-set (rows_of layout) row col s e,
    )

-- Recolouring twice gives the layout back.
pub swap_layout-swap_layout : (layout : Text) → swap_layout (swap_layout layout) ≡ layout
unfolding swap_layout
swap_layout-swap_layout [] = refl
swap_layout-swap_layout (c ∷ t) = ground (arith, swap_layout-swap_layout t)

-- Recolouring keeps the number of stones.
pub count_stones-swap_layout :
    (layout : Text) → count_stones (swap_layout layout) ≡ count_stones layout
unfolding count_stones swap_layout
count_stones-swap_layout [] = refl
count_stones-swap_layout (c ∷ t) = ground (arith, count_stones-swap_layout t)
