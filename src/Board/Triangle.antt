-- ===== src/Board/Triangle.antt =====
-- The shape of a board: `size` rows, row i of i + 1 cells. Moves and recolouring keep it.
use yovi_es1c.Prelude.{
  ℕ, zero, suc, ◌<◌, ◌≡◌, refl, ap, ◌∙◌, ◌⊎◌, inl, inr, List, [], ◌∷◌, map, arith, length, get_or,
  set, replicate, All, All-set, length-set,
}
use yovi_es1c.Prelude.Text.{Text, Without, split, push_head, split-join}
use yovi_es1c.Board.Layout.{
  Symbol, black, red, char_of, dot, slash, rows_of, dot_rows, empty_layout, set_cell, swap_char,
  swap_layout,
}
use yovi_es1c.Board.Cells.{InRange, rows_of-set_cell}

-- A cell is free or holds a stone.
abbrev pub IsCell : ℕ → Type 0
IsCell c = (c ≡ dot) ⊎ ((c ≡ b'B') ⊎ (c ≡ b'R'))

-- Row i has i + 1 cells.
abbrev pub IsTriangle : ℕ → List Text → Type 0
IsTriangle i [] = Unit
IsTriangle i (r ∷ rs) = (length r ≡ suc i) × All IsCell r × IsTriangle (suc i) rs

pub record IsBoard (size : ℕ) (layout : Text) : Type 0 where
  pub height : length (rows_of layout) ≡ size
  pub triangle : IsTriangle 0 (rows_of layout)

dots-Without : (n : ℕ) → Without slash (replicate n dot)
dots-Without zero = tt
dots-Without (suc n) = (omega arith, dots-Without n)

dots-IsCell : (n : ℕ) → All IsCell (replicate n dot)
dots-IsCell zero = tt
dots-IsCell (suc n) = (inl refl, dots-IsCell n)

length-dots : (n : ℕ) → length (replicate n dot) ≡ n
length-dots zero = refl
length-dots (suc n) = ap suc (length-dots n)

dot_rows-Without : (i n : ℕ) → All (Without slash) (dot_rows i n)
unfolding dot_rows
dot_rows-Without i zero = tt
dot_rows-Without i (suc n) = (dots-Without (suc i), dot_rows-Without (suc i) n)

dot_rows-IsTriangle : (i n : ℕ) → IsTriangle i (dot_rows i n)
unfolding dot_rows
dot_rows-IsTriangle i zero = tt
dot_rows-IsTriangle i (suc n) =
    (length-dots (suc i), dots-IsCell (suc i), dot_rows-IsTriangle (suc i) n)

length-dot_rows : (i n : ℕ) → length (dot_rows i n) ≡ n
unfolding dot_rows
length-dot_rows i zero = refl
length-dot_rows i (suc n) = ap suc (length-dot_rows (suc i) n)

pub rows_of-empty_layout : (size : ℕ) → 0 < size → rows_of (empty_layout size) ≡ dot_rows 0 size
unfolding empty_layout
rows_of-empty_layout size h =
    split-join slash (dot_rows 0 size)
      (λ e. absurd (omega (arith, ap length e, length-dot_rows 0 size))) (dot_rows-Without 0 size)

-- The layout of a new session is a board of its size.
pub empty_layout-IsBoard : (size : ℕ) → 0 < size → IsBoard size (empty_layout size)
empty_layout-IsBoard size h =
    let e = rows_of-empty_layout size h in
    record { height = rw e (length-dot_rows 0 size); triangle = rw e (dot_rows-IsTriangle 0 size) }

char_of-IsCell : (s : Symbol) → IsCell (char_of s)
char_of-IsCell black = inr (inl refl)
char_of-IsCell red = inr (inr refl)

IsTriangle-set :
    (i : ℕ) (rs : List Text) (row col : ℕ) (s : Symbol)
    → IsTriangle i rs
    → IsTriangle i (set rs row (set (get_or rs row []) col (char_of s)))
IsTriangle-set i [] row col s h = tt
IsTriangle-set i (r ∷ rs) zero col s (l, a, t) =
    (length-set r col (char_of s) ∙ l, All-set IsCell r col (char_of s) a (char_of-IsCell s), t)
IsTriangle-set i (r ∷ rs) (suc row) col s (l, a, t) = (l, a, IsTriangle-set (suc i) rs row col s t)

-- A move in range keeps the shape.
pub set_cell-IsBoard :
    (size : ℕ) (layout : Text) (row col : ℕ) (s : Symbol)
    → IsBoard size layout
    → InRange layout row col
    → IsBoard size (set_cell layout row col s)
set_cell-IsBoard size layout row col s b v =
    let e = rows_of-set_cell layout row col s v in
    record {
      height = rw e (length-set (rows_of layout) row _ ∙ b.height);
      triangle = rw e (IsTriangle-set 0 (rows_of layout) row col s b.triangle);
    }

map-push_head :
    (c : ℕ) (rs : List Text)
    → map (map swap_char) (push_head c rs) ≡ push_head (swap_char c) (map (map swap_char) rs)
map-push_head c [] = refl
map-push_head c (r ∷ rs) = refl

-- Recolouring works row by row.
pub rows_of-swap_layout : (t : Text) → rows_of (swap_layout t) ≡ map (map swap_char) (rows_of t)
unfolding split swap_layout
rows_of-swap_layout [] = refl
rows_of-swap_layout (c ∷ t) = ground (arith, rows_of-swap_layout t, map-push_head c (split slash t))

swap-IsTriangle : (i : ℕ) (rs : List Text) → IsTriangle i rs → IsTriangle i (map (map swap_char) rs)
swap-IsTriangle i [] h = tt
swap-IsTriangle i (r ∷ rs) (l, a, t) =
    (length_map_swap r ∙ l, cells r a, swap-IsTriangle (suc i) rs t)
  where
    length_map_swap : (r : Text) → length (map swap_char r) ≡ length r
    length_map_swap [] = refl
    length_map_swap (c ∷ r) = ap suc (length_map_swap r)

    cells : (r : Text) → All IsCell r → All IsCell (map swap_char r)
    cells [] h = tt
    cells (c ∷ r) (h, k) = (ground arith, cells r k)

length-map_rows : (rs : List Text) → length (map (map swap_char) rs) ≡ length rs
length-map_rows [] = refl
length-map_rows (r ∷ rs) = ap suc (length-map_rows rs)

-- Recolouring keeps the shape.
pub swap_layout-IsBoard :
    (size : ℕ) (layout : Text) → IsBoard size layout → IsBoard size (swap_layout layout)
swap_layout-IsBoard size layout b =
    let e = rows_of-swap_layout layout in
    record {
      height = rw e (length-map_rows (rows_of layout) ∙ b.height);
      triangle = rw e (swap-IsTriangle 0 (rows_of layout) b.triangle);
    }
