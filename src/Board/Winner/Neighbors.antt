-- ===== src/Board/Winner/Neighbors.antt =====
-- The neighbours that the search keeps are exactly the adjacent cells of the board.
use yovi_es1c.Prelude.{ℕ, zero, suc, ◌+◌, ◌-◌, ◌≡◌, refl, inl, inr, some, arith, ◌∈◌, All}
use mathlib.Core.Path.{subst₂}
use yovi_es1c.Board.Coords.{Cell, Coords, coords_from_row_col, neighbors_of, next_cell}
use yovi_es1c.Board.Winner.Adjacency.{
  OnBoard, Adjacent, at, coords-at, next_cell-negative, down_right, down_left, up_left, left,
  up_right, right, down_right_cell, down_left_cell, up_left_cell, left_cell, up_right_cell,
  right_cell,
}

-- What a neighbour's coordinates lead to is an adjacent cell of the board.
abbrev pub Leads : ℕ → Cell → Coords → Type 0
Leads size p n = (q : Cell) → next_cell size n ≡ some q → Adjacent p q × OnBoard size q

down_right-Leads : (x y z : ℕ) → Leads (x + y + z + 1) (y + z, y) (down_right x y z)
down_right-Leads zero y z q e =
    let none_lem = next_cell-negative (zero + y + z + 1) (down_right zero y z) (ground arith) in cc
down_right-Leads (suc x) y z q e = ground (arith, down_right_cell x y z)

down_left-Leads : (x y z : ℕ) → Leads (x + y + z + 1) (y + z, y) (down_left x y z)
down_left-Leads zero y z q e =
    let none_lem = next_cell-negative (zero + y + z + 1) (down_left zero y z) (ground arith) in cc
down_left-Leads (suc x) y z q e = ground (arith, down_left_cell x y z)

up_left-Leads : (x y z : ℕ) → Leads (x + y + z + 1) (y + z, y) (up_left x y z)
up_left-Leads x zero z q e =
    let none_lem = next_cell-negative (x + zero + z + 1) (up_left x zero z) (ground arith) in cc
up_left-Leads x (suc y) z q e = ground (arith, up_left_cell x y z)

left-Leads : (x y z : ℕ) → Leads (x + y + z + 1) (y + z, y) (left x y z)
left-Leads x zero z q e =
    let none_lem = next_cell-negative (x + zero + z + 1) (left x zero z) (ground arith) in cc
left-Leads x (suc y) z q e = ground (arith, left_cell x y z)

up_right-Leads : (x y z : ℕ) → Leads (x + y + z + 1) (y + z, y) (up_right x y z)
up_right-Leads x y zero q e =
    let none_lem = next_cell-negative (x + y + zero + 1) (up_right x y zero) (ground arith) in cc
up_right-Leads x y (suc z) q e = ground (arith, up_right_cell x y z)

right-Leads : (x y z : ℕ) → Leads (x + y + z + 1) (y + z, y) (right x y z)
right-Leads x y zero q e =
    let none_lem = next_cell-negative (x + y + zero + 1) (right x y zero) (ground arith) in cc
right-Leads x y (suc z) q e = ground (arith, right_cell x y z)

abbrev Keeps : ℕ → Coords → Cell → Type 0
Keeps size n q = next_cell size n ≡ some q

down_right-Keeps :
    (x y z s d : ℕ)
    → s ≡ y + z + 1
    → d ≡ y + 1
    → OnBoard (x + y + z + 1) (s, d)
    → Keeps (x + y + z + 1) (down_right x y z) (s, d)
down_right-Keeps zero y z s d h k o = absurd (omega arith)
down_right-Keeps (suc x) y z s d h k o = ground (arith, down_right_cell x y z)

down_left-Keeps :
    (x y z s d : ℕ)
    → s ≡ y + z + 1
    → d ≡ y
    → OnBoard (x + y + z + 1) (s, d)
    → Keeps (x + y + z + 1) (down_left x y z) (s, d)
down_left-Keeps zero y z s d h k o = absurd (omega arith)
down_left-Keeps (suc x) y z s d h k o = ground (arith, down_left_cell x y z)

up_left-Keeps :
    (x y z s d : ℕ)
    → y + z ≡ s + 1
    → y ≡ d + 1
    → OnBoard (x + y + z + 1) (s, d)
    → Keeps (x + y + z + 1) (up_left x y z) (s, d)
up_left-Keeps x zero z s d h k o = absurd (omega arith)
up_left-Keeps x (suc y) z s d h k o = ground (arith, up_left_cell x y z)

left-Keeps :
    (x y z s d : ℕ)
    → s ≡ y + z
    → y ≡ d + 1
    → OnBoard (x + y + z + 1) (s, d)
    → Keeps (x + y + z + 1) (left x y z) (s, d)
left-Keeps x zero z s d h k o = absurd (omega arith)
left-Keeps x (suc y) z s d h k o = ground (arith, left_cell x y z)

up_right-Keeps :
    (x y z s d : ℕ)
    → y + z ≡ s + 1
    → y ≡ d
    → OnBoard (x + y + z + 1) (s, d)
    → Keeps (x + y + z + 1) (up_right x y z) (s, d)
up_right-Keeps x y zero s d h k o = absurd (omega arith)
up_right-Keeps x y (suc z) s d h k o = ground (arith, up_right_cell x y z)

right-Keeps :
    (x y z s d : ℕ)
    → s ≡ y + z
    → d ≡ y + 1
    → OnBoard (x + y + z + 1) (s, d)
    → Keeps (x + y + z + 1) (right x y z) (s, d)
right-Keeps x y zero s d h k o = absurd (omega arith)
right-Keeps x y (suc z) s d h k o = ground (arith, right_cell x y z)

found :
    (x y z : ℕ) (q : Cell)
    → Adjacent (y + z, y) q
    → OnBoard (x + y + z + 1) q
    → (n : Coords) × (n ∈ neighbors_of (at x y z)) × Keeps (x + y + z + 1) n q
unfolding neighbors_of
found x y z (s, d) a o = elim a [
  | inl (h, b) ↦ elim b [
    | inl k ↦ (down_left x y z, inr (inl refl), down_left-Keeps x y z s d h k o)
    | inr k ↦ (down_right x y z, inl refl, down_right-Keeps x y z s d h k o)
  ]
  | inr b ↦ elim b [
    | inl (h, b) ↦ elim b [
      | inl k ↦ (up_right x y z, inr (inr (inr (inr (inl refl)))), up_right-Keeps x y z s d h k o)
      | inr k ↦ (up_left x y z, inr (inr (inl refl)), up_left-Keeps x y z s d h k o)
    ]
    | inr (h, b) ↦ elim b [
      | inl k ↦ (right x y z, inr (inr (inr (inr (inr (inl refl))))), right-Keeps x y z s d h k o)
      | inr k ↦ (left x y z, inr (inr (inr (inl refl))), left-Keeps x y z s d h k o)
    ]
  ]
]

Leads-at : (x y z : ℕ) → All (Leads (x + y + z + 1) (y + z, y)) (neighbors_of (at x y z))
unfolding neighbors_of
Leads-at x y z = (
  down_right-Leads x y z,
  (
    down_left-Leads x y z,
    (up_left-Leads x y z, (left-Leads x y z, (up_right-Leads x y z, (right-Leads x y z, tt)))),
  ),
)

module _ (size row col : ℕ) (h : OnBoard size (row, col)) where
  size_lem : (size - 1 - row) + col + (row - col) + 1 ≡ size
  size_lem = omega arith

  row_of : col + (row - col) ≡ row
  row_of = omega arith

  -- Every neighbour that the search keeps is an adjacent cell of the board.
  pub neighbors_of-Leads :
      All (Leads size (row, col)) (neighbors_of (coords_from_row_col row col size))
  neighbors_of-Leads = rw (coords-at size row col h) (
      subst₂ (λ s r. All (Leads s (r, col)) (neighbors_of (at (size - 1 - row) col (row - col))))
        size_lem row_of (Leads-at (size - 1 - row) col (row - col)))

  -- And every adjacent cell of the board is kept.
  pub neighbors_of_complete :
      (q : Cell)
      → Adjacent (row, col) q
      → OnBoard size q
      → (n : Coords) × (n ∈ neighbors_of (coords_from_row_col row col size))
        × (next_cell size n ≡ some q)
  neighbors_of_complete = rw (coords-at size row col h) (
      subst₂
        (λ s r.
          (q : Cell)
          → Adjacent (r, col) q
          → OnBoard s q
          → (n : Coords) × (n ∈ neighbors_of (at (size - 1 - row) col (row - col)))
            × (next_cell s n ≡ some q))
        size_lem row_of (found (size - 1 - row) col (row - col)))
