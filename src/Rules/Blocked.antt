-- ===== src/Rules/Blocked.antt =====
-- gameservice/src/types/rules.ts: the cells that generateHoneyBlockedCells blocks.
use yovi_es1c.Prelude.{
  ℕ, ◌<◌, ◌≤◌, ◌≡◌, sym, ap, inl, inr, true, false, ltb, Bool-cases, some, none, List, [], ◌∷◌,
  ◌++◌, ◌∈◌, mem-append, map, any, length, length-append, All, All-append, arith,
}
use yovi_es1c.Rules.{
  BlockedCell, CellDraw, same_cell, honey_rows, honey_target, random_cell, draw_cells,
  generate_honey_blocked_cells,
}
use yovi_es1c.Rules.Draws.{random_cell-inside}

-- A cell of a board of that many rows, below the first one.
abbrev pub BelowTop : ℕ → BlockedCell → Type 0
BelowTop rows c = (1 ≤ c.row) × (c.row < rows) × (c.col ≤ c.row)

-- No cell stands twice.
abbrev pub Distinct : List BlockedCell → Type 0
Distinct [] = Unit
Distinct (c ∷ cs) = (¬ (c ∈ cs)) × Distinct cs

new_cell :
    (d : BlockedCell) (cells : List BlockedCell) → any (same_cell d) cells ≡ false → ¬ (d ∈ cells)
new_cell d [] h m = absurd m
new_cell d (c ∷ cs) h (inl e) =
    let row = ap (λ (x : BlockedCell). x.row) e in
    let col = ap (λ (x : BlockedCell). x.col) e in absurd (ground arith)
new_cell d (c ∷ cs) h (inr m) = new_cell d cs (ground arith) m

Distinct-snoc :
    (cells : List BlockedCell) (d : BlockedCell)
    → Distinct cells
    → ¬ (d ∈ cells)
    → Distinct (cells ++ d ∷ [])
Distinct-snoc [] d h new = (λ m. m, tt)
Distinct-snoc (c ∷ cs) d (apart, h) new = (
  λ m. elim ((mem-append c cs (d ∷ [])).0 m) [
    | inl old ↦ apart old
    | inr last ↦ elim last [ inl e ↦ new (inl (sym e)) | inr n ↦ n ]
  ],
  Distinct-snoc cs d h (λ m. new (inr m)),
)

-- What the loop keeps, at every number of cells that it wants.
pub record Blocks (rows target : ℕ) (cells : List BlockedCell) : Type 0 where
  pub wanted : length cells ≡ target
  pub inside : All (BelowTop rows) cells
  pub distinct : Distinct cells

some_inj : {A : Type 0} {x y : A} → some x ≡ some y → x ≡ y
some_inj e = cc

full-Blocks :
    (rows target : ℕ) (cells result : List BlockedCell)
    → length cells ≤ target
    → All (BelowTop rows) cells
    → Distinct cells
    → ltb (length cells) target ≡ false
    → cells ≡ result
    → Blocks rows target result
full-Blocks rows target cells result le inside distinct l e =
    rw (← e) (record { wanted = ground arith; inside = inside; distinct = distinct })

draw_cells-Blocks :
    (rows target : ℕ) (cells draws result : List BlockedCell)
    → length cells ≤ target
    → All (BelowTop rows) cells
    → Distinct cells
    → All (BelowTop rows) draws
    → draw_cells target cells draws ≡ some result
    → Blocks rows target result
unfolding draw_cells
draw_cells-Blocks rows target cells [] result le inside distinct h e =
    elim (Bool-cases (ltb (length cells) target)) [
      | inl l ↦ absurd (let f : none ≡ some result = rw l at e in cc)
      | inr l ↦ full-Blocks rows target cells result le inside distinct l (some_inj (rw l at e))
    ]
draw_cells-Blocks rows target cells (d ∷ ds) result le inside distinct (below, h) e =
    elim (Bool-cases (ltb (length cells) target)) [
      | inr l ↦ full-Blocks rows target cells result le inside distinct l (some_inj (rw l at e))
      | inl l ↦ elim (Bool-cases (any (same_cell d) cells)) [
        | inl used ↦
            draw_cells-Blocks rows target cells ds result le inside distinct h (rw (l, used) at e)
        | inr fresh ↦
            draw_cells-Blocks rows target (cells ++ d ∷ []) ds result
              (omega (arith, length-append cells (d ∷ []), shorter l))
              (All-append (BelowTop rows) cells (d ∷ []) inside (below, tt))
              (Distinct-snoc cells d distinct (new_cell d cells fresh)) h (rw (l, fresh) at e)
      ]
    ]
  where
    shorter : ltb (length cells) target ≡ true → length cells < target
    shorter l = ground arith

draws_inside :
    (rows : ℕ) (draws : List CellDraw)
    → 2 ≤ rows
    → All (BelowTop rows) (map (random_cell rows) draws)
draws_inside rows [] h = tt
draws_inside rows (d ∷ ds) h = (random_cell-inside rows d h, draws_inside rows ds h)

two_rows : (board_size : ℕ) → 2 ≤ honey_rows board_size
unfolding honey_rows
two_rows board_size = ground arith

-- Whatever the random numbers, when the loop ends the blocked cells are exactly as many as it wants,
-- no two are the same, and each is a cell of the board that is not in its first row. The board is the
-- one of eight rows when the size is at most one.
pub generate_honey_blocked_cells-Blocks :
    (board_size : ℕ) (draws : List CellDraw) (cells : List BlockedCell)
    → generate_honey_blocked_cells board_size draws ≡ some cells
    → Blocks (honey_rows board_size) (honey_target board_size) cells
unfolding generate_honey_blocked_cells
generate_honey_blocked_cells-Blocks board_size draws cells e =
    draw_cells-Blocks (honey_rows board_size) (honey_target board_size) []
      (map (random_cell (honey_rows board_size)) draws) cells (omega arith) tt tt
      (draws_inside (honey_rows board_size) draws (two_rows board_size)) e
