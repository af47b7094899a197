-- ===== src/Rules/Draws.antt =====
-- gameservice/src/types/rules.ts: when the loop of generateHoneyBlockedCells ends.
use mathlib.Core.Path.{subst}
use yovi_es1c.Prelude.{
  map, ◌-◌, ◌%◌, ◌<◌, ℕ, suc, ◌≡◌, refl, sym, ap, inl, inr, ◌+◌, ◌≤◌, true, false, ltb, Bool-cases,
  if◌then◌else◌, none, some, List, [], ◌∷◌, ◌++◌, length, length-append, take, any, arith,
}
use yovi_es1c.Rules.{
  BlockedCell, CellDraw, honey_rows, random_cell, same_cell, honey_target, draw_cells,
  generate_honey_blocked_cells,
}

-- The drawn cells that are new when they are drawn: neither used before nor drawn earlier.
unfoldable pub first_draws : List BlockedCell → List BlockedCell → List BlockedCell
first_draws used [] = []
first_draws used (d ∷ ds) =
    if any (same_cell d) used then first_draws used ds else d ∷ first_draws (used ++ d ∷ []) ds

take-all : (xs ys : List BlockedCell) → take (length xs) (xs ++ ys) ≡ xs
take-all [] ys = refl
take-all (x ∷ xs) ys = ap (◌∷◌ x) (take-all xs ys)

append_assoc :
    (xs : List BlockedCell) (d : BlockedCell) (ys : List BlockedCell)
    → (xs ++ d ∷ []) ++ ys ≡ xs ++ (d ∷ ys)
append_assoc [] d ys = refl
append_assoc (x ∷ xs) d ys = ap (◌∷◌ x) (append_assoc xs d ys)

full :
    (target : ℕ) (cells ys : List BlockedCell)
    → length cells ≡ target
    → some cells
      ≡ (if ltb (length cells + length ys) target then none else some (take target (cells ++ ys)))
full target cells ys e =
    let no_more : ltb (length cells + length ys) target ≡ false = ground arith in
    rw (no_more, ← e) (ap some (sym (take-all cells ys)))

draw_cells-first_draws :
    (target : ℕ) (cells draws : List BlockedCell)
    → length cells ≤ target
    → draw_cells target cells draws ≡ (
        if ltb (length cells + length (first_draws cells draws)) target
        then none
        else some (take target (cells ++ first_draws cells draws)))
unfolding draw_cells first_draws
draw_cells-first_draws target cells [] le = elim (Bool-cases (ltb (length cells) target)) [
  | inl h ↦ let short : ltb (length cells + 0) target ≡ true = ground arith in rw (h, short)
  | inr h ↦ rw h (full target cells [] (ground arith))
]
draw_cells-first_draws target cells (d ∷ ds) le = elim (Bool-cases (ltb (length cells) target)) [
  | inl h ↦ elim (Bool-cases (any (same_cell d) cells)) [
    | inl k ↦ rw (h, k) (draw_cells-first_draws target cells ds le)
    | inr k ↦
        let longer = length-append cells (d ∷ []) in
        let fs = first_draws (cells ++ d ∷ []) ds in
        let rest = draw_cells-first_draws target (cells ++ d ∷ []) ds (ground (arith, longer)) in
        let same : length (cells ++ d ∷ []) + length fs ≡ length cells + suc (length fs) =
          omega (arith, longer) in
        rw (h, k, rest, append_assoc cells d fs, same)
  ]
  | inr h ↦ rw h (full target cells (first_draws cells (d ∷ ds)) (ground arith))
]

-- The loop that draws the blocked cells of a board ends as soon as the draws hold as many different
-- cells as it wants, and then gives the first ones that differ; with fewer it goes on drawing.
pub generate_honey_blocked_cells-first_draws :
    (board_size : ℕ) (draws : List CellDraw)
    → let drawn = first_draws [] (map (random_cell (honey_rows board_size)) draws) in
      generate_honey_blocked_cells board_size draws ≡ (
        if ltb (length drawn) (honey_target board_size)
        then none
        else some (take (honey_target board_size) drawn))
unfolding generate_honey_blocked_cells
generate_honey_blocked_cells-first_draws board_size draws =
    let target = honey_target board_size in
    let cells = map (random_cell (honey_rows board_size)) draws in
    let all = first_draws [] cells in
    let none_yet : 0 + length all ≡ length all = omega arith in
    subst
      (λ n.
        generate_honey_blocked_cells board_size draws
        ≡ (if ltb n target then none else some (take target all)))
      none_yet (draw_cells-first_draws target [] cells (omega arith))

-- On a board of at least two rows every drawn cell is one of the board's, below its first row.
pub random_cell-inside :
    (rows : ℕ) (d : CellDraw)
    → 2 ≤ rows
    → (1 ≤ (random_cell rows d).row)
      × ((random_cell rows d).row < rows)
      × ((random_cell rows d).col ≤ (random_cell rows d).row)
unfolding random_cell
random_cell-inside rows (r, c) h =
    let row_lt : r % (rows - 1) < rows - 1 = omega arith in
    let col_lt : c % (1 + r % (rows - 1) + 1 - 0) < 1 + r % (rows - 1) + 1 - 0 = omega arith in
    (omega arith, omega arith, omega arith)
