-- ===== src/Rules/Examples.antt =====
-- Two blocked cells for a board of twelve rows, the second of which is drawn twice.
use yovi_es1c.Prelude.{refl, map, ◌≡◌, ltb, if◌then◌else◌, none, some, List, [], ◌∷◌, length, take}
use yovi_es1c.Rules.{
  BlockedCell, CellDraw, random_cell, honey_rows, honey_target, draw_cells,
  generate_honey_blocked_cells,
}
use yovi_es1c.Rules.Blocked.{Blocks, generate_honey_blocked_cells-Blocks}
use yovi_es1c.Rules.Draws.{first_draws, generate_honey_blocked_cells-first_draws}

abbrev drawn : List CellDraw
drawn = (2, 1) ∷ (13, 5) ∷ (4, 0) ∷ []

abbrev cells : List BlockedCell
cells = map (random_cell (honey_rows 12)) drawn

generate_honey_blocked_cells-first_draws_example : generate_honey_blocked_cells 12 drawn ≡ (
    if ltb (length (first_draws [] cells)) (honey_target 12)
    then none
    else some (take (honey_target 12) (first_draws [] cells)))
generate_honey_blocked_cells-first_draws_example = generate_honey_blocked_cells-first_draws 12 drawn

drawn_blocked :
    generate_honey_blocked_cells 12 drawn
    ≡ some (record { row = 3; col = 1 } ∷ record { row = 5; col = 0 } ∷ [])
unfolding generate_honey_blocked_cells honey_rows honey_target random_cell draw_cells
drawn_blocked = refl

generate_honey_blocked_cells-Blocks_example :
    Blocks
      (honey_rows 12)
      (honey_target 12)
      (record { row = 3; col = 1 } ∷ record { row = 5; col = 0 } ∷ [])
generate_honey_blocked_cells-Blocks_example =
    generate_honey_blocked_cells-Blocks 12 drawn _ drawn_blocked
