-- ===== src/Rules.antt =====
-- Match rules (gameservice/src/types/rules.ts): the typed rules that a session carries.
-- `normalize_match_rules` is normalizeMatchRules at a value that already has the type MatchRules.
-- The random numbers behind randomInt are an argument: a pair for each time round the loop.
pub mod Draws
pub mod Blocked
pub mod Examples
use yovi_es1c.Prelude.{
  ℕ, ◌/◌, Bool, false, not, ◌&&◌, ◌==◌, ltb, if◌then◌else◌, Option, none, some, List, [], ◌∷◌, ◌++◌,
  length, any, map, ◌+◌, ◌-◌, ◌%◌,
}
use Prim.Native.Nat.{max}
use mathlib.Core.Option

pub record BlockedCell : Type 0 where
  pub row : ℕ
  pub col : ℕ

pub record PieRule : Type 0 where
  pub enabled : Bool

pub record Honey : Type 0 where
  pub enabled : Bool
  pub blocked_cells : List BlockedCell

pub record MatchRules : Type 0 where
  pub pie_rule : PieRule
  pub honey : Honey

abbrev pub default_match_rules : MatchRules
default_match_rules = record {
  pie_rule = record { enabled = false };
  honey = record { enabled = false; blocked_cells = [] };
}

unfoldable pub normalize_match_rules : MatchRules → MatchRules
normalize_match_rules rules =
    if rules.honey.enabled
    then rules
    else record rules { honey = record { enabled = false; blocked_cells = [] } }

abbrev pub same_cell : BlockedCell → BlockedCell → Bool
same_cell p q = (p.row == q.row) && (p.col == q.col)

unfoldable pub honey_rows : ℕ → ℕ
honey_rows board_size = if ltb 1 board_size then board_size else 8

unfoldable pub honey_target : ℕ → ℕ
unfolding honey_rows
honey_target board_size = max 1 (honey_rows board_size / 6)

-- `randomInt(low, high)` at a random number of any size: from low, below high.
abbrev pub random_int : ℕ → ℕ → ℕ → ℕ
random_int low high random = low + random % (high - low)

-- The random numbers for one cell, and the cell: `randomInt(1, rows)`, `randomInt(0, row + 1)`.
abbrev pub CellDraw : Type 0
CellDraw = ℕ × ℕ

unfoldable pub random_cell : ℕ → CellDraw → BlockedCell
random_cell rows (r, c) =
    let row = random_int 1 rows r in record { row = row; col = random_int 0 (row + 1) c }

-- The `while` loop: a drawn cell that is used already is skipped. `none` means that the loop is
-- still running when the drawn cells are used up.
unfoldable pub draw_cells : ℕ → List BlockedCell → List BlockedCell → Option (List BlockedCell)
draw_cells target cells [] = if ltb (length cells) target then none else some cells
draw_cells target cells (d ∷ ds) =
    let rest = draw_cells target (if any (same_cell d) cells then cells else cells ++ d ∷ []) ds in
    if ltb (length cells) target then rest else some cells

unfoldable pub generate_honey_blocked_cells : ℕ → List CellDraw → Option (List BlockedCell)
unfolding honey_target draw_cells
generate_honey_blocked_cells board_size draws =
    draw_cells (honey_target board_size) [] (map (random_cell (honey_rows board_size)) draws)

unfoldable pub resolve_rules_for_match : ℕ → MatchRules → List CellDraw → Option MatchRules
unfolding normalize_match_rules generate_honey_blocked_cells
resolve_rules_for_match board_size raw_rules draws =
    let normalized = normalize_match_rules raw_rules in
    if not normalized.honey.enabled
    then some normalized
    else if ltb 0 (length normalized.honey.blocked_cells)
    then some normalized
    else Option.map
        (λ cells. record normalized {
          honey = record { enabled = normalized.honey.enabled; blocked_cells = cells };
        })
        (generate_honey_blocked_cells board_size draws)
