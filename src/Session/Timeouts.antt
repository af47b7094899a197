-- ===== src/Session/Timeouts.antt =====
-- The action chosen when a turn times out is legal, and one is chosen whenever there is one.
use mathlib.Core.Path.{subst}
use yovi_es1c.Prelude.{
  get_or, ℕ, zero, suc, ◌+◌, ◌%◌, ◌<◌, ◌≡◌, refl, sym, ap, ◌∙◌, ◌↔◌, inl, inr, true, false,
  Bool-cases, some, none, ◌==◌, List, [], ◌∷◌, map, arith, length, get_elem?, keep, ◌∈◌, mem-append,
  mem-keep, mem-map, mem-map_inv, get_elem?-mem, get_elem?-eq-get_or, mem-nil_of_length,
}
use yovi_es1c.Prelude.Text.{Text}
use yovi_es1c.Prelude.Int.{pos, negsuc, ℤ, pos_part}
use yovi_es1c.Rules.{MatchRules}
use yovi_es1c.Board.Layout.{
  MoveCommand, dot, rows_of, cell_of_row, get_cell, is_honey_blocked, is_move_valid,
}
use yovi_es1c.Board.Cells.{natural_valid_iff}
use yovi_es1c.Session.State.{SessionState, is_pie_swap_legal}
use yovi_es1c.Session.Transitions.{
  TimeoutAction, move, swap, row_moves, board_moves, legal_actions, pick_timeout_action,
}

abbrev pub at : ℕ → ℕ → MoveCommand
at row col = record { row = pos row; col = pos col }

-- An action that the rules allow.
abbrev pub IsLegal : SessionState → TimeoutAction → Type 0
IsLegal state swap = is_pie_swap_legal state ≡ true
IsLegal state (move command) = is_move_valid state.layout state.rules command ≡ true

mem-row_moves :
    (row col i k c : ℕ) (r : Text)
    → k ≡ col + i
    → get_elem? r i ≡ some c
    → at row k ∈ row_moves row col r
unfolding row_moves
mem-row_moves row col i k c [] h e = cc
mem-row_moves row col zero k c (x ∷ r) h e = inl (ap (at row) (omega arith))
mem-row_moves row col (suc i) k c (x ∷ r) h e =
    inr (mem-row_moves row (suc col) i k c r (omega arith) e)

mem-board_moves :
    (row i j k c : ℕ) (rows : List Text)
    → k ≡ row + i
    → cell_of_row (get_elem? rows i) j ≡ some c
    → at k j ∈ board_moves row rows
unfolding board_moves
mem-board_moves row i j k c [] h e = cc
mem-board_moves row zero j k c (r ∷ rows) h e =
    let start : k ≡ row = omega arith in
    (mem-append _ (row_moves row 0 r) (board_moves (suc row) rows)).1 (
      inl (
        subst (λ n. at n j ∈ row_moves row 0 r) (sym start)
          (mem-row_moves row 0 j j c r (omega arith) e)))
mem-board_moves row (suc i) j k c (r ∷ rows) h e =
    (mem-append _ (row_moves row 0 r) (board_moves (suc row) rows)).1
      (inr (mem-board_moves (suc row) i j k c rows (omega arith) e))

negative_row :
    (layout : Text) (rules : MatchRules) (n : ℕ) (col : ℤ)
    → is_move_valid layout rules (record { row = negsuc n; col = col }) ≡ false
unfolding is_move_valid
negative_row layout rules n col = ground arith

negative_col :
    (layout : Text) (rules : MatchRules) (row : ℤ) (n : ℕ)
    → is_move_valid layout rules (record { row = row; col = negsuc n }) ≡ false
unfolding is_move_valid
negative_col layout rules row n = ground arith

-- A valid move names a free cell that the rules do not block.
pub free_of_valid :
    (layout : Text) (rules : MatchRules) (row col : ℤ)
    → is_move_valid layout rules (record { row = row; col = col }) ≡ true
    → (get_cell layout (pos_part row) (pos_part col) ≡ some dot)
      × (is_honey_blocked rules (pos_part row) (pos_part col) ≡ false)
free_of_valid layout rules (negsuc n) col h = let e = negative_row layout rules n col in cc
free_of_valid layout rules (pos r) (negsuc n) h = let e = negative_col layout rules (pos r) n in cc
free_of_valid layout rules (pos r) (pos c) h = (natural_valid_iff layout rules r c).0 h

-- Every valid move is among the positions of the board.
valid-mem :
    (layout : Text) (rules : MatchRules) (row col : ℤ)
    → is_move_valid layout rules (record { row = row; col = col }) ≡ true
    → record { row = row; col = col } ∈ board_moves 0 (rows_of layout)
valid-mem layout rules (negsuc n) col h = let e = negative_row layout rules n col in cc
valid-mem layout rules (pos r) (negsuc n) h = let e = negative_col layout rules (pos r) n in cc
valid-mem layout rules (pos r) (pos c) h =
    let (free, _) = (natural_valid_iff layout rules r c).0 h in
    mem-board_moves 0 r c r dot (rows_of layout) (omega arith) (unfold get_cell in free)

abbrev valid_moves : SessionState → List MoveCommand
valid_moves state =
    keep (is_move_valid state.layout state.rules) (board_moves 0 (rows_of state.layout))

-- The moves among the actions are the valid ones.
move-IsLegal :
    (state : SessionState) (a : TimeoutAction) → a ∈ map move (valid_moves state) → IsLegal state a
move-IsLegal state a m =
    let (c, k, e) = mem-map_inv move a (valid_moves state) m in
    subst (IsLegal state) (sym e)
      ((mem-keep (is_move_valid state.layout state.rules) c
          (board_moves 0 (rows_of state.layout))).0
        k).1

legal_move :
    (state : SessionState) (c : MoveCommand)
    → IsLegal state (move c)
    → move c ∈ map move (valid_moves state)
legal_move state c h = mem-map move c (valid_moves state) (
    (mem-keep (is_move_valid state.layout state.rules) c (board_moves 0 (rows_of state.layout))).1
      (valid-mem state.layout state.rules c.row c.col h, h))

-- The candidate actions are exactly the legal ones.
pub legal_actions_iff :
    (state : SessionState) (a : TimeoutAction) → (a ∈ legal_actions state) ↔ IsLegal state a
unfolding legal_actions
legal_actions_iff state swap = elim (Bool-cases (is_pie_swap_legal state)) [
  | inl s ↦ rw s (λ _. refl, λ _. inl refl)
  | inr s ↦ rw s (λ m. absurd (no_swap (valid_moves state) m), λ h. cc)
]
  where
    no_swap : (cs : List MoveCommand) → ¬ (swap ∈ map move cs)
    no_swap [] m = m
    no_swap (c ∷ cs) m = elim m [ inl e ↦ cc | inr k ↦ no_swap cs k ]
legal_actions_iff state (move c) = elim (Bool-cases (is_pie_swap_legal state)) [
  | inl s ↦ rw s (
    λ m. elim m [ inl e ↦ cc | inr k ↦ move-IsLegal state (move c) k ],
    λ h. inr (legal_move state c h),
  )
  | inr s ↦ rw s (move-IsLegal state (move c), legal_move state c)
]

get_elem?-mod :
    (xs : List TimeoutAction) (draw : ℕ)
    → 0 < length xs
    → (a : TimeoutAction) × (get_elem? xs (draw % length xs) ≡ some a)
get_elem?-mod xs draw h = (
  get_or xs (draw % length xs) swap,
  get_elem?-eq-get_or xs (draw % length xs) swap (grind arith),
)

-- Whatever the random number, the chosen action is legal.
pub pick_timeout_action-IsLegal :
    (state : SessionState) (draw : ℕ) (a : TimeoutAction)
    → pick_timeout_action state draw ≡ some a
    → IsLegal state a
unfolding pick_timeout_action
pick_timeout_action-IsLegal state draw a e =
    (legal_actions_iff state a).0
      (get_elem?-mem (legal_actions state) (draw % length (legal_actions state)) a (ground arith))

-- No action is chosen exactly when none is legal: no pie swap, and no valid move.
pub pick_timeout_action-eq-none_iff :
    (state : SessionState) (draw : ℕ)
    → (pick_timeout_action state draw ≡ none) ↔ ((a : TimeoutAction) → ¬ IsLegal state a)
unfolding pick_timeout_action
pick_timeout_action-eq-none_iff state draw = elim (Bool-cases (length (legal_actions state) == 0)) [
  | inl z ↦ rw z (
    λ _ a l.
        mem-nil_of_length (legal_actions state) (ground arith) a ((legal_actions_iff state a).1 l),
    λ _. refl,
  )
  | inr z ↦
      let (a, e) = get_elem?-mod (legal_actions state) draw (ground arith) in
      rw z (
        λ h. absurd (let k = sym e ∙ h in cc),
        λ h.
            absurd
              (h a ((legal_actions_iff state a).0 (get_elem?-mem (legal_actions state) _ a e))),
      )
]
