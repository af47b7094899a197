-- ===== src/Match/BotMoves.antt =====
-- gameservice/src/services/MatchService.ts, applyBotMove: the bot always moves.
use mathlib.Core.Path.{subst}
use yovi_es1c.Prelude.{
  map, ℕ, ◌≡◌, ◌≢◌, refl, sym, ◌∙◌, inl, inr, ◌+◌, true, Bool-cases, Option-cases, Option, some,
  none, List, [], ◌∷◌, arith,
}
use yovi_es1c.Prelude.Text.{Text}
use yovi_es1c.Board.Layout.{dot, get_cell}
use yovi_es1c.Board.Triangle.{IsBoard}
use yovi_es1c.Rules.{MatchRules, normalize_match_rules}
use yovi_es1c.Match.Layouts.{
  lower, Position, bot, MatchMove, resolve_current_layout, pick_fallback_layout,
  next_symbol_for_layout, extract_layout_from_bot_payload,
}
use yovi_es1c.Match.Shape.{
  Inside, resolve_current_layout-IsBoard, first_layout-IsBoard, set_layout_cell-IsBoard,
  set_layout_cell-eq-set_cell,
}
use yovi_es1c.Match.Fallback.{pick_fallback_layout-Fills}
use yovi_es1c.Match.Service.{
  Match, Matches, BotService, is_ongoing, get_match_by_id, list_moves, add_move, chosen_layout,
  max_number, choose_bot_move, play_bot_move, apply_bot_move, get_bot_move_with_timeout, is_played,
  build_yen_position,
}

some_inj : {A : Type 0} {x y : A} → some x ≡ some y → x ≡ y
some_inj e = cc

chosen :
    (P : Text → Type 0) (engine : Option Text) (moves : List MatchMove) (fallback : Option Text)
    → ((l : Text) → engine ≡ some l → P l)
    → ((l : Text) → fallback ≡ some l → P l)
    → fallback ≢ none
    → (layout : Text) × (chosen_layout engine moves fallback ≡ some layout) × P layout
unfolding chosen_layout
chosen P engine moves none pe pf h = absurd (h refl)
chosen P none moves (some l) pe pf h = (l, refl, pf l refl)
chosen P (some e) moves (some l) pe pf h = elim (Bool-cases (is_played e moves)) [
  | inl k ↦ (l, rw (k, chosen_layout), pf l refl)
  | inr k ↦ (e, rw (k, chosen_layout), pe e refl)
]

engine-IsBoard :
    (play : BotService) (size : ℕ) (difficulty : Text) (current : Text) (rules : MatchRules)
    (layout : Text)
    → IsBoard size current
    → get_bot_move_with_timeout play size difficulty current rules ≡ some layout
    → IsBoard size layout
unfolding get_bot_move_with_timeout extract_layout_from_bot_payload
engine-IsBoard play size difficulty current rules layout b e =
    elim (Option-cases (play (build_yen_position size current rules) (map lower difficulty))) [
      | inl k ↦ absurd (let f : none ≡ some layout = rw (k, get_bot_move_with_timeout) at e in cc)
      | inr (payload, k) ↦
          first_layout-IsBoard (payload.position ∷ payload.position_yen ∷ payload.move ∷ []) size
            current layout b
            (rw (k, get_bot_move_with_timeout, extract_layout_from_bot_payload) at e)
    ]

fallback-IsBoard :
    (size : ℕ) (current layout : Text)
    → IsBoard size current
    → pick_fallback_layout size current ≡ some layout
    → IsBoard size layout
fallback-IsBoard size current layout b e =
    let f = (pick_fallback_layout-Fills size current).0 layout e in
    subst (IsBoard size)
      (set_layout_cell-eq-set_cell current f.cell.row f.cell.col _ ∙ sym f.filled)
      (set_layout_cell-IsBoard size current f.cell (next_symbol_for_layout current) b f.inside)

-- In an ongoing match whose current layout has a free cell, the bot makes a move, whatever the bot
-- service answers, also when it fails: one row is stored, of the bot and with the number after the
-- highest one, and its layout is a board of the match's size.
pub apply_bot_move-moves :
    (play : BotService) (db : Matches) (match : Match) (p : Position)
    → get_match_by_id db match.id ≡ some match
    → is_ongoing match.status ≡ true
    → Inside match.board_size p
    → get_cell (resolve_current_layout match.board_size (list_moves db match.id)) p.row p.col
      ≡ some dot
    → (layout : Text) × (apply_bot_move play db match.id
        ≡ add_move db match.id layout bot (max_number (list_moves db match.id) + 1))
      × IsBoard match.board_size layout
unfolding apply_bot_move play_bot_move choose_bot_move
apply_bot_move-moves play db match p found on inside free =
    let size = match.board_size in
    let row_lt = inside.row_lt in
    let current = resolve_current_layout size (list_moves db match.id) in
    let board = resolve_current_layout-IsBoard size (list_moves db match.id) (omega arith) in
    let rules = normalize_match_rules match.rules in
    let engine = get_bot_move_with_timeout play size match.difficulty current rules in
    let exists : pick_fallback_layout size current ≢ none =
      λ e. (pick_fallback_layout-Fills size current).1.0 e p inside free in
    let (layout, e, b) =
      chosen (IsBoard size) engine (list_moves db match.id) (pick_fallback_layout size current)
        (λ l. engine-IsBoard play size match.difficulty current rules l board)
        (λ l. fallback-IsBoard size current l board) exists in
    (layout, rw (found, on, apply_bot_move, play_bot_move, choose_bot_move, e), b)
