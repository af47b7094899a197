-- ===== src/Session/Machine.antt =====
-- The state machine of one session: the changes that a session may make, apart from the handlers
-- that make them. Every change starts from a session that is not over.
use mathlib.Core.Path.{subst}
use yovi_es1c.Prelude.{ℕ, ◌+◌, ◌≡◌, refl, sym, true, false, Option, some, none}
use yovi_es1c.Prelude.Text.{Text}
use yovi_es1c.Board.Layout.{Symbol, dot, get_cell, is_honey_blocked}
use yovi_es1c.Session.State.{
  SessionState, is_terminal, current_player, is_participant, find_opponent, is_pie_swap_legal,
  PlayerState,
}
use yovi_es1c.Session.Transitions.{
  after_layout, build_state_after_move, build_pie_swap_state, disconnected_state, reconnected_state,
  expired_state, abandoned_state,
}

pub data Transition (timeout grace : ℕ) (s t : SessionState) : Type 0 where
  -- The player in turn takes a free cell that the rules do not block.
  placed :
      (now row col : ℕ)
      → is_terminal s ≡ false
      → get_cell s.layout row col ≡ some dot
      → is_honey_blocked s.rules row col ≡ false
      → t ≡ build_state_after_move timeout now s row col (current_player s).symbol
      → Transition timeout grace s t
  -- The second player takes over the only stone.
  swapped :
      (now : ℕ)
      → is_terminal s ≡ false
      → is_pie_swap_legal s ≡ true
      → t ≡ build_pie_swap_state timeout now s
      → Transition timeout grace s t
  dropped :
      (now user_id : ℕ)
      → is_terminal s ≡ false
      → is_participant s user_id ≡ true
      → t ≡ disconnected_state grace now s user_id
      → Transition timeout grace s t
  resumed :
      (user_id : ℕ)
      → is_terminal s ≡ false
      → is_participant s user_id ≡ true
      → t ≡ reconnected_state s user_id
      → Transition timeout grace s t
  forfeited :
      (user_id : ℕ)
      → is_terminal s ≡ false
      → t ≡ expired_state s user_id
      → Transition timeout grace s t
  resigned :
      (user_id : ℕ) (opponent : PlayerState)
      → is_terminal s ≡ false
      → find_opponent s user_id ≡ some opponent
      → t ≡ abandoned_state s opponent.symbol
      → Transition timeout grace s t

-- What a change does to the fields that identify a session, and to its version.
pub record Follows (s t : SessionState) : Type 0 where
  pub match_id : t.match_id ≡ s.match_id
  pub size : t.size ≡ s.size
  pub rules : t.rules ≡ s.rules
  pub players : t.players ≡ s.players
  pub version : t.version ≡ s.version + 1

after_layout-Follows :
    (s : SessionState) (layout : Text) (w : Option Symbol) (timer : ℕ)
    → Follows s (after_layout s layout w timer)
unfolding after_layout
after_layout-Follows s layout none timer = record {
  match_id = refl;
  size = refl;
  rules = refl;
  players = refl;
  version = refl;
}
after_layout-Follows s layout (some w) timer = record {
  match_id = refl;
  size = refl;
  rules = refl;
  players = refl;
  version = refl;
}

pub build_state_after_move-Follows :
    (timeout now : ℕ) (s : SessionState) (row col : ℕ) (symbol : Symbol)
    → Follows s (build_state_after_move timeout now s row col symbol)
unfolding build_state_after_move
build_state_after_move-Follows timeout now s row col symbol = after_layout-Follows s _ _ _

-- Every change keeps the id, the size, the rules and the players, and adds one to the version.
pub Transition-Follows :
    (timeout grace : ℕ) (s t : SessionState) → Transition timeout grace s t → Follows s t
unfolding build_pie_swap_state disconnected_state reconnected_state expired_state abandoned_state
Transition-Follows timeout grace s t (placed now row col o c b e) =
    subst (Follows s) (sym e) (build_state_after_move-Follows timeout now s row col _)
Transition-Follows timeout grace s t (swapped now o l e) =
    subst (Follows s) (sym e)
      (record { match_id = refl; size = refl; rules = refl; players = refl; version = refl })
Transition-Follows timeout grace s t (dropped now u o p e) =
    subst (Follows s) (sym e)
      (record { match_id = refl; size = refl; rules = refl; players = refl; version = refl })
Transition-Follows timeout grace s t (resumed u o p e) =
    subst (Follows s) (sym e)
      (record { match_id = refl; size = refl; rules = refl; players = refl; version = refl })
Transition-Follows timeout grace s t (forfeited u o e) =
    subst (Follows s) (sym e)
      (record { match_id = refl; size = refl; rules = refl; players = refl; version = refl })
Transition-Follows timeout grace s t (resigned u q o f e) =
    subst (Follows s) (sym e)
      (record { match_id = refl; size = refl; rules = refl; players = refl; version = refl })

-- Every change starts from a session that is not over.
pub Transition-open :
    (timeout grace : ℕ) (s t : SessionState) → Transition timeout grace s t → is_terminal s ≡ false
Transition-open timeout grace s t (placed now row col o c b e) = o
Transition-open timeout grace s t (swapped now o l e) = o
Transition-open timeout grace s t (dropped now u o p e) = o
Transition-open timeout grace s t (resumed u o p e) = o
Transition-open timeout grace s t (forfeited u o e) = o
Transition-open timeout grace s t (resigned u q o f e) = o
