-- ===== src/Session/Validity.antt =====
-- The invariant of a session, and that every change keeps it.
use mathlib.Core.Path.{subst}
use yovi_es1c.Prelude.{ℕ, ◌<◌, ◌≡◌, refl, sym, ap, ◌≢◌, ◌∙◌, false, Option, some, none, is_some}
use yovi_es1c.Prelude.Text.{Text}
use yovi_es1c.Board.Layout.{Symbol, black, red, dot, get_cell}
use yovi_es1c.Board.Cells.{InRange-of_get_cell}
use yovi_es1c.Board.Triangle.{IsBoard, empty_layout-IsBoard, set_cell-IsBoard, swap_layout-IsBoard}
use yovi_es1c.Board.Winner.{resolve_winner}
use yovi_es1c.Board.Recolour.{resolve_winner-swap_layout, resolve_winner-empty_layout}
use yovi_es1c.Session.State.{SessionState, finished, is_terminal, is_terminal_status}
use yovi_es1c.Session.Transitions.{
  NewSession, initial_state, after_layout, build_state_after_move, build_pie_swap_state,
  disconnected_state, reconnected_state, expired_state, abandoned_state,
}
use yovi_es1c.Session.Machine.{Transition, placed, swapped, dropped, resumed, forfeited, resigned}

-- A session is over exactly when it has a winner, and while it is not over nobody has won on its
-- board; a game that was played to its end has the winner of its board. The first player is black,
-- the second red, and they are two users.
pub record IsValid (s : SessionState) : Type 0 where
  pub board : IsBoard s.size s.layout
  pub over : is_terminal s ≡ is_some s.winner
  pub undecided : is_terminal s ≡ false → resolve_winner s.layout s.size ≡ none
  pub played_out : s.status ≡ finished → resolve_winner s.layout s.size ≡ s.winner
  pub first_black : s.players.0.symbol ≡ black
  pub second_red : s.players.1.symbol ≡ red
  pub distinct : s.players.0.user_id ≢ s.players.1.user_id

-- A new session is valid.
pub initial_state-IsValid :
    (n : NewSession) (timeout now : ℕ)
    → 0 < n.size
    → n.players.0.user_id ≢ n.players.1.user_id
    → IsValid (initial_state n timeout now)
unfolding initial_state is_terminal
initial_state-IsValid n timeout now h d = record {
  board = empty_layout-IsBoard n.size h;
  over = refl;
  undecided = λ _. resolve_winner-empty_layout n.size h;
  played_out = λ e. cc;
  first_black = refl;
  second_red = refl;
  distinct = d;
}

after_layout-IsValid :
    (s : SessionState) (layout : Text) (w : Option Symbol) (timer : ℕ)
    → IsValid s
    → IsBoard s.size layout
    → resolve_winner layout s.size ≡ w
    → IsValid (after_layout s layout w timer)
unfolding after_layout is_terminal
after_layout-IsValid s layout none timer v b e = record {
  board = b;
  over = refl;
  undecided = λ _. e;
  played_out = λ f. cc;
  first_black = v.first_black;
  second_red = v.second_red;
  distinct = v.distinct;
}
after_layout-IsValid s layout (some w) timer v b e = record {
  board = b;
  over = refl;
  undecided = λ f. cc;
  played_out = λ _. e;
  first_black = v.first_black;
  second_red = v.second_red;
  distinct = v.distinct;
}

not_finished : (s : SessionState) → is_terminal s ≡ false → s.status ≢ finished
unfolding is_terminal
not_finished s o f = let e = ap is_terminal_status f in cc

swapped-IsValid :
    (s : SessionState) (timeout now : ℕ)
    → is_terminal s ≡ false
    → IsValid s
    → IsValid (build_pie_swap_state timeout now s)
unfolding build_pie_swap_state is_terminal
swapped-IsValid s timeout now o v = record {
  board = swap_layout-IsBoard s.size s.layout v.board;
  over = v.over;
  undecided = λ _. resolve_winner-swap_layout s.layout s.size (v.undecided o);
  played_out = λ f. absurd (not_finished s o f);
  first_black = v.first_black;
  second_red = v.second_red;
  distinct = v.distinct;
}

dropped-IsValid :
    (s : SessionState) (grace now user_id : ℕ)
    → is_terminal s ≡ false
    → IsValid s
    → IsValid (disconnected_state grace now s user_id)
unfolding disconnected_state is_terminal
dropped-IsValid s grace now user_id o v = record {
  board = v.board;
  over = sym o ∙ v.over;
  undecided = λ _. v.undecided o;
  played_out = λ f. cc;
  first_black = v.first_black;
  second_red = v.second_red;
  distinct = v.distinct;
}

resumed-IsValid :
    (s : SessionState) (user_id : ℕ)
    → is_terminal s ≡ false
    → IsValid s
    → IsValid (reconnected_state s user_id)
unfolding reconnected_state is_terminal
resumed-IsValid s user_id o v = record {
  board = v.board;
  over = sym o ∙ v.over;
  undecided = λ _. v.undecided o;
  played_out = λ f. cc;
  first_black = v.first_black;
  second_red = v.second_red;
  distinct = v.distinct;
}

forfeited-IsValid : (s : SessionState) (user_id : ℕ) → IsValid s → IsValid (expired_state s user_id)
unfolding expired_state is_terminal
forfeited-IsValid s user_id v = record {
  board = v.board;
  over = refl;
  undecided = λ f. cc;
  played_out = λ f. cc;
  first_black = v.first_black;
  second_red = v.second_red;
  distinct = v.distinct;
}

resigned-IsValid : (s : SessionState) (w : Symbol) → IsValid s → IsValid (abandoned_state s w)
unfolding abandoned_state is_terminal
resigned-IsValid s w v = record {
  board = v.board;
  over = refl;
  undecided = λ f. cc;
  played_out = λ f. cc;
  first_black = v.first_black;
  second_red = v.second_red;
  distinct = v.distinct;
}

-- A move on a free cell of a valid session gives a valid session.
placed-IsValid :
    (s : SessionState) (timeout now row col : ℕ) (symbol : Symbol)
    → get_cell s.layout row col ≡ some dot
    → IsValid s
    → IsValid (build_state_after_move timeout now s row col symbol)
unfolding build_state_after_move
placed-IsValid s timeout now row col symbol c v =
    after_layout-IsValid s _ _ _ v
      (set_cell-IsBoard s.size s.layout row col symbol v.board
        (InRange-of_get_cell s.layout row col dot c))
      refl

-- Every change of a valid session gives a valid session.
pub Transition-IsValid :
    (timeout grace : ℕ) (s t : SessionState) → Transition timeout grace s t → IsValid s → IsValid t
Transition-IsValid timeout grace s t (placed now row col o c b e) v =
    subst IsValid (sym e) (placed-IsValid s timeout now row col _ c v)
Transition-IsValid timeout grace s t (swapped now o l e) v =
    subst IsValid (sym e) (swapped-IsValid s timeout now o v)
Transition-IsValid timeout grace s t (dropped now u o p e) v =
    subst IsValid (sym e) (dropped-IsValid s grace now u o v)
Transition-IsValid timeout grace s t (resumed u o p e) v =
    subst IsValid (sym e) (resumed-IsValid s u o v)
Transition-IsValid timeout grace s t (forfeited u o e) v =
    subst IsValid (sym e) (forfeited-IsValid s u v)
Transition-IsValid timeout grace s t (resigned u q o f e) v =
    subst IsValid (sym e) (resigned-IsValid s q.symbol v)
