-- ===== src/Session/PieRule.antt =====
-- The pie rule: the second player may take over the only stone, once.
use Prim.Native.String.{String}
use mathlib.Core.Path.{subst}
use yovi_es1c.Prelude.{
  ℕ, ◌≤◌, ◌≡◌, ◌≢◌, refl, sym, ap, ◌∙◌, ◌⊎◌, inl, inr, true, false, Option, some, none, arith,
}
use yovi_es1c.Prelude.Text.{Text}
use yovi_es1c.Board.Layout.{Symbol, dot, get_cell, count_stones}
use yovi_es1c.Board.Stones.{count_stones-set_cell, count_stones-swap_layout}
use yovi_es1c.Session.State.{SessionState, first, is_pie_swap_legal}
use yovi_es1c.Session.Transitions.{
  after_layout, build_state_after_move, build_pie_swap_state, disconnected_state, reconnected_state,
  expired_state, abandoned_state,
}
use yovi_es1c.Session.Machine.{Transition, placed, swapped, dropped, resumed, forfeited, resigned}
use yovi_es1c.Session.Store.{SessionStore}
use yovi_es1c.Session.Service.{Config, Service, ok, get_state}
use yovi_es1c.Session.Handlers.{handle_pie_swap}
use yovi_es1c.Session.Accepted.{missing, refused, illegal, accepted, handle_pie_swap-Outcome}
use yovi_es1c.Session.Chatted.{Chatted}
use yovi_es1c.Session.History.{AllValid, Reach, swaps, Step-Called}
use yovi_es1c.Session.Finality.{Reach-keeps}

-- The rule is used up: a stone lies on the board with the first player in turn, or two stones do.
abbrev pub IsSpent : SessionState → Type 0
IsSpent s = ((s.turn ≡ first) × (1 ≤ count_stones s.layout)) ⊎ (2 ≤ count_stones s.layout)

one_stone : (s : SessionState) → IsSpent s → 1 ≤ count_stones s.layout
one_stone s h = omega arith

-- A swap is not legal once the rule is used up.
IsSpent-illegal : (s : SessionState) → IsSpent s → is_pie_swap_legal s ≡ false
unfolding is_pie_swap_legal
IsSpent-illegal s h = ground arith

legal_stones : (s : SessionState) → is_pie_swap_legal s ≡ true → count_stones s.layout ≡ 1
unfolding is_pie_swap_legal
legal_stones s h = ground arith

-- After a legal swap the rule is used up.
pub swapped-IsSpent :
    (s : SessionState) (timeout now : ℕ)
    → is_pie_swap_legal s ≡ true
    → IsSpent (build_pie_swap_state timeout now s)
unfolding build_pie_swap_state
swapped-IsSpent s timeout now h =
    inl (refl, omega (arith, count_stones-swap_layout s.layout, legal_stones s h))

after_layout-IsSpent :
    (s : SessionState) (l : Text) (w : Option Symbol) (timer : ℕ)
    → 2 ≤ count_stones l
    → IsSpent (after_layout s l w timer)
unfolding after_layout
after_layout-IsSpent s l none timer h = inr h
after_layout-IsSpent s l (some w) timer h = inr h

placed-IsSpent :
    (s : SessionState) (timeout now row col : ℕ) (symbol : Symbol)
    → get_cell s.layout row col ≡ some dot
    → IsSpent s
    → IsSpent (build_state_after_move timeout now s row col symbol)
unfolding build_state_after_move
placed-IsSpent s timeout now row col symbol free h =
    after_layout-IsSpent s _ _ _
      (omega (arith, count_stones-set_cell s.layout row col symbol free, one_stone s h))

Transition-IsSpent :
    (timeout grace : ℕ) (s t : SessionState) → Transition timeout grace s t → IsSpent s → IsSpent t
unfolding disconnected_state reconnected_state expired_state abandoned_state
Transition-IsSpent timeout grace s t (placed now row col o c b e) h =
    subst IsSpent (sym e) (placed-IsSpent s timeout now row col _ c h)
Transition-IsSpent timeout grace s t (swapped now o l e) h =
    absurd (let f = IsSpent-illegal s h in cc)
Transition-IsSpent timeout grace s t (dropped now u o p e) h = subst IsSpent (sym e) h
Transition-IsSpent timeout grace s t (resumed u o p e) h = subst IsSpent (sym e) h
Transition-IsSpent timeout grace s t (forfeited u o e) h = subst IsSpent (sym e) h
Transition-IsSpent timeout grace s t (resigned u q o f e) h = subst IsSpent (sym e) h

Chatted-IsSpent : (s t : SessionState) → Chatted s t → IsSpent s → IsSpent t
Chatted-IsSpent s t (ms, e) h = subst IsSpent (sym e) h

module _ (S : SessionStore) (cfg : Config) where
  -- An accepted swap stores a session whose rule is used up.
  accepted_swap :
      (sv : Service S cfg) (id : String) (user_id expected now : ℕ) (s : SessionState)
      → AllValid S cfg sv
      → (handle_pie_swap S cfg sv id user_id expected now).1 ≡ ok s
      → (get_state S cfg (handle_pie_swap S cfg sv id user_id expected now).0 id ≡ some s)
        × IsSpent s
  accepted_swap sv id user_id expected now s all h =
      elim (handle_pie_swap-Outcome S cfg sv id user_id expected now) [
        | missing e k w ↦ absurd (let f = sym h ∙ k in cc)
        | refused t c e f k w ↦ absurd (let g = sym h ∙ k in cc)
        | illegal t e a l k w ↦ absurd (let g = sym h ∙ k in cc)
        | accepted t e a l k w ↦
            let next = build_pie_swap_state cfg.turn_timeout_sec now t in
            let q : next ≡ s = ok_inj next s (sym k ∙ h) in
            let own : next.match_id ≡ id = unfold build_pie_swap_state in (all id t e).1 in
            (
              ap (λ (y : S.Store). S.read y id) w
                  ∙ ap (S.read (S.write sv.store next)) (sym own)
                  ∙ S.read-write_self sv.store next
                  ∙ ap some q,
              subst IsSpent q (swapped-IsSpent t cfg.turn_timeout_sec now l),
            )
      ]
    where
      ok_inj : (a b : SessionState) → ok a ≡ ok b → a ≡ b
      ok_inj a b e = cc

  -- When every stored session is valid and a swap is accepted, then no later swap of that session is
  -- accepted, whatever calls are made in between one after the other. Among these, a chat message
  -- saves the session only as it is still stored, and a session is created under an unused id, on a
  -- board of at least one row, for two different users.
  pub swap_once :
      (sv sv' : Service S cfg) (id : String) (user_id user_id' expected expected' now now' : ℕ)
      (s r : SessionState)
      → AllValid S cfg sv
      → (handle_pie_swap S cfg sv id user_id expected now).1 ≡ ok s
      → Reach S cfg (handle_pie_swap S cfg sv id user_id expected now).0 sv'
      → (handle_pie_swap S cfg sv' id user_id' expected' now').1 ≢ ok r
  swap_once sv sv' id user_id user_id' expected expected' now now' s r all h reach again =
      let (e, p) = accepted_swap sv id user_id expected now s all h in
      let valid = (Step-Called S cfg sv _ (swaps id user_id expected now refl) all).valid in
      let (t, f, q) =
        Reach-keeps S cfg IsSpent (Transition-IsSpent _ _) Chatted-IsSpent _ sv' id s valid reach e
          p in
      elim (handle_pie_swap-Outcome S cfg sv' id user_id' expected' now') [
        | missing g k w ↦ cc
        | refused u c g i k w ↦ cc
        | illegal u g a l k w ↦ cc
        | accepted u g a l k w ↦
            let same_state : u ≡ t = some_inj u t (sym g ∙ f) in
            let no_swap = IsSpent-illegal t q in
            absurd (let m = ap is_pie_swap_legal same_state in cc)
      ]
    where
      some_inj : (a b : SessionState) → some a ≡ some b → a ≡ b
      some_inj a b e = cc
