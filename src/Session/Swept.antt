-- ===== src/Session/Swept.antt =====
-- sweepExpiredSessions of OnlineSessionService.ts: who wins when the sweep ends a session.
use Prim.Native.String.{String}
use yovi_es1c.Prelude.{
  ℕ, ◌+◌, ◌<◌, ◌≤◌, ◌≡◌, ◌≢◌, refl, sym, ap, ◌∙◌, ◌⊎◌, inl, inr, true, false, Bool, Option, some,
  arith,
}
use yovi_es1c.Prelude.Maps.{nat_eq, lookup}
use yovi_es1c.Session.State.{
  SessionState, PlayerState, waiting_reconnect, expired, is_terminal, is_terminal_status,
}
use yovi_es1c.Session.Transitions.{forfeit_winner, expired_state}
use yovi_es1c.Session.Validity.{IsValid}
use yovi_es1c.Session.Store.{SessionStore}
use yovi_es1c.Session.Service.{Config, Service, ok, get_state}
use yovi_es1c.Session.Handlers.{is_past, is_overdue, forfeit, expire_grace}
use yovi_es1c.Session.Changes.{store-forfeit}
use yovi_es1c.Session.Sweep.{is_waiting, expired_player, sweep_session}

-- The two players of a session, in either order.
abbrev pub Sides : SessionState → PlayerState → PlayerState → Type 0
Sides s p q = ((s.players.0 ≡ p) × (s.players.1 ≡ q)) ⊎ ((s.players.1 ≡ p) × (s.players.0 ≡ q))

forfeit_winner-other :
    (s : SessionState) (p q : PlayerState)
    → IsValid s
    → Sides s p q
    → forfeit_winner s p.user_id ≡ q.symbol
unfolding forfeit_winner
forfeit_winner-other s p q v (inl (e, f)) =
    let same : s.players.0.user_id ≡ p.user_id = ap (λ (x : PlayerState). x.user_id) e in
    let symbol = ap (λ (x : PlayerState). x.symbol) f in ground (arith, v.second_red)
forfeit_winner-other s p q v (inr (e, f)) =
    let same : s.players.1.user_id ≡ p.user_id = ap (λ (x : PlayerState). x.user_id) e in
    let symbol = ap (λ (x : PlayerState). x.symbol) f in
    let apart : s.players.0.user_id ≢ p.user_id = λ k. v.distinct (k ∙ sym same) in
    ground (arith, v.first_black)

expired_player-late :
    (past : Option (Option ℕ) → ℕ → Bool) (s : SessionState) (p q : PlayerState) (now : ℕ)
    → Sides s p q
    → past (lookup p.user_id s.reconnect_deadline) now ≡ true
    → past (lookup q.user_id s.reconnect_deadline) now ≡ false
    → expired_player past s now ≡ some p
unfolding expired_player
expired_player-late past s p q now (inl (e, f)) late early = rw (e, late) refl
expired_player-late past s p q now (inr (e, f)) late early = rw (e, f, late, early) refl

module _ (S : SessionStore) (cfg : Config) (sv : Service S cfg) (s : SessionState) (now : ℕ) where
  expire_grace-stored :
      (u : ℕ)
      → get_state S cfg sv s.match_id ≡ some s
      → is_terminal s ≡ false
      → is_overdue S cfg (lookup u s.reconnect_deadline) now ≡ true
      → (expire_grace S cfg sv s.match_id u now
          ≡ (forfeit S cfg sv s u, ok (some (expired_state s u))))
        × (get_state S cfg (forfeit S cfg sv s u) s.match_id ≡ some (expired_state s u))
  unfolding expire_grace expired_state
  expire_grace-stored u e t d = (
    rw (e, expire_grace, t, d) refl,
    ap (λ (x : S.Store). S.read x s.match_id) (store-forfeit S cfg sv s.match_id u s)
        ∙ S.read-write_self sv.store (expired_state s u),
  )

  -- When a session that is valid and stored waits for a reconnection, the deadline of one player has
  -- passed and the other player has none or a later one, then a sweep ends it: the stored session is
  -- expired, one version on, and won by the symbol of the other player; the sweep counts it.
  pub sweep_session-winner :
      (p q : PlayerState) (draw : String → ℕ) (deadline : ℕ)
      → get_state S cfg sv s.match_id ≡ some s
      → IsValid s
      → s.status ≡ waiting_reconnect
      → Sides s p q
      → lookup p.user_id s.reconnect_deadline ≡ some (some deadline)
      → 0 < deadline
      → deadline ≤ now
      → is_past S cfg (lookup q.user_id s.reconnect_deadline) now ≡ false
      → (t : SessionState) × (get_state S cfg (sweep_session S cfg sv s draw now).0 s.match_id
          ≡ some t)
        × ((sweep_session S cfg sv s draw now).1 ≡ 1)
        × (t.status ≡ expired)
        × (t.version ≡ s.version + 1)
        × (t.winner ≡ some q.symbol)
  unfolding sweep_session is_terminal expired_state
  sweep_session-winner p q draw deadline e v w sides at positive over other =
      let going : is_terminal s ≡ false = ap is_terminal_status w in
      let waits : is_waiting s.status ≡ true = ap is_waiting w in
      let late : is_past S cfg (lookup p.user_id s.reconnect_deadline) now ≡ true =
        ap (λ (x : Option (Option ℕ)). is_past S cfg x now) at ∙ ground arith in
      let due : is_overdue S cfg (lookup p.user_id s.reconnect_deadline) now ≡ true =
        ap (λ (x : Option (Option ℕ)). is_overdue S cfg x now) at ∙ ground arith in
      let first = expired_player-late (is_past S cfg) s p q now sides late other in
      let (grace, stored) = expire_grace-stored p.user_id e going due in
      (
        expired_state s p.user_id,
        rw (sweep_session, going, waits, first, grace) stored,
        rw (sweep_session, going, waits, first, grace) refl,
        refl,
        refl,
        ap some (forfeit_winner-other s p q v sides),
      )
