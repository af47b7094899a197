-- ===== src/Session/Forfeits.antt =====
-- Who wins a session that is given up: expireGrace and abandon name the other player.
use Prim.Native.String.{String}
use yovi_es1c.Prelude.{
  ℕ, ◌+◌, ap, ◌≡◌, ◌≢◌, refl, sym, ◌∙◌, inl, inr, ◌==◌, true, false, Bool-cases, some, arith,
}
use yovi_es1c.Prelude.Maps.{nat_eq}
use yovi_es1c.Session.State.{
  SessionState, PlayerState, abandoned, is_participant, find_opponent, is_terminal,
}
use yovi_es1c.Session.Transitions.{forfeit_winner, abandoned_state}
use yovi_es1c.Session.Validity.{IsValid}
use yovi_es1c.Session.Store.{SessionStore}
use yovi_es1c.Session.Service.{Config, Service, ok, get_state}
use yovi_es1c.Session.Handlers.{abandon}
use yovi_es1c.Session.Changes.{store-resign}

-- The other player of a valid session, whose symbol wins when the user gives up.
pub record Opponent (s : SessionState) (user_id : ℕ) : Type 0 where
  pub player : PlayerState
  pub found : find_opponent s user_id ≡ some player
  pub other : player.user_id ≢ user_id
  pub takes_part : is_participant s player.user_id ≡ true
  pub wins_forfeit : forfeit_winner s user_id ≡ player.symbol

-- Every participant of a valid session has an opponent, another participant of the session, and the
-- forfeit after an expired grace period goes to that opponent.
pub Opponent-of_participant :
    (s : SessionState) (user_id : ℕ)
    → IsValid s
    → is_participant s user_id ≡ true
    → Opponent s user_id
unfolding is_participant find_opponent forfeit_winner
Opponent-of_participant s user_id v h = elim (Bool-cases (s.players.0.user_id == user_id)) [
  | inl e ↦
      let same : s.players.0.user_id ≡ user_id = ground arith in
      let differs : s.players.1.user_id ≢ user_id = λ q. v.distinct (same ∙ sym q) in
      record {
        player = s.players.1;
        found = ground arith;
        other = differs;
        takes_part = ground arith;
        wins_forfeit = ground (arith, v.second_red);
      }
  | inr e ↦ record {
    player = s.players.0;
    found = ground arith;
    other = ground arith;
    takes_part = ground arith;
    wins_forfeit = ground (arith, v.first_black);
  }
]

module _ (S : SessionStore) (cfg : Config) where
  -- When a participant abandons a session that is valid, stored under its own id and not over, then
  -- it does not crash, and the session that is returned is stored under that id: over, abandoned, one
  -- version on, and won by the symbol of the participant that is not the user.
  pub abandon-winner :
      (sv : Service S cfg) (id : String) (user_id : ℕ) (s : SessionState)
      → get_state S cfg sv id ≡ some s
      → s.match_id ≡ id
      → IsValid s
      → is_participant s user_id ≡ true
      → is_terminal s ≡ false
      → (o : Opponent s user_id) × (t : SessionState) × ((abandon S cfg sv id user_id).1
          ≡ ok (some t))
        × (get_state S cfg (abandon S cfg sv id user_id).0 id ≡ some t)
        × (t.version ≡ s.version + 1)
        × (is_terminal t ≡ true)
        × (t.status ≡ abandoned)
        × (t.winner ≡ some o.player.symbol)
  unfolding abandon abandoned_state is_terminal
  abandon-winner sv id user_id s e own v p t =
      let o = Opponent-of_participant s user_id v p in
      let next = abandoned_state s o.player.symbol in
      let saved = store-resign S cfg sv id user_id s next (some o.player.symbol) in
      let read =
        ap (λ (x : S.Store). S.read x id) saved
        ∙ ap (S.read (S.write sv.store next)) (sym own)
        ∙ S.read-write_self sv.store next in
      (
        o,
        next,
        rw (e, abandon, p, t, o.found) refl,
        rw (e, abandon, p, t, o.found) read,
        refl,
        refl,
        refl,
        refl,
      )
