-- ===== src/Session/Changes.antt =====
-- Every handler refines the state machine of one session: it leaves the store alone, or it saves
-- one session after one of its changes.
use Prim.Native.String.{String}
use yovi_es1c.Prelude.{
  ℕ, ◌≡◌, refl, ◌∙◌, false, ◌==◌, Bool-cases, Option-cases, Option, some, none, is_some, inl, inr,
}
use yovi_es1c.Prelude.Int.{pos_part}
use yovi_es1c.Prelude.Maps.{nat_eq, lookup}
use yovi_es1c.Board.Layout.{Symbol, MoveCommand}
use yovi_es1c.Session.State.{
  SessionState, is_terminal, current_player, is_participant, find_opponent,
}
use yovi_es1c.Session.Transitions.{
  TimeoutAction, move, swap, pick_timeout_action, expired_state, forfeit_winner,
}
use yovi_es1c.Session.Machine.{Transition, placed, swapped, dropped, resumed, forfeited, resigned}
use yovi_es1c.Session.Validity.{IsValid}
use yovi_es1c.Session.Timeouts.{IsLegal, free_of_valid, pick_timeout_action-IsLegal}
use yovi_es1c.Session.Store.{SessionStore}
use yovi_es1c.Session.Service.{
  Config, Service, get_state, logged, save_state, settle, emit_session_state, count_timeout,
  count_event, player_forfeited,
}
use yovi_es1c.Session.Stored.{
  store-settle, store-emit_session_state, store-save_state, store-commit_move, store-commit_swap,
}
use yovi_es1c.Session.Accepted.{
  missing, refused, illegal, accepted, handle_move-Outcome, handle_pie_swap-Outcome,
}
use yovi_es1c.Session.Handlers.{
  handle_move, handle_pie_swap, mark_disconnected, is_past, reconnect, forfeit, is_overdue,
  expire_grace, abandon, act, handle_turn_timeout,
}

module _ (S : SessionStore) (cfg : Config) where
  -- What a handler may do to the store.
  pub data Change (sv sv' : Service S cfg) : Type 0 where
    kept : sv'.store ≡ sv.store → Change sv sv'
    wrote :
        (id : String) (s t : SessionState)
        → get_state S cfg sv id ≡ some s
        → Transition cfg.turn_timeout_sec cfg.reconnect_grace_sec s t
        → sv'.store ≡ S.write sv.store t
        → Change sv sv'

  module _ (sv : Service S cfg) (id : String) (user_id : ℕ) where
    pub handle_move-Change :
        (command : MoveCommand) (expected_version now : ℕ)
        → Change sv (handle_move S cfg sv id user_id command expected_version now).0
    handle_move-Change command expected now =
        elim (handle_move-Outcome S cfg sv id user_id expected now command) [
          | missing e k h ↦ kept h
          | refused s c e r k h ↦ kept h
          | illegal s e a l k h ↦ kept h
          | accepted s e a l k h ↦
              let (free, unblocked) = free_of_valid s.layout s.rules command.row command.col l in
              wrote id s _ e
                (placed now (pos_part command.row) (pos_part command.col) a.open_still free
                  unblocked refl)
                h
        ]

    pub handle_pie_swap-Change :
        (expected_version now : ℕ)
        → Change sv (handle_pie_swap S cfg sv id user_id expected_version now).0
    handle_pie_swap-Change expected now =
        elim (handle_pie_swap-Outcome S cfg sv id user_id expected now) [
          | missing e k h ↦ kept h
          | refused s c e r k h ↦ kept h
          | illegal s e a l k h ↦ kept h
          | accepted s e a l k h ↦ wrote id s _ e (swapped now a.open_still l refl) h
        ]

    pub mark_disconnected-Change :
        (now : ℕ) → Change sv (mark_disconnected S cfg sv id user_id now).0
    unfolding mark_disconnected
    mark_disconnected-Change now = elim (Option-cases (get_state S cfg sv id)) [
      | inl e ↦ rw (e, mark_disconnected) (kept refl)
      | inr (s, e) ↦ elim (Bool-cases (is_terminal s)) [
        | inl t ↦ rw (e, mark_disconnected, t) (kept refl)
        | inr t ↦ elim (Bool-cases (is_participant s user_id)) [
          | inr p ↦ rw (e, mark_disconnected, t, p) (kept refl)
          | inl p ↦
              rw (e, mark_disconnected, t, p)
                (wrote id s _ e (dropped now user_id t p refl) (store-save_state S cfg sv _))
        ]
      ]
    ]

    -- reconnect leaves the store as it was or writes one transition of a stored session.
    pub reconnect-Change : (now : ℕ) → Change sv (reconnect S cfg sv id user_id now).0
    unfolding reconnect
    reconnect-Change now = elim (Option-cases (get_state S cfg sv id)) [
      | inl e ↦ rw (e, reconnect) (kept refl)
      | inr (s, e) ↦ elim (Bool-cases (is_participant s user_id)) [
        | inr p ↦ rw (e, reconnect, p) (kept refl)
        | inl p ↦ elim (Bool-cases (is_terminal s)) [
          | inl t ↦ rw (e, reconnect, p, t) (kept refl)
          | inr t ↦ elim (Bool-cases (is_past S cfg (lookup user_id s.reconnect_deadline) now)) [
            | inl d ↦ rw (e, reconnect, p, t, d) (kept refl)
            | inr d ↦
                rw (e, reconnect, p, t, d)
                  (wrote id s _ e (resumed user_id t p refl) (store-save_state S cfg sv _))
          ]
        ]
      ]
    ]

    pub store-forfeit :
        (s : SessionState)
        → (forfeit S cfg sv s user_id).store ≡ S.write sv.store (expired_state s user_id)
    unfolding forfeit
    store-forfeit s =
        let next = expired_state s user_id in
        let saved = logged S cfg (save_state S cfg sv next) (count_event player_forfeited) in
        store-emit_session_state S cfg _ next
        ∙ store-settle S cfg saved next (some (forfeit_winner s user_id))
        ∙ store-save_state S cfg sv next

    -- expireGrace leaves the store as it was or writes one transition of a stored session.
    pub expire_grace-Change : (now : ℕ) → Change sv (expire_grace S cfg sv id user_id now).0
    unfolding expire_grace
    expire_grace-Change now = elim (Option-cases (get_state S cfg sv id)) [
      | inl e ↦ rw (e, expire_grace) (kept refl)
      | inr (s, e) ↦ elim (Bool-cases (is_terminal s)) [
        | inl t ↦ rw (e, expire_grace, t) (kept refl)
        | inr t ↦ elim (Bool-cases (is_overdue S cfg (lookup user_id s.reconnect_deadline) now)) [
          | inr d ↦ rw (e, expire_grace, t, d) (kept refl)
          | inl d ↦
              rw (e, expire_grace, t, d)
                (wrote id s _ e (forfeited user_id t refl) (store-forfeit s))
        ]
      ]
    ]

    pub store-resign :
        (s t : SessionState) (w : Option Symbol)
        → (emit_session_state S cfg (settle S cfg (save_state S cfg sv t) t w) t).store
          ≡ S.write sv.store t
    store-resign s t w =
        store-emit_session_state S cfg _ t
        ∙ store-settle S cfg (save_state S cfg sv t) t w
        ∙ store-save_state S cfg sv t

    pub abandon-Change : Change sv (abandon S cfg sv id user_id).0
    unfolding abandon
    abandon-Change = elim (Option-cases (get_state S cfg sv id)) [
      | inl e ↦ rw (e, abandon) (kept refl)
      | inr (s, e) ↦ elim (Bool-cases (is_participant s user_id)) [
        | inr p ↦ rw (e, abandon, p) (kept refl)
        | inl p ↦ elim (Bool-cases (is_terminal s)) [
          | inl t ↦ rw (e, abandon, p, t) (kept refl)
          | inr t ↦ elim (Option-cases (find_opponent s user_id)) [
            | inl o ↦ rw (e, abandon, p, t, o) (kept refl)
            | inr (q, o) ↦
                rw (e, abandon, p, t, o)
                  (wrote id s _ e (resigned user_id q t o refl) (store-resign s _ (some q.symbol)))
          ]
        ]
      ]
    ]

    act-Change :
        (s : SessionState) (now : ℕ) (o : Option TimeoutAction)
        → get_state S cfg sv id ≡ some s
        → is_terminal s ≡ false
        → ((a : TimeoutAction) → o ≡ some a → IsLegal s a)
        → Change sv (act S cfg (logged S cfg sv count_timeout) s now o)
    unfolding act
    act-Change s now none e t legal = kept refl
    act-Change s now (some swap) e t legal =
        wrote id s _ e (swapped now t (legal swap refl) refl) (store-commit_swap S cfg _ _)
    act-Change s now (some (move c)) e t legal =
        let (free, unblocked) = free_of_valid s.layout s.rules c.row c.col (legal (move c) refl) in
        wrote id s _ e (placed now (pos_part c.row) (pos_part c.col) t free unblocked refl)
          (store-commit_move S cfg _ _)

    -- When the session under the id, if any, is valid, handleTurnTimeout leaves the store as it was or
    -- writes one transition of a stored session, although it asks for no winner instead of a
    -- session that is not over.
    pub handle_turn_timeout-Change :
        (expected_version draw now : ℕ)
        → ((s : SessionState) → get_state S cfg sv id ≡ some s → IsValid s)
        → Change sv (handle_turn_timeout S cfg sv id user_id expected_version draw now)
    unfolding handle_turn_timeout
    handle_turn_timeout-Change expected draw now valid =
        elim (Option-cases (get_state S cfg sv id)) [
          | inl e ↦ rw (e, handle_turn_timeout) (kept refl)
          | inr (s, e) ↦ elim (Bool-cases (is_some s.winner)) [
            | inl w ↦ rw (e, handle_turn_timeout, w) (kept refl)
            | inr w ↦ elim (Bool-cases (s.version == expected)) [
              | inr v ↦ rw (e, handle_turn_timeout, w, v) (kept refl)
              | inl v ↦ elim (Bool-cases ((current_player s).user_id == user_id)) [
                | inr u ↦ rw (e, handle_turn_timeout, w, v, u) (kept refl)
                | inl u ↦
                    rw (e, handle_turn_timeout, w, v, u)
                      (act-Change s now (pick_timeout_action s draw) e ((valid s e).over ∙ w)
                        (pick_timeout_action-IsLegal s draw))
              ]
            ]
          ]
        ]
