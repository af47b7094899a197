-- ===== src/Session/Accepted.antt =====
-- When a move or a swap is accepted, and what a refusal leaves behind.
use Prim.Native.String.{String}
use yovi_es1c.Prelude.{
  ℕ, ◌≡◌, ◌≢◌, refl, inl, inr, Bool, true, false, not, ◌==◌, Bool-cases, Option-cases, some, none,
  arith, if◌then◌else◌,
}
use yovi_es1c.Prelude.Int.{pos_part}
use yovi_es1c.Board.Layout.{MoveCommand, is_move_valid}
use yovi_es1c.Session.State.{SessionState, is_terminal, current_player, is_pie_swap_legal}
use yovi_es1c.Session.Transitions.{build_state_after_move, build_pie_swap_state}
use yovi_es1c.Session.Store.{SessionStore}
use yovi_es1c.Session.Service.{
  MoveErrorCode, version_conflict, not_your_turn, invalid_move, session_not_found, session_terminal,
  pie_rule_not_available, Result, ok, err, Config, Service, get_state, throw_move_error,
  throw_version_conflict,
}
use yovi_es1c.Session.Stored.{
  throw_move_error_lem, throw_version_conflict_lem, store-commit_move, store-commit_swap,
}
use yovi_es1c.Session.Handlers.{move_in, handle_move, swap_in, handle_pie_swap}

module _ (S : SessionStore) (cfg : Config) (sv : Service S cfg) (match_id : String) (user_id : ℕ)
    (expected_version now : ℕ) where
  -- What a move and a swap are checked for alike.
  pub record Admits (state : SessionState) : Type 0 where
    pub open_still : is_terminal state ≡ false
    pub current : state.version ≡ expected_version
    pub in_turn : (current_player state).user_id ≡ user_id

  -- The codes of the common refusals, in the order of the checks.
  pub data Refuses (state : SessionState) : MoveErrorCode → Type 0 where
    over : is_terminal state ≡ true → Refuses state session_terminal
    stale :
        is_terminal state ≡ false
        → state.version ≢ expected_version
        → Refuses state version_conflict
    waits :
        is_terminal state ≡ false
        → state.version ≡ expected_version
        → (current_player state).user_id ≢ user_id
        → Refuses state not_your_turn

  -- The outcome of a guarded update: the state `after` is saved and returned, or nothing is saved.
  pub data Outcome (legal : SessionState → Bool) (code : MoveErrorCode)
      (after : SessionState → SessionState) (r : Service S cfg × Result SessionState) : Type 0 where
    missing :
        get_state S cfg sv match_id ≡ none
        → r.1 ≡ err session_not_found
        → r.0.store ≡ sv.store
        → Outcome legal code after r
    refused :
        (state : SessionState) (c : MoveErrorCode)
        → get_state S cfg sv match_id ≡ some state
        → Refuses state c
        → r.1 ≡ err c
        → r.0.store ≡ sv.store
        → Outcome legal code after r
    illegal :
        (state : SessionState)
        → get_state S cfg sv match_id ≡ some state
        → Admits state
        → legal state ≡ false
        → r.1 ≡ err code
        → r.0.store ≡ sv.store
        → Outcome legal code after r
    accepted :
        (state : SessionState)
        → get_state S cfg sv match_id ≡ some state
        → Admits state
        → legal state ≡ true
        → r.1 ≡ ok (after state)
        → r.0.store ≡ S.write sv.store (after state)
        → Outcome legal code after r

  abbrev Refusal : Bool → MoveErrorCode → Service S cfg × Result SessionState
  Refusal track code = throw_move_error S cfg sv match_id user_id code track

  -- The checks that both handlers make, in their order, before the last one and the update.
  guarded :
      (state : SessionState) (track : Bool) (legal : SessionState → Bool) (code : MoveErrorCode)
      (after : SessionState → SessionState) (last done : Service S cfg × Result SessionState)
      → get_state S cfg sv match_id ≡ some state
      → (last.0.store ≡ sv.store) × (last.1 ≡ err code)
      → (done.0.store ≡ S.write sv.store (after state)) × (done.1 ≡ ok (after state))
      → Outcome legal code after (
          if is_terminal state
          then Refusal track session_terminal
          else if not (expected_version == state.version)
          then throw_version_conflict S cfg sv state match_id user_id
          else if not ((current_player state).user_id == user_id)
          then Refusal true not_your_turn
          else if not (legal state)
          then last
          else done)
  guarded state track legal code after last done e l d = elim (Bool-cases (is_terminal state)) [
    | inl t ↦
        let (h, k) =
          throw_move_error_lem S cfg sv {A = SessionState} match_id user_id session_terminal
            track in
        rw t (refused state session_terminal e (over t) k h)
    | inr t ↦ elim (Bool-cases (expected_version == state.version)) [
      | inr v ↦
          let (h, k) =
            throw_version_conflict_lem S cfg sv {A = SessionState} state match_id user_id in
          rw (t, v) (refused state version_conflict e (stale t (ground arith)) k h)
      | inl v ↦ elim (Bool-cases ((current_player state).user_id == user_id)) [
        | inr u ↦
            let (h, k) =
              throw_move_error_lem S cfg sv {A = SessionState} match_id user_id not_your_turn
                true in
            rw (t, v, u) (refused state not_your_turn e (waits t (ground arith) (ground arith)) k h)
        | inl u ↦
            let admits : Admits state = record {
              open_still = t;
              current = ground arith;
              in_turn = ground arith;
            } in
            elim (Bool-cases (legal state)) [
              | inr m ↦ rw (t, v, u, m) (illegal state e admits m l.1 l.0)
              | inl m ↦ rw (t, v, u, m) (accepted state e admits m d.1 d.0)
            ]
      ]
    ]
  ]

  -- The session after the move, at the current player's symbol.
  abbrev pub after_move : MoveCommand → SessionState → SessionState
  after_move command state =
      build_state_after_move cfg.turn_timeout_sec now state (pos_part command.row)
        (pos_part command.col) (current_player state).symbol

  abbrev pub can_move : MoveCommand → SessionState → Bool
  can_move command state = is_move_valid state.layout state.rules command

  -- handleMove saves the session after the move exactly when the session exists, is not over, has
  -- the expected version, the user is in turn and the move is valid; each refusal has its code, the
  -- first check that fails decides, and a refusal leaves the store as it was.
  pub handle_move-Outcome :
      (command : MoveCommand)
      → Outcome
          (can_move command)
          invalid_move
          (after_move command)
          (handle_move S cfg sv match_id user_id command expected_version now)
  unfolding handle_move move_in
  handle_move-Outcome command = elim (Option-cases (get_state S cfg sv match_id)) [
    | inl e ↦
        let (h, k) =
          throw_move_error_lem S cfg sv {A = SessionState} match_id user_id session_not_found
            true in
        rw (e, handle_move) (missing e k h)
    | inr (state, e) ↦
        rw (e, handle_move)
          (guarded state true (can_move command) invalid_move (after_move command) _ _ e
            (throw_move_error_lem S cfg sv match_id user_id invalid_move true)
            (store-commit_move S cfg sv (after_move command state), refl))
  ]

  abbrev pub after_swap : SessionState → SessionState
  after_swap state = build_pie_swap_state cfg.turn_timeout_sec now state

  -- handlePieSwap saves the swapped session exactly when the session exists, is not over, has the
  -- expected version, the user is in turn and the swap is legal; each refusal has its code, the
  -- first check that fails decides, and a refusal leaves the store as it was.
  pub handle_pie_swap-Outcome :
      Outcome is_pie_swap_legal pie_rule_not_available after_swap
        (handle_pie_swap S cfg sv match_id user_id expected_version now)
  unfolding handle_pie_swap swap_in
  handle_pie_swap-Outcome = elim (Option-cases (get_state S cfg sv match_id)) [
    | inl e ↦
        let (h, k) =
          throw_move_error_lem S cfg sv {A = SessionState} match_id user_id session_not_found
            false in
        rw (e, handle_pie_swap) (missing e k h)
    | inr (state, e) ↦
        rw (e, handle_pie_swap)
          (guarded state false is_pie_swap_legal pie_rule_not_available after_swap _ _ e
            (throw_move_error_lem S cfg sv match_id user_id pie_rule_not_available false)
            (store-commit_swap S cfg sv (after_swap state), refl))
  ]
