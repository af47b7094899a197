-- ===== src/Session/Finality.antt =====
-- Versions and endings over the sequences of calls of Session/History.antt, in which no chat message
-- overlaps a save: what a version names, what a session that is over keeps, and which requests an
-- old version refuses. Session/Lost.antt shows what a chat message that overlaps a move does.
use Prim.Native.String.{String}
use yovi_es1c.Prelude.{List, ℕ, ◌+◌, ◌≤◌, ◌≡◌, ◌≢◌, refl, sym, ap, ◌∙◌, inl, inr, true, some, arith}
use yovi_es1c.Prelude.Int.{pos_part}
use yovi_es1c.Board.Layout.{MoveCommand}
use yovi_es1c.Session.State.{
  SessionState, ChatMessage, is_terminal_status, is_terminal, current_player,
}
use yovi_es1c.Session.Machine.{
  Transition, Transition-Follows, Transition-open, build_state_after_move-Follows,
}
use yovi_es1c.Session.Store.{SessionStore}
use yovi_es1c.Session.Service.{Config, Service, ok, get_state}
use yovi_es1c.Session.Handlers.{handle_move, handle_pie_swap}
use yovi_es1c.Session.Accepted.{
  missing, refused, illegal, accepted, handle_move-Outcome, handle_pie_swap-Outcome,
}
use yovi_es1c.Session.Chatted.{Chatted, Chatted-refl, Chatted-trans}
use yovi_es1c.Session.History.{moves, Reach, here, next, AllValid, Moved, Step-Called}

-- A later state of a session: its version has grown, or it is the same but for chat messages.
pub record Later (s t : SessionState) : Type 0 where
  pub grows : s.version ≤ t.version
  pub fixes : t.version ≡ s.version → Chatted s t
  pub final : is_terminal s ≡ true → Chatted s t

Later-refl : (s : SessionState) → Later s s
Later-refl s = record {
  grows = omega arith;
  fixes = λ e. Chatted-refl s;
  final = λ e. Chatted-refl s;
}

Chatted-is_terminal : (s t : SessionState) → Chatted s t → is_terminal t ≡ is_terminal s
unfolding is_terminal
Chatted-is_terminal s t (ms, e) = ap (λ (x : SessionState). is_terminal_status x.status) e

Later-trans : (s t u : SessionState) → Later s t → Later t u → Later s u
Later-trans s t u a b = record {
  grows = omega (arith, a.grows, b.grows);
  fixes = λ e.
      let p = b.fixes (omega (arith, a.grows, b.grows)) in
      Chatted-trans s t u (a.fixes (omega (arith, a.grows, b.grows))) p;
  final = λ e. let p = a.final e in Chatted-trans s t u p (b.final (Chatted-is_terminal s t p ∙ e));
}

module _ (S : SessionStore) (cfg : Config) where
  Later-of_Moved : (s t : SessionState) → Moved S cfg s t → Later s t
  Later-of_Moved s t (inl (ms, e)) = record {
    grows = let v = ap (λ (x : SessionState). x.version) e in omega arith;
    fixes = λ _. (ms, e);
    final = λ _. (ms, e);
  }
  Later-of_Moved s t (inr step) =
      let v = (Transition-Follows _ _ s t step).version in
      let o = Transition-open _ _ s t step in
      record { grows = omega arith; fixes = λ e. absurd (omega arith); final = λ e. cc }

  -- If every stored session is valid and stands under its id, that stays so over the calls.
  pub Reach-AllValid :
      (sv sv' : Service S cfg) → AllValid S cfg sv → Reach S cfg sv sv' → AllValid S cfg sv'
  Reach-AllValid sv sv' all here = all
  Reach-AllValid sv sv' all (next {u} r st) =
      (Step-Called S cfg u sv' st (Reach-AllValid sv u all r)).valid

  -- A stored session stays stored, its version never falls, a version names one state up to chat
  -- messages, and a session that is over changes in its chat messages only.
  pub Reach-Later :
      (sv sv' : Service S cfg) (id : String) (s : SessionState)
      → AllValid S cfg sv
      → Reach S cfg sv sv'
      → get_state S cfg sv id ≡ some s
      → (t : SessionState) × (get_state S cfg sv' id ≡ some t) × Later s t
  Reach-Later sv sv' id s all here e = (s, e, Later-refl s)
  Reach-Later sv sv' id s all (next {u} r st) e =
      let (t, f, l) = Reach-Later sv u id s all r e in
      let (w, g, m) = (Step-Called S cfg u sv' st (Reach-AllValid sv u all r)).moved id t f in
      (w, g, Later-trans s t w l (Later-of_Moved t w m))

  -- What every change and every chat message keeps stays true of a session over the calls.
  pub Reach-keeps :
      (P : SessionState → Type 0)
      → ((s t : SessionState)
          → Transition cfg.turn_timeout_sec cfg.reconnect_grace_sec s t
          → P s
          → P t)
      → ((s t : SessionState) → Chatted s t → P s → P t)
      → (sv sv' : Service S cfg) (id : String) (s : SessionState) → AllValid S cfg sv
      → Reach S cfg sv sv'
      → get_state S cfg sv id ≡ some s
      → P s
      → (t : SessionState) × (get_state S cfg sv' id ≡ some t) × P t
  Reach-keeps P keeps chat sv sv' id s all here e p = (s, e, p)
  Reach-keeps P keeps chat sv sv' id s all (next {u} r st) e p =
      let (t, f, q) = Reach-keeps P keeps chat sv u id s all r e p in
      let (w, g, m) = (Step-Called S cfg u sv' st (Reach-AllValid sv u all r)).moved id t f in
      (w, g, elim m [ inl same ↦ chat t w same q | inr step ↦ keeps t w step q ])

  -- When every stored session is valid and one is over, then after any calls one after the other that
  -- session is stored as it was in everything but its chat messages. Among the calls, a chat message
  -- saves the session only as it is still stored, and a session is created under an unused id, on a
  -- board of at least one row, for two different users.
  pub Reach-final :
      (sv sv' : Service S cfg) (id : String) (s : SessionState)
      → AllValid S cfg sv
      → Reach S cfg sv sv'
      → get_state S cfg sv id ≡ some s
      → is_terminal s ≡ true
      → (messages : List ChatMessage) × (get_state S cfg sv' id
          ≡ some (record s { messages = messages }))
  Reach-final sv sv' id s all r e o =
      let (t, f, l) = Reach-Later sv sv' id s all r e in
      let (ms, g) = l.final o in (ms, f ∙ ap some g)

  module _ (sv : Service S cfg) (id : String) (s : SessionState)
      (found : get_state S cfg sv id ≡ some s) (user_id expected now : ℕ)
      (old : s.version ≢ expected) where
    stale_read : (t : SessionState) → get_state S cfg sv id ≡ some t → t.version ≢ expected
    stale_read t e h =
        let q : t ≡ s = let p = sym e ∙ found in cc in
        old (ap (λ (x : SessionState). x.version) (sym q) ∙ h)

    -- A move made against another version than the stored one is never accepted.
    pub stale_move :
        (command : MoveCommand) (r : SessionState)
        → (handle_move S cfg sv id user_id command expected now).1 ≢ ok r
    stale_move command r h = elim (handle_move-Outcome S cfg sv id user_id expected now command) [
      | missing e k w ↦ cc
      | refused t c e f k w ↦ cc
      | illegal t e a l k w ↦ cc
      | accepted t e a l k w ↦ stale_read t e a.current
    ]

    -- Neither is a swap.
    pub stale_swap :
        (r : SessionState) → (handle_pie_swap S cfg sv id user_id expected now).1 ≢ ok r
    stale_swap r h = elim (handle_pie_swap-Outcome S cfg sv id user_id expected now) [
      | missing e k w ↦ cc
      | refused t c e f k w ↦ cc
      | illegal t e a l k w ↦ cc
      | accepted t e a l k w ↦ stale_read t e a.current
    ]

  ok_inj : (a b : SessionState) → ok a ≡ ok b → a ≡ b
  ok_inj a b e = cc

  -- The session that an accepted move stores, one version on.
  pub accepted_move :
      (sv : Service S cfg) (id : String) (user_id expected now : ℕ) (command : MoveCommand)
      (s : SessionState)
      → AllValid S cfg sv
      → (handle_move S cfg sv id user_id command expected now).1 ≡ ok s
      → (get_state S cfg (handle_move S cfg sv id user_id command expected now).0 id ≡ some s)
        × (s.version ≡ expected + 1)
  accepted_move sv id user_id expected now command s all h =
      elim (handle_move-Outcome S cfg sv id user_id expected now command) [
        | missing e k w ↦ absurd (let f = sym h ∙ k in cc)
        | refused t c e f k w ↦ absurd (let g = sym h ∙ k in cc)
        | illegal t e a l k w ↦ absurd (let g = sym h ∙ k in cc)
        | accepted t e a l k w ↦
            let x =
              build_state_after_move-Follows cfg.turn_timeout_sec now t (pos_part command.row)
                (pos_part command.col) (current_player t).symbol in
            let q = ok_inj _ s (sym k ∙ h) in
            let own = ap (λ (y : SessionState). y.match_id) (sym q) ∙ x.match_id ∙ (all id t e).1 in
            (
              ap (λ (y : S.Store). S.read y id) (w ∙ ap (S.write sv.store) q)
                  ∙ ap (S.read (S.write sv.store s)) (sym own)
                  ∙ S.read-write_self sv.store s,
              ap (λ (y : SessionState). y.version) (sym q)
                  ∙ x.version
                  ∙ ap (λ (n : ℕ). n + 1) a.current,
            )
      ]

  -- When every stored session is valid and a move is accepted, then a later move with the same
  -- expected version is refused, whatever calls are made in between one after the other. Among these,
  -- a chat message saves the session only as it is still stored, and a session is created under an
  -- unused id, on a board of at least one row, for two different users.
  pub one_move_per_version :
      (sv sv' : Service S cfg) (id : String) (user_id user_id' expected now now' : ℕ)
      (command command' : MoveCommand) (s r : SessionState)
      → AllValid S cfg sv
      → (handle_move S cfg sv id user_id command expected now).1 ≡ ok s
      → Reach S cfg (handle_move S cfg sv id user_id command expected now).0 sv'
      → (handle_move S cfg sv' id user_id' command' expected now').1 ≢ ok r
  one_move_per_version sv sv' id user_id user_id' expected now now' command command' s r all h
        reach =
      let (e, v) = accepted_move sv id user_id expected now command s all h in
      let valid = (Step-Called S cfg sv _ (moves id user_id command expected now refl) all).valid in
      let (t, f, l) = Reach-Later _ sv' id s valid reach e in
      stale_move sv' id t f user_id' expected now' (let g = l.grows in omega arith) command' r
