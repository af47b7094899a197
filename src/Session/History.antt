-- ===== src/Session/History.antt =====
-- Sequences of handler calls that do not overlap (OnlineSessionService.ts): the handlers run under
-- the lock of the match (withMatchLock), and addChatMessage, which takes no lock, is here a step
-- that saves the state still stored. Session/Overlap.antt lets it save an older one.
use Prim.Native.String.{String}
use mathlib.Core.Path.{subst}
use yovi_es1c.Prelude.{ℕ, ◌<◌, ◌≡◌, ◌≢◌, sym, ap, ◌∙◌, ◌⊎◌, inl, inr, Bool-cases, some, none, List}
use yovi_es1c.Prelude.Maps.{string_eq, same}
use yovi_es1c.Rules.{CellDraw}
use yovi_es1c.Board.Layout.{MoveCommand}
use yovi_es1c.Prelude.Text.{Text}
use yovi_es1c.Session.State.{SessionState}
use yovi_es1c.Session.Chat.{Filtered, chat_end}
use yovi_es1c.Session.Transitions.{NewSession, initial_state}
use yovi_es1c.Session.Machine.{Transition, Transition-Follows}
use yovi_es1c.Session.Validity.{IsValid, initial_state-IsValid, Transition-IsValid}
use yovi_es1c.Session.Store.{SessionStore}
use yovi_es1c.Session.Service.{Config, Service, get_state}
use yovi_es1c.Session.Chatted.{Chatted, Chatted-refl, Chatted-IsValid, chat_end-store}
use yovi_es1c.Session.Creation.{Created, create_session-Created}
use yovi_es1c.Session.Changes.{
  Change, kept, wrote, handle_move-Change, handle_pie_swap-Change, mark_disconnected-Change,
  reconnect-Change, expire_grace-Change, abandon-Change, handle_turn_timeout-Change,
}
use yovi_es1c.Session.Handlers.{
  create_session, handle_move, handle_pie_swap, mark_disconnected, reconnect, expire_grace, abandon,
  handle_turn_timeout,
}

module _ (S : SessionStore) (cfg : Config) where
  -- One call of a handler, by any user at any time with any arguments. A session is created under
  -- an unused id, on a board of at least one row and for two different users, none of which
  -- createSession checks. A chat message is saved with the state that is stored at that time, so
  -- nothing changed the session since it was read; the checks before the filter are not asked
  -- for, which only allows more.
  pub data Step (sv sv' : Service S cfg) : Type 0 where
    creates :
        (n : NewSession) (draws : List CellDraw) (now : ℕ) (s : SessionState)
        → get_state S cfg sv n.match_id ≡ none
        → 0 < n.size
        → n.players.0.user_id ≢ n.players.1.user_id
        → create_session S cfg sv n draws now ≡ some (sv', s)
        → Step sv sv'
    moves :
        (id : String) (user_id : ℕ) (command : MoveCommand) (expected_version now : ℕ)
        → sv' ≡ (handle_move S cfg sv id user_id command expected_version now).0
        → Step sv sv'
    swaps :
        (id : String) (user_id expected_version now : ℕ)
        → sv' ≡ (handle_pie_swap S cfg sv id user_id expected_version now).0
        → Step sv sv'
    disconnects :
        (id : String) (user_id now : ℕ)
        → sv' ≡ (mark_disconnected S cfg sv id user_id now).0
        → Step sv sv'
    reconnects :
        (id : String) (user_id now : ℕ) → sv' ≡ (reconnect S cfg sv id user_id now).0 → Step sv sv'
    expires :
        (id : String) (user_id now : ℕ)
        → sv' ≡ (expire_grace S cfg sv id user_id now).0
        → Step sv sv'
    abandons : (id : String) (user_id : ℕ) → sv' ≡ (abandon S cfg sv id user_id).0 → Step sv sv'
    times_out :
        (id : String) (user_id expected_version draw now : ℕ)
        → sv' ≡ handle_turn_timeout S cfg sv id user_id expected_version draw now
        → Step sv sv'
    chats :
        (id : String) (s : SessionState) (writer : ℕ) (name : Text) (filtered : Filtered) (now : ℕ)
        → get_state S cfg sv id ≡ some s
        → sv' ≡ (chat_end S cfg sv s writer name filtered now).0
        → Step sv sv'

  pub data Reach (sv : Service S cfg) : Service S cfg → Type 0 where
    here : Reach sv sv
    next : {u w : Service S cfg} → Reach sv u → Step u w → Reach sv w

  -- Every stored session is valid and stands under its own id.
  abbrev pub AllValid : Service S cfg → Type 0
  AllValid sv =
      (id : String) (s : SessionState)
      → get_state S cfg sv id ≡ some s
      → IsValid s × (s.match_id ≡ id)

  -- A session as it was but for chat messages, or after one change.
  abbrev pub Moved : SessionState → SessionState → Type 0
  Moved s t = Chatted s t ⊎ Transition cfg.turn_timeout_sec cfg.reconnect_grace_sec s t

  some_inj : (s t : SessionState) → some s ≡ some t → s ≡ t
  some_inj s t e = cc

  -- After a save, a session is the saved one or as it was before.
  read_cases :
      (sv sv' : Service S cfg) (t : SessionState) (id : String)
      → sv'.store ≡ S.write sv.store t
      → ((t.match_id ≡ id) × (get_state S cfg sv' id ≡ some t))
        ⊎ ((t.match_id ≢ id) × (get_state S cfg sv' id ≡ get_state S cfg sv id))
  read_cases sv sv' t id h = elim (Bool-cases (same t.match_id id)) [
    | inl e ↦
        let k = (string_eq.beq_iff t.match_id id).0 e in
        inl (k, rw (h, ← k) (S.read-write_self sv.store t))
    | inr e ↦
        let k : t.match_id ≢ id = λ q. let f = (string_eq.beq_iff t.match_id id).1 q in cc in
        inr (k, rw h (S.read-write_ne sv.store t id k))
  ]

  write-AllValid :
      (sv sv' : Service S cfg) (t : SessionState)
      → sv'.store ≡ S.write sv.store t
      → IsValid t
      → AllValid sv
      → AllValid sv'
  write-AllValid sv sv' t h v all id s e = elim (read_cases sv sv' t id h) [
    | inl (k, r) ↦
        let q = some_inj t s (sym r ∙ e) in
        (subst IsValid q v, ap (λ (x : SessionState). x.match_id) (sym q) ∙ k)
    | inr (k, r) ↦ all id s (sym r ∙ e)
  ]

  Change-AllValid : (sv sv' : Service S cfg) → Change S cfg sv sv' → AllValid sv → AllValid sv'
  Change-AllValid sv sv' (kept h) all id s e =
      all id s (sym (ap (λ (x : S.Store). S.read x id) h) ∙ e)
  Change-AllValid sv sv' (wrote i r t f step h) all id s e =
      write-AllValid sv sv' t h (Transition-IsValid _ _ r t step (all i r f).0) all id s e

  -- A call changes each session at most once.
  Change-Moved :
      (sv sv' : Service S cfg)
      → Change S cfg sv sv'
      → AllValid sv
      → (id : String) (s : SessionState) → get_state S cfg sv id ≡ some s
      → (t : SessionState) × (get_state S cfg sv' id ≡ some t) × Moved s t
  Change-Moved sv sv' (kept h) all id s e =
      (s, ap (λ (x : S.Store). S.read x id) h ∙ e, inl (Chatted-refl s))
  Change-Moved sv sv' (wrote i r t f step h) all id s e = elim (read_cases sv sv' t id h) [
    | inl (k, q) ↦
        let same_id : i ≡ id =
          sym (all i r f).1 ∙ sym ((Transition-Follows _ _ r t step).match_id) ∙ k in
        let old : r ≡ s =
          some_inj r s (sym f ∙ ap (λ (x : String). get_state S cfg sv x) same_id ∙ e) in
        (
          t,
          q,
          inr (subst (λ x. Transition cfg.turn_timeout_sec cfg.reconnect_grace_sec x t) old step),
        )
    | inr (k, q) ↦ (s, q ∙ e, inl (Chatted-refl s))
  ]

  -- A new session is valid and leaves the others alone.
  pub Created-AllValid :
      (sv sv' : Service S cfg) (n : NewSession) (s : SessionState)
      → Created S cfg sv sv' n s
      → 0 < n.size
      → n.players.0.user_id ≢ n.players.1.user_id
      → AllValid sv
      → AllValid sv'
  Created-AllValid sv sv' n s c size distinct = write-AllValid sv sv' s c.saved (
      subst IsValid (sym c.state) (
        initial_state-IsValid c.resolved c.timeout c.at (rw c.same_size size)
          (rw c.same_players distinct)))

  Created-Moved :
      (sv sv' : Service S cfg) (n : NewSession) (s : SessionState)
      → Created S cfg sv sv' n s
      → get_state S cfg sv n.match_id ≡ none
      → (id : String) (t : SessionState) → get_state S cfg sv id ≡ some t
      → get_state S cfg sv' id ≡ some t
  Created-Moved sv sv' n s c unused id t e = elim (read_cases sv sv' s id c.saved) [
    | inl (k, q) ↦
        let own : s.match_id ≡ n.match_id =
          ap (λ (x : SessionState). x.match_id) c.state ∙ unfold initial_state in c.same_id in
        let taken : get_state S cfg sv id ≡ none =
          ap (λ (x : String). get_state S cfg sv x) (sym k ∙ own) ∙ unused in
        absurd (let f = sym taken ∙ e in cc)
    | inr (k, q) ↦ q ∙ e
  ]

  -- What a call does to the store, by cases.
  pub record Called (sv sv' : Service S cfg) : Type 0 where
    pub valid : AllValid sv'
    pub moved :
        (id : String) (s : SessionState)
        → get_state S cfg sv id ≡ some s
        → (t : SessionState) × (get_state S cfg sv' id ≡ some t) × Moved s t

  Called-of_Change : (sv sv' : Service S cfg) → Change S cfg sv sv' → AllValid sv → Called sv sv'
  Called-of_Change sv sv' c all = record {
    valid = Change-AllValid sv sv' c all;
    moved = Change-Moved sv sv' c all;
  }

  Change-to : (sv u v : Service S cfg) → v ≡ u → Change S cfg sv u → AllValid sv → Called sv v
  Change-to sv u v e c = Called-of_Change sv v (subst (Change S cfg sv) (sym e) c)

  -- Whatever valid session a chat message saves, the stored sessions stay valid.
  pub chat_end-AllValid :
      (sv sv' : Service S cfg) (s : SessionState) (writer : ℕ) (name : Text) (filtered : Filtered)
      (now : ℕ)
      → sv' ≡ (chat_end S cfg sv s writer name filtered now).0
      → IsValid s
      → AllValid sv
      → AllValid sv'
  chat_end-AllValid sv sv' s writer name filtered now e v all =
      elim (chat_end-store S cfg sv s writer name filtered now) [
        | inl h ↦ Change-AllValid sv sv' (kept (ap (λ (x : Service S cfg). x.store) e ∙ h)) all
        | inr (u, c, h) ↦
            write-AllValid sv sv' u (ap (λ (x : Service S cfg). x.store) e ∙ h)
              (Chatted-IsValid s u c v) all
      ]

  chat_end-Moved :
      (sv sv' : Service S cfg) (i : String) (r : SessionState) (writer : ℕ) (name : Text)
      (filtered : Filtered) (now : ℕ)
      → get_state S cfg sv i ≡ some r
      → sv' ≡ (chat_end S cfg sv r writer name filtered now).0
      → AllValid sv
      → (id : String) (s : SessionState) → get_state S cfg sv id ≡ some s
      → (t : SessionState) × (get_state S cfg sv' id ≡ some t) × Moved s t
  chat_end-Moved sv sv' i r writer name filtered now f e all id s g =
      let to = ap (λ (x : Service S cfg). x.store) e in
      elim (chat_end-store S cfg sv r writer name filtered now) [
        | inl h ↦ (s, ap (λ (x : S.Store). S.read x id) (to ∙ h) ∙ g, inl (Chatted-refl s))
        | inr (u, (ms, c), h) ↦ elim (read_cases sv sv' u id (to ∙ h)) [
          | inr (k, q) ↦ (s, q ∙ g, inl (Chatted-refl s))
          | inl (k, q) ↦
              let same_id : i ≡ id =
                sym (all i r f).1 ∙ sym (ap (λ (x : SessionState). x.match_id) c) ∙ k in
              let old : r ≡ s =
                some_inj r s (sym f ∙ ap (λ (x : String). get_state S cfg sv x) same_id ∙ g) in
              (u, q, inl (ms, c ∙ ap (λ (x : SessionState). record x { messages = ms }) old))
        ]
      ]

  pub Step-Called : (sv sv' : Service S cfg) → Step sv sv' → AllValid sv → Called sv sv'
  Step-Called sv sv' (creates n draws now s unused size distinct e) all =
      let c = create_session-Created S cfg sv sv' n draws now s e in
      record {
        valid = Created-AllValid sv sv' n s c size distinct all;
        moved = λ id t f. (t, Created-Moved sv sv' n s c unused id t f, inl (Chatted-refl t));
      }
  Step-Called sv sv' (moves id u m v now e) all =
      Change-to sv _ sv' e (handle_move-Change S cfg sv id u m v now) all
  Step-Called sv sv' (swaps id u v now e) all =
      Change-to sv _ sv' e (handle_pie_swap-Change S cfg sv id u v now) all
  Step-Called sv sv' (disconnects id u now e) all =
      Change-to sv _ sv' e (mark_disconnected-Change S cfg sv id u now) all
  Step-Called sv sv' (reconnects id u now e) all =
      Change-to sv _ sv' e (reconnect-Change S cfg sv id u now) all
  Step-Called sv sv' (expires id u now e) all =
      Change-to sv _ sv' e (expire_grace-Change S cfg sv id u now) all
  Step-Called sv sv' (abandons id u e) all = Change-to sv _ sv' e (abandon-Change S cfg sv id u) all
  Step-Called sv sv' (times_out id u v draw now e) all =
      Change-to sv _ sv' e
        (handle_turn_timeout-Change S cfg sv id u v draw now (λ s f. (all id s f).0)) all
  Step-Called sv sv' (chats id r writer name filtered now f e) all = record {
    valid = chat_end-AllValid sv sv' r writer name filtered now e (all id r f).0 all;
    moved = chat_end-Moved sv sv' id r writer name filtered now f e all;
  }
