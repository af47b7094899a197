-- ===== src/Session/Lost.antt =====
-- A chat message against a move: addChatMessage of OnlineSessionService.ts takes no lock, and saves
-- the session that it read before it waited for the filter.
use Prim.Native.String.{String}
use yovi_es1c.Prelude.{ℕ, ◌+◌, ◌≡◌, refl, sym, ap, ◌∙◌, some}
use yovi_es1c.Prelude.Text.{Text}
use yovi_es1c.Board.Layout.{MoveCommand}
use yovi_es1c.Session.State.{SessionState}
use yovi_es1c.Session.Transitions.{with_message}
use yovi_es1c.Session.Store.{SessionStore}
use yovi_es1c.Session.Service.{Config, Service, ok, get_state}
use yovi_es1c.Session.Stored.{store-save_state}
use yovi_es1c.Session.Handlers.{handle_move}
use yovi_es1c.Session.History.{AllValid}
use yovi_es1c.Session.Finality.{accepted_move}
use yovi_es1c.Session.Chat.{sanitized, chat_end}

module _ (S : SessionStore) (cfg : Config) where
  -- What is stored under the id of a session after its chat message is saved: the session as it was
  -- read before, with the message.
  chat_end-stored :
      (sv : Service S cfg) (s : SessionState) (writer : ℕ) (name : Text) (text : Text) (now : ℕ)
      → get_state S cfg (chat_end S cfg sv s writer name (sanitized text) now).0 s.match_id
        ≡ some (
            with_message s
              (record { user_id = writer; username = name; text = text; timestamp = now }))
  unfolding chat_end with_message
  chat_end-stored sv s writer name text now =
      let u =
        with_message s
          (record { user_id = writer; username = name; text = text; timestamp = now }) in
      ap (λ (x : S.Store). S.read x s.match_id) (store-save_state S cfg sv u)
      ∙ S.read-write_self sv.store u

  -- The accepted move stores a next version `t`, and the chat message of a user who read the session
  -- before that move then stores the old version and the old board: the move is lost.
  pub chat-loses_move :
      (sv : Service S cfg) (id : String) (user_id expected now : ℕ) (command : MoveCommand)
      (s t : SessionState) (writer : ℕ) (name : Text) (text : Text) (later : ℕ)
      → AllValid S cfg sv
      → get_state S cfg sv id ≡ some s
      → (handle_move S cfg sv id user_id command expected now).1 ≡ ok t
      → let moved = (handle_move S cfg sv id user_id command expected now).0 in
        let final = (chat_end S cfg moved s writer name (sanitized text) later).0 in
        (get_state S cfg moved id ≡ some t)
        × (t.version ≡ expected + 1)
        × (u : SessionState) × (get_state S cfg final id ≡ some u)
        × (u.version ≡ s.version)
        × (u.layout ≡ s.layout)
  unfolding with_message
  chat-loses_move sv id user_id expected now command s t writer name text later all e h =
      let moved = (handle_move S cfg sv id user_id command expected now).0 in
      let final = (chat_end S cfg moved s writer name (sanitized text) later).0 in
      let (f, v) = accepted_move S cfg sv id user_id expected now command t all h in
      let u =
        with_message s
          (record { user_id = writer; username = name; text = text; timestamp = later }) in
      (
        f,
        v,
        u,
        ap (get_state S cfg final) (sym (all id s e).1)
            ∙ chat_end-stored moved s writer name text later,
        refl,
        refl,
      )
