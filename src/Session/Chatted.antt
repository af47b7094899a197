-- ===== src/Session/Chatted.antt =====
-- What a chat message of addChatMessage (OnlineSessionService.ts) changes in the session that it is
-- added to: its messages.
use mathlib.Core.Path.{subst}
use yovi_es1c.Prelude.{ℕ, ◌≡◌, ◌⊎◌, inl, inr, refl, sym, ap, ◌∙◌, List}
use yovi_es1c.Prelude.Text.{Text}
use yovi_es1c.Session.State.{SessionState, ChatMessage, is_terminal}
use yovi_es1c.Session.Transitions.{with_message}
use yovi_es1c.Session.Validity.{IsValid}
use yovi_es1c.Session.Store.{SessionStore}
use yovi_es1c.Session.Service.{Config, Service}
use yovi_es1c.Session.Stored.{store-save_state}
use yovi_es1c.Session.Chat.{Filtered, rejected, sanitized, chat_end}

-- The same session but for its chat messages.
abbrev pub Chatted : SessionState → SessionState → Type 0
Chatted s t = (messages : List ChatMessage) × (t ≡ record s { messages = messages })

pub Chatted-refl : (s : SessionState) → Chatted s s
Chatted-refl s = (s.messages, refl)

pub Chatted-trans : (s t u : SessionState) → Chatted s t → Chatted t u → Chatted s u
Chatted-trans s t u (ms, e) (ns, f) =
    (ns, f ∙ ap (λ (x : SessionState). record x { messages = ns }) e)

pub Chatted-IsValid : (s t : SessionState) → Chatted s t → IsValid s → IsValid t
unfolding is_terminal
Chatted-IsValid s t (ms, e) v = subst IsValid (sym e) (record {
  board = v.board;
  over = v.over;
  undecided = v.undecided;
  played_out = v.played_out;
  first_black = v.first_black;
  second_red = v.second_red;
  distinct = v.distinct;
})

with_message-Chatted : (s : SessionState) (m : ChatMessage) → Chatted s (with_message s m)
unfolding with_message
with_message-Chatted s m = ((with_message s m).messages, refl)

module _ (S : SessionStore) (cfg : Config) where
  -- A chat message saves nothing, or the state it is given with one more message.
  pub chat_end-store :
      (sv : Service S cfg) (s : SessionState) (writer : ℕ) (name : Text) (filtered : Filtered)
      (now : ℕ)
      → ((chat_end S cfg sv s writer name filtered now).0.store ≡ sv.store)
        ⊎ ((u : SessionState) × Chatted s u
            × ((chat_end S cfg sv s writer name filtered now).0.store ≡ S.write sv.store u))
  unfolding chat_end
  chat_end-store sv s writer name rejected now = inl refl
  chat_end-store sv s writer name (sanitized text) now =
      let m : ChatMessage = record {
        user_id = writer;
        username = name;
        text = text;
        timestamp = now;
      } in
      inr (with_message s m, with_message-Chatted s m, store-save_state S cfg sv (with_message s m))
