-- ===== src/Session/Chat.antt =====
-- Chat in a session: addChatMessage of OnlineSessionService.ts. It does not run under the lock of
-- the match and waits for ChatFilter.filter between reading the session and saving it, so it is two
-- steps here: `chat_begin` with the checks, and `chat_end` with the state that was read.
use Prim.Native.String.{String}
use yovi_es1c.Prelude.{ℕ, not, ◌||◌, ◌==◌, ltb, if◌then◌else◌, some, none, length}
use yovi_es1c.Prelude.Text.{Text}
use yovi_es1c.Prelude.Words.{trim}
use yovi_es1c.Session.State.{SessionState, ChatMessage, is_participant}
use yovi_es1c.Session.Transitions.{with_message}
use yovi_es1c.Session.Store.{SessionStore}
use yovi_es1c.Session.Service.{
  Config, Service, Result, ok, err, crash, session_not_found, not_your_turn, invalid_move,
  get_state, save_state, logged, count_chat, emit_chat,
}

-- What ChatFilter.filter gives: a sanitized text, or a ChatFilterError.
pub data Filtered : Type 0 where
  sanitized : Text → Filtered
  rejected : Filtered

module _ (S : SessionStore) (cfg : Config) where
  -- The checks on the state that is read, and the text for the filter.
  unfoldable pub check_chat : SessionState → ℕ → Text → Result Text
  check_chat state user_id text =
      let normalized = trim text in
      if not (is_participant state user_id)
      then err not_your_turn
      else if (length normalized == 0) || ltb 200 (length normalized)
      then err invalid_move
      else ok normalized

  -- Up to the call of the filter: the state that was read, and the text for the filter.
  unfoldable pub chat_begin : Service S cfg → String → ℕ → Text → Result (SessionState × Text)
  chat_begin sv match_id user_id text = elim (get_state S cfg sv match_id) [
    | none ↦ err session_not_found
    | some state ↦ elim (check_chat state user_id text) [
      | ok t ↦ ok (state, t)
      | err c ↦ err c
      | crash ↦ crash
    ]
  ]

  -- After the filter: the message is added to the state that was read before it.
  unfoldable pub chat_end :
      Service S cfg → SessionState → ℕ → Text → Filtered → ℕ → Service S cfg × Result ChatMessage
  chat_end sv state user_id username rejected now = (sv, err invalid_move)
  chat_end sv state user_id username (sanitized final_text) now =
      let message : ChatMessage = record {
        user_id = user_id;
        username = username;
        text = final_text;
        timestamp = now;
      } in
      let saved = save_state S cfg sv (with_message state message) in
      (logged S cfg (logged S cfg saved count_chat) (emit_chat state.match_id message), ok message)
