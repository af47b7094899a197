-- ===== src/Session/Overlap.antt =====
-- Sequences of calls in which addChatMessage of OnlineSessionService.ts overlaps other calls: it
-- takes no lock, so that what it saves was read before them.
use Prim.Native.String.{String}
use yovi_es1c.Prelude.{ℕ, ◌<◌, ◌≡◌, ◌≢◌, some, List}
use yovi_es1c.Prelude.Text.{Text}
use yovi_es1c.Rules.{CellDraw}
use yovi_es1c.Session.State.{SessionState}
use yovi_es1c.Session.Transitions.{NewSession}
use yovi_es1c.Session.Store.{SessionStore}
use yovi_es1c.Session.Service.{Config, Service, get_state}
use yovi_es1c.Session.Handlers.{create_session}
use yovi_es1c.Session.Chat.{Filtered, chat_end}
use yovi_es1c.Session.Creation.{create_session-Created}
use yovi_es1c.Session.History.{Step, AllValid, Step-Called, Created-AllValid, chat_end-AllValid}

module _ (S : SessionStore) (cfg : Config) where
  -- Calls one after the other; besides, a session may be created under an id that is used, and a
  -- chat message may save a session with the state that it read after any calls from the same start,
  -- however many calls were made since. The board of a created session has at least one row and its
  -- players are two users.
  pub data Runs (sv : Service S cfg) : Service S cfg → Type 0 where
    start : Runs sv sv
    calls : {u w : Service S cfg} → Runs sv u → Step S cfg u w → Runs sv w
    recreates :
        {u w : Service S cfg} (n : NewSession) (draws : List CellDraw) (now : ℕ) (s : SessionState)
        → Runs sv u
        → 0 < n.size
        → n.players.0.user_id ≢ n.players.1.user_id
        → create_session S cfg u n draws now ≡ some (w, s)
        → Runs sv w
    overlaps :
        {read u w : Service S cfg} (id : String) (s : SessionState) (writer : ℕ) (name : Text)
        (filtered : Filtered) (now : ℕ)
        → Runs sv read
        → get_state S cfg read id ≡ some s
        → Runs sv u
        → w ≡ (chat_end S cfg u s writer name filtered now).0
        → Runs sv w

  -- If every stored session is valid and stands under its id, that stays so over any handler calls in
  -- any order, chat messages included that save a session as it was read any number of calls before,
  -- provided that every session is created for two different users on a board of at least one row.
  pub Runs-AllValid :
      (sv sv' : Service S cfg) → AllValid S cfg sv → Runs sv sv' → AllValid S cfg sv'
  Runs-AllValid sv sv' all start = all
  Runs-AllValid sv sv' all (calls {u} r st) =
      (Step-Called S cfg u sv' st (Runs-AllValid sv u all r)).valid
  Runs-AllValid sv sv' all (recreates {u} n draws now s r size distinct e) =
      Created-AllValid S cfg u sv' n s (create_session-Created S cfg u sv' n draws now s e) size
        distinct (Runs-AllValid sv u all r)
  Runs-AllValid sv sv' all (overlaps {read} {u} id s writer name filtered now r f q e) =
      chat_end-AllValid S cfg u sv' s writer name filtered now e
        (Runs-AllValid sv read all r id s f).0 (Runs-AllValid sv u all q)
