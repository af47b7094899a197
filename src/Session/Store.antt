-- ===== src/Session/Store.antt =====
-- Where sessions are kept. The service uses a store by reading and saving sessions by match id
-- (getState and saveState of OnlineSessionService.ts); OnlineSessionRepository.ts is such a store.
use Prim.Native.String.{String}
use yovi_es1c.Prelude.{◌≡◌, ◌≢◌, Option, some, List, [], ◌∷◌}
use yovi_es1c.Prelude.Maps.{
  Map, string_eq, lookup, insert, remove, lookup-insert_self, lookup-insert_ne,
}
use yovi_es1c.Session.State.{SessionState}

pub record SessionStore : Type 1 where
  pub Store : Type 0
  pub read : Store → String → Option SessionState
  pub write : Store → SessionState → Store
  pub read-write_self :
      (store : Store) (state : SessionState) → read (write store state) state.match_id ≡ some state
  pub read-write_ne :
      (store : Store) (state : SessionState) (id : String)
      → state.match_id ≢ id
      → read (write store state) id ≡ read store id

-- `private sessions = new Map<string, OnlineSessionState>()` and its methods.
abbrev pub Sessions : Type 0
Sessions = Map String SessionState

unfoldable pub save : Sessions → SessionState → Sessions
save sessions session = insert session.match_id session sessions

unfoldable pub get : Sessions → String → Option SessionState
get sessions match_id = lookup match_id sessions

unfoldable pub delete : Sessions → String → Sessions
delete sessions match_id = remove match_id sessions

values : Sessions → List SessionState
values [] = []
values ((k, v) ∷ sessions) = v ∷ values sessions

unfoldable pub get_all : Sessions → List SessionState
unfolding values
get_all sessions = values sessions

-- A saved session is read back under its id.
pub get-save_self :
    (sessions : Sessions) (state : SessionState)
    → get (save sessions state) state.match_id ≡ some state
unfolding get save
get-save_self sessions state = lookup-insert_self state.match_id state sessions

-- Saving a session changes no other.
pub get-save_ne :
    (sessions : Sessions) (state : SessionState) (id : String)
    → state.match_id ≢ id
    → get (save sessions state) id ≡ get sessions id
unfolding get save
get-save_ne sessions state id ne = lookup-insert_ne state.match_id id state sessions ne

-- The repository that keeps sessions in memory is a store.
abbrev pub memory_store : SessionStore
memory_store = record {
  Store = Sessions;
  read = get;
  write = save;
  read-write_self = get-save_self;
  read-write_ne = get-save_ne;
}
