-- ===== src/Session/Rematch.antt =====
-- Rematches: requestRematch, acceptRematch, declineRematch and getPendingRematchForUser of
-- OnlineSessionService.ts, on the maps that the service keeps without Redis. The clock and the id
-- of randomUUID are arguments; `told` lists the messages to users, the latest first.
use Prim.Native.String.{String}
use yovi_es1c.Prelude.{
  ℕ, ◌+◌, ◌*◌, not, ◌||◌, ◌==◌, ltb, if◌then◌else◌, Option, none, some, Bool, false, List, ◌∷◌,
}
use mathlib.Core.Option
use yovi_es1c.Prelude.Text.{Text}
use yovi_es1c.Prelude.Maps.{Map, nat_eq, string_eq, lookup, insert, remove}
use yovi_es1c.Rules.{MatchRules, CellDraw}
use yovi_es1c.Session.State.{
  SessionState, PlayerState, human, is_terminal, is_participant, find_opponent,
}
use yovi_es1c.Session.Store.{SessionStore}
use yovi_es1c.Session.Service.{
  Config, Service, Result, ok, err, crash, session_not_found, session_terminal, unauthorized,
  get_state,
}
use yovi_es1c.Session.Handlers.{create_session}

pub record RematchRequest : Type 0 where
  pub requester_id : ℕ
  pub requester_name : Text
  pub opponent_id : ℕ
  pub match_id : String
  pub expires_at : ℕ

pub record PendingRematch : Type 0 where
  pub match_id : String
  pub requester_id : ℕ
  pub requester_name : Text
  pub size : ℕ
  pub rules : MatchRules
  pub expires_at : ℕ

-- A message and the user it goes to.
pub data RematchEvent : Type 0 where
  requested : ℕ → String → Text → RematchEvent
  rematch_ready : ℕ → SessionState → RematchEvent
  declined : ℕ → String → RematchEvent

pub record Rematches : Type 0 where
  pub requests : Map String RematchRequest
  pub by_user : Map ℕ String
  pub told : List RematchEvent

abbrev pub tell : Rematches → RematchEvent → Rematches
tell t event = record t { told = event ∷ t.told }

-- saveRematchRequest.
unfoldable pub save_rematch_request : Rematches → String → RematchRequest → Rematches
save_rematch_request t match_id request = record t {
  requests = insert match_id request t.requests;
  by_user = insert request.opponent_id match_id t.by_user;
}

abbrev pub without_request : Rematches → String → RematchRequest → Rematches
without_request t match_id request = record t {
  requests = remove match_id t.requests;
  by_user = remove request.opponent_id t.by_user;
}

-- readRematchRequest: a request whose time is over is dropped.
unfoldable pub read_rematch_request : Rematches → String → ℕ → Rematches × Option RematchRequest
read_rematch_request t match_id now = elim (lookup match_id t.requests) [
  | none ↦ (t, none)
  | some request ↦
      if ltb request.expires_at now
      then (without_request t match_id request, none)
      else (t, some request)
]

-- deleteRematchRequest.
unfoldable pub delete_rematch_request : Rematches → String → ℕ → Rematches
delete_rematch_request t match_id now =
    let (u, request) = read_rematch_request t match_id now in
    elim request [
      | none ↦ record u { requests = remove match_id u.requests }
      | some r ↦ without_request u match_id r
    ]

-- `state.players.find((p) => p.userId === userId)`.
unfoldable pub find_player : SessionState → ℕ → Option PlayerState
find_player state user_id =
    if state.players.0.user_id == user_id
    then some state.players.0
    else if state.players.1.user_id == user_id
    then some state.players.1
    else none

-- The end of requestRematch: the request is stored and the opponent is told.
unfoldable pub ask :
    Rematches → SessionState → String → PlayerState → Option PlayerState → ℕ → Rematches
ask t state match_id requester none now = t
ask t state match_id requester (some opponent) now =
    let request : RematchRequest = record {
      requester_id = requester.user_id;
      requester_name = requester.username;
      opponent_id = opponent.user_id;
      match_id = match_id;
      expires_at = now + 60 * 1000;
    } in
    tell (save_rematch_request t match_id request)
      (requested opponent.user_id match_id requester.username)

module _ (S : SessionStore) (cfg : Config) where
  unfoldable pub request_rematch :
      Service S cfg → Rematches → String → ℕ → ℕ → Rematches × Result Unit
  request_rematch sv t match_id user_id now = elim (get_state S cfg sv match_id) [
    | none ↦ (t, err session_not_found)
    | some state ↦ elim (find_player state user_id) [
      | none ↦ (t, err unauthorized)
      | some requester ↦
          if not (is_terminal state)
          then (t, err session_terminal)
          else (ask t state match_id requester (find_opponent state user_id) now, ok tt)
    ]
  ]

  -- The end of acceptRematch: the session is created, the acceptor first, and both are told.
  unfoldable pub start_rematch :
      Rematches
      → RematchRequest
      → ℕ
      → Option (Service S cfg × SessionState)
      → Option (Service S cfg × Rematches × Result String)
  start_rematch t request user_id none = none
  start_rematch t request user_id (some (sv', session)) = some (
    sv',
    tell (tell t (rematch_ready request.requester_id session)) (rematch_ready user_id session),
    ok session.match_id,
  )

  -- acceptRematch once the request is read; the acceptor's name is read with `!`.
  unfoldable pub accept_request :
      Service S cfg
      → Rematches
      → RematchRequest
      → String
      → ℕ
      → String
      → List CellDraw
      → ℕ
      → Option (Service S cfg × Rematches × Result String)
  accept_request sv t request match_id user_id new_match_id draws now =
      elim (get_state S cfg sv match_id) [
        | none ↦ some (sv, t, err session_not_found)
        | some state ↦
            if request.requester_id == user_id
            then some (sv, t, err unauthorized)
            else if not (is_participant state user_id)
            then some (sv, t, err unauthorized)
            else elim (find_player state user_id) [
              | none ↦ some (sv, delete_rematch_request t match_id now, crash)
              | some acceptor ↦
                  start_rematch (delete_rematch_request t match_id now) request user_id (
                    create_session S cfg sv
                      (record {
                        match_id = new_match_id;
                        size = state.size;
                        players = (
                          record { user_id = user_id; username = acceptor.username },
                          record {
                            user_id = request.requester_id;
                            username = request.requester_name;
                          },
                        );
                        opponent_type = human;
                        rules = state.rules;
                        ranked = state.ranked;
                        source = state.source;
                      })
                      draws now)
            ]
      ]

  unfoldable pub accept_rematch :
      Service S cfg
      → Rematches
      → String
      → ℕ
      → String
      → List CellDraw
      → ℕ
      → Option (Service S cfg × Rematches × Result String)
  accept_rematch sv t match_id user_id new_match_id draws now =
      let (u, request) = read_rematch_request t match_id now in
      elim request [
        | none ↦ some (sv, u, err session_not_found)
        | some r ↦
            if ltb r.expires_at now
            then some (sv, u, err session_not_found)
            else accept_request sv u r match_id user_id new_match_id draws now
      ]

  -- Whom declineRematch tells: the opponent when the requester cancels, else the requester.
  unfoldable pub notify_user : Option SessionState → RematchRequest → ℕ → Option ℕ
  notify_user state request user_id =
      if request.requester_id == user_id
      then elim state [
        | none ↦ none
        | some s ↦ Option.map (λ (p : PlayerState). p.user_id) (find_opponent s user_id)
      ]
      else some request.requester_id

  abbrev pub is_stranger : Option SessionState → ℕ → Bool
  is_stranger none user_id = false
  is_stranger (some state) user_id = not (is_participant state user_id)

  unfoldable pub decline_rematch :
      Service S cfg → Rematches → String → ℕ → ℕ → Rematches × Result Unit
  decline_rematch sv t match_id user_id now =
      let (u, request) = read_rematch_request t match_id now in
      let state = get_state S cfg sv match_id in
      elim request [
        | none ↦ (u, ok tt)
        | some r ↦
            if is_stranger state user_id
            then (u, err unauthorized)
            else elim (notify_user state r user_id) [
              | none ↦ (delete_rematch_request u match_id now, ok tt)
              | some other ↦
                  (tell (delete_rematch_request u match_id now) (declined other match_id), ok tt)
            ]
      ]

  -- getPendingRematchForUser from the request on.
  unfoldable pub pending_request :
      Service S cfg
      → Rematches
      → RematchRequest
      → String
      → ℕ
      → ℕ
      → Rematches × Option PendingRematch
  pending_request sv t r match_id user_id now = elim (get_state S cfg sv match_id) [
    | none ↦ (delete_rematch_request t match_id now, none)
    | some state ↦
        if not (is_terminal state) || not (is_participant state user_id)
        then (delete_rematch_request t match_id now, none)
        else (
          t,
          some (record {
            match_id = match_id;
            requester_id = r.requester_id;
            requester_name = r.requester_name;
            size = state.size;
            rules = state.rules;
            expires_at = r.expires_at;
          }),
        )
  ]

  unfoldable pub get_pending_rematch :
      Service S cfg → Rematches → ℕ → ℕ → Rematches × Option PendingRematch
  get_pending_rematch sv t user_id now = elim (lookup user_id t.by_user) [
    | none ↦ (t, none)
    | some match_id ↦
        let (u, request) = read_rematch_request t match_id now in
        let forget = record u { by_user = remove user_id u.by_user } in
        elim request [
          | none ↦ (forget, none)
          | some r ↦
              if ltb r.expires_at now || not (r.opponent_id == user_id)
              then (forget, none)
              else pending_request sv u r match_id user_id now
        ]
  ]
