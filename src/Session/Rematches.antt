-- ===== src/Session/Rematches.antt =====
-- Accepting a rematch: who can, and the session it stores.
use Prim.Native.String.{String}
use yovi_es1c.Prelude.{
  ℕ, ◌≡◌, ◌≢◌, ◌≤◌, refl, sym, ap, ◌∙◌, inl, inr, true, false, ◌==◌, ltb, Bool-cases, Option-cases,
  Option, some, none, List, arith,
}
use yovi_es1c.Prelude.Maps.{nat_eq, string_eq, lookup, remove}
use yovi_es1c.Rules.{CellDraw}
use yovi_es1c.Board.Layout.{black, red}
use yovi_es1c.Session.State.{SessionState, PlayerState, human, is_participant}
use yovi_es1c.Session.Transitions.{NewSession, initial_state}
use yovi_es1c.Session.Store.{SessionStore}
use yovi_es1c.Session.Service.{Config, Service, Result, ok, get_state}
use yovi_es1c.Session.Handlers.{create_session}
use yovi_es1c.Session.Creation.{create_session-Created, Created-stored, Created-players}
use yovi_es1c.Session.Rematch.{
  RematchRequest, Rematches, without_request, read_rematch_request, delete_rematch_request,
  find_player, start_rematch, accept_request, accept_rematch,
}

some_inj : {A : Type 0} {x y : A} → some x ≡ some y → x ≡ y
some_inj e = cc

read_missing :
    (t : Rematches) (id : String) (now : ℕ)
    → lookup id t.requests ≡ none
    → ((read_rematch_request t id now).0 ≡ t) × ((read_rematch_request t id now).1 ≡ none)
unfolding read_rematch_request
read_missing t id now e = rw (read_rematch_request, e) (refl, refl)

read_late :
    (t : Rematches) (id : String) (now : ℕ) (r : RematchRequest)
    → lookup id t.requests ≡ some r
    → ltb r.expires_at now ≡ true
    → ((read_rematch_request t id now).0 ≡ without_request t id r)
      × ((read_rematch_request t id now).1 ≡ none)
unfolding read_rematch_request
read_late t id now r e l = rw (read_rematch_request, e, l) (refl, refl)

read_live :
    (t : Rematches) (id : String) (now : ℕ) (r : RematchRequest)
    → lookup id t.requests ≡ some r
    → ltb r.expires_at now ≡ false
    → ((read_rematch_request t id now).0 ≡ t) × ((read_rematch_request t id now).1 ≡ some r)
unfolding read_rematch_request
read_live t id now r e l = rw (read_rematch_request, e, l) (refl, refl)

-- Deleting a request whose time is not over.
requests-delete :
    (t : Rematches) (id : String) (now : ℕ) (r : RematchRequest)
    → lookup id t.requests ≡ some r
    → ltb r.expires_at now ≡ false
    → (delete_rematch_request t id now).requests ≡ remove id t.requests
unfolding delete_rematch_request
requests-delete t id now r e l =
    let (a, b) = read_live t id now r e l in rw (delete_rematch_request, b, a) refl

module _ (S : SessionStore) (cfg : Config) where
  -- An acceptance: the request, its session, who accepts, what is left of the requests, and the
  -- session that is stored afterwards under the new id.
  pub record Agreed (sv sv' : Service S cfg) (t : Rematches) (match_id : String) (user_id now : ℕ)
      (new_match_id : String) (t' : Rematches) (id : String) : Type 0 where
    pub request : RematchRequest
    pub found : lookup match_id t.requests ≡ some request
    pub live : now ≤ request.expires_at
    pub other : request.requester_id ≢ user_id
    pub played : SessionState
    pub stored : get_state S cfg sv match_id ≡ some played
    pub takes_part : is_participant played user_id ≡ true
    pub gone : t'.requests ≡ remove match_id t.requests
    pub acceptor : PlayerState
    pub accepts : find_player played user_id ≡ some acceptor
    pub own_id : id ≡ new_match_id
    pub session : SessionState
    pub made : get_state S cfg sv' new_match_id ≡ some session
    pub black_player :
        session.players.0
        ≡ record { user_id = user_id; username = acceptor.username; symbol = black }
    pub red_player :
        session.players.1
        ≡ record { user_id = request.requester_id; username = request.requester_name; symbol = red }
    pub same_size : session.size ≡ played.size

  abbrev Answer : Type 0
  Answer = Service S cfg × Rematches × Result String

  answer_inj : (a b : String) → ok a ≡ ok b → a ≡ b
  answer_inj a b e = cc

  refused :
      (sv sv' : Service S cfg) (t t' : Rematches) (id : String) (r : Result String)
      → ◌≡◌ {A = Option Answer} (some (sv, t, r)) (some (sv', t', ok id))
      → r ≡ ok id
  refused sv sv' t t' id r e = ap (λ (x : Answer). x.2) (some_inj e)

  abbrev session_of : SessionState → RematchRequest → ℕ → PlayerState → String → NewSession
  session_of state request user_id acceptor new_match_id = record {
    match_id = new_match_id;
    size = state.size;
    players = (
      record { user_id = user_id; username = acceptor.username },
      record { user_id = request.requester_id; username = request.requester_name },
    );
    opponent_type = human;
    rules = state.rules;
    ranked = state.ranked;
    source = state.source;
  }

  module _ (sv sv' : Service S cfg) (t t' : Rematches) (match_id : String) (user_id : ℕ)
      (new_match_id : String) (draws : List CellDraw) (now : ℕ) (id : String) where
    started-Agreed :
        (r : RematchRequest) (state : SessionState) (acceptor : PlayerState)
        → lookup match_id t.requests ≡ some r
        → ltb r.expires_at now ≡ false
        → r.requester_id ≢ user_id
        → get_state S cfg sv match_id ≡ some state
        → is_participant state user_id ≡ true
        → find_player state user_id ≡ some acceptor
        → start_rematch S cfg
            (delete_rematch_request t match_id now)
            r
            user_id
            (create_session S cfg sv (session_of state r user_id acceptor new_match_id) draws now)
          ≡ some (sv', t', ok id)
        → Agreed sv sv' t match_id user_id now new_match_id t' id
    unfolding start_rematch initial_state
    started-Agreed r state acceptor f l o g p a e =
        let n = session_of state r user_id acceptor new_match_id in
        elim (Option-cases (create_session S cfg sv n draws now)) [
          | inl c ↦ absurd (let k : none ≡ some (sv', t', ok id) = rw (c, start_rematch) at e in cc)
          | inr ((w, s), c) ↦
              let made = create_session-Created S cfg sv w n draws now s c in
              let k = some_inj (rw (c, start_rematch) at e) in
              let seats = Created-players S cfg sv w n s made in
              record {
                request = r;
                found = f;
                live = ground arith;
                other = o;
                played = state;
                stored = g;
                takes_part = p;
                gone =
                    ap (λ (y : Answer). y.1.requests) (sym k)
                    ∙ requests-delete t match_id now r f l;
                acceptor = acceptor;
                accepts = a;
                own_id =
                    sym (answer_inj s.match_id id (ap (λ (y : Answer). y.2) k))
                    ∙ ap (λ (y : SessionState). y.match_id) made.state
                    ∙ made.same_id;
                session = s;
                made =
                    ap (λ (y : Answer). get_state S cfg y.0 new_match_id) (sym k)
                    ∙ Created-stored S cfg sv w n s made;
                black_player = ap (λ (y : PlayerState × PlayerState). y.0) seats;
                red_player = ap (λ (y : PlayerState × PlayerState). y.1) seats;
                same_size = ap (λ (y : SessionState). y.size) made.state ∙ made.same_size;
              }
        ]

    request-Agreed :
        (r : RematchRequest)
        → lookup match_id t.requests ≡ some r
        → ltb r.expires_at now ≡ false
        → accept_request S cfg sv t r match_id user_id new_match_id draws now
          ≡ some (sv', t', ok id)
        → Agreed sv sv' t match_id user_id now new_match_id t' id
    unfolding accept_request
    request-Agreed r f l e = elim (Option-cases (get_state S cfg sv match_id)) [
      | inl g ↦ absurd (let k = refused sv sv' t t' id _ (rw (g, accept_request) at e) in cc)
      | inr (state, g) ↦ elim (Bool-cases (r.requester_id == user_id)) [
        | inl o ↦ absurd (let k = refused sv sv' t t' id _ (rw (g, accept_request, o) at e) in cc)
        | inr o ↦ elim (Bool-cases (is_participant state user_id)) [
          | inr p ↦
              absurd (let k = refused sv sv' t t' id _ (rw (g, accept_request, o, p) at e) in cc)
          | inl p ↦ elim (Option-cases (find_player state user_id)) [
            | inl q ↦ absurd (
                let k =
                  refused sv sv' (delete_rematch_request t match_id now) t' id _
                    (rw (g, accept_request, o, p, q) at e) in
                cc)
            | inr (acceptor, q) ↦
                started-Agreed r state acceptor f l (ground arith) g p q
                  (rw (g, accept_request, o, p, q) at e)
          ]
        ]
      ]
    ]

    -- A rematch is accepted only while its request is live, by a participant of the session other
    -- than the requester. The request is then gone, the new id is returned, and the session stored
    -- under it has the old size, the acceptor with the black stones and the requester with the red
    -- ones, whatever they played before.
    pub accept_rematch-Agreed :
        accept_rematch S cfg sv t match_id user_id new_match_id draws now ≡ some (sv', t', ok id)
        → Agreed sv sv' t match_id user_id now new_match_id t' id
    unfolding accept_rematch
    accept_rematch-Agreed e = elim (Option-cases (lookup match_id t.requests)) [
      | inl f ↦
          let (a, b) = read_missing t match_id now f in
          absurd (let k = refused sv sv' t t' id _ (rw (accept_rematch, b, a) at e) in cc)
      | inr (r, f) ↦ elim (Bool-cases (ltb r.expires_at now)) [
        | inl l ↦
            let (a, b) = read_late t match_id now r f l in
            absurd (
              let k =
                refused sv sv' (without_request t match_id r) t' id _
                  (rw (accept_rematch, b, a) at e) in
              cc)
        | inr l ↦
            let (a, b) = read_live t match_id now r f l in
            request-Agreed r f l (rw (accept_rematch, b, a, l) at e)
      ]
    ]
