-- ===== src/Session/InviteAccept.antt =====
-- Accepting a friend invite: who can, and the session it stores.
use Prim.Native.String.{String}
use yovi_es1c.Prelude.{
  ℕ, ◌≡◌, ◌<◌, refl, sym, ap, ◌∙◌, inl, inr, false, ◌==◌, leb, Bool-cases, Option-cases, Option,
  some, none, List, ◌∷◌, arith,
}
use yovi_es1c.Prelude.Maps.{nat_eq, string_eq, lookup, remove}
use yovi_es1c.Rules.{CellDraw}
use yovi_es1c.Board.Layout.{black, red}
use yovi_es1c.Session.State.{SessionState, PlayerState, human, friend}
use yovi_es1c.Session.Transitions.{NewSession, initial_state}
use yovi_es1c.Session.Store.{SessionStore}
use yovi_es1c.Session.Service.{Config, Service, Result, ok, get_state}
use yovi_es1c.Session.Handlers.{create_session}
use yovi_es1c.Session.Creation.{create_session-Created, Created-stored, Created-players}
use yovi_es1c.Session.Invites.{
  FriendMatchInvite, FriendMatchReady, Invites, ready, delete_friend_invite, expire_friend_invite,
  open_session, accept_friend_invite,
}
use yovi_es1c.Session.Invitations.{some_inj, IsIndexed}
use yovi_es1c.Session.InviteSteps.{invites-delete}

sent-delete : (t : Invites) (id : String) → (delete_friend_invite t id).sent ≡ t.sent
unfolding delete_friend_invite
sent-delete t id = elim (Option-cases (lookup id t.invites)) [
  | inl e ↦ rw (delete_friend_invite, e) refl
  | inr (x, e) ↦ rw (delete_friend_invite, e) refl
]

module _ (S : SessionStore) (cfg : Config) where
  -- An acceptance: the invite, who accepts it and when, what is left of the invites, the session that
  -- is stored afterwards, and what the two users are told of it.
  pub record Joined (sv' : Service S cfg) (t : Invites) (invite_id : String) (user_id now : ℕ)
      (match_id : String) (t' : Invites) (p : FriendMatchReady) : Type 0 where
    pub invite : FriendMatchInvite
    pub found : lookup invite_id t.invites ≡ some invite
    pub mine : invite.recipient_id ≡ user_id
    pub live : now < invite.expires_at
    pub gone : t'.invites ≡ remove invite_id t.invites
    pub session : SessionState
    pub stored : get_state S cfg sv' match_id ≡ some session
    pub own_id : session.match_id ≡ match_id
    pub same_size : session.size ≡ invite.board_size
    pub black_player :
        session.players.0
        ≡ record { user_id = invite.requester_id; username = invite.requester_name; symbol = black }
    pub red_player :
        session.players.1
        ≡ record { user_id = user_id; username = invite.recipient_name; symbol = red }
    pub payload : p ≡ record {
      match_id = session.match_id;
      board_size = session.size;
      rules = session.rules;
      players = session.players;
    }
    pub told : t'.sent ≡ ready user_id p ∷ ready invite.requester_id p ∷ t.sent

  abbrev Answer : Type 0
  Answer = Service S cfg × Invites × Result FriendMatchReady

  answer_inj : (a b : FriendMatchReady) → ok a ≡ ok b → a ≡ b
  answer_inj a b e = cc

  refused :
      (sv sv' : Service S cfg) (t t' : Invites) (p : FriendMatchReady) (r : Result FriendMatchReady)
      → ◌≡◌ {A = Option Answer} (some (sv, t, r)) (some (sv', t', ok p))
      → r ≡ ok p
  refused sv sv' t t' p r e = ap (λ (x : Answer). x.2) (some_inj e)

  abbrev session_of : FriendMatchInvite → String → NewSession
  session_of invite match_id = record {
    match_id = match_id;
    size = invite.board_size;
    players = (
      record { user_id = invite.requester_id; username = invite.requester_name },
      record { user_id = invite.recipient_id; username = invite.recipient_name },
    );
    opponent_type = human;
    rules = invite.rules;
    ranked = false;
    source = friend;
  }

  module _ (sv sv' : Service S cfg) (t t' : Invites) (invite_id : String) (user_id : ℕ)
      (match_id : String) (draws : List CellDraw) (now : ℕ) (p : FriendMatchReady) where
    opened-Joined :
        (x : FriendMatchInvite)
        → lookup invite_id t.invites ≡ some x
        → x.invite_id ≡ invite_id
        → x.recipient_id ≡ user_id
        → now < x.expires_at
        → open_session S cfg sv
            (delete_friend_invite t x.invite_id)
            x
            (create_session S cfg sv (session_of x match_id) draws now)
          ≡ some (sv', t', ok p)
        → Joined sv' t invite_id user_id now match_id t' p
    unfolding open_session initial_state
    opened-Joined x f own mine live e =
        elim (Option-cases (create_session S cfg sv (session_of x match_id) draws now)) [
          | inl n ↦ absurd (let g : none ≡ some (sv', t', ok p) = rw (n, open_session) at e in cc)
          | inr ((w, s), n) ↦
              let c = create_session-Created S cfg sv w (session_of x match_id) draws now s n in
              let g = some_inj (rw (n, open_session) at e) in
              let q = answer_inj _ p (ap (λ (y : Answer). y.2) g) in
              let there : w ≡ sv' = ap (λ (y : Answer). y.0) g in
              let seats = Created-players S cfg sv w (session_of x match_id) s c in
              record {
                invite = x;
                found = f;
                mine = mine;
                live = live;
                gone =
                    ap (λ (y : Answer). y.1.invites) (sym g)
                    ∙ invites-delete t x.invite_id
                    ∙ ap (λ (k : String). remove k t.invites) own;
                session = s;
                stored =
                    ap (λ (y : Service S cfg). get_state S cfg y match_id) (sym there)
                    ∙ Created-stored S cfg sv w (session_of x match_id) s c;
                own_id = ap (λ (y : SessionState). y.match_id) c.state ∙ c.same_id;
                same_size = ap (λ (y : SessionState). y.size) c.state ∙ c.same_size;
                black_player = ap (λ (y : PlayerState × PlayerState). y.0) seats;
                red_player =
                    ap (λ (y : PlayerState × PlayerState). y.1) seats
                    ∙ ap
                        (λ (u : ℕ). record {
                          user_id = u;
                          username = x.recipient_name;
                          symbol = red;
                        })
                        mine;
                payload = sym q;
                told =
                    ap (λ (y : Answer). y.1.sent) (sym g)
                    ∙ rw (q, mine, sent-delete t x.invite_id) refl;
              }
        ]

    -- When the indexes are in step, a friend invite is accepted only by its recipient and before it
    -- expires. The invite is then gone, and the session stored under the new id has the invite's board
    -- size, the requester with the black stones and the recipient with the red ones; its id, size,
    -- rules and players are what is returned and what both users are told.
    pub accept_friend_invite-Joined :
        IsIndexed t
        → accept_friend_invite S cfg sv t invite_id user_id match_id draws now
          ≡ some (sv', t', ok p)
        → Joined sv' t invite_id user_id now match_id t' p
    unfolding accept_friend_invite
    accept_friend_invite-Joined h e = elim (Option-cases (lookup invite_id t.invites)) [
      | inl f ↦ absurd (let g = refused sv sv' t t' p _ (rw (f, accept_friend_invite) at e) in cc)
      | inr (x, f) ↦ elim (Bool-cases (x.recipient_id == user_id)) [
        | inr m ↦ absurd (
            let g =
              refused sv sv' t t' p _
                (rw (f, accept_friend_invite, h.waiting invite_id x f, m) at e) in
            cc)
        | inl m ↦ elim (Bool-cases (leb x.expires_at now)) [
          | inl l ↦ absurd (
              let g =
                refused sv sv' (expire_friend_invite t x) t' p _
                  (rw (f, accept_friend_invite, h.waiting invite_id x f, m, l) at e) in
              cc)
          | inr l ↦
              opened-Joined x f (h.named invite_id x f) (ground arith) (ground arith)
                (rw (f, accept_friend_invite, h.waiting invite_id x f, m, l) at e)
        ]
      ]
    ]
