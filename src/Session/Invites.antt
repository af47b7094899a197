-- ===== src/Session/Invites.antt =====
-- Invitations to a friend's match: createFriendInvite, getPendingFriendInviteForUser,
-- getOutgoingFriendInviteForUser, acceptFriendInvite and declineFriendInvite of
-- OnlineSessionService.ts, on the maps that the service keeps without Redis. The ids of
-- randomUUID and the clock are arguments; `sent` lists the messages to users, the latest first.
use Prim.Native.String.{String}
use yovi_es1c.Prelude.{
  ℕ, ◌+◌, ◌*◌, Bool, true, false, not, ◌&&◌, ◌||◌, ◌==◌, leb, if◌then◌else◌, Option, none, some,
  List, ◌∷◌,
}
use yovi_es1c.Prelude.Text.{Text}
use yovi_es1c.Prelude.Maps.{Map, nat_eq, string_eq, lookup, insert, remove}
use yovi_es1c.Rules.{MatchRules, CellDraw}
use yovi_es1c.Session.State.{SessionState, PlayerState, SessionSource, friend, human}
use yovi_es1c.Session.Transitions.{SessionPlayer}
use yovi_es1c.Session.Store.{SessionStore}
use yovi_es1c.Session.Service.{
  Config, Service, Result, ok, err, friend_invite_not_found, friend_invite_expired,
  friend_invite_forbidden, friend_invite_already_pending,
}
use yovi_es1c.Session.Handlers.{create_session}

pub data FriendInviteStatus : Type 0 where
  pending accepted declined cancelled expired : FriendInviteStatus

pub record FriendMatchInvite : Type 0 where
  pub invite_id : String
  pub requester_id : ℕ
  pub requester_name : Text
  pub recipient_id : ℕ
  pub recipient_name : Text
  pub board_size : ℕ
  pub rules : MatchRules
  pub ranked : Bool
  pub source : SessionSource
  pub status : FriendInviteStatus
  pub created_at : ℕ
  pub expires_at : ℕ

pub record FriendMatchReady : Type 0 where
  pub match_id : String
  pub board_size : ℕ
  pub rules : MatchRules
  pub players : PlayerState × PlayerState

-- A message and the user it goes to.
pub data InviteEvent : Type 0 where
  invited sent expired_invite cancelled_invite declined_invite : ℕ → FriendMatchInvite → InviteEvent
  ready : ℕ → FriendMatchReady → InviteEvent

pub record Invites : Type 0 where
  pub invites : Map String FriendMatchInvite
  pub by_recipient : Map ℕ String
  pub by_requester : Map ℕ String
  pub sent : List InviteEvent

abbrev pub is_pending : FriendInviteStatus → Bool
is_pending pending = true
is_pending _ = false

abbrev pub notified : Invites → InviteEvent → Invites
notified t event = record t { sent = event ∷ t.sent }

-- saveFriendInvite.
unfoldable pub save_friend_invite : Invites → FriendMatchInvite → Invites
save_friend_invite t invite = record t {
  invites = insert invite.invite_id invite t.invites;
  by_recipient = insert invite.recipient_id invite.invite_id t.by_recipient;
  by_requester = insert invite.requester_id invite.invite_id t.by_requester;
}

abbrev pub read_friend_invite : Invites → String → Option FriendMatchInvite
read_friend_invite t invite_id = lookup invite_id t.invites

-- deleteFriendInvite.
unfoldable pub delete_friend_invite : Invites → String → Invites
delete_friend_invite t invite_id = elim (read_friend_invite t invite_id) [
  | none ↦ record t { invites = remove invite_id t.invites }
  | some invite ↦ record t {
    invites = remove invite_id t.invites;
    by_recipient = remove invite.recipient_id t.by_recipient;
    by_requester = remove invite.requester_id t.by_requester;
  }
]

-- expireFriendInvite.
unfoldable pub expire_friend_invite : Invites → FriendMatchInvite → Invites
expire_friend_invite t invite =
    notified
      (notified (delete_friend_invite t invite.invite_id)
        (expired_invite invite.requester_id invite))
      (expired_invite invite.recipient_id invite)

-- What getPendingFriendInviteForUser and getOutgoingFriendInviteForUser do with the invite that
-- the index names, or without one: `user` is the invite's user on that side, `forget` drops the
-- index entry.
unfoldable pub checked_invite :
    Invites
    → Option FriendMatchInvite
    → (FriendMatchInvite → ℕ)
    → ℕ
    → Invites
    → ℕ
    → Invites × Option FriendMatchInvite
checked_invite t none user user_id forget now = (forget, none)
checked_invite t (some invite) user user_id forget now =
    if not (user invite == user_id) || not (is_pending invite.status)
    then (forget, none)
    else if leb invite.expires_at now
    then (expire_friend_invite t invite, none)
    else (t, some invite)

unfoldable pub get_pending_friend_invite : Invites → ℕ → ℕ → Invites × Option FriendMatchInvite
get_pending_friend_invite t user_id now = elim (lookup user_id t.by_recipient) [
  | none ↦ (t, none)
  | some invite_id ↦
      checked_invite t (read_friend_invite t invite_id) (λ invite. invite.recipient_id) user_id
        (record t { by_recipient = remove user_id t.by_recipient }) now
]

unfoldable pub get_outgoing_friend_invite : Invites → ℕ → ℕ → Invites × Option FriendMatchInvite
get_outgoing_friend_invite t user_id now = elim (lookup user_id t.by_requester) [
  | none ↦ (t, none)
  | some invite_id ↦
      checked_invite t (read_friend_invite t invite_id) (λ invite. invite.requester_id) user_id
        (record t { by_requester = remove user_id t.by_requester }) now
]

-- The new invite of createFriendInvite, at the rules that resolveRulesForMatch returned.
unfoldable pub new_invite :
    SessionPlayer → SessionPlayer → ℕ → MatchRules → String → ℕ → FriendMatchInvite
new_invite requester recipient board_size rules invite_id now = record {
  invite_id = invite_id;
  requester_id = requester.user_id;
  requester_name = requester.username;
  recipient_id = recipient.user_id;
  recipient_name = recipient.username;
  board_size = board_size;
  rules = rules;
  ranked = false;
  source = friend;
  status = pending;
  created_at = now;
  expires_at = now + 120 * 1000;
}

-- createFriendInvite from the two reads on.
unfoldable pub send_invite :
    Invites × Option FriendMatchInvite → FriendMatchInvite → Invites × Result FriendMatchInvite
send_invite (t, some other) invite = (t, err friend_invite_already_pending)
send_invite (t, none) invite = (
  notified (notified (save_friend_invite t invite) (invited invite.recipient_id invite))
      (sent invite.requester_id invite),
  ok invite,
)

-- createFriendInvite, once the rules are resolved. In the source they are resolved after the
-- checks, which they do not affect.
unfoldable pub create_friend_invite :
    Invites
    → SessionPlayer
    → SessionPlayer
    → ℕ
    → MatchRules
    → String
    → ℕ
    → Invites × Result FriendMatchInvite
create_friend_invite t requester recipient board_size rules invite_id now =
    let (u, incoming) = get_pending_friend_invite t recipient.user_id now in
    if requester.user_id == recipient.user_id
    then (t, err friend_invite_forbidden)
    else elim incoming [
      | some other ↦ (u, err friend_invite_already_pending)
      | none ↦
          send_invite (get_outgoing_friend_invite u requester.user_id now)
            (new_invite requester recipient board_size rules invite_id now)
    ]

-- declineFriendInvite: the recipient declines, the requester cancels.
unfoldable pub decline_friend_invite : Invites → String → ℕ → Invites × Result Unit
decline_friend_invite t invite_id user_id = elim (read_friend_invite t invite_id) [
  | none ↦ (t, ok tt)
  | some invite ↦
      if not (invite.recipient_id == user_id) && not (invite.requester_id == user_id)
      then (t, err friend_invite_forbidden)
      else (
        notified (delete_friend_invite t invite.invite_id) (
            if invite.requester_id == user_id
            then cancelled_invite invite.recipient_id invite
            else declined_invite invite.requester_id invite),
        ok tt,
      )
]

module _ (S : SessionStore) (cfg : Config) where
  -- The session of acceptFriendInvite is created, and both users are told.
  unfoldable pub open_session :
      Service S cfg
      → Invites
      → FriendMatchInvite
      → Option (Service S cfg × SessionState)
      → Option (Service S cfg × Invites × Result FriendMatchReady)
  open_session sv t invite none = none
  open_session sv t invite (some (sv', session)) =
      let payload : FriendMatchReady = record {
        match_id = session.match_id;
        board_size = session.size;
        rules = session.rules;
        players = session.players;
      } in
      some (
        sv',
        notified (notified t (ready invite.requester_id payload))
            (ready invite.recipient_id payload),
        ok payload,
      )

  -- acceptFriendInvite; `none` as in createSession.
  unfoldable pub accept_friend_invite :
      Service S cfg
      → Invites
      → String
      → ℕ
      → String
      → List CellDraw
      → ℕ
      → Option (Service S cfg × Invites × Result FriendMatchReady)
  accept_friend_invite sv t invite_id user_id match_id draws now =
      elim (read_friend_invite t invite_id) [
        | none ↦ some (sv, t, err friend_invite_not_found)
        | some invite ↦
            if not (is_pending invite.status)
            then some (sv, t, err friend_invite_not_found)
            else if not (invite.recipient_id == user_id)
            then some (sv, t, err friend_invite_forbidden)
            else if leb invite.expires_at now
            then some (sv, expire_friend_invite t invite, err friend_invite_expired)
            else open_session sv (delete_friend_invite t invite.invite_id) invite (
                create_session S cfg sv
                  (record {
                    match_id = match_id;
                    size = invite.board_size;
                    players = (
                      record { user_id = invite.requester_id; username = invite.requester_name },
                      record { user_id = invite.recipient_id; username = invite.recipient_name },
                    );
                    opponent_type = human;
                    rules = invite.rules;
                    ranked = false;
                    source = friend;
                  })
                  draws now)
      ]
