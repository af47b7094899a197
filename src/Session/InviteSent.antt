-- ===== src/Session/InviteSent.antt =====
-- A friend invite that was sent is found by its recipient until it expires.
use Prim.Native.String.{String}
use yovi_es1c.Prelude.{
  ℕ, ◌≡◌, ◌<◌, refl, inl, inr, true, false, ◌==◌, leb, Bool-cases, Option-cases, Option, some, none,
  arith,
}
use yovi_es1c.Prelude.Maps.{nat_eq, string_eq, lookup, lookup-insert_self}
use yovi_es1c.Rules.{MatchRules}
use yovi_es1c.Session.Transitions.{SessionPlayer}
use yovi_es1c.Session.Service.{ok}
use yovi_es1c.Session.Invites.{
  FriendMatchInvite, Invites, is_pending, notified, invited, sent, save_friend_invite,
  checked_invite, get_pending_friend_invite, get_outgoing_friend_invite, new_invite, send_invite,
  create_friend_invite,
}

beq_refl : (n : ℕ) → (n == n) ≡ true
beq_refl n = ground arith

-- A saved invite is found.
saved-pending :
    (t : Invites) (x : FriendMatchInvite) (now : ℕ)
    → is_pending x.status ≡ true
    → now < x.expires_at
    → lookup x.recipient_id t.by_recipient ≡ some x.invite_id
    → lookup x.invite_id t.invites ≡ some x
    → get_pending_friend_invite t x.recipient_id now ≡ (t, some x)
unfolding get_pending_friend_invite checked_invite
saved-pending t x now p l e f =
    let later : leb x.expires_at now ≡ false = ground arith in
    rw (e, get_pending_friend_invite, f, checked_invite, beq_refl x.recipient_id, p, later) refl

send-pending :
    (r : Invites × Option FriendMatchInvite) (x y : FriendMatchInvite) (now : ℕ)
    → is_pending x.status ≡ true
    → now < x.expires_at
    → (send_invite r x).1 ≡ ok y
    → get_pending_friend_invite (send_invite r x).0 x.recipient_id now
      ≡ ((send_invite r x).0, some x)
unfolding send_invite save_friend_invite
send-pending (t, some other) x y now p l e = absurd (cc)
send-pending (t, none) x y now p l e =
    saved-pending
      (notified (notified (save_friend_invite t x) (invited x.recipient_id x))
        (sent x.requester_id x))
      x now p l (lookup-insert_self x.recipient_id x.invite_id t.by_recipient)
      (lookup-insert_self x.invite_id x t.invites)

-- When createFriendInvite answers with an invite, the recipient who asks before the invite expires
-- is given that new invite, with the names, the board size and the rules that it was created with.
pub create_friend_invite-pending :
    (t : Invites) (requester recipient : SessionPlayer) (board_size : ℕ) (rules : MatchRules)
    (invite_id : String) (now later : ℕ) (y : FriendMatchInvite)
    → (create_friend_invite t requester recipient board_size rules invite_id now).1 ≡ ok y
    → later < (new_invite requester recipient board_size rules invite_id now).expires_at
    → let t' = (create_friend_invite t requester recipient board_size rules invite_id now).0 in
      get_pending_friend_invite t' recipient.user_id later
      ≡ (t', some (new_invite requester recipient board_size rules invite_id now))
unfolding create_friend_invite new_invite
create_friend_invite-pending t requester recipient board_size rules invite_id now later y e l =
    let x = new_invite requester recipient board_size rules invite_id now in
    let u = (get_pending_friend_invite t recipient.user_id now).0 in
    elim (Bool-cases (requester.user_id == recipient.user_id)) [
      | inl s ↦ absurd (let g = rw (create_friend_invite, s) at e in cc)
      | inr s ↦ elim (Option-cases (get_pending_friend_invite t recipient.user_id now).1) [
        | inr (other, f) ↦ absurd (let g = rw (create_friend_invite, s, f) at e in cc)
        | inl f ↦
            rw (create_friend_invite, s, f)
              (send-pending (get_outgoing_friend_invite u requester.user_id now) x y later refl l
                (rw (create_friend_invite, s, f) at e))
      ]
    ]
