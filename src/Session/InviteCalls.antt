-- ===== src/Session/InviteCalls.antt =====
-- Any calls of createFriendInvite, acceptFriendInvite, declineFriendInvite and the two lookups of
-- OnlineSessionService.ts, one after the other: how many invites a user has, and how often one is
-- accepted.
use Prim.Native.String.{String}
use mathlib.Core.Path.{subst}
use yovi_es1c.Prelude.{
  ℕ, ◌≡◌, ◌≢◌, sym, ap, ◌∙◌, ◌⊎◌, inl, inr, not, ◌&&◌, ◌==◌, leb, Bool-cases, Option-cases, Option,
  some, none, List,
}
use yovi_es1c.Prelude.Maps.{Map, nat_eq, string_eq, lookup, lookup-insert_ne, lookup-remove_self}
use yovi_es1c.Rules.{MatchRules, CellDraw}
use yovi_es1c.Session.State.{SessionState}
use yovi_es1c.Session.Transitions.{SessionPlayer}
use yovi_es1c.Session.Store.{SessionStore}
use yovi_es1c.Session.Service.{Config, Service, Result, ok}
use yovi_es1c.Session.Invites.{
  FriendMatchInvite, FriendMatchReady, InviteEvent, Invites, notified, delete_friend_invite,
  expire_friend_invite, get_pending_friend_invite, get_outgoing_friend_invite, send_invite,
  save_friend_invite, new_invite, create_friend_invite, decline_friend_invite, open_session,
  accept_friend_invite,
}
use yovi_es1c.Session.Invitations.{some_inj, removed, IsIndexed, delete-IsIndexed}
use yovi_es1c.Session.InviteSteps.{
  get_pending-Looked, get_outgoing-Looked, notified-IsIndexed, invites-delete,
  create_friend_invite-IsIndexed, decline_friend_invite-IsIndexed,
}
use yovi_es1c.Session.InviteAccept.{accept_friend_invite-Joined}

abbrev Fewer : Invites → Invites → Type 0
Fewer t t' =
    (id : String) (i : FriendMatchInvite)
    → lookup id t'.invites ≡ some i
    → lookup id t.invites ≡ some i

-- Indexes in step, and no invite that was not there before.
record Shrinks (t t' : Invites) : Type 0 where
  indexed : IsIndexed t'
  fewer : Fewer t t'

delete-Fewer : (t : Invites) (id : String) → Fewer t (delete_friend_invite t id)
delete-Fewer t id j i e =
    (removed (λ x. x.recipient_id) t.by_recipient t.invites id j i
      (ap (λ (m : Map String FriendMatchInvite). lookup j m) (sym (invites-delete t id)) ∙ e)).1

told-Shrinks :
    (t : Invites) (id : String) (a b : InviteEvent)
    → IsIndexed t
    → Shrinks t (notified (notified (delete_friend_invite t id) a) b)
told-Shrinks t id a b h = record {
  indexed = notified-IsIndexed _ b (notified-IsIndexed _ a (delete-IsIndexed t id h));
  fewer = delete-Fewer t id;
}

same-Shrinks : (t : Invites) → IsIndexed t → Shrinks t t
same-Shrinks t h = record { indexed = h; fewer = λ id i e. e }

expire-Shrinks :
    (t : Invites) (x : FriendMatchInvite) → IsIndexed t → Shrinks t (expire_friend_invite t x)
unfolding expire_friend_invite
expire-Shrinks t x h = told-Shrinks t x.invite_id _ _ h

decline-Fewer :
    (t : Invites) (id : String) (user_id : ℕ) → Fewer t (decline_friend_invite t id user_id).0
unfolding decline_friend_invite
decline-Fewer t id user_id = elim (Option-cases (lookup id t.invites)) [
  | inl e ↦ rw (decline_friend_invite, e) (λ j i f. f)
  | inr (x, e) ↦
      elim (Bool-cases (not (x.recipient_id == user_id) && not (x.requester_id == user_id))) [
        | inl f ↦ rw (decline_friend_invite, e, f) (λ j i g. g)
        | inr f ↦ rw (decline_friend_invite, e, f) (delete-Fewer t x.invite_id)
      ]
]

-- Every invite was there before or is the new one.
abbrev AlmostFewer : String → Invites → Invites → Type 0
AlmostFewer new t t' =
    (id : String) (i : FriendMatchInvite)
    → new ≢ id
    → lookup id t'.invites ≡ some i
    → lookup id t.invites ≡ some i

send-AlmostFewer :
    (r : Invites × Option FriendMatchInvite) (x : FriendMatchInvite)
    → AlmostFewer x.invite_id r.0 (send_invite r x).0
unfolding send_invite save_friend_invite
send-AlmostFewer (t, some other) x id i ne e = e
send-AlmostFewer (t, none) x id i ne e = sym (lookup-insert_ne x.invite_id id x t.invites ne) ∙ e

create-AlmostFewer :
    (t : Invites) (requester recipient : SessionPlayer) (size : ℕ) (rules : MatchRules)
    (new : String) (now : ℕ)
    → IsIndexed t
    → AlmostFewer new t (create_friend_invite t requester recipient size rules new now).0
unfolding create_friend_invite new_invite
create-AlmostFewer t requester recipient size rules new now h =
    let a = get_pending-Looked t recipient.user_id now h in
    let u = (get_pending_friend_invite t recipient.user_id now).0 in
    let b = get_outgoing-Looked u requester.user_id now a.indexed in
    elim (Bool-cases (requester.user_id == recipient.user_id)) [
      | inl e ↦ rw (create_friend_invite, e) (λ id i ne f. f)
      | inr e ↦ elim (Option-cases (get_pending_friend_invite t recipient.user_id now).1) [
        | inr (other, f) ↦ rw (create_friend_invite, e, f) (λ id i ne g. a.fewer id i g)
        | inl f ↦
            rw (create_friend_invite, e, f)
              (λ id i ne g. a.fewer id i (
                b.fewer id i (
                  send-AlmostFewer (get_outgoing_friend_invite u requester.user_id now)
                    (new_invite requester recipient size rules new now) id i ne g)))
      ]
    ]

module _ (S : SessionStore) (cfg : Config) where
  abbrev Answer : Type 0
  Answer = Service S cfg × Invites × Result FriendMatchReady

  invites_of : (a b : Answer) → some a ≡ some b → a.1 ≡ b.1
  invites_of a b e = ap (λ (y : Answer). y.1) (some_inj e)

  open-Shrinks :
      (sv sv' : Service S cfg) (t t' : Invites) (x : FriendMatchInvite)
      (o : Option (Service S cfg × SessionState)) (r : Result FriendMatchReady)
      → IsIndexed t
      → open_session S cfg sv (delete_friend_invite t x.invite_id) x o ≡ some (sv', t', r)
      → Shrinks t t'
  unfolding open_session
  open-Shrinks sv sv' t t' x none r h e = absurd (let f : none ≡ some (sv', t', r) = e in cc)
  open-Shrinks sv sv' t t' x (some (w, s)) r h e =
      subst (Shrinks t) (invites_of _ (sv', t', r) e) (told-Shrinks t x.invite_id _ _ h)

  -- Whatever an acceptance answers, it adds no invite.
  accept-Shrinks :
      (sv sv' : Service S cfg) (t t' : Invites) (id : String) (user_id : ℕ) (match_id : String)
      (draws : List CellDraw) (now : ℕ) (r : Result FriendMatchReady)
      → IsIndexed t
      → accept_friend_invite S cfg sv t id user_id match_id draws now ≡ some (sv', t', r)
      → Shrinks t t'
  unfolding accept_friend_invite
  accept-Shrinks sv sv' t t' id user_id match_id draws now r h e =
      elim (Option-cases (lookup id t.invites)) [
        | inl f ↦
            subst (Shrinks t) (invites_of _ (sv', t', r) (rw (f, accept_friend_invite) at e))
              (same-Shrinks t h)
        | inr (x, f) ↦ elim (Bool-cases (x.recipient_id == user_id)) [
          | inr m ↦
              subst (Shrinks t)
                (invites_of _ (sv', t', r) (rw (f, accept_friend_invite, h.waiting id x f, m) at e))
                (same-Shrinks t h)
          | inl m ↦ elim (Bool-cases (leb x.expires_at now)) [
            | inl l ↦
                subst (Shrinks t)
                  (invites_of _ (sv', t', r)
                    (rw (f, accept_friend_invite, h.waiting id x f, m, l) at e))
                  (expire-Shrinks t x h)
            | inr l ↦
                open-Shrinks sv sv' t t' x _ r h
                  (rw (f, accept_friend_invite, h.waiting id x f, m, l) at e)
          ]
        ]
      ]

  -- Any calls with any arguments, in which every new invite has an id that is `Allowed`.
  pub data InviteCalls (Allowed : String → Type 0) (t : Invites) : Invites → Type 0 where
    begin : InviteCalls Allowed t t
    creates :
        {v : Invites} (requester recipient : SessionPlayer) (size : ℕ) (rules : MatchRules)
        (id : String) (now : ℕ)
        → InviteCalls Allowed t v
        → Allowed id
        → InviteCalls Allowed t (create_friend_invite v requester recipient size rules id now).0
    declines :
        {v : Invites} (id : String) (user_id : ℕ)
        → InviteCalls Allowed t v
        → InviteCalls Allowed t (decline_friend_invite v id user_id).0
    looks :
        {v : Invites} (user_id now : ℕ)
        → InviteCalls Allowed t v
        → InviteCalls Allowed t (get_pending_friend_invite v user_id now).0
    looks_out :
        {v : Invites} (user_id now : ℕ)
        → InviteCalls Allowed t v
        → InviteCalls Allowed t (get_outgoing_friend_invite v user_id now).0
    accepts :
        {v w : Invites} (sv sv' : Service S cfg) (id : String) (user_id : ℕ) (match_id : String)
        (draws : List CellDraw) (now : ℕ) (r : Result FriendMatchReady)
        → InviteCalls Allowed t v
        → accept_friend_invite S cfg sv v id user_id match_id draws now ≡ some (sv', w, r)
        → InviteCalls Allowed t w

  -- Any calls keep the indexes in step with the invites.
  calls-IsIndexed :
      (Allowed : String → Type 0) (t u : Invites)
      → IsIndexed t
      → InviteCalls Allowed t u
      → IsIndexed u
  calls-IsIndexed A t u h begin = h
  calls-IsIndexed A t u h (creates {v} a b size rules id now c allowed) =
      create_friend_invite-IsIndexed v a b size rules id now (calls-IsIndexed A t v h c)
  calls-IsIndexed A t u h (declines {v} id user_id c) =
      decline_friend_invite-IsIndexed v id user_id (calls-IsIndexed A t v h c)
  calls-IsIndexed A t u h (looks {v} user_id now c) =
      (get_pending-Looked v user_id now (calls-IsIndexed A t v h c)).indexed
  calls-IsIndexed A t u h (looks_out {v} user_id now c) =
      (get_outgoing-Looked v user_id now (calls-IsIndexed A t v h c)).indexed
  calls-IsIndexed A t u h (accepts {v} sv sv' id user_id match_id draws now r c e) =
      (accept-Shrinks sv sv' v u id user_id match_id draws now r (calls-IsIndexed A t v h c)
        e).indexed

  -- An invite that is there after calls that do not create one with its id was there before.
  calls-fewer :
      (id : String) (t u : Invites) (i : FriendMatchInvite)
      → IsIndexed t
      → InviteCalls (λ new. new ≢ id) t u
      → lookup id u.invites ≡ some i
      → lookup id t.invites ≡ some i
  calls-fewer id t u i h begin e = e
  calls-fewer id t u i h (creates {v} a b size rules new now c other) e =
      calls-fewer id t v i h c
        (create-AlmostFewer v a b size rules new now (calls-IsIndexed _ t v h c) id i other e)
  calls-fewer id t u i h (declines {v} x user_id c) e =
      calls-fewer id t v i h c (decline-Fewer v x user_id id i e)
  calls-fewer id t u i h (looks {v} user_id now c) e =
      calls-fewer id t v i h c
        ((get_pending-Looked v user_id now (calls-IsIndexed _ t v h c)).fewer id i e)
  calls-fewer id t u i h (looks_out {v} user_id now c) e =
      calls-fewer id t v i h c
        ((get_outgoing-Looked v user_id now (calls-IsIndexed _ t v h c)).fewer id i e)
  calls-fewer id t u i h (accepts {v} sv sv' x user_id match_id draws now r c k) e =
      calls-fewer id t v i h c (
        (accept-Shrinks sv sv' v u x user_id match_id draws now r (calls-IsIndexed _ t v h c)
            k).fewer
          id i e)

  -- When the indexes are in step with the invites, they are so after any calls one after the other; and then two stored
  -- invites of one recipient, or of one requester, are the same invite: nobody has two on one side.
  pub one_invite_per_user :
      (t u : Invites) (a b : String) (x y : FriendMatchInvite)
      → IsIndexed t
      → InviteCalls (λ new. Unit) t u
      → lookup a u.invites ≡ some x
      → lookup b u.invites ≡ some y
      → (x.recipient_id ≡ y.recipient_id) ⊎ (x.requester_id ≡ y.requester_id)
      → IsIndexed u × (a ≡ b) × (x ≡ y)
  one_invite_per_user t u a b x y h c e f which =
      let g = calls-IsIndexed (λ new. Unit) t u h c in
      let same_id : a ≡ b = elim which [
        | inl q ↦ some_inj (
            sym (g.recipients a x e)
            ∙ ap (λ (k : ℕ). lookup k u.by_recipient) q
            ∙ g.recipients b y f)
        | inr q ↦ some_inj (
            sym (g.requesters a x e)
            ∙ ap (λ (k : ℕ). lookup k u.by_requester) q
            ∙ g.requesters b y f)
      ] in
      (g, same_id, some_inj (sym e ∙ ap (λ (k : String). lookup k u.invites) same_id ∙ f))

  -- When the indexes are in step and a friend invite is accepted, it is never accepted again: not
  -- after any later calls one after the other, by anybody, with any session service, as long as none of the calls creates
  -- an invite with the same id.
  pub accept_once :
      (sv sv' sw sw' : Service S cfg) (t t' u u' : Invites) (id : String) (user_id user_id' : ℕ)
      (match_id match_id' : String) (draws draws' : List CellDraw) (now now' : ℕ)
      (p p' : FriendMatchReady)
      → IsIndexed t
      → accept_friend_invite S cfg sv t id user_id match_id draws now ≡ some (sv', t', ok p)
      → InviteCalls (λ new. new ≢ id) t' u
      → accept_friend_invite S cfg sw u id user_id' match_id' draws' now' ≢ some (sw', u', ok p')
  accept_once sv sv' sw sw' t t' u u' id user_id user_id' match_id match_id' draws draws' now now' p
        p' h e calls again =
      let first =
        accept_friend_invite-Joined S cfg sv sv' t t' id user_id match_id draws now p h e in
      let next = (accept-Shrinks sv sv' t t' id user_id match_id draws now (ok p) h e).indexed in
      let later = calls-IsIndexed (λ new. new ≢ id) t' u next calls in
      let second =
        accept_friend_invite-Joined S cfg sw sw' u u' id user_id' match_id' draws' now' p' later
          again in
      let still = calls-fewer id t' u second.invite next calls second.found in
      let gone : lookup id t'.invites ≡ none =
        ap (λ (m : Map String FriendMatchInvite). lookup id m) first.gone
        ∙ lookup-remove_self id t.invites in
      absurd (let k = sym gone ∙ still in cc)
