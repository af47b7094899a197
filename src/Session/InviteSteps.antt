-- ===== src/Session/InviteSteps.antt =====
-- The operations on friend invites keep the indexes in step, and a user is told that nobody
-- invited them only when nobody did.
use Prim.Native.String.{String}
use yovi_es1c.Prelude.{
  ℕ, ◌≡◌, ◌≢◌, refl, sym, ap, ◌∙◌, inl, inr, true, not, ◌&&◌, ◌==◌, leb, Bool-cases, Option-cases,
  Option, some, none, arith,
}
use yovi_es1c.Prelude.Maps.{Map, nat_eq, string_eq, lookup, remove}
use yovi_es1c.Rules.{MatchRules}
use yovi_es1c.Session.Transitions.{SessionPlayer}
use yovi_es1c.Session.Invites.{
  FriendMatchInvite, InviteEvent, Invites, is_pending, notified, read_friend_invite,
  delete_friend_invite, expire_friend_invite, checked_invite, get_pending_friend_invite,
  get_outgoing_friend_invite, new_invite, send_invite, create_friend_invite, decline_friend_invite,
}
use yovi_es1c.Session.Invitations.{
  Indexed, Nobody, some_inj, removed, Indexed-forget, Nobody-unindexed, Nobody-elsewhere, IsIndexed,
  delete-IsIndexed, save-IsIndexed,
}

pub notified-IsIndexed : (t : Invites) (e : InviteEvent) → IsIndexed t → IsIndexed (notified t e)
notified-IsIndexed t e h = record {
  named = h.named;
  waiting = h.waiting;
  recipients = h.recipients;
  requesters = h.requesters;
}

pub invites-delete :
    (t : Invites) (id : String) → (delete_friend_invite t id).invites ≡ remove id t.invites
unfolding delete_friend_invite
invites-delete t id = elim (Option-cases (lookup id t.invites)) [
  | inl e ↦ rw (e, delete_friend_invite) refl
  | inr (x, e) ↦ rw (e, delete_friend_invite) refl
]

-- What a look at one side of the invites gives.
pub record Looked (user : FriendMatchInvite → ℕ) (user_id : ℕ) (t : Invites)
    (r : Invites × Option FriendMatchInvite) : Type 0 where
  pub indexed : IsIndexed r.0
  pub fewer :
      (id : String) (i : FriendMatchInvite)
      → lookup id r.0.invites ≡ some i
      → lookup id t.invites ≡ some i
  pub nobody : r.1 ≡ none → Nobody user r.0.invites user_id

module _ (user : FriendMatchInvite → ℕ) (user_id now : ℕ) (t forget : Invites) (id : String)
    (index : Map ℕ String) (h : IsIndexed t) (side : Indexed user index t.invites)
    (entry : lookup user_id index ≡ some id) (kept : forget.invites ≡ t.invites)
    (forgets : Nobody user t.invites user_id → IsIndexed forget) where
  forget-Looked : Nobody user t.invites user_id → Looked user user_id t (forget, none)
  forget-Looked n = record {
    indexed = forgets n;
    fewer = λ j i e. ap (λ (m : Map String FriendMatchInvite). lookup j m) (sym kept) ∙ e;
    nobody =
        λ _ j i e. n j i (ap (λ (m : Map String FriendMatchInvite). lookup j m) (sym kept) ∙ e);
  }

  expire-Looked :
      (x : FriendMatchInvite)
      → lookup id t.invites ≡ some x
      → Looked user user_id t (expire_friend_invite t x, none)
  unfolding expire_friend_invite
  expire-Looked x e =
      let own = h.named id x e in
      let gone : (j : String) (i : FriendMatchInvite)
          → lookup j (expire_friend_invite t x).invites ≡ some i
          → (id ≢ j) × (lookup j t.invites ≡ some i) =
        λ j i f. removed user index t.invites id j i (
          ap (λ (k : String). lookup j (remove k t.invites)) (sym own)
          ∙ ap (λ (m : Map String FriendMatchInvite). lookup j m)
              (sym (invites-delete t x.invite_id))
          ∙ f) in
      record {
        indexed =
            notified-IsIndexed _ _ (notified-IsIndexed _ _ (delete-IsIndexed t x.invite_id h));
        fewer = λ j i f. (gone j i f).1;
        nobody = λ _ j i f q.
            let (ne, g) = gone j i f in
            ne (some_inj (sym entry ∙ ap (λ (k : ℕ). lookup k index) (sym q) ∙ side j i g));
      }

  checked-Looked :
      Looked user user_id t (checked_invite t (read_friend_invite t id) user user_id forget now)
  unfolding checked_invite
  checked-Looked = elim (Option-cases (lookup id t.invites)) [
    | inl e ↦
        rw (e, checked_invite)
          (forget-Looked (
            Nobody-elsewhere user index t.invites user_id id side entry
              (λ x f. absurd (let g = sym e ∙ f in cc))))
    | inr (x, e) ↦ elim (Bool-cases (user x == user_id)) [
      | inr u ↦
          rw (e, checked_invite, u)
            (forget-Looked (
              Nobody-elsewhere user index t.invites user_id id side entry (λ y f q.
                let g : x ≡ y = some_inj (sym e ∙ f) in let k = ap user g in ground arith)))
      | inl u ↦ elim (Bool-cases (leb x.expires_at now)) [
        | inl l ↦ rw (e, checked_invite, u, h.waiting id x e, l) (expire-Looked x e)
        | inr l ↦
            rw (e, checked_invite, u, h.waiting id x e, l)
              (record { indexed = h; fewer = λ j i f. f; nobody = λ f. cc })
      ]
    ]
  ]

pub get_pending-Looked :
    (t : Invites) (user_id now : ℕ)
    → IsIndexed t
    → Looked (λ i. i.recipient_id) user_id t (get_pending_friend_invite t user_id now)
unfolding get_pending_friend_invite
get_pending-Looked t user_id now h = elim (Option-cases (lookup user_id t.by_recipient)) [
  | inl e ↦
      rw (e, get_pending_friend_invite)
        (record {
          indexed = h;
          fewer = λ j i f. f;
          nobody = λ _. Nobody-unindexed _ t.by_recipient t.invites user_id h.recipients e;
        })
  | inr (id, e) ↦
      let forget : Invites = record t { by_recipient = remove user_id t.by_recipient } in
      rw (e, get_pending_friend_invite)
        (checked-Looked (λ i. i.recipient_id) user_id now t forget id t.by_recipient h h.recipients
          e refl
          (λ n. record {
            named = h.named;
            waiting = h.waiting;
            recipients = Indexed-forget _ t.by_recipient t.invites user_id n h.recipients;
            requesters = h.requesters;
          }))
]

pub get_outgoing-Looked :
    (t : Invites) (user_id now : ℕ)
    → IsIndexed t
    → Looked (λ i. i.requester_id) user_id t (get_outgoing_friend_invite t user_id now)
unfolding get_outgoing_friend_invite
get_outgoing-Looked t user_id now h = elim (Option-cases (lookup user_id t.by_requester)) [
  | inl e ↦
      rw (e, get_outgoing_friend_invite)
        (record {
          indexed = h;
          fewer = λ j i f. f;
          nobody = λ _. Nobody-unindexed _ t.by_requester t.invites user_id h.requesters e;
        })
  | inr (id, e) ↦
      let forget : Invites = record t { by_requester = remove user_id t.by_requester } in
      rw (e, get_outgoing_friend_invite)
        (checked-Looked (λ i. i.requester_id) user_id now t forget id t.by_requester h h.requesters
          e refl
          (λ n. record {
            named = h.named;
            waiting = h.waiting;
            recipients = h.recipients;
            requesters = Indexed-forget _ t.by_requester t.invites user_id n h.requesters;
          }))
]

send-IsIndexed :
    (r : Invites × Option FriendMatchInvite) (x : FriendMatchInvite)
    → IsIndexed r.0
    → is_pending x.status ≡ true
    → Nobody (λ i. i.recipient_id) r.0.invites x.recipient_id
    → (r.1 ≡ none → Nobody (λ i. i.requester_id) r.0.invites x.requester_id)
    → IsIndexed (send_invite r x).0
unfolding send_invite
send-IsIndexed (t, some other) x h p n m = h
send-IsIndexed (t, none) x h p n m =
    notified-IsIndexed _ _ (notified-IsIndexed _ _ (save-IsIndexed t x h p n (m refl)))

-- createFriendInvite keeps indexes that are in step so, whatever it answers: every stored invite is pending,
-- and named by the index of its recipient and by that of its requester.
pub create_friend_invite-IsIndexed :
    (t : Invites) (requester recipient : SessionPlayer) (board_size : ℕ) (rules : MatchRules)
    (invite_id : String) (now : ℕ)
    → IsIndexed t
    → IsIndexed (create_friend_invite t requester recipient board_size rules invite_id now).0
unfolding create_friend_invite new_invite
create_friend_invite-IsIndexed t requester recipient board_size rules invite_id now h =
    let a = get_pending-Looked t recipient.user_id now h in
    let u = (get_pending_friend_invite t recipient.user_id now).0 in
    let b = get_outgoing-Looked u requester.user_id now a.indexed in
    elim (Bool-cases (requester.user_id == recipient.user_id)) [
      | inl e ↦ rw (create_friend_invite, e) h
      | inr e ↦ elim (Option-cases (get_pending_friend_invite t recipient.user_id now).1) [
        | inr (other, f) ↦ rw (create_friend_invite, e, f) a.indexed
        | inl f ↦
            rw (create_friend_invite, e, f)
              (send-IsIndexed (get_outgoing_friend_invite u requester.user_id now)
                (new_invite requester recipient board_size rules invite_id now) b.indexed refl
                (λ j i g. a.nobody f j i (b.fewer j i g)) b.nobody)
      ]
    ]

-- declineFriendInvite keeps indexes that are in step with the invites so, whatever it answers.
pub decline_friend_invite-IsIndexed :
    (t : Invites) (invite_id : String) (user_id : ℕ)
    → IsIndexed t
    → IsIndexed (decline_friend_invite t invite_id user_id).0
unfolding decline_friend_invite
decline_friend_invite-IsIndexed t invite_id user_id h =
    elim (Option-cases (lookup invite_id t.invites)) [
      | inl e ↦ rw (decline_friend_invite, e) h
      | inr (x, e) ↦
          elim (Bool-cases (not (x.recipient_id == user_id) && not (x.requester_id == user_id))) [
            | inl f ↦ rw (decline_friend_invite, e, f) h
            | inr f ↦
                rw (decline_friend_invite, e, f)
                  (notified-IsIndexed _ _ (delete-IsIndexed t x.invite_id h))
          ]
    ]
