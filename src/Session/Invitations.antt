-- ===== src/Session/Invitations.antt =====
-- The indexes of the friend invites of OnlineSessionService.ts, and what saving and deleting an invite
-- does to them.
use Prim.Native.String.{String}
use yovi_es1c.Prelude.{
  ℕ, ◌≡◌, ◌≢◌, sym, ap, ◌∙◌, ◌⊎◌, inl, inr, true, Bool-cases, Option-cases, some, none,
}
use yovi_es1c.Prelude.Maps.{
  Map, nat_eq, string_eq, same, lookup, insert, remove, lookup-insert_self, lookup-insert_ne,
  lookup-remove_self, lookup-remove_ne,
}
use yovi_es1c.Session.Invites.{
  FriendMatchInvite, Invites, is_pending, save_friend_invite, delete_friend_invite,
}

pub some_inj : {A : Type 0} {x y : A} → some x ≡ some y → x ≡ y
some_inj e = cc

-- The index of one side, `user`, names every invite under its user.
abbrev pub Indexed : (FriendMatchInvite → ℕ) → Map ℕ String → Map String FriendMatchInvite → Type 0
Indexed user index invites =
    (id : String) (i : FriendMatchInvite)
    → lookup id invites ≡ some i
    → lookup (user i) index ≡ some id

-- Nobody's invite on that side is the user's.
abbrev pub Nobody : (FriendMatchInvite → ℕ) → Map String FriendMatchInvite → ℕ → Type 0
Nobody user invites user_id =
    (id : String) (i : FriendMatchInvite) → lookup id invites ≡ some i → user i ≢ user_id

-- Two keys are the same or not.
key_cases : (a b : String) → (a ≡ b) ⊎ (a ≢ b)
key_cases a b = elim (Bool-cases (same a b)) [
  | inl e ↦ inl ((string_eq.beq_iff a b).0 e)
  | inr e ↦ inr (λ q. let f = (string_eq.beq_iff a b).1 q in cc)
]

module _ (user : FriendMatchInvite → ℕ) (index : Map ℕ String)
    (invites : Map String FriendMatchInvite) where
  pub removed :
      (id j : String) (i : FriendMatchInvite)
      → lookup j (remove id invites) ≡ some i
      → (id ≢ j) × (lookup j invites ≡ some i)
  removed id j i e = elim (key_cases id j) [
    | inl q ↦ absurd (
        let f =
          sym (ap (λ (k : String). lookup k (remove id invites)) q)
          ∙ lookup-remove_self id invites in
        let g = sym f ∙ e in cc)
    | inr ne ↦ (ne, sym (lookup-remove_ne id j invites ne) ∙ e)
  ]

  Indexed-delete :
      (id : String) (x : FriendMatchInvite)
      → lookup id invites ≡ some x
      → Indexed user index invites
      → Indexed user (remove (user x) index) (remove id invites)
  Indexed-delete id x e h j i f =
      let (ne, g) = removed id j i f in
      lookup-remove_ne (user x) (user i) index
        (λ q. ne (some_inj (sym (h id x e) ∙ ap (λ (k : ℕ). lookup k index) q ∙ h j i g)))
      ∙ h j i g

  Indexed-drop : (id : String) → Indexed user index invites → Indexed user index (remove id invites)
  Indexed-drop id h j i f = h j i (removed id j i f).1

  pub Indexed-forget :
      (user_id : ℕ)
      → Nobody user invites user_id
      → Indexed user index invites
      → Indexed user (remove user_id index) invites
  Indexed-forget user_id n h j i f =
      lookup-remove_ne user_id (user i) index (λ q. n j i f (sym q)) ∙ h j i f

  Indexed-save :
      (id : String) (x : FriendMatchInvite)
      → Nobody user invites (user x)
      → Indexed user index invites
      → Indexed user (insert (user x) id index) (insert id x invites)
  Indexed-save id x n h j i f = elim (key_cases id j) [
    | inl q ↦
        let g =
          sym (lookup-insert_self id x invites)
          ∙ ap (λ (k : String). lookup k (insert id x invites)) q
          ∙ f in
        let r : x ≡ i = some_inj g in
        ap (λ (y : FriendMatchInvite). lookup (user y) (insert (user x) id index)) (sym r)
        ∙ lookup-insert_self (user x) id index
        ∙ ap some q
    | inr ne ↦
        let g = sym (lookup-insert_ne id j x invites ne) ∙ f in
        lookup-insert_ne (user x) (user i) id index (λ q. n j i g (sym q)) ∙ h j i g
  ]

  -- An index without an entry for the user, or with one for another invite, shows that nobody's
  -- invite is the user's.
  pub Nobody-unindexed :
      (user_id : ℕ)
      → Indexed user index invites
      → lookup user_id index ≡ none
      → Nobody user invites user_id
  Nobody-unindexed user_id h e j i f q =
      let g = sym (h j i f) ∙ ap (λ (k : ℕ). lookup k index) q ∙ e in cc

  pub Nobody-elsewhere :
      (user_id : ℕ) (id : String)
      → Indexed user index invites
      → lookup user_id index ≡ some id
      → ((x : FriendMatchInvite) → lookup id invites ≡ some x → user x ≢ user_id)
      → Nobody user invites user_id
  Nobody-elsewhere user_id id h e away j i f q =
      let g : j ≡ id = some_inj (sym (h j i f) ∙ ap (λ (k : ℕ). lookup k index) q ∙ e) in
      away i (ap (λ (k : String). lookup k invites) (sym g) ∙ f) q

-- Every invite stands under its own id, is pending, and is named by both indexes.
pub record IsIndexed (t : Invites) : Type 0 where
  pub named :
      (id : String) (i : FriendMatchInvite) → lookup id t.invites ≡ some i → i.invite_id ≡ id
  pub waiting :
      (id : String) (i : FriendMatchInvite)
      → lookup id t.invites ≡ some i
      → is_pending i.status ≡ true
  pub recipients : Indexed (λ i. i.recipient_id) t.by_recipient t.invites
  pub requesters : Indexed (λ i. i.requester_id) t.by_requester t.invites

pub delete-IsIndexed :
    (t : Invites) (id : String) → IsIndexed t → IsIndexed (delete_friend_invite t id)
unfolding delete_friend_invite
delete-IsIndexed t id h = elim (Option-cases (lookup id t.invites)) [
  | inl e ↦
      rw (e, delete_friend_invite)
        (record {
          named = λ j i f.
              h.named j i (removed (λ x. x.recipient_id) t.by_recipient t.invites id j i f).1;
          waiting = λ j i f.
              h.waiting j i (removed (λ x. x.recipient_id) t.by_recipient t.invites id j i f).1;
          recipients = Indexed-drop _ _ t.invites id h.recipients;
          requesters = Indexed-drop _ _ t.invites id h.requesters;
        })
  | inr (x, e) ↦
      rw (e, delete_friend_invite)
        (record {
          named = λ j i f.
              h.named j i (removed (λ x. x.recipient_id) t.by_recipient t.invites id j i f).1;
          waiting = λ j i f.
              h.waiting j i (removed (λ x. x.recipient_id) t.by_recipient t.invites id j i f).1;
          recipients = Indexed-delete (λ x. x.recipient_id) _ t.invites id x e h.recipients;
          requesters = Indexed-delete (λ x. x.requester_id) _ t.invites id x e h.requesters;
        })
]

pub save-IsIndexed :
    (t : Invites) (x : FriendMatchInvite)
    → IsIndexed t
    → is_pending x.status ≡ true
    → Nobody (λ i. i.recipient_id) t.invites x.recipient_id
    → Nobody (λ i. i.requester_id) t.invites x.requester_id
    → IsIndexed (save_friend_invite t x)
unfolding save_friend_invite
save-IsIndexed t x h p n m = record {
  named = λ j i f. elim (key_cases x.invite_id j) [
    | inl q ↦
        let r : x ≡ i = some_inj (
          sym (lookup-insert_self x.invite_id x t.invites)
          ∙ ap (λ (k : String). lookup k (insert x.invite_id x t.invites)) q
          ∙ f) in
        ap (λ (y : FriendMatchInvite). y.invite_id) (sym r) ∙ q
    | inr ne ↦ h.named j i (sym (lookup-insert_ne x.invite_id j x t.invites ne) ∙ f)
  ];
  waiting = λ j i f. elim (key_cases x.invite_id j) [
    | inl q ↦
        let r : x ≡ i = some_inj (
          sym (lookup-insert_self x.invite_id x t.invites)
          ∙ ap (λ (k : String). lookup k (insert x.invite_id x t.invites)) q
          ∙ f) in
        ap (λ (y : FriendMatchInvite). is_pending y.status) (sym r) ∙ p
    | inr ne ↦ h.waiting j i (sym (lookup-insert_ne x.invite_id j x t.invites ne) ∙ f)
  ];
  recipients =
      Indexed-save (λ i. i.recipient_id) t.by_recipient t.invites x.invite_id x n h.recipients;
  requesters =
      Indexed-save (λ i. i.requester_id) t.by_requester t.invites x.invite_id x m h.requesters;
}
