-- ===== src/Users/Edits.antt =====
-- users/src/repositories/users.repository.ts and chat.repository.ts: what a call does to the table of
-- friend requests.
use mathlib.Core.Path.{subst}
use yovi_es1c.Prelude.{
  ℕ, ◌≡◌, ◌≢◌, refl, sym, ap, inl, inr, ◌+◌, Bool, not, ◌&&◌, ◌||◌, ◌==◌, Bool-cases, Option-cases,
  Option, some, none, [], ◌∷◌, ◌++◌, any, arith,
}
use yovi_es1c.Prelude.Text.{Text}
use yovi_es1c.Prelude.Maps.{same}
use yovi_es1c.Prelude.Words.{text_eq, trim, is_empty}
use yovi_es1c.Prelude.Query.{find, update_where, delete_where}
use yovi_es1c.Users.Tables.{
  Db, FriendRequest, UserProfile, pending, is_accepted, between, has_profile, get_by_id,
  get_by_username, insert_profile, insert_request,
}
use yovi_es1c.Users.Friends.{
  ProfileUpdate, create_profile, ensure_profile, update_profile, read_back, request_by_id,
  accepted_request, send_request, request_user, create_friend_request, delete_friend_request,
  delete_friendship,
}
use yovi_es1c.Users.Calls.{Call, accept_friend_request_call}

abbrev pub new_request : Db → ℕ → ℕ → ℕ → FriendRequest
new_request db sender recipient now = record {
  id = db.next_request;
  sender_user_id = sender;
  recipient_user_id = recipient;
  status = pending;
  created_at = now;
  updated_at = now;
}

-- The table of requests before and after a call: only an acceptance changes a row, and it does so for
-- the recipient.
pub data Edit (call : Call) (db : Db) (db' : Db) : Type 0 where
  unchanged : db.requests ≡ db'.requests → db.next_request ≡ db'.next_request → Edit call db db'
  sent :
      (sender recipient now : ℕ)
      → sender ≢ recipient
      → find (between sender recipient) db.requests ≡ none
      → db.requests ++ new_request db sender recipient now ∷ [] ≡ db'.requests
      → db.next_request + 1 ≡ db'.next_request
      → Edit call db db'
  answered :
      (request_id user_id now : ℕ) (request : FriendRequest)
      → call ≡ accept_friend_request_call request_id user_id now
      → request_by_id db request_id ≡ some request
      → request.recipient_user_id ≡ user_id
      → update_where (λ r. r.id == request_id) (accepted_request now) db.requests ≡ db'.requests
      → db.next_request ≡ db'.next_request
      → Edit call db db'
  deleted :
      (test : FriendRequest → Bool)
      → delete_where test db.requests ≡ db'.requests
      → db.next_request ≡ db'.next_request
      → Edit call db db'

pub some_inj : {A : Type 0} {x y : A} → some x ≡ some y → x ≡ y
some_inj e = cc

module _ (call : Call) where
  insert_profile-Edit :
      (db db' : Db) (p : UserProfile) → insert_profile db p ≡ some db' → Edit call db db'
  unfolding insert_profile
  insert_profile-Edit db db' p e =
      elim (Bool-cases
        (has_profile db p.user_id || any (λ q. same q.username p.username) db.profiles)) [
          | inl h ↦ absurd (let f : none ≡ some db' = rw h at e in cc)
          | inr h ↦
              let k = some_inj (rw h at e) in
              unchanged (ap (λ (x : Db). x.requests) k) (ap (λ (x : Db). x.next_request) k)
        ]

  read_back-db : (db : Db) (o : Option UserProfile) → (read_back db o).0 ≡ db
  read_back-db db none = refl
  read_back-db db (some p) = refl

  pub create_profile-Edit :
      (db : Db) (user_id : ℕ) (username : Text) (avatar : Option Text) (now : ℕ)
      → Edit call db (create_profile db user_id username avatar now).0
  unfolding create_profile
  create_profile-Edit db user_id username avatar now =
      elim (Option-cases (insert_profile db (profile))) [
        | inl e ↦ rw (e, create_profile) (unchanged refl refl)
        | inr (db', e) ↦
            rw (e, create_profile)
              (subst (Edit call db) (sym (read_back-db db' (get_by_id db' user_id)))
                (insert_profile-Edit db db' profile e))
      ]
    where
      profile : UserProfile
      profile = record {
        user_id = user_id;
        username = username;
        display_name = none;
        email = none;
        avatar = avatar;
        created_at = now;
      }

  pub ensure_profile-Edit :
      (db : Db) (user_id : ℕ) (username : Text) (avatar : Option Text) (now : ℕ)
      → Edit call db (ensure_profile db user_id username avatar now).0
  unfolding ensure_profile
  ensure_profile-Edit db user_id username avatar now = elim (Option-cases (get_by_id db user_id)) [
    | inl e ↦ rw (e, ensure_profile) (create_profile-Edit db user_id username avatar now)
    | inr (p, e) ↦ rw (e, ensure_profile) (unchanged refl refl)
  ]

  pub update_profile-Edit :
      (db : Db) (user_id : ℕ) (update : ProfileUpdate)
      → Edit call db (update_profile db user_id update).0
  unfolding update_profile
  update_profile-Edit db user_id update = elim (Option-cases (get_by_id db user_id)) [
    | inl e ↦ rw (e, update_profile) (unchanged refl refl)
    | inr (p, e) ↦ rw (e, update_profile) (unchanged refl refl)
  ]

  send_request-Edit :
      (db : Db) (sender recipient now : ℕ)
      → sender ≢ recipient
      → find (between sender recipient) db.requests ≡ none
      → Edit call db (send_request db sender recipient now).0
  unfolding send_request insert_request
  send_request-Edit db sender recipient now ne free =
      elim (Option-cases (insert_request db sender recipient now)) [
        | inl e ↦ rw (e, send_request) (unchanged refl refl)
        | inr (db', e) ↦ rw (e, send_request) (inserted db' e)
      ]
    where
      inserted : (db' : Db) → insert_request db sender recipient now ≡ some db' → Edit call db db'
      inserted db' e =
          elim (Bool-cases (
            not (has_profile db sender)
            || not (has_profile db recipient)
            || (sender == recipient)
            || any (λ r. (r.sender_user_id == sender) && (r.recipient_user_id == recipient))
                db.requests)) [
                  | inl h ↦ absurd (let f : none ≡ some db' = rw h at e in cc)
                  | inr h ↦
                      let k = some_inj (rw h at e) in
                      sent sender recipient now ne free (ap (λ (x : Db). x.requests) k)
                        (ap (λ (x : Db). x.next_request) k)
                ]

  request_user-Edit :
      (db : Db) (sender : ℕ) (recipient : UserProfile) (now : ℕ)
      → Edit call db (request_user db sender recipient now).0
  unfolding request_user
  request_user-Edit db sender recipient now = elim (Bool-cases (recipient.user_id == sender)) [
    | inl h ↦ rw (h, request_user) (unchanged refl refl)
    | inr h ↦ elim (Option-cases (find (between sender recipient.user_id) db.requests)) [
      | inl e ↦
          rw (h, e, request_user)
            (send_request-Edit db sender recipient.user_id now (λ q. ground (arith, sym q)) e)
      | inr (r, e) ↦ elim (Bool-cases (is_accepted r.status)) [
        | inl k ↦ rw (h, e, k, request_user) (unchanged refl refl)
        | inr k ↦ rw (h, e, k, request_user) (unchanged refl refl)
      ]
    ]
  ]

  pub create_friend_request-Edit :
      (db : Db) (sender : ℕ) (recipient_username : Text) (now : ℕ)
      → Edit call db (create_friend_request db sender recipient_username now).0
  unfolding create_friend_request
  create_friend_request-Edit db sender recipient_username now =
      elim (Bool-cases (is_empty (trim recipient_username))) [
        | inl h ↦ rw (h, create_friend_request) (unchanged refl refl)
        | inr h ↦ elim (Option-cases (get_by_id db sender)) [
          | inl e ↦ rw (h, e, create_friend_request) (unchanged refl refl)
          | inr (p, e) ↦ elim (Option-cases (get_by_username db (trim recipient_username))) [
            | inl f ↦ rw (h, e, f, create_friend_request) (unchanged refl refl)
            | inr (q, f) ↦ rw (h, e, f, create_friend_request) (request_user-Edit db sender q now)
          ]
        ]
      ]

  pub delete_friend_request-Edit :
      (db : Db) (request_id user_id : ℕ)
      → Edit call db (delete_friend_request db request_id user_id).0
  unfolding delete_friend_request
  delete_friend_request-Edit db request_id user_id =
      elim (Option-cases (request_by_id db request_id)) [
        | inl e ↦ rw (e, delete_friend_request) (unchanged refl refl)
        | inr (r, e) ↦
            elim (Bool-cases
              (not (r.sender_user_id == user_id) && not (r.recipient_user_id == user_id))) [
                | inl h ↦ rw (e, h, delete_friend_request) (unchanged refl refl)
                | inr h ↦
                    rw (e, h, delete_friend_request) (deleted (λ q. q.id == request_id) refl refl)
              ]
      ]

  pub delete_friendship-Edit :
      (db : Db) (user_id friend_user_id : ℕ)
      → Edit call db (delete_friendship db user_id friend_user_id).0
  unfolding delete_friendship
  delete_friendship-Edit db user_id friend_user_id = elim (Bool-cases (user_id == friend_user_id)) [
    | inl h ↦ rw (h, delete_friendship) (unchanged refl refl)
    | inr h ↦ rw (h, delete_friendship) (deleted _ refl refl)
  ]
