-- ===== src/Users/Steps.antt =====
-- users/src/repositories/users.repository.ts and chat.repository.ts: every call is an edit of the
-- requests.
use yovi_es1c.Prelude.{
  ℕ, ◌≡◌, refl, ap, inl, inr, not, ◌||◌, ==_iff, ◌==◌, ltb, Bool-cases, Option-cases, Option, some,
  none, any, length,
}
use yovi_es1c.Prelude.Text.{Text}
use yovi_es1c.Prelude.Words.{text_eq, trim, is_empty}
use yovi_es1c.Prelude.Query.{find}
use yovi_es1c.Users.Tables.{Db, Conversation, has_profile}
use yovi_es1c.Users.Friends.{Result, ok, err, request_by_id, accept_friend_request, has_friendship}
use yovi_es1c.Users.Chat.{
  insert_conversation, create_conversation, find_or_create, get_or_create_conversation_for_friends,
  list_messages, messages_of, post_message, send_message, store_message, min_of, max_of,
  is_conversation,
}
use yovi_es1c.Users.Calls.{
  Call, create_profile_call, ensure_profile_call, update_profile_call, create_friend_request_call,
  accept_friend_request_call, delete_friend_request_call, delete_friendship_call,
  list_messages_call, send_message_call, step,
}
use yovi_es1c.Users.Edits.{
  Edit, unchanged, sent, answered, deleted, some_inj, create_profile-Edit, ensure_profile-Edit,
  update_profile-Edit, create_friend_request-Edit, delete_friend_request-Edit,
  delete_friendship-Edit,
}

module _ (call : Call) where
  create_conversation-Edit :
      (db : Db) (low high now : ℕ) → Edit call db (create_conversation db low high now).0
  unfolding create_conversation insert_conversation
  create_conversation-Edit db low high now =
      elim (Option-cases (insert_conversation db low high now)) [
        | inl e ↦ rw (e, create_conversation) (unchanged refl refl)
        | inr (db', e) ↦ rw (e, create_conversation) (inserted db' e)
      ]
    where
      inserted : (db' : Db) → insert_conversation db low high now ≡ some db' → Edit call db db'
      inserted db' e =
          elim (Bool-cases (
            not (has_profile db low)
            || not (has_profile db high)
            || not (ltb low high)
            || any (is_conversation low high) db.conversations)) [
              | inl h ↦ absurd (let f : none ≡ some db' = rw h at e in cc)
              | inr h ↦
                  let k = some_inj (rw h at e) in
                  unchanged (ap (λ (x : Db). x.requests) k) (ap (λ (x : Db). x.next_request) k)
            ]

  conversation-Edit :
      (db : Db) (a b now : ℕ) → Edit call db (get_or_create_conversation_for_friends db a b now).0
  unfolding get_or_create_conversation_for_friends find_or_create
  conversation-Edit db a b now = elim (Bool-cases (a == b)) [
    | inl h ↦ rw (h, get_or_create_conversation_for_friends) (unchanged refl refl)
    | inr h ↦ elim (Bool-cases (has_friendship db a b)) [
      | inl k ↦
          rw (h, k, get_or_create_conversation_for_friends)
            (found (find (is_conversation (min_of a b) (max_of a b)) db.conversations) refl)
      | inr k ↦ rw (h, k, get_or_create_conversation_for_friends) (unchanged refl refl)
    ]
  ]
    where
      found :
          (o : Option Conversation)
          → find (is_conversation (min_of a b) (max_of a b)) db.conversations ≡ o
          → Edit call db (find_or_create db (min_of a b) (max_of a b) now).0
      found none e =
          rw (e, find_or_create) (create_conversation-Edit db (min_of a b) (max_of a b) now)
      found (some c) e = elim (Bool-cases (c.id == 0)) [
        | inl h ↦
            rw (e, h, find_or_create) (create_conversation-Edit db (min_of a b) (max_of a b) now)
        | inr h ↦ rw (e, h, find_or_create) (unchanged refl refl)
      ]

  messages_of-Edit :
      (db : Db) (limit before_id : Option ℕ) (r : Db × Result ℕ)
      → Edit call db r.0
      → Edit call db (messages_of limit before_id r).0
  messages_of-Edit db limit before_id (db', err x) e = e
  messages_of-Edit db limit before_id (db', ok id) e = e

  later :
      (db db' : Db) (user_id conversation_id : ℕ) (text : Text) (now : ℕ)
      → Edit call db db'
      → Edit call db (store_message db' user_id conversation_id text now)
  later db db' u c t now (unchanged a b) = unchanged a b
  later db db' u c t now (sent s r n ne f a b) = sent s r n ne f a b
  later db db' u c t now (answered i w n r q e x a b) = answered i w n r q e x a b
  later db db' u c t now (deleted p a b) = deleted p a b

  post_message-Edit :
      (db : Db) (r : Db × Result ℕ) (user_id : ℕ) (text : Text) (now : ℕ)
      → Edit call db r.0
      → Edit call db (post_message r user_id text now).0
  unfolding post_message
  post_message-Edit db (db', err x) user_id text now e = e
  post_message-Edit db (db', ok id) user_id text now e = later db db' user_id id text now e

  send_message-Edit :
      (db : Db) (a b : ℕ) (text : Text) (now : ℕ) → Edit call db (send_message db a b text now).0
  unfolding send_message
  send_message-Edit db a b text now = elim (Bool-cases (is_empty (trim text))) [
    | inl h ↦ rw (h, send_message) (unchanged refl refl)
    | inr h ↦ elim (Bool-cases (ltb 2000 (length (trim text)))) [
      | inl k ↦ rw (h, k, send_message) (unchanged refl refl)
      | inr k ↦
          rw (h, k, send_message)
            (post_message-Edit db _ a (trim text) now (conversation-Edit db a b now))
    ]
  ]

accept_friend_request-Edit :
    (db : Db) (request_id user_id now : ℕ)
    → Edit
        (accept_friend_request_call request_id user_id now)
        db
        (accept_friend_request db request_id user_id now).0
unfolding accept_friend_request
accept_friend_request-Edit db request_id user_id now =
    elim (Option-cases (request_by_id db request_id)) [
      | inl e ↦ rw (e, accept_friend_request) (unchanged refl refl)
      | inr (r, e) ↦ elim (Bool-cases (r.recipient_user_id == user_id)) [
        | inl h ↦
            rw (e, h, accept_friend_request)
              (answered request_id user_id now r refl e ((==_iff _ _).0 h) refl refl)
        | inr h ↦ rw (e, h, accept_friend_request) (unchanged refl refl)
      ]
    ]

pub step-Edit : (db : Db) (call : Call) → Edit call db (step db call)
unfolding step list_messages
step-Edit db (create_profile_call u n a now) = create_profile-Edit _ db u n a now
step-Edit db (ensure_profile_call u n a now) = ensure_profile-Edit _ db u n a now
step-Edit db (update_profile_call u update) = update_profile-Edit _ db u update
step-Edit db (create_friend_request_call s n now) = create_friend_request-Edit _ db s n now
step-Edit db (accept_friend_request_call i u now) = accept_friend_request-Edit db i u now
step-Edit db (delete_friend_request_call i u) = delete_friend_request-Edit _ db i u
step-Edit db (delete_friendship_call a b) = delete_friendship-Edit _ db a b
step-Edit db (list_messages_call a b limit before_id now) =
    messages_of-Edit _ db limit before_id _ (conversation-Edit _ db a b now)
step-Edit db (send_message_call a b text now) = send_message-Edit _ db a b text now
