-- ===== src/Users/Calls.antt =====
-- The calls of the users service that change its tables, one after the other from empty tables.
use yovi_es1c.Prelude.{ℕ, Option, List, [], ◌∷◌}
use yovi_es1c.Prelude.Text.{Text}
use yovi_es1c.Users.Tables.{Db}
use yovi_es1c.Users.Friends.{
  ProfileUpdate, create_profile, ensure_profile, update_profile, create_friend_request,
  accept_friend_request, delete_friend_request, delete_friendship,
}
use yovi_es1c.Users.Chat.{list_messages, send_message}

pub data Call : Type 0 where
  create_profile_call ensure_profile_call : ℕ → Text → Option Text → ℕ → Call
  update_profile_call : ℕ → ProfileUpdate → Call
  create_friend_request_call : ℕ → Text → ℕ → Call
  accept_friend_request_call : ℕ → ℕ → ℕ → Call
  delete_friend_request_call delete_friendship_call : ℕ → ℕ → Call
  list_messages_call : ℕ → ℕ → Option ℕ → Option ℕ → ℕ → Call
  send_message_call : ℕ → ℕ → Text → ℕ → Call

unfoldable pub step : Db → Call → Db
step db (create_profile_call user_id username avatar now) =
    (create_profile db user_id username avatar now).0
step db (ensure_profile_call user_id username avatar now) =
    (ensure_profile db user_id username avatar now).0
step db (update_profile_call user_id update) = (update_profile db user_id update).0
step db (create_friend_request_call sender recipient_username now) =
    (create_friend_request db sender recipient_username now).0
step db (accept_friend_request_call request_id user_id now) =
    (accept_friend_request db request_id user_id now).0
step db (delete_friend_request_call request_id user_id) =
    (delete_friend_request db request_id user_id).0
step db (delete_friendship_call user_id friend_user_id) =
    (delete_friendship db user_id friend_user_id).0
step db (list_messages_call user_id friend_user_id limit before_id now) =
    (list_messages db user_id friend_user_id limit before_id now).0
step db (send_message_call user_id friend_user_id text now) =
    (send_message db user_id friend_user_id text now).0

unfoldable pub run : Db → List Call → Db
run db [] = db
run db (call ∷ calls) = run (step db call) calls

abbrev pub no_rows : Db
no_rows = record {
  profiles = [];
  requests = [];
  conversations = [];
  messages = [];
  next_request = 1;
  next_conversation = 1;
  next_message = 1;
}
