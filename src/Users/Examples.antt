-- ===== src/Users/Examples.antt =====
-- Two users: Ana asks Bob, who accepts; they chat, and the friendship ends.
use yovi_es1c.Prelude.{
  ◌≡◌, ◌≢◌, ◌↔◌, ◌≤◌, ◌&&◌, refl, true, false, none, List, [], ◌∷◌, arith, length,
}
use yovi_es1c.Prelude.Text.{Text}
use yovi_es1c.Prelude.Words.{trim, is_empty}
use yovi_es1c.Prelude.Query.{find, count_where, update_where}
use yovi_es1c.Users.Tables.{
  Db, between, get_by_id, get_by_username, insert_profile, insert_request, has_profile, ChatMessage,
}
use yovi_es1c.Users.Friends.{
  ok, err, database_error, create_profile, create_friend_request, request_user, send_request,
  accept_friend_request, delete_friendship, has_friendship, list_friends,
}
use yovi_es1c.Users.Chat.{
  send_message, post_message, get_or_create_conversation_for_friends, find_or_create,
  create_conversation, insert_conversation, list_messages,
}
use yovi_es1c.Users.Calls.{
  Call, create_profile_call, create_friend_request_call, accept_friend_request_call, step, run,
  no_rows,
}
use yovi_es1c.Users.Relations.{Consents, run-one_between, step-Consents}
use yovi_es1c.Users.Friendships.{
  in_list, list_friends-has_friendship, delete_friendship-ends,
  create_friend_request-ne_database_error,
}
use yovi_es1c.Users.Messages.{IsClocked, send_message-read_first}

abbrev ana : Text
ana = b'a' ∷ []

abbrev bob : Text
bob = b'b' ∷ []

abbrev asked : List Call
asked =
    create_profile_call 1 ana none 0
    ∷ create_profile_call 2 bob none 0
    ∷ create_friend_request_call 1 bob 5
    ∷ []

abbrev friends : Db
friends = step (run no_rows asked) (accept_friend_request_call 1 2 6)

run-one_between_example : count_where (between 1 2) (run no_rows asked).requests ≤ 1
run-one_between_example = run-one_between asked 1 2

step-Consents_example : Consents (run no_rows asked) (accept_friend_request_call 1 2 6) 1 2
unfolding run step create_profile insert_profile get_by_id create_friend_request trim
    get_by_username request_user send_request insert_request accept_friend_request has_friendship
    find update_where
step-Consents_example = step-Consents asked (accept_friend_request_call 1 2 6) 1 2 refl refl

list_friends-has_friendship_example :
    in_list 1 (list_friends (λ s t. true) friends 2)
    ≡ (has_profile friends 1 && has_friendship friends 2 1)
list_friends-has_friendship_example = list_friends-has_friendship (λ s t. true) friends 2 1

delete_friendship-ends_example :
    (((delete_friendship friends 1 2).1 ≡ ok tt) ↔ (has_friendship friends 1 2 ≡ true))
    × (has_friendship (delete_friendship friends 1 2).0 1 2 ≡ false)
    × (has_friendship (delete_friendship friends 1 2).0 2 1 ≡ false)
delete_friendship-ends_example = delete_friendship-ends friends 1 2 (omega arith)

create_friend_request-ne_database_error_example :
    (create_friend_request friends 2 ana 7).1 ≢ err database_error
create_friend_request-ne_database_error_example =
    create_friend_request-ne_database_error friends 2 ana 7

abbrev hello : Text
hello = b' ' ∷ b'h' ∷ b'i' ∷ b' ' ∷ []

abbrev said : ChatMessage
said = record {
  id = 1;
  conversation_id = 1;
  sender_user_id = 1;
  text = b'h' ∷ b'i' ∷ [];
  created_at = 9;
}

friends-IsClocked : IsClocked friends 9
unfolding run step create_profile insert_profile get_by_id create_friend_request trim
    get_by_username request_user send_request insert_request accept_friend_request find update_where
friends-IsClocked = record {
  conversations_from = omega arith;
  messages_below = tt;
  messages_past = tt;
}

send_message-read_first_example :
    (said.sender_user_id ≡ 1)
    × (said.text ≡ trim hello)
    × (is_empty (trim hello) ≡ false)
    × (length (trim hello) ≤ 2000)
    × (has_friendship friends 1 2 ≡ true)
    × ((rest : List ChatMessage) × (list_messages
            (send_message friends 1 2 hello 9).0
            2
            1
            none
            none
            10
          ≡ ((send_message friends 1 2 hello 9).0, ok (said.conversation_id, said ∷ rest))))
unfolding run step create_profile insert_profile get_by_id create_friend_request trim
    get_by_username request_user send_request insert_request accept_friend_request has_friendship
    find update_where send_message post_message get_or_create_conversation_for_friends
    find_or_create create_conversation insert_conversation
send_message-read_first_example =
    send_message-read_first friends 1 2 hello 9 said 10 friends-IsClocked refl
