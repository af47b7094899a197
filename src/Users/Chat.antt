-- ===== src/Users/Chat.antt =====
-- users/src/repositories/chat.repository.ts: conversations between friends and their messages. A limit
-- that is asked for is a natural number.
use yovi_es1c.Prelude.{
  ℕ, ◌+◌, Bool, true, not, ◌&&◌, ◌||◌, ◌==◌, leb, ltb, if◌then◌else◌, Option, none, some, List, [],
  ◌∷◌, ◌++◌, any, keep, take, length,
}
use yovi_es1c.Prelude.Text.{Text}
use yovi_es1c.Prelude.Words.{trim, is_empty}
use yovi_es1c.Prelude.Query.{find, update_where, sort_by}
use yovi_es1c.Users.Tables.{Db, UserProfile, Conversation, ChatMessage, get_by_id, has_profile}
use yovi_es1c.Users.Friends.{
  Result, ok, err, own_chat, not_friends, text_required, text_too_long, database_error, missing_row,
  has_friendship,
}

abbrev pub min_of : ℕ → ℕ → ℕ
min_of a b = if leb a b then a else b

abbrev pub max_of : ℕ → ℕ → ℕ
max_of a b = if leb a b then b else a

abbrev pub is_conversation : ℕ → ℕ → Conversation → Bool
is_conversation low high c = (c.user_low_id == low) && (c.user_high_id == high)

-- INSERT INTO chat_conversations: both profiles are there, the users are in order, and UNIQUE.
unfoldable pub insert_conversation : Db → ℕ → ℕ → ℕ → Option Db
insert_conversation db low high now =
    if not (has_profile db low)
      || not (has_profile db high)
      || not (ltb low high)
      || any (is_conversation low high) db.conversations
    then none
    else some (record db {
      conversations =
          db.conversations
          ++ record {
            id = db.next_conversation;
            user_low_id = low;
            user_high_id = high;
            created_at = now;
            updated_at = now;
          }
            ∷ [];
      next_conversation = db.next_conversation + 1;
    })

-- The insertion that is made when no conversation is found.
unfoldable pub create_conversation : Db → ℕ → ℕ → ℕ → Db × Result ℕ
create_conversation db low high now = elim (insert_conversation db low high now) [
  | none ↦ (db, err database_error)
  | some db' ↦ (db', ok db.next_conversation)
]

-- `if (existing?.id)`: the number zero does not count.
unfoldable pub find_or_create : Db → ℕ → ℕ → ℕ → Db × Result ℕ
find_or_create db low high now = elim (find (is_conversation low high) db.conversations) [
  | none ↦ create_conversation db low high now
  | some existing ↦
      if existing.id == 0 then create_conversation db low high now else (db, ok existing.id)
]

unfoldable pub get_or_create_conversation_for_friends : Db → ℕ → ℕ → ℕ → Db × Result ℕ
get_or_create_conversation_for_friends db user_id friend_user_id now =
    if user_id == friend_user_id
    then (db, err own_chat)
    else if not (has_friendship db user_id friend_user_id)
    then (db, err not_friends)
    else find_or_create db (min_of user_id friend_user_id) (max_of user_id friend_user_id) now

-- `ORDER BY created_at DESC, id DESC`.
abbrev pub newer : ChatMessage → ChatMessage → Bool
newer a b = ltb b.created_at a.created_at || ((a.created_at == b.created_at) && leb b.id a.id)

abbrev pub limit_of : Option ℕ → ℕ
limit_of none = 50
limit_of (some limit) = max_of 1 (min_of limit 100)

-- No `beforeId`, and the number zero, ask for all messages.
abbrev pub is_before : Option ℕ → ChatMessage → Bool
is_before none m = true
is_before (some before_id) m = if before_id == 0 then true else ltb m.id before_id

abbrev pub page_of : Db → ℕ → Option ℕ → Option ℕ → List ChatMessage
page_of db conversation_id limit before_id = take (limit_of limit) (
    sort_by newer
      (keep (λ m. (m.conversation_id == conversation_id) && is_before before_id m) db.messages))

abbrev pub messages_of : Option ℕ → Option ℕ → Db × Result ℕ → Db × Result (ℕ × List ChatMessage)
messages_of limit before_id (db, err e) = (db, err e)
messages_of limit before_id (db, ok conversation_id) =
    (db, ok (conversation_id, page_of db conversation_id limit before_id))

unfoldable pub list_messages :
    Db → ℕ → ℕ → Option ℕ → Option ℕ → ℕ → Db × Result (ℕ × List ChatMessage)
list_messages db user_id friend_user_id limit before_id now =
    messages_of limit before_id
      (get_or_create_conversation_for_friends db user_id friend_user_id now)

abbrev pub message_row : Option ChatMessage → Result ChatMessage
message_row none = err missing_row
message_row (some m) = ok m

abbrev pub store_message : Db → ℕ → ℕ → Text → ℕ → Db
store_message db user_id conversation_id text now = record db {
  messages =
      db.messages
      ++ record {
        id = db.next_message;
        conversation_id = conversation_id;
        sender_user_id = user_id;
        text = text;
        created_at = now;
      }
        ∷ [];
  next_message = db.next_message + 1;
  conversations =
      update_where (λ c. c.id == conversation_id) (λ c. record c { updated_at = now })
        db.conversations;
}

-- sendMessage once the conversation is there; the checks of the text are those of the table too.
unfoldable pub post_message : Db × Result ℕ → ℕ → Text → ℕ → Db × Result ChatMessage
post_message (db, err e) user_id text now = (db, err e)
post_message (db, ok conversation_id) user_id text now =
    let db' = store_message db user_id conversation_id text now in
    (db', message_row (find (λ m. m.id == db.next_message) db'.messages))

unfoldable pub send_message : Db → ℕ → ℕ → Text → ℕ → Db × Result ChatMessage
send_message db user_id friend_user_id text now =
    let normalized = trim text in
    if is_empty normalized
    then (db, err text_required)
    else if ltb 2000 (length normalized)
    then (db, err text_too_long)
    else post_message (get_or_create_conversation_for_friends db user_id friend_user_id now) user_id
        normalized now

pub record ChatConversationSummary : Type 0 where
  pub id : ℕ
  pub updated_at : ℕ
  pub other_user : UserProfile
  pub last_message : Option ChatMessage

abbrev pub first_of : {A : Type 0} → List A → Option A
first_of [] = none
first_of (x ∷ xs) = some x

-- The row of a conversation: the other user's profile, and the newest message.
abbrev pub conversation_row : Db → Conversation → UserProfile → ChatConversationSummary
conversation_row db c up = record {
  id = c.id;
  updated_at = c.updated_at;
  other_user = up;
  last_message = first_of (sort_by newer (keep (λ m. m.conversation_id == c.id) db.messages));
}

abbrev pub other_member : ℕ → Conversation → ℕ
other_member user_id c = if c.user_low_id == user_id then c.user_high_id else c.user_low_id

unfoldable pub conversation_rows : Db → ℕ → List Conversation → List ChatConversationSummary
conversation_rows db user_id [] = []
conversation_rows db user_id (c ∷ cs) =
    let rest = conversation_rows db user_id cs in
    elim (get_by_id db (other_member user_id c)) [
      | none ↦ rest
      | some up ↦ conversation_row db c up ∷ rest
    ]

-- `ORDER BY c.updated_at DESC, c.id DESC`.
abbrev pub latest_active : ChatConversationSummary → ChatConversationSummary → Bool
latest_active a b =
    ltb b.updated_at a.updated_at || ((a.updated_at == b.updated_at) && leb b.id a.id)

unfoldable pub list_conversations : Db → ℕ → List ChatConversationSummary
list_conversations db user_id = sort_by latest_active (
    conversation_rows db user_id
      (keep (λ c. (c.user_low_id == user_id) || (c.user_high_id == user_id)) db.conversations))
