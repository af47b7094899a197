-- ===== src/Users/Tables.antt =====
-- The rows of users/src/database/users.sql, and the constraints that its INSERTs meet.
use yovi_es1c.Prelude.{
  ℕ, ◌+◌, Bool, true, false, not, ◌&&◌, ◌||◌, ◌==◌, if◌then◌else◌, Option, none, some, List, [],
  ◌∷◌, ◌++◌, any,
}
use yovi_es1c.Prelude.Text.{Text}
use yovi_es1c.Prelude.Words.{text_eq}
use yovi_es1c.Prelude.Maps.{same}
use yovi_es1c.Prelude.Query.{find}

pub record UserProfile : Type 0 where
  pub user_id : ℕ
  pub username : Text
  pub display_name : Option Text
  pub email : Option Text
  pub avatar : Option Text
  pub created_at : ℕ

pub data Status : Type 0 where
  pending accepted : Status

pub record FriendRequest : Type 0 where
  pub id : ℕ
  pub sender_user_id : ℕ
  pub recipient_user_id : ℕ
  pub status : Status
  pub created_at : ℕ
  pub updated_at : ℕ

pub record Conversation : Type 0 where
  pub id : ℕ
  pub user_low_id : ℕ
  pub user_high_id : ℕ
  pub created_at : ℕ
  pub updated_at : ℕ

pub record ChatMessage : Type 0 where
  pub id : ℕ
  pub conversation_id : ℕ
  pub sender_user_id : ℕ
  pub text : Text
  pub created_at : ℕ

-- The tables, and the next values of the AUTOINCREMENT columns.
pub record Db : Type 0 where
  pub profiles : List UserProfile
  pub requests : List FriendRequest
  pub conversations : List Conversation
  pub messages : List ChatMessage
  pub next_request : ℕ
  pub next_conversation : ℕ
  pub next_message : ℕ

abbrev pub is_pending_status : Status → Bool
is_pending_status pending = true
is_pending_status accepted = false

abbrev pub is_accepted : Status → Bool
is_accepted pending = false
is_accepted accepted = true

-- `(sender_user_id = ? AND recipient_user_id = ?) OR (sender_user_id = ? AND recipient_user_id = ?)`.
abbrev pub between : ℕ → ℕ → FriendRequest → Bool
between a b r =
    ((r.sender_user_id == a) && (r.recipient_user_id == b))
    || ((r.sender_user_id == b) && (r.recipient_user_id == a))

unfoldable pub get_by_id : Db → ℕ → Option UserProfile
get_by_id db user_id = find (λ p. p.user_id == user_id) db.profiles

unfoldable pub get_by_username : Db → Text → Option UserProfile
get_by_username db username = find (λ p. same p.username username) db.profiles

abbrev pub has_profile : Db → ℕ → Bool
has_profile db user_id = any (λ p. p.user_id == user_id) db.profiles

-- INSERT INTO user_profiles: the key and UNIQUE (username).
unfoldable pub insert_profile : Db → UserProfile → Option Db
insert_profile db profile =
    if has_profile db profile.user_id || any (λ p. same p.username profile.username) db.profiles
    then none
    else some (record db { profiles = db.profiles ++ profile ∷ [] })

-- INSERT INTO friend_requests: both profiles are there, they are different, and UNIQUE (sender,
-- recipient).
unfoldable pub insert_request : Db → ℕ → ℕ → ℕ → Option Db
insert_request db sender recipient now =
    if not (has_profile db sender)
      || not (has_profile db recipient)
      || (sender == recipient)
      || any (λ r. (r.sender_user_id == sender) && (r.recipient_user_id == recipient)) db.requests
    then none
    else some (record db {
      requests =
          db.requests
          ++ record {
            id = db.next_request;
            sender_user_id = sender;
            recipient_user_id = recipient;
            status = pending;
            created_at = now;
            updated_at = now;
          }
            ∷ [];
      next_request = db.next_request + 1;
    })
