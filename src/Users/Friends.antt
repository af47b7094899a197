-- ===== src/Users/Friends.antt =====
-- users/src/repositories/users.repository.ts: profiles, friend requests and friendships. The order of
-- COLLATE NOCASE is a parameter; the clock is an argument.
use yovi_es1c.Prelude.{
  ℕ, Bool, not, ◌&&◌, ◌||◌, ◌==◌, leb, if◌then◌else◌, Option, none, some, List, [], ◌∷◌, ◌++◌, any,
  keep,
}
use yovi_es1c.Prelude.Text.{Text}
use yovi_es1c.Prelude.Words.{trim, is_empty}
use yovi_es1c.Prelude.Query.{find, count_where, update_where, delete_where, sort_by}
use yovi_es1c.Users.Tables.{
  Db, UserProfile, FriendRequest, Status, accepted, is_pending_status, is_accepted, between,
  get_by_id, get_by_username, insert_profile, insert_request,
}

-- The errors of errors/domain-errors.ts; `database_error` is a constraint that an INSERT breaks, and
-- `missing_row` the error of reading a row that is not there.
pub data UsersError : Type 0 where
  recipient_required own_request profile_not_found friendship_already_exists
        friend_request_already_exists friend_request_not_found forbidden_friend_request_action
        own_friendship friendship_not_found own_chat not_friends text_required text_too_long
        database_error missing_row :
      UsersError

pub data Result (A : Type 0) : Type 0 where
  ok : A → Result A
  err : UsersError → Result A

pub record FriendSummary : Type 0 where
  pub user_id : ℕ
  pub username : Text
  pub display_name : Option Text
  pub avatar : Option Text
  pub friendship_created_at : ℕ

pub data Direction : Type 0 where
  incoming outgoing : Direction

pub record FriendRequestSummary : Type 0 where
  pub id : ℕ
  pub status : Status
  pub created_at : ℕ
  pub user_id : ℕ
  pub username : Text
  pub display_name : Option Text
  pub avatar : Option Text
  pub direction : Direction

-- `undefined` leaves a column as it is; the avatar can be set to null as well.
pub record ProfileUpdate : Type 0 where
  pub display_name : Option Text
  pub email : Option Text
  pub avatar : Option (Option Text)

abbrev pub read_back : Db → Option UserProfile → Db × Result UserProfile
read_back db none = (db, err missing_row)
read_back db (some profile) = (db, ok profile)

unfoldable pub create_profile : Db → ℕ → Text → Option Text → ℕ → Db × Result UserProfile
create_profile db user_id username avatar now =
    elim (insert_profile db (record {
      user_id = user_id;
      username = username;
      display_name = none;
      email = none;
      avatar = avatar;
      created_at = now;
    })) [ none ↦ (db, err database_error) | some db' ↦ read_back db' (get_by_id db' user_id) ]

unfoldable pub ensure_profile : Db → ℕ → Text → Option Text → ℕ → Db × Result UserProfile
ensure_profile db user_id username avatar now = elim (get_by_id db user_id) [
  | none ↦ create_profile db user_id username avatar now
  | some existing ↦ (db, ok existing)
]

abbrev pub or_else : {A : Type 0} → Option A → A → A
or_else none old = old
or_else (some new) old = new

abbrev pub or_keep : Option Text → Option Text → Option Text
or_keep none old = old
or_keep (some new) old = some new

unfoldable pub update_profile : Db → ℕ → ProfileUpdate → Db × Option UserProfile
update_profile db user_id data' = elim (get_by_id db user_id) [
  | none ↦ (db, none)
  | some current ↦
      let db' : Db = record db {
        profiles =
            update_where (λ p. p.user_id == user_id)
              (λ p. record p {
                display_name = or_keep data'.display_name current.display_name;
                email = or_keep data'.email current.email;
                avatar = or_else data'.avatar current.avatar;
              })
              db.profiles;
      } in
      (db', get_by_id db' user_id)
]

-- The other user of a request, by the CASE of listFriends.
abbrev pub other_side : ℕ → FriendRequest → ℕ
other_side user_id r = if r.sender_user_id == user_id then r.recipient_user_id else r.sender_user_id

abbrev pub map_friend : UserProfile → FriendRequest → FriendSummary
map_friend up fr = record {
  user_id = up.user_id;
  username = up.username;
  display_name = up.display_name;
  avatar = up.avatar;
  friendship_created_at = fr.updated_at;
}

-- The inner join of requests with the profile of one of their users.
unfoldable pub join_profiles :
    {A : Type 0}
    → Db
    → (FriendRequest → ℕ)
    → (UserProfile → FriendRequest → A)
    → List FriendRequest
    → List A
join_profiles db key row [] = []
join_profiles db key row (r ∷ rs) =
    let rest = join_profiles db key row rs in
    elim (get_by_id db (key r)) [ none ↦ rest | some up ↦ row up r ∷ rest ]

abbrev pub name_of : FriendSummary → Text
name_of f = or_else f.display_name f.username

unfoldable pub list_friends : (Text → Text → Bool) → Db → ℕ → List FriendSummary
list_friends nocase db user_id =
    sort_by (λ f g. nocase (name_of f) (name_of g))
      (join_profiles db (other_side user_id) map_friend (
        keep
          (λ r.
            ((r.sender_user_id == user_id) || (r.recipient_user_id == user_id))
            && is_accepted r.status)
          db.requests))

unfoldable pub has_friendship : Db → ℕ → ℕ → Bool
has_friendship db user_id other_user_id =
    any (λ r. is_accepted r.status && between user_id other_user_id r) db.requests

abbrev pub map_friend_request : Direction → UserProfile → FriendRequest → FriendRequestSummary
map_friend_request direction up fr = record {
  id = fr.id;
  status = fr.status;
  created_at = fr.created_at;
  user_id = up.user_id;
  username = up.username;
  display_name = up.display_name;
  avatar = up.avatar;
  direction = direction;
}

-- `ORDER BY fr.created_at DESC`.
abbrev pub latest_first : FriendRequestSummary → FriendRequestSummary → Bool
latest_first a b = leb b.created_at a.created_at

unfoldable pub list_pending_friend_requests : Db → ℕ → List FriendRequestSummary
list_pending_friend_requests db user_id =
    sort_by latest_first (
      join_profiles db (λ r. r.sender_user_id) (map_friend_request incoming)
        (keep (λ r. (r.recipient_user_id == user_id) && is_pending_status r.status) db.requests))
    ++ sort_by latest_first (
        join_profiles db (λ r. r.recipient_user_id) (map_friend_request outgoing)
          (keep (λ r. (r.sender_user_id == user_id) && is_pending_status r.status) db.requests))

-- The row of a request joined with one of its users, as create and accept give it back.
abbrev pub summary_row :
    Direction
    → Option FriendRequest
    → (FriendRequest → Option UserProfile)
    → Result FriendRequestSummary
summary_row direction none profile = err missing_row
summary_row direction (some r) profile = elim (profile r) [
  | none ↦ err missing_row
  | some up ↦ ok (map_friend_request direction up r)
]

abbrev pub request_by_id : Db → ℕ → Option FriendRequest
request_by_id db request_id = find (λ r. r.id == request_id) db.requests

-- createFriendRequest once no request stands between the two.
unfoldable pub send_request : Db → ℕ → ℕ → ℕ → Db × Result FriendRequestSummary
send_request db sender recipient now = elim (insert_request db sender recipient now) [
  | none ↦ (db, err database_error)
  | some db' ↦ (
    db',
    summary_row outgoing (request_by_id db' db.next_request)
        (λ r. get_by_id db' r.recipient_user_id),
  )
]

-- createFriendRequest once both profiles are found.
unfoldable pub request_user : Db → ℕ → UserProfile → ℕ → Db × Result FriendRequestSummary
request_user db sender recipient now =
    if recipient.user_id == sender
    then (db, err own_request)
    else elim (find (between sender recipient.user_id) db.requests) [
      | none ↦ send_request db sender recipient.user_id now
      | some existing ↦
          if is_accepted existing.status
          then (db, err friendship_already_exists)
          else (db, err friend_request_already_exists)
    ]

unfoldable pub create_friend_request : Db → ℕ → Text → ℕ → Db × Result FriendRequestSummary
create_friend_request db sender recipient_username now =
    let normalized_username = trim recipient_username in
    if is_empty normalized_username
    then (db, err recipient_required)
    else elim (get_by_id db sender) [
      | none ↦ (db, err profile_not_found)
      | some profile ↦ elim (get_by_username db normalized_username) [
        | none ↦ (db, err profile_not_found)
        | some recipient ↦ request_user db sender recipient now
      ]
    ]

abbrev pub accepted_request : ℕ → FriendRequest → FriendRequest
accepted_request now r = record r { status = accepted; updated_at = now }

unfoldable pub accept_friend_request : Db → ℕ → ℕ → ℕ → Db × Result FriendRequestSummary
accept_friend_request db request_id user_id now = elim (request_by_id db request_id) [
  | none ↦ (db, err friend_request_not_found)
  | some existing ↦
      if not (existing.recipient_user_id == user_id)
      then (db, err forbidden_friend_request_action)
      else (let db' : Db = record db {
        requests = update_where (λ r. r.id == request_id) (accepted_request now) db.requests;
      } in
          (
            db',
            summary_row incoming (request_by_id db' request_id)
                (λ r. get_by_id db' r.sender_user_id),
          ))
]

unfoldable pub delete_friend_request : Db → ℕ → ℕ → Db × Result Unit
delete_friend_request db request_id user_id = elim (request_by_id db request_id) [
  | none ↦ (db, err friend_request_not_found)
  | some existing ↦
      if not (existing.sender_user_id == user_id) && not (existing.recipient_user_id == user_id)
      then (db, err forbidden_friend_request_action)
      else (record db { requests = delete_where (λ r. r.id == request_id) db.requests }, ok tt)
]

abbrev pub changed : ℕ → Result Unit
changed changes = if changes == 0 then err friendship_not_found else ok tt

unfoldable pub delete_friendship : Db → ℕ → ℕ → Db × Result Unit
delete_friendship db user_id friend_user_id =
    let test = λ (r : FriendRequest). is_accepted r.status && between user_id friend_user_id r in
    if user_id == friend_user_id then (db, err own_friendship) else (
      record db { requests = delete_where test db.requests },
      changed (count_where test db.requests),
    )
