-- ===== src/Users/Friendships.antt =====
-- users/src/repositories/users.repository.ts: how the queries of friendships agree.
use yovi_es1c.Prelude.{
  ℕ, ◌≡◌, ◌≢◌, ◌↔◌, refl, sym, ap, ◌∙◌, inl, inr, Bool, true, false, not, ◌&&◌, ◌||◌, ◌==◌, ==_iff,
  Bool-cases, Option-cases, Option, some, none, List, [], ◌∷◌, any, arith, keep,
}
use yovi_es1c.Prelude.Text.{Text}
use yovi_es1c.Prelude.Words.{trim, is_empty}
use yovi_es1c.Prelude.Query.{
  find, count_where, delete_where, find-mem, find-none, any-none, any-mem, any-witness, any-sort_by,
  mem-delete_where, All-mem, All-of_mem,
}
use yovi_es1c.Users.Tables.{
  Db, UserProfile, FriendRequest, is_accepted, between, has_profile, get_by_id, get_by_username,
  insert_request,
}
use yovi_es1c.Users.Friends.{
  ok, err, database_error, missing_row, own_request, recipient_required, profile_not_found,
  friendship_already_exists, friend_request_already_exists, FriendSummary, has_friendship,
  list_friends, join_profiles, map_friend, other_side, name_of, changed, delete_friendship,
  send_request, request_user, create_friend_request, summary_row, request_by_id, outgoing,
}

abbrev pub in_list : ℕ → List FriendSummary → Bool
in_list user_id = any (λ f. f.user_id == user_id)

found-id :
    (db : Db) (i : ℕ) (up : UserProfile)
    → get_by_id db i ≡ some up
    → (up.user_id ≡ i) × (has_profile db i ≡ true)
unfolding get_by_id
found-id db i up e =
    let (m, h) = find-mem (λ (p : UserProfile). p.user_id == i) db.profiles up e in
    ((==_iff _ _).0 h, any-mem (λ (p : UserProfile). p.user_id == i) db.profiles up m h)

missing-id : (db : Db) (i : ℕ) → get_by_id db i ≡ none → has_profile db i ≡ false
unfolding get_by_id
missing-id db i e = any-none _ db.profiles (find-none _ db.profiles e)

between-other_side :
    (a b : ℕ) (r : FriendRequest)
    → ((r.sender_user_id == a) || (r.recipient_user_id == a)) ≡ true
    → between a b r ≡ (other_side a r == b)
between-other_side a b r h = ground arith

between-neither :
    (a b : ℕ) (r : FriendRequest)
    → ((r.sender_user_id == a) || (r.recipient_user_id == a)) ≡ false
    → between a b r ≡ false
between-neither a b r h = ground arith

profile_at :
    (db : Db) (i b : ℕ) (found : Bool)
    → has_profile db i ≡ found
    → ((i == b) && found) ≡ (has_profile db b && (i == b))
profile_at db i b found h = elim (Bool-cases (i == b)) [
  | inl e ↦
      let k : has_profile db b ≡ found = ap (has_profile db) (sym ((==_iff _ _).0 e)) ∙ h in
      ground (arith, k)
  | inr e ↦ ground arith
]

and_or : (p x y : Bool) → (p && (x || y)) ≡ ((p && x) || (p && y))
and_or p x y = ground arith

in_list-row :
    (db : Db) (a b : ℕ) (r : FriendRequest) (rs : List FriendRequest)
    → in_list b (join_profiles db (other_side a) map_friend (r ∷ rs)) ≡ (
        (has_profile db b && (other_side a r == b))
        || in_list b (join_profiles db (other_side a) map_friend rs))
unfolding join_profiles
in_list-row db a b r rs = elim (Option-cases (get_by_id db (other_side a r))) [
  | inl e ↦
      let k = profile_at db (other_side a r) b false (missing-id db _ e) in
      rw (e, join_profiles, ← k) (ground arith)
  | inr (up, e) ↦
      let (i, h) = found-id db _ up e in
      let k = profile_at db (other_side a r) b true h in
      rw (e, join_profiles, i, ← k) (ground arith)
]

in_list-join :
    (db : Db) (a b : ℕ) (rs : List FriendRequest)
    → in_list b (
        join_profiles db (other_side a) map_friend (
          keep
            (λ r. ((r.sender_user_id == a) || (r.recipient_user_id == a)) && is_accepted r.status)
            rs))
      ≡ (has_profile db b && any (λ r. is_accepted r.status && between a b r) rs)
unfolding join_profiles
in_list-join db a b [] = ground arith
in_list-join db a b (r ∷ rs) =
    let rest = in_list-join db a b rs in
    elim (Bool-cases ((r.sender_user_id == a) || (r.recipient_user_id == a))) [
      | inl h ↦ elim (Bool-cases (is_accepted r.status)) [
        | inl k ↦
            rw (h, k, in_list-row db a b r _, rest, between-other_side a b r h)
              (sym (and_or (has_profile db b) _ _))
        | inr k ↦ rw (h, k) rest
      ]
      | inr h ↦ rw (h, between-neither a b r h) (ground (arith, rest))
    ]

-- The friends that are listed for a user are those whose profile is there and with whom the user has
-- a friendship.
pub list_friends-has_friendship :
    (nocase : Text → Text → Bool) (db : Db) (a b : ℕ)
    → in_list b (list_friends nocase db a) ≡ (has_profile db b && has_friendship db a b)
unfolding list_friends has_friendship
list_friends-has_friendship nocase db a b =
    any-sort_by (λ f. f.user_id == b) (λ f g. nocase (name_of f) (name_of g)) _
    ∙ in_list-join db a b db.requests

count-any : {A : Type 0} (p : A → Bool) (xs : List A) → (count_where p xs == 0) ≡ not (any p xs)
unfolding count_where
count-any p [] = refl
count-any p (x ∷ xs) = ground (arith, count-any p xs)

after_deletion :
    (db : Db) (a b : ℕ)
    → any
        (λ r. is_accepted r.status && between a b r)
        (delete_where (λ r. is_accepted r.status && between a b r) db.requests)
      ≡ false
after_deletion db a b = elim (Bool-cases (any q (delete_where q db.requests))) [
  | inl h ↦
      let (y, m, k) = any-witness q (delete_where q db.requests) h in
      absurd (let f = (mem-delete_where q db.requests y m).1 in cc)
  | inr h ↦ h
]
  where
    q : FriendRequest → Bool
    q r = is_accepted r.status && between a b r

any-same : {A : Type 0} (p q : A → Bool) (xs : List A) → ((x : A) → p x ≡ q x) → any p xs ≡ any q xs
any-same p q [] h = refl
any-same p q (x ∷ xs) h = rw (h x, any-same p q xs h)

-- Friendship is the same from either side.
pub has_friendship_sym : (db : Db) (a b : ℕ) → has_friendship db a b ≡ has_friendship db b a
unfolding has_friendship
has_friendship_sym db a b = any-same _ _ db.requests (λ r. ground arith)

changed-any :
    (p : FriendRequest → Bool) (rs : List FriendRequest)
    → (changed (count_where p rs) ≡ ok tt) ↔ (any p rs ≡ true)
changed-any p rs = elim (Bool-cases (any p rs)) [
  | inl h ↦ rw (count-any p rs, h) (λ e. refl, λ e. refl)
  | inr h ↦ rw (count-any p rs, h) (λ e. cc, λ e. absurd (let f : false ≡ true = e in cc))
]

-- For two different users, deleting their friendship succeeds exactly when they have one, and
-- afterwards they have none, from either side.
pub delete_friendship-ends :
    (db : Db) (a b : ℕ)
    → a ≢ b
    → (((delete_friendship db a b).1 ≡ ok tt) ↔ (has_friendship db a b ≡ true))
      × (has_friendship (delete_friendship db a b).0 a b ≡ false)
      × (has_friendship (delete_friendship db a b).0 b a ≡ false)
unfolding delete_friendship has_friendship
delete_friendship-ends db a b ne =
    let h : (a == b) ≡ false = ground (arith, ne) in
    let over : has_friendship (delete_friendship db a b).0 a b ≡ false =
      rw (h, delete_friendship) (after_deletion db a b) in
    (
      rw (h, delete_friendship) (changed-any _ db.requests),
      over,
      has_friendship_sym (delete_friendship db a b).0 b a ∙ over,
    )

one_way :
    (a b : ℕ) (r : FriendRequest)
    → between a b r ≡ false
    → ((r.sender_user_id == a) && (r.recipient_user_id == b)) ≡ false
one_way a b r h = ground arith

summary-ne :
    (o : Option FriendRequest) (profile : FriendRequest → Option UserProfile)
    → summary_row outgoing o profile ≢ err database_error
summary-ne none profile e = cc
summary-ne (some r) profile e = elim (Option-cases (profile r)) [
  | inl h ↦ absurd (let f : err missing_row ≡ err database_error = rw (h, summary_row) at e in cc)
  | inr (p, h) ↦ absurd (let f = rw (h, summary_row) at e in cc)
]

send_request-inserts :
    (db : Db) (a b now : ℕ)
    → has_profile db a ≡ true
    → has_profile db b ≡ true
    → (b == a) ≡ false
    → find (between a b) db.requests ≡ none
    → (send_request db a b now).1 ≢ err database_error
unfolding send_request insert_request
send_request-inserts db a b now pa pb ne free e =
    let distinct : (a == b) ≡ false = ground arith in
    let unused =
      any-none (λ r. (r.sender_user_id == a) && (r.recipient_user_id == b)) db.requests
        (All-of_mem _ db.requests
          (λ r m. one_way a b r (All-mem _ db.requests r (find-none _ db.requests free) m))) in
    elim (Option-cases (insert_request db a b now)) [
      | inl h ↦ absurd (let f = rw (pa, pb, distinct, unused, insert_request) at h in cc)
      | inr (db', h) ↦ absurd (
          summary-ne (request_by_id db' db.next_request) (λ r. get_by_id db' r.recipient_user_id)
            (rw (h, send_request) at e))
    ]

named-profile :
    (db : Db) (name : Text) (q : UserProfile)
    → get_by_username db name ≡ some q
    → has_profile db q.user_id ≡ true
unfolding get_by_username
named-profile db name q e =
    any-mem (λ (p : UserProfile). p.user_id == q.user_id) db.profiles q
      (find-mem _ db.profiles q e).0 ((==_iff _ _).1 refl)

request_user-inserts :
    (db : Db) (sender : ℕ) (q : UserProfile) (now : ℕ)
    → has_profile db sender ≡ true
    → has_profile db q.user_id ≡ true
    → (request_user db sender q now).1 ≢ err database_error
unfolding request_user
request_user-inserts db sender q now ps pq e = elim (Bool-cases (q.user_id == sender)) [
  | inl h ↦ absurd (let f : err own_request ≡ err database_error = rw (h, request_user) at e in cc)
  | inr h ↦ elim (Option-cases (find (between sender q.user_id) db.requests)) [
    | inl k ↦
        absurd
          (send_request-inserts db sender q.user_id now ps pq h k (rw (h, k, request_user) at e))
    | inr (r, k) ↦ elim (Bool-cases (is_accepted r.status)) [
      | inl l ↦ absurd (
          let f : err friendship_already_exists ≡ err database_error =
            rw (h, k, l, request_user) at e in
          cc)
      | inr l ↦ absurd (
          let f : err friend_request_already_exists ≡ err database_error =
            rw (h, k, l, request_user) at e in
          cc)
    ]
  ]
]

-- A friend request never fails on a constraint of the tables.
pub create_friend_request-ne_database_error :
    (db : Db) (sender : ℕ) (recipient_username : Text) (now : ℕ)
    → (create_friend_request db sender recipient_username now).1 ≢ err database_error
unfolding create_friend_request request_user get_by_username
create_friend_request-ne_database_error db sender recipient_username now e =
    elim (Bool-cases (is_empty (trim recipient_username))) [
      | inl h ↦ absurd (
          let f : err recipient_required ≡ err database_error =
            rw (h, create_friend_request) at e in
          cc)
      | inr h ↦ elim (Option-cases (get_by_id db sender)) [
        | inl k ↦ absurd (
            let f : err profile_not_found ≡ err database_error =
              rw (h, k, create_friend_request) at e in
            cc)
        | inr (p, k) ↦ elim (Option-cases (get_by_username db (trim recipient_username))) [
          | inl l ↦ absurd (
              let f : err profile_not_found ≡ err database_error =
                rw (h, k, l, create_friend_request) at e in
              cc)
          | inr (q, l) ↦ absurd (
              request_user-inserts db sender q now (found-id db sender p k).1
                (named-profile db _ q l) (rw (h, k, l, create_friend_request) at e))
        ]
      ]
    ]
