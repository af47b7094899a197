-- ===== src/Users/Conversations.antt =====
-- users/src/repositories/chat.repository.ts: opening a conversation gives both users the same one.
use yovi_es1c.Prelude.{
  ℕ, ◌≡◌, sym, ap, ◌∙◌, inl, inr, ◌≤◌, Bool, true, false, not, ◌&&◌, ◌||◌, ◌==◌, ltb, Bool-cases,
  Option-cases, some, List, [], ◌∷◌, any, arith,
}
use yovi_es1c.Prelude.Query.{find-snoc, find, update_where}
use yovi_es1c.Users.Tables.{Db, Conversation, is_accepted, between, has_profile}
use yovi_es1c.Users.Friends.{Result, ok, err, own_chat, not_friends, database_error, has_friendship}
use yovi_es1c.Users.Chat.{
  min_of, max_of, is_conversation, insert_conversation, create_conversation, find_or_create,
  get_or_create_conversation_for_friends,
}
use yovi_es1c.Users.Edits.{some_inj}
use yovi_es1c.Users.Friendships.{has_friendship_sym}

-- A conversation that is opened: the tables after it, and the number that is given back.
pub record Opened (db : Db) (a b : ℕ) (db' : Db) (id : ℕ) : Type 0 where
  pub distinct : (a == b) ≡ false
  pub friends : has_friendship db a b ≡ true
  pub conversation : Conversation
  pub found : find (is_conversation (min_of a b) (max_of a b)) db'.conversations ≡ some conversation
  pub numbered : conversation.id ≡ id
  pub counts : (id == 0) ≡ false
  pub same_requests : db.requests ≡ db'.requests
  pub same_messages : db.messages ≡ db'.messages
  pub same_next : db.next_message ≡ db'.next_message

pub ok_inj : {A : Type 0} {x y : A} → ok x ≡ ok y → x ≡ y
ok_inj e = cc

create-Opened :
    (db : Db) (a b now : ℕ) (db' : Db) (id : ℕ)
    → (a == b) ≡ false
    → has_friendship db a b ≡ true
    → 1 ≤ db.next_conversation
    → create_conversation db (min_of a b) (max_of a b) now ≡ (db', ok id)
    → Opened db a b db' id
unfolding create_conversation insert_conversation
create-Opened db a b now db' id ne fr from e =
    elim (Bool-cases (
      not (has_profile db (min_of a b))
      || not (has_profile db (max_of a b))
      || not (ltb (min_of a b) (max_of a b))
      || any (is_conversation (min_of a b) (max_of a b)) db.conversations)) [
        | inl h ↦ absurd (
            let f : (db, err database_error) ≡ (db', ok id) =
              rw (h, create_conversation, insert_conversation) at e in
            let g = ap (λ (x : Db × Result ℕ). x.1) f in cc)
        | inr h ↦
            let f = rw (h, create_conversation, insert_conversation) at e in
            let tables = ap (λ (x : Db × Result ℕ). x.0) f in
            let number : db.next_conversation ≡ id = ok_inj (ap (λ (x : Db × Result ℕ). x.1) f) in
            let unused : any (is_conversation (min_of a b) (max_of a b)) db.conversations ≡ false =
              ground arith in
            record {
              distinct = ne;
              friends = fr;
              conversation = record {
                id = db.next_conversation;
                user_low_id = min_of a b;
                user_high_id = max_of a b;
                created_at = now;
                updated_at = now;
              };
              found =
                  ap (λ (x : Db). find (is_conversation (min_of a b) (max_of a b)) x.conversations)
                    (sym tables)
                  ∙ find-snoc (is_conversation (min_of a b) (max_of a b)) db.conversations _ unused
                      (ground arith);
              numbered = number;
              counts = ground arith;
              same_requests = ap (λ (x : Db). x.requests) tables;
              same_messages = ap (λ (x : Db). x.messages) tables;
              same_next = ap (λ (x : Db). x.next_message) tables;
            }
      ]

pub open-Opened :
    (db : Db) (a b now : ℕ) (db' : Db) (id : ℕ)
    → 1 ≤ db.next_conversation
    → get_or_create_conversation_for_friends db a b now ≡ (db', ok id)
    → Opened db a b db' id
unfolding get_or_create_conversation_for_friends find_or_create
open-Opened db a b now db' id from e = elim (Bool-cases (a == b)) [
  | inl h ↦ absurd (
      let f : (db, err own_chat) ≡ (db', ok id) =
        rw (h, get_or_create_conversation_for_friends) at e in
      let g = ap (λ (x : Db × Result ℕ). x.1) f in cc)
  | inr h ↦ elim (Bool-cases (has_friendship db a b)) [
    | inr k ↦ absurd (
        let f : (db, err not_friends) ≡ (db', ok id) =
          rw (h, k, get_or_create_conversation_for_friends) at e in
        let g = ap (λ (x : Db × Result ℕ). x.1) f in cc)
    | inl k ↦
        elim (Option-cases (find (is_conversation (min_of a b) (max_of a b)) db.conversations)) [
          | inl l ↦
              create-Opened db a b now db' id h k from
                (rw (h, k, l, get_or_create_conversation_for_friends, find_or_create) at e)
          | inr (c, l) ↦ elim (Bool-cases (c.id == 0)) [
            | inl z ↦
                create-Opened db a b now db' id h k from
                  (rw (h, k, l, z, get_or_create_conversation_for_friends, find_or_create) at e)
            | inr z ↦
                let f : (db, ok c.id) ≡ (db', ok id) =
                  rw (h, k, l, z, get_or_create_conversation_for_friends, find_or_create) at e in
                let tables : db ≡ db' = ap (λ (x : Db × Result ℕ). x.0) f in
                let number : c.id ≡ id = ok_inj (ap (λ (x : Db × Result ℕ). x.1) f) in
                record {
                  distinct = h;
                  friends = k;
                  conversation = c;
                  found =
                      ap
                        (λ (x : Db).
                          find (is_conversation (min_of a b) (max_of a b)) x.conversations)
                        (sym tables)
                      ∙ l;
                  numbered = number;
                  counts = ap (λ i. i == 0) (sym number) ∙ z;
                  same_requests = ap (λ (x : Db). x.requests) tables;
                  same_messages = ap (λ (x : Db). x.messages) tables;
                  same_next = ap (λ (x : Db). x.next_message) tables;
                }
          ]
        ]
  ]
]

-- The other user finds the conversation that was opened.
pub reopened :
    (db : Db) (a b : ℕ) (db' : Db) (id : ℕ) (after : Db) (c : Conversation) (now : ℕ)
    → Opened db a b db' id
    → db'.requests ≡ after.requests
    → find (is_conversation (min_of a b) (max_of a b)) after.conversations ≡ some c
    → c.id ≡ id
    → get_or_create_conversation_for_friends after b a now ≡ (after, ok id)
unfolding get_or_create_conversation_for_friends find_or_create has_friendship
reopened db a b db' id after c now o same f number =
    let friends : has_friendship after b a ≡ true =
      has_friendship_sym after b a
      ∙ ap (any (λ r. is_accepted r.status && between a b r)) (sym (o.same_requests ∙ same))
      ∙ o.friends in
    let apart : (b == a) ≡ false = ground (arith, o.distinct) in
    let low : min_of b a ≡ min_of a b = ground arith in
    let high : max_of b a ≡ max_of a b = ground arith in
    rw (
      get_or_create_conversation_for_friends, apart, friends, low, high, find_or_create, f, number,
      o.counts,
    )

pub find-renewed :
    (p : Conversation → Bool) (q : Conversation → Bool) (now : ℕ) (xs : List Conversation)
    (c : Conversation)
    → ((x : Conversation) → p (record x { updated_at = now }) ≡ p x)
    → find p xs ≡ some c
    → (d : Conversation) × (find p (update_where q (λ x. record x { updated_at = now }) xs)
        ≡ some d)
      × (d.id ≡ c.id)
unfolding find update_where
find-renewed p q now [] c h e = cc
find-renewed p q now (x ∷ xs) c h e = elim (Bool-cases (q x)) [
  | inl k ↦ elim (Bool-cases (p x)) [
    | inl l ↦ (
      record x { updated_at = now },
      rw (k, h x, l),
      ap (λ (z : Conversation). z.id) (some_inj (rw l at e)),
    )
    | inr l ↦ let (d, f, i) = find-renewed p q now xs c h (rw l at e) in (d, rw (k, h x, l) f, i)
  ]
  | inr k ↦ elim (Bool-cases (p x)) [
    | inl l ↦ (x, rw (k, l), ap (λ (z : Conversation). z.id) (some_inj (rw l at e)))
    | inr l ↦ let (d, f, i) = find-renewed p q now xs c h (rw l at e) in (d, rw (k, l) f, i)
  ]
]
