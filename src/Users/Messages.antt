-- ===== src/Users/Messages.antt =====
-- users/src/repositories/chat.repository.ts: who can send a message, and who reads it.
use mathlib.Core.Path.{subst}
use yovi_es1c.Prelude.{
  ℕ, ◌≡◌, refl, sym, ap, ◌∙◌, inl, inr, ◌≤◌, ◌<◌, Bool, true, false, ◌&&◌, ◌==◌, ltb, ==_iff,
  Bool-cases, some, none, List, [], ◌∷◌, ◌++◌, All, arith, keep, take, length,
}
use yovi_es1c.Prelude.Text.{Text}
use yovi_es1c.Prelude.Words.{trim, is_empty}
use yovi_es1c.Prelude.Query.{find, place_by, sort_by}
use yovi_es1c.Users.Tables.{Db, ChatMessage}
use yovi_es1c.Users.Friends.{Result, ok, err, text_required, text_too_long, has_friendship}
use yovi_es1c.Users.Chat.{
  min_of, max_of, is_conversation, get_or_create_conversation_for_friends, newer, is_before,
  list_messages, message_row, store_message, post_message, send_message,
}
use yovi_es1c.Users.Conversations.{Opened, open-Opened, reopened, find-renewed, ok_inj}

-- The numbers in use are below the next ones, and no message is later than the clock.
pub record IsClocked (db : Db) (now : ℕ) : Type 0 where
  pub conversations_from : 1 ≤ db.next_conversation
  pub messages_below : All (λ (m : ChatMessage). m.id < db.next_message) db.messages
  pub messages_past : All (λ (m : ChatMessage). m.created_at ≤ now) db.messages

keep-snoc :
    {A : Type 0} (p : A → Bool) (xs : List A) (x : A)
    → p x ≡ true
    → keep p (xs ++ x ∷ []) ≡ keep p xs ++ x ∷ []
keep-snoc p [] x h = rw h
keep-snoc p (y ∷ xs) x h = elim (Bool-cases (p y)) [
  | inl e ↦ rw (e, keep-snoc p xs x h)
  | inr e ↦ rw (e, keep-snoc p xs x h)
]

-- What comes last of all in the table and before all in the order is read first.
sort_by-snoc :
    {A : Type 0} (before : A → A → Bool) (xs : List A) (x : A)
    → All (λ y. before y x ≡ false) xs
    → (rest : List A) × (sort_by before (xs ++ x ∷ []) ≡ x ∷ rest)
unfolding sort_by
sort_by-snoc before [] x h = ([], refl)
sort_by-snoc before (y ∷ xs) x (k, h) =
    let (rest, e) = sort_by-snoc before xs x h in
    (place_by before y rest, ap (place_by before y) e ∙ rw k)

All-keep : {A : Type 0} (P : A → Type 0) (p : A → Bool) (xs : List A) → All P xs → All P (keep p xs)
All-keep P p [] h = tt
All-keep P p (x ∷ xs) (q, h) = elim (Bool-cases (p x)) [
  | inl e ↦ rw e (q, All-keep P p xs h)
  | inr e ↦ rw e (All-keep P p xs h)
]

older :
    (ms : List ChatMessage) (m : ChatMessage)
    → All (λ (x : ChatMessage). x.id < m.id) ms
    → All (λ (x : ChatMessage). x.created_at ≤ m.created_at) ms
    → All (λ x. newer x m ≡ false) ms
older [] m h k = tt
older (x ∷ ms) m (a, h) (b, k) = (ground arith, older ms m h k)

find-below :
    (ms : List ChatMessage) (m : ChatMessage)
    → All (λ (x : ChatMessage). x.id < m.id) ms
    → find (λ x. x.id == m.id) (ms ++ m ∷ []) ≡ some m
unfolding find
find-below [] m h = rw ((==_iff m.id m.id).1 refl)
find-below (x ∷ ms) m (lt, h) =
    let other : (x.id == m.id) ≡ false = ground arith in rw other (find-below ms m h)

-- What is read by the other user once a message is stored.
Read : Db → ℕ → ℕ → ChatMessage → ℕ → Type 0
Read after a b m later =
    (rest : List ChatMessage) × (list_messages after b a none none later
      ≡ (after, ok (m.conversation_id, m ∷ rest)))

module _ (db : Db) (a b : ℕ) (t : Text) (now : ℕ) (db' : Db) (id : ℕ) where
  abbrev row : ChatMessage
  row = record {
    id = db'.next_message;
    conversation_id = id;
    sender_user_id = a;
    text = t;
    created_at = now;
  }

  row_below :
      IsClocked db now
      → Opened db a b db' id
      → All (λ (x : ChatMessage). x.id < db'.next_message) db'.messages
  row_below w o =
      subst (λ (ms : List ChatMessage). All (λ (x : ChatMessage). x.id < db'.next_message) ms)
        o.same_messages
        (subst (λ (n : ℕ). All (λ (x : ChatMessage). x.id < n) db.messages) o.same_next
          w.messages_below)

  Read-row :
      (later : ℕ)
      → IsClocked db now
      → Opened db a b db' id
      → Read (store_message db' a id t now) a b row later
  unfolding list_messages Read
  Read-row later w o =
      let after = store_message db' a id t now in
      let test = is_conversation (min_of a b) (max_of a b) in
      let (c, found, same) =
        find-renewed test (λ x. x.id == id) now db'.conversations o.conversation (λ x. refl)
          o.found in
      let again = reopened db a b db' id after c later o refl found (same ∙ o.numbered) in
      let past =
        subst (λ (ms : List ChatMessage). All (λ (x : ChatMessage). x.created_at ≤ now) ms)
          o.same_messages w.messages_past in
      let mine = λ (x : ChatMessage). (x.conversation_id == id) && is_before none x in
      let old =
        All-keep (λ x. newer x row ≡ false) mine db'.messages
          (older db'.messages row (row_below w o) past) in
      let (rest, sorted) = sort_by-snoc newer (keep mine db'.messages) row old in
      (
        take 49 rest,
        rw (again, keep-snoc mine db'.messages row (rw ((==_iff id id).1 refl)), sorted),
      )

posted :
    (db : Db) (a b : ℕ) (t : Text) (now : ℕ) (m : ChatMessage) (later : ℕ) (r : Db × Result ℕ)
    → get_or_create_conversation_for_friends db a b now ≡ r
    → IsClocked db now
    → (post_message r a t now).1 ≡ ok m
    → (m.sender_user_id ≡ a)
      × (m.text ≡ t)
      × (has_friendship db a b ≡ true)
      × Read (post_message r a t now).0 a b m later
unfolding post_message
posted db a b t now m later (db', err x) opened w e = absurd (let f : err x ≡ ok m = e in cc)
posted db a b t now m later (db', ok id) opened w e =
    let o = open-Opened db a b now db' id w.conversations_from opened in
    let n = row db a b t now db' id in
    let stored = find-below db'.messages n (row_below db a b t now db' id w o) in
    let same : n ≡ m = ok_inj (sym (ap message_row stored) ∙ e) in
    subst
      (λ (m : ChatMessage).
        (m.sender_user_id ≡ a)
        × (m.text ≡ t)
        × (has_friendship db a b ≡ true)
        × Read (post_message (db', ok id) a t now).0 a b m later)
      same (refl, refl, o.friends, Read-row db a b t now db' id later w o)

-- A message that is sent is from the sender, with the trimmed text of 1 to 2000 characters, and the two
-- users are friends. Its receiver then reads it first among the messages of their conversation, when
-- the tables are well-formed and no stored message is later than the clock.
pub send_message-read_first :
    (db : Db) (a b : ℕ) (text : Text) (now : ℕ) (m : ChatMessage) (later : ℕ)
    → IsClocked db now
    → (send_message db a b text now).1 ≡ ok m
    → (m.sender_user_id ≡ a)
      × (m.text ≡ trim text)
      × (is_empty (trim text) ≡ false)
      × (length (trim text) ≤ 2000)
      × (has_friendship db a b ≡ true)
      × ((rest : List ChatMessage) × (list_messages
              (send_message db a b text now).0
              b
              a
              none
              none
              later
            ≡ ((send_message db a b text now).0, ok (m.conversation_id, m ∷ rest))))
unfolding send_message Read
send_message-read_first db a b text now m later w e = elim (Bool-cases (is_empty (trim text))) [
  | inl h ↦ absurd (let f : err text_required ≡ ok m = rw (h, send_message) at e in cc)
  | inr h ↦ elim (Bool-cases (ltb 2000 (length (trim text)))) [
    | inl k ↦ absurd (let f : err text_too_long ≡ ok m = rw (h, k, send_message) at e in cc)
    | inr k ↦
        let e' = rw (h, k, send_message) at e in
        let (sender, same, friends, listed) = posted db a b (trim text) now m later _ refl w e' in
        (sender, same, h, ground arith, friends, rw (h, k, send_message) listed)
  ]
]
