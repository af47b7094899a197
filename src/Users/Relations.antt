-- ===== src/Users/Relations.antt =====
-- users/src/repositories/users.repository.ts: the relations between users that the calls can reach.
use mathlib.Core.Path.{subst}
use yovi_es1c.Prelude.{
  ℕ, ◌≡◌, sym, ap, ◌∙◌, inl, inr, ◌+◌, ◌≤◌, ◌<◌, Bool, true, false, ◌&&◌, ◌==◌, ==_iff, Bool-cases,
  none, List, [], ◌∷◌, ◌++◌, any, All, All-append, ◌∈◌, arith,
}
use yovi_es1c.Prelude.Query.{
  find, count_where, update_where, delete_where, find-mem, find-none, any-none, any-witness,
  any-append, any-mem, All-mem, All-of_mem, All-update_where, All-delete_where, count_where-snoc_le,
  count_where-update_le, count_where-delete_le, counted_once, mem-update_where, mem-delete_where,
}
use yovi_es1c.Users.Tables.{Db, FriendRequest, is_accepted, between}
use yovi_es1c.Users.Friends.{accepted_request, has_friendship}
use yovi_es1c.Users.Calls.{Call, accept_friend_request_call, step, run, no_rows}
use yovi_es1c.Users.Edits.{Edit, unchanged, sent, answered, deleted, new_request}
use yovi_es1c.Users.Steps.{step-Edit}

-- At most one request between two users, and one for each number.
pub record IsSound (rs : List FriendRequest) (next : ℕ) : Type 0 where
  pub one_between : (a b : ℕ) → count_where (between a b) rs ≤ 1
  pub one_numbered : (i : ℕ) → count_where (λ r. r.id == i) rs ≤ 1
  pub below : All (λ (r : FriendRequest). r.id < next) rs

IsSound-at :
    (rs rs' : List FriendRequest) (n n' : ℕ) → rs ≡ rs' → n ≡ n' → IsSound rs n → IsSound rs' n'
IsSound-at rs rs' n n' e k s = subst (λ x. IsSound x n') e (subst (IsSound rs) k s)

between_pair :
    (a b : ℕ) (db : Db) (s t now : ℕ) (r : FriendRequest)
    → between a b (new_request db s t now) ≡ true
    → between s t r ≡ false
    → between a b r ≡ false
between_pair a b db s t now r h k = ground arith

below-weaken :
    (xs : List FriendRequest) (n : ℕ)
    → All (λ (r : FriendRequest). r.id < n) xs
    → All (λ (r : FriendRequest). r.id < n + 1) xs
below-weaken [] n h = tt
below-weaken (x ∷ xs) n (lt, h) = (omega arith, below-weaken xs n h)

sent-IsSound :
    (db : Db) (u v now : ℕ)
    → find (between u v) db.requests ≡ none
    → IsSound db.requests db.next_request
    → IsSound (db.requests ++ new_request db u v now ∷ []) (db.next_request + 1)
sent-IsSound db u v now free s =
    let none_there = find-none (between u v) db.requests free in
    record {
      one_between = λ a b. count_where-snoc_le (between a b) db.requests _ (s.one_between a b) (λ h.
          any-none (between a b) db.requests (
            All-of_mem _ db.requests
              (λ r m. between_pair a b db u v now r h (All-mem _ db.requests r none_there m))));
      one_numbered = λ i.
          count_where-snoc_le (λ r. r.id == i) db.requests _ (s.one_numbered i)
            (λ h. any-none _ db.requests (
              All-of_mem _ db.requests
                (λ r m. let lt = All-mem _ db.requests r s.below m in ground arith)));
      below = All-append _ db.requests _ (below-weaken db.requests _ s.below) (omega arith, tt);
    }

answered-IsSound :
    (rs : List FriendRequest) (next : ℕ) (p : FriendRequest → Bool) (now : ℕ)
    → IsSound rs next
    → IsSound (update_where p (accepted_request now) rs) next
answered-IsSound rs next p now s = record {
  one_between = λ a b.
      let le = count_where-update_le (between a b) p (accepted_request now) rs (λ x h. h) in
      let old = s.one_between a b in omega arith;
  one_numbered = λ i.
      let le = count_where-update_le (λ r. r.id == i) p (accepted_request now) rs (λ x h. h) in
      let old = s.one_numbered i in omega arith;
  below = All-update_where (λ r. r.id < next) p (accepted_request now) rs (λ x h. h) s.below;
}

deleted-IsSound :
    (rs : List FriendRequest) (next : ℕ) (p : FriendRequest → Bool)
    → IsSound rs next
    → IsSound (delete_where p rs) next
deleted-IsSound rs next p s = record {
  one_between = λ a b.
      let le = count_where-delete_le (between a b) p rs in
      let old = s.one_between a b in omega arith;
  one_numbered = λ i.
      let le = count_where-delete_le (λ r. r.id == i) p rs in
      let old = s.one_numbered i in omega arith;
  below = All-delete_where _ p rs s.below;
}

Edit-IsSound :
    (call : Call) (db db' : Db)
    → Edit call db db'
    → IsSound db.requests db.next_request
    → IsSound db'.requests db'.next_request
Edit-IsSound call db db' (unchanged e n) s = IsSound-at _ _ _ _ e n s
Edit-IsSound call db db' (sent u v now ne free e n) s =
    IsSound-at _ _ _ _ e n (sent-IsSound db u v now free s)
Edit-IsSound call db db' (answered request_id user_id now r c f k e n) s =
    IsSound-at _ _ _ _ e n (answered-IsSound db.requests db.next_request _ now s)
Edit-IsSound call db db' (deleted test e n) s =
    IsSound-at _ _ _ _ e n (deleted-IsSound db.requests db.next_request test s)

pub run-IsSound :
    (db : Db) (calls : List Call)
    → IsSound db.requests db.next_request
    → IsSound (run db calls).requests (run db calls).next_request
unfolding run
run-IsSound db [] s = s
run-IsSound db (call ∷ calls) s =
    run-IsSound (step db call) calls (Edit-IsSound call db _ (step-Edit db call) s)

pub no_rows-IsSound : IsSound no_rows.requests no_rows.next_request
unfolding count_where
no_rows-IsSound = record {
  one_between = λ a b. omega arith;
  one_numbered = λ i. omega arith;
  below = tt;
}

-- After any calls from empty tables there is at most one friend request between two users, in either
-- direction and whatever its status.
pub run-one_between :
    (calls : List Call) (a b : ℕ) → count_where (between a b) (run no_rows calls).requests ≤ 1
run-one_between calls a b = (run-IsSound no_rows calls no_rows-IsSound).one_between a b

-- The recipient of a pending request between two users accepts it.
pub record Consents (db : Db) (call : Call) (a b : ℕ) : Type 0 where
  pub request : FriendRequest
  pub now : ℕ
  pub stored : request ∈ db.requests
  pub was_pending : is_accepted request.status ≡ false
  pub joins : between a b request ≡ true
  pub accepts : call ≡ accept_friend_request_call request.id request.recipient_user_id now

Edit-Consents :
    (call : Call) (db db' : Db) (a b : ℕ)
    → Edit call db db'
    → IsSound db.requests db.next_request
    → has_friendship db a b ≡ false
    → has_friendship db' a b ≡ true
    → Consents db call a b
unfolding has_friendship
Edit-Consents call db db' a b (unchanged e n) s was is_now = absurd (
    let f = ap (any (λ r. is_accepted r.status && between a b r)) e in
    let g : false ≡ true = sym was ∙ f ∙ is_now in cc)
Edit-Consents call db db' a b (sent u v now ne free e n) s was is_now = absurd (
    let f = ap (any (λ r. is_accepted r.status && between a b r)) e in
    let k =
      any-append (λ r. is_accepted r.status && between a b r) db.requests
        (new_request db u v now ∷ []) in
    ground arith)
Edit-Consents call db db' a b (answered request_id user_id now r c f k e n) s was is_now =
    let q = λ (x : FriendRequest). is_accepted x.status && between a b x in
    let (y, m, h) = any-witness q _ (ap (any q) e ∙ is_now) in
    let (x, i, how) =
      mem-update_where (λ x. x.id == request_id) (accepted_request now) db.requests y m in
    elim how [
      | inl (same, out) ↦ absurd (let t = any-mem q db.requests x i (ap q (sym same) ∙ h) in cc)
      | inr (same, picked) ↦
          let j : between a b x ≡ true = ap q (sym same) ∙ h in
          let (m', h') = find-mem (λ (x : FriendRequest). x.id == request_id) db.requests r f in
          let only =
            counted_once (λ (x : FriendRequest). x.id == request_id) db.requests r
              (s.one_numbered request_id) m' h' in
          let x_is_r : x ≡ r = All-mem _ db.requests x only i picked in
          let id_is : x.id ≡ request_id = (==_iff _ _).0 picked in
          let user_is : x.recipient_user_id ≡ user_id =
            ap (λ (z : FriendRequest). z.recipient_user_id) x_is_r ∙ k in
          record {
            request = x;
            now = now;
            stored = i;
            was_pending = elim (Bool-cases (is_accepted x.status)) [
              | inl t ↦ absurd (let u = any-mem q db.requests x i (rw (t, j)) in cc)
              | inr t ↦ t
            ];
            joins = j;
            accepts = cc;
          }
    ]
Edit-Consents call db db' a b (deleted test e n) s was is_now =
    let q = λ (x : FriendRequest). is_accepted x.status && between a b x in
    let (y, m, h) = any-witness q _ (ap (any q) e ∙ is_now) in
    absurd (let t = any-mem q db.requests y (mem-delete_where test db.requests y m).0 h in cc)

-- After any calls from empty tables, a call makes two users friends only when it is the acceptance of
-- a pending request between them by that request's recipient.
pub step-Consents :
    (calls : List Call) (call : Call) (a b : ℕ)
    → has_friendship (run no_rows calls) a b ≡ false
    → has_friendship (step (run no_rows calls) call) a b ≡ true
    → Consents (run no_rows calls) call a b
step-Consents calls call a b was is_now =
    Edit-Consents call _ _ a b (step-Edit (run no_rows calls) call)
      (run-IsSound no_rows calls no_rows-IsSound) was is_now
