-- ===== src/Matchmaking/Queue.antt =====
-- The queue of gameservice/src/repositories/MatchmakingRepository.ts without Redis, with the entries
-- of gameservice/src/types/online.ts.
use Prim.Native.String.{String}
use yovi_es1c.Prelude.{
  ℕ, Bool, true, false, not, ◌&&◌, ◌||◌, ◌==◌, leb, if◌then◌else◌, is_some, List, [], ◌∷◌, keep,
  any,
}
use yovi_es1c.Prelude.Text.{Text}
use yovi_es1c.Prelude.Maps.{Map, nat_eq, lookup, insert, remove}
use yovi_es1c.Rules.{MatchRules}

pub record OnlineQueueEntry : Type 0 where
  pub user_id : ℕ
  pub username : Text
  pub board_size : ℕ
  pub rules : MatchRules
  pub skill_band : ℕ
  pub joined_at : ℕ
  pub socket_id : String
  pub queue_join_id : String

-- `queue`, a map, and `claimed`, a set of users.
pub record Queue : Type 0 where
  pub queue : Map ℕ OnlineQueueEntry
  pub claimed : List ℕ

unfoldable pub enqueue : Queue → OnlineQueueEntry → Queue
enqueue q entry = record q { queue = insert entry.user_id entry q.queue }

unfoldable pub cancel : Queue → ℕ → Queue
cancel q user_id = record q {
  queue = remove user_id q.queue;
  claimed = keep (λ u. not (u == user_id)) q.claimed;
}

unfoldable pub is_claimed : Queue → ℕ → Bool
is_claimed q user_id = any (λ u. u == user_id) q.claimed

unfoldable pub is_queued : Queue → ℕ → Bool
is_queued q user_id = is_some (lookup user_id q.queue)

queue_values : Map ℕ OnlineQueueEntry → List OnlineQueueEntry
queue_values [] = []
queue_values ((k, v) ∷ m) = v ∷ queue_values m

-- `sort((a, b) => a.joinedAt - b.joinedAt)`, which is stable.
pub place : OnlineQueueEntry → List OnlineQueueEntry → List OnlineQueueEntry
place entry [] = entry ∷ []
place entry (e ∷ es) =
    let rest = place entry es in
    if leb entry.joined_at e.joined_at then entry ∷ e ∷ es else e ∷ rest

unfoldable pub sort_by_joined : List OnlineQueueEntry → List OnlineQueueEntry
unfolding place
sort_by_joined [] = []
sort_by_joined (e ∷ es) = place e (sort_by_joined es)

unfoldable pub list_by_board : Queue → ℕ → List OnlineQueueEntry
unfolding queue_values
list_by_board q board_size = sort_by_joined (
    keep (λ entry. (entry.board_size == board_size) && not (is_claimed q entry.user_id))
      (queue_values q.queue))

unfoldable pub claim_pair : Queue → OnlineQueueEntry → OnlineQueueEntry → Queue × Bool
claim_pair q a b =
    if is_claimed q a.user_id || is_claimed q b.user_id
    then (q, false)
    else if not (is_queued q a.user_id) || not (is_queued q b.user_id)
    then (q, false)
    else (
      record {
        queue = remove b.user_id (remove a.user_id q.queue);
        claimed = b.user_id ∷ a.user_id ∷ q.claimed;
      },
      true,
    )
