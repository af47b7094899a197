-- ===== src/Matchmaking/Examples.antt =====
-- Two players in the queue.
use yovi_es1c.Prelude.{inr, ◌≡◌, refl, true, false, some, [], ◌∷◌}
use yovi_es1c.Prelude.Maps.{lookup}
use yovi_es1c.Rules.{default_match_rules, normalize_match_rules}
use yovi_es1c.Session.State.{human, matchmaking}
use yovi_es1c.Session.Transitions.{initial_state}
use yovi_es1c.Matchmaking.Queue.{
  OnlineQueueEntry, Queue, enqueue, is_claimed, is_queued, claim_pair,
}
use yovi_es1c.Matchmaking.Service.{
  OnlineMatchAssignment, Matchmaking, try_match_candidate, claim_first, assign, is_rival,
  are_rules_compatible,
}
use yovi_es1c.Matchmaking.Claims.{Paired, claim_pair-rejoined, try_match_candidate-Paired}
use yovi_es1c.Matchmaking.Initial.{initial_session, initial_session-initial_state}

abbrev ann : OnlineQueueEntry
ann = record {
  user_id = 7;
  username = b'a' ∷ [];
  board_size = 8;
  rules = default_match_rules;
  skill_band = 1;
  joined_at = 1000;
  socket_id = "s";
  queue_join_id = "j";
}

abbrev bob : OnlineQueueEntry
bob = record ann { user_id = 8; username = b'b' ∷ []; skill_band = 2; joined_at = 2000 }

abbrev waiting : Queue
waiting = record { queue = (7, ann) ∷ (8, bob) ∷ []; claimed = [] }

abbrev queued : Matchmaking
queued = record { repository = waiting; pending_assignments = []; emitted = [] }

both_claimed : (claim_pair waiting ann bob).1 ≡ true
unfolding claim_pair is_claimed is_queued lookup
both_claimed = refl

claim_pair-rejoined_example :
    ((claim_pair (enqueue (claim_pair waiting ann bob).0 bob) bob ann).1 ≡ false)
    × ((claim_pair (enqueue (claim_pair waiting ann bob).0 bob) ann bob).1 ≡ false)
claim_pair-rejoined_example = claim_pair-rejoined waiting ann bob bob ann both_claimed (inr refl)

abbrev pair : OnlineMatchAssignment
pair = record {
  match_id = "m";
  player_a = ann;
  player_b = some bob;
  opponent_type = human;
  reveal_after_game = false;
}

pair_matched : (try_match_candidate queued ann (ann ∷ bob ∷ []) "m" 30 3000).1 ≡ some pair
unfolding try_match_candidate claim_first assign is_rival are_rules_compatible claim_pair is_claimed
    is_queued lookup normalize_match_rules
pair_matched = refl

try_match_candidate-Paired_example :
    Paired ann
      (ann ∷ bob ∷ [])
      3000
      (try_match_candidate queued ann (ann ∷ bob ∷ []) "m" 30 3000).0.repository
      bob
try_match_candidate-Paired_example =
    try_match_candidate-Paired queued ann (ann ∷ bob ∷ []) "m" 30 3000 pair bob pair_matched refl

initial_session-initial_state_example :
    initial_session pair 8 default_match_rules 5000
    ≡ initial_state
        (record {
          match_id = "m";
          size = 8;
          players = (
            record { user_id = 7; username = b'a' ∷ [] },
            record { user_id = 8; username = b'b' ∷ [] },
          );
          opponent_type = human;
          rules = default_match_rules;
          ranked = true;
          source = matchmaking;
        })
        25
        5000
initial_session-initial_state_example =
    initial_session-initial_state pair bob 8 default_match_rules 5000 refl
