-- ===== src/Matchmaking/Service.antt =====
-- gameservice/src/services/MatchmakingService.ts without Redis: joining and leaving the queue, and a
-- tick that pairs the waiting players of the board of eight rows. The clock, the skill band that
-- getSkillBand gives, the join id and the match id of each candidate (randomUUID) are arguments; the
-- counters are left out.
use Prim.Native.String.{String}
use yovi_es1c.Prelude.{
  ℕ, ◌+◌, ◌*◌, Bool, true, false, not, ◌&&◌, ◌==◌, leb, if◌then◌else◌, Option, none, some, List, [],
  ◌∷◌, keep,
}
use yovi_es1c.Prelude.Text.{Text}
use yovi_es1c.Prelude.Maps.{Map, nat_eq, lookup, insert, remove}
use yovi_es1c.Rules.{BlockedCell, MatchRules, same_cell, normalize_match_rules}
use yovi_es1c.Session.State.{OpponentType, human, bot}
use yovi_es1c.Matchmaking.Queue.{
  OnlineQueueEntry, Queue, enqueue, cancel, list_by_board, sort_by_joined, claim_pair,
}

pub record OnlineMatchAssignment : Type 0 where
  pub match_id : String
  pub player_a : OnlineQueueEntry
  pub player_b : Option OnlineQueueEntry
  pub opponent_type : OpponentType
  pub reveal_after_game : Bool

-- `matchmaking:matched` to a user, with the opponent's name.
pub data MatchEvent : Type 0 where
  matched : ℕ → String → Text → Bool → MatchEvent

pub record Matchmaking : Type 0 where
  pub repository : Queue
  pub pending_assignments : Map ℕ OnlineMatchAssignment
  pub emitted : List MatchEvent

unfoldable pub join_queue :
    Matchmaking → OnlineQueueEntry → ℕ → ℕ → String → Matchmaking × OnlineQueueEntry
join_queue mm entry skill_band now queue_join_id =
    let queue_entry = record entry {
      rules = normalize_match_rules entry.rules;
      skill_band = skill_band;
      joined_at = now;
      queue_join_id = queue_join_id;
    } in
    (record mm { repository = enqueue mm.repository queue_entry }, queue_entry)

unfoldable pub cancel_queue : Matchmaking → ℕ → Matchmaking
cancel_queue mm user_id = record mm { repository = cancel mm.repository user_id }

abbrev pub same_bool : Bool → Bool → Bool
same_bool true b = b
same_bool false b = not b

unfoldable pub same_cells : List BlockedCell → List BlockedCell → Bool
same_cells [] [] = true
same_cells [] (c ∷ cs) = false
same_cells (c ∷ cs) [] = false
same_cells (c ∷ cs) (d ∷ ds) = same_cell c d && same_cells cs ds

-- areRulesCompatible: the normalized rules print alike.
unfoldable pub are_rules_compatible : MatchRules → MatchRules → Bool
unfolding same_cells
are_rules_compatible left right =
    let a = normalize_match_rules left in
    let b = normalize_match_rules right in
    same_bool a.pie_rule.enabled b.pie_rule.enabled
    && (same_bool a.honey.enabled b.honey.enabled
        && same_cells a.honey.blocked_cells b.honey.blocked_cells)

-- `waitedSec >= seconds`.
abbrev has_waited : OnlineQueueEntry → ℕ → ℕ → Bool
has_waited self seconds now = leb (self.joined_at + seconds * 1000) now

unfoldable pub is_rival : OnlineQueueEntry → ℕ → OnlineQueueEntry → Bool
is_rival self now entry =
    let skill_range = if has_waited self 20 now then 2 else 1 in
    not (entry.user_id == self.user_id)
    && ((leb entry.skill_band (self.skill_band + skill_range)
          && leb self.skill_band (entry.skill_band + skill_range))
        && are_rules_compatible self.rules entry.rules)

-- The loop over the rivals: the first one that can be claimed.
unfoldable pub claim_first :
    Queue → OnlineQueueEntry → List OnlineQueueEntry → Queue × Option OnlineQueueEntry
claim_first q self [] = (q, none)
claim_first q self (rival ∷ rivals) =
    let rest = claim_first q self rivals in
    if (claim_pair q self rival).1 then ((claim_pair q self rival).0, some rival) else rest

-- tryMatchCandidate once the rivals were tried.
unfoldable pub assign :
    Matchmaking
    → OnlineQueueEntry
    → Queue × Option OnlineQueueEntry
    → String
    → ℕ
    → ℕ
    → Matchmaking × Option OnlineMatchAssignment
assign mm self (q, some rival) match_id timeout_sec now = (
  record mm { repository = q },
  some (record {
    match_id = match_id;
    player_a = self;
    player_b = some rival;
    opponent_type = human;
    reveal_after_game = false;
  }),
)
assign mm self (q, none) match_id timeout_sec now =
    if has_waited self timeout_sec now
    then (
      cancel_queue mm self.user_id,
      some (record {
        match_id = match_id;
        player_a = self;
        player_b = none;
        opponent_type = bot;
        reveal_after_game = true;
      }),
    )
    else (mm, none)

unfoldable pub try_match_candidate :
    Matchmaking
    → OnlineQueueEntry
    → List OnlineQueueEntry
    → String
    → ℕ
    → ℕ
    → Matchmaking × Option OnlineMatchAssignment
try_match_candidate mm self all_candidates match_id timeout_sec now =
    assign mm self (claim_first mm.repository self (keep (is_rival self now) all_candidates))
      match_id timeout_sec now

-- storePendingAssignment.
unfoldable pub store_pending_assignment : Matchmaking → OnlineMatchAssignment → Matchmaking
store_pending_assignment mm a =
    let first_stored = insert a.player_a.user_id a mm.pending_assignments in
    record mm {
      pending_assignments = elim a.player_b [
        | none ↦ first_stored
        | some b ↦ insert b.user_id a first_stored
      ];
    }

unfoldable pub emit_matched : Matchmaking → OnlineMatchAssignment → Matchmaking
emit_matched mm a = elim a.player_b [
  | none ↦ mm
  | some b ↦ record mm {
    emitted =
        matched b.user_id a.match_id a.player_a.username a.reveal_after_game
        ∷ matched a.player_a.user_id a.match_id b.username a.reveal_after_game
        ∷ mm.emitted;
  }
]

-- The loop of runMatchmakingTick over the players that were listed at its start.
unfoldable pub match_players :
    Matchmaking → List OnlineQueueEntry → List OnlineQueueEntry → (ℕ → String) → ℕ → ℕ → Matchmaking
match_players mm all [] new_id timeout_sec now = mm
match_players mm all (self ∷ players) new_id timeout_sec now =
    let (u, assignment) = try_match_candidate mm self all (new_id self.user_id) timeout_sec now in
    let skipped = match_players u all players new_id timeout_sec now in
    elim assignment [
      | none ↦ skipped
      | some a ↦
          match_players (emit_matched (store_pending_assignment u a) a) all players new_id
            timeout_sec now
    ]

unfoldable pub run_matchmaking_tick : Matchmaking → (ℕ → String) → ℕ → ℕ → Matchmaking
run_matchmaking_tick mm new_id timeout_sec now =
    let sorted_players = sort_by_joined (list_by_board mm.repository 8) in
    match_players mm sorted_players sorted_players new_id timeout_sec now

-- tryMatch, which is consumePendingAssignment.
unfoldable pub try_match : Matchmaking → ℕ → Matchmaking × Option OnlineMatchAssignment
try_match mm user_id = elim (lookup user_id mm.pending_assignments) [
  | none ↦ (mm, none)
  | some a ↦ (record mm { pending_assignments = remove user_id mm.pending_assignments }, some a)
]
