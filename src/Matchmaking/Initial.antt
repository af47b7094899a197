-- ===== src/Matchmaking/Initial.antt =====
-- The session that persistInitialMatch of gameservice/src/services/MatchmakingService.ts writes for a
-- new match, next to the one of createSession.
use yovi_es1c.Prelude.{ℕ, ◌+◌, ◌≡◌, refl, true, Option, none, some, [], ◌∷◌}
use yovi_es1c.Prelude.Maps.{Map, nat_eq, insert}
use yovi_es1c.Rules.{MatchRules}
use yovi_es1c.Board.Layout.{black, red, empty_layout}
use yovi_es1c.Session.State.{
  SessionState, PlayerState, connected, first, active, open_still, matchmaking,
}
use yovi_es1c.Session.Transitions.{initial_state, build_timer_ends_at}
use yovi_es1c.Matchmaking.Queue.{OnlineQueueEntry}
use yovi_es1c.Matchmaking.Service.{OnlineMatchAssignment}

abbrev bot_slot : PlayerState
bot_slot = record { user_id = 0; username = b'B' ∷ b'O' ∷ b'T' ∷ []; symbol = red }

abbrev player_slot : Option OnlineQueueEntry → PlayerState
player_slot none = bot_slot
player_slot (some b) = record { user_id = b.user_id; username = b.username; symbol = red }

abbrev also : {V : Type 0} → Option OnlineQueueEntry → V → Map ℕ V → Map ℕ V
also none v m = m
also (some b) v m = insert b.user_id v m

-- `initial`, at the rules that resolveRulesForMatch returned.
unfoldable pub initial_session : OnlineMatchAssignment → ℕ → MatchRules → ℕ → SessionState
initial_session assignment board_size resolved_rules now = record {
  match_id = assignment.match_id;
  layout = empty_layout board_size;
  size = board_size;
  rules = resolved_rules;
  turn = first;
  version = 0;
  timer_ends_at = now + 25000;
  players = (
    record {
      user_id = assignment.player_a.user_id;
      username = assignment.player_a.username;
      symbol = black;
    },
    player_slot assignment.player_b,
  );
  opponent_type = assignment.opponent_type;
  status = active;
  close_reason = open_still;
  connection = also assignment.player_b connected (insert assignment.player_a.user_id connected []);
  reconnect_deadline = also assignment.player_b none (insert assignment.player_a.user_id none []);
  winner = none;
  messages = [];
  ranked = true;
  source = matchmaking;
}

-- For a match of two players it is the state that createSession would save for them, with turns of
-- 25 seconds.
pub initial_session-initial_state :
    (assignment : OnlineMatchAssignment) (b : OnlineQueueEntry) (board_size : ℕ)
    (resolved_rules : MatchRules) (now : ℕ)
    → assignment.player_b ≡ some b
    → initial_session assignment board_size resolved_rules now
      ≡ initial_state
          (record {
            match_id = assignment.match_id;
            size = board_size;
            players = (
              record {
                user_id = assignment.player_a.user_id;
                username = assignment.player_a.username;
              },
              record { user_id = b.user_id; username = b.username },
            );
            opponent_type = assignment.opponent_type;
            rules = resolved_rules;
            ranked = true;
            source = matchmaking;
          })
          25
          now
unfolding initial_session initial_state build_timer_ends_at
initial_session-initial_state assignment b board_size resolved_rules now e = rw e refl
