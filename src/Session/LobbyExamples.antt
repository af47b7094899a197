-- ===== src/Session/LobbyExamples.antt =====
-- Friend invites and rematches on a store in memory.
use Prim.Native.String.{String}
use yovi_es1c.Prelude.{◌+◌, ◌≢◌, inl, ◌≡◌, ◌<◌, refl, true, false, some, [], ◌∷◌, arith}
use yovi_es1c.Prelude.Maps.{string_eq, nat_eq, lookup, insert}
use yovi_es1c.Rules.{resolve_rules_for_match, normalize_match_rules}
use yovi_es1c.Session.State.{
  expired, SessionState, is_terminal, is_participant, find_opponent, friend, human, matchmaking,
}
use yovi_es1c.Session.Transitions.{
  disconnected_state, SessionPlayer, initial_state, abandoned_state,
}
use yovi_es1c.Session.Store.{memory_store, get, save}
use yovi_es1c.Session.Service.{
  get_state, Service, ok, logged, save_state, count_event, session_created, settle,
  emit_session_state, persist_online_result,
}
use yovi_es1c.Session.Handlers.{mark_disconnected, create_session, abandon}
use yovi_es1c.Session.Examples.{serving-AllValid, opened, serving, rules, settings, idle, leaving}
use yovi_es1c.Session.Invites.{
  Invites, FriendMatchReady, notified, ready, create_friend_invite, new_invite,
  get_pending_friend_invite, get_outgoing_friend_invite, send_invite, save_friend_invite,
  delete_friend_invite, accept_friend_invite, open_session,
}
use yovi_es1c.Session.Invitations.{IsIndexed}
use yovi_es1c.Session.InviteSteps.{create_friend_invite-IsIndexed}
use yovi_es1c.Session.InviteAccept.{Joined, accept_friend_invite-Joined}
use yovi_es1c.Session.InviteCalls.{InviteCalls, begin, creates, one_invite_per_user, accept_once}
use yovi_es1c.Session.InviteSent.{create_friend_invite-pending}
use yovi_es1c.Session.Rematch.{
  Rematches, tell, rematch_ready, request_rematch, accept_rematch, read_rematch_request,
  delete_rematch_request, find_player, ask, save_rematch_request, start_rematch, accept_request,
}
use yovi_es1c.Session.Sweep.{sweep_session}
use yovi_es1c.Session.Swept.{sweep_session-winner}
use yovi_es1c.Session.History.{AllValid, here, next, disconnects}
use yovi_es1c.Session.Finality.{Reach-AllValid}
use yovi_es1c.Session.Rematches.{Agreed, accept_rematch-Agreed}

abbrev no_invites : Invites
no_invites = record { invites = []; by_recipient = []; by_requester = []; sent = [] }

no_invites-IsIndexed : IsIndexed no_invites
unfolding lookup
no_invites-IsIndexed = record {
  named = λ id i e. cc;
  waiting = λ id i e. cc;
  recipients = λ id i e. cc;
  requesters = λ id i e. cc;
}

abbrev ann : SessionPlayer
ann = record { user_id = 7; username = b'a' ∷ [] }

abbrev bob : SessionPlayer
bob = record { user_id = 8; username = b'b' ∷ [] }

abbrev asked : Invites
asked = (create_friend_invite no_invites ann bob 3 rules "i" 1000).0

asked-IsIndexed : IsIndexed asked
asked-IsIndexed =
    create_friend_invite-IsIndexed no_invites ann bob 3 rules "i" 1000 no_invites-IsIndexed

ann_asked :
    (create_friend_invite no_invites ann bob 3 rules "i" 1000).1
    ≡ ok (new_invite ann bob 3 rules "i" 1000)
unfolding create_friend_invite get_pending_friend_invite get_outgoing_friend_invite send_invite
    lookup
ann_asked = refl

in_time : 2000 < (new_invite ann bob 3 rules "i" 1000).expires_at
unfolding new_invite
in_time = omega arith

create_friend_invite-pending_example :
    get_pending_friend_invite asked 8 2000 ≡ (asked, some (new_invite ann bob 3 rules "i" 1000))
create_friend_invite-pending_example =
    create_friend_invite-pending no_invites ann bob 3 rules "i" 1000 2000
      (new_invite ann bob 3 rules "i" 1000) ann_asked in_time

abbrev friends : SessionState
friends =
    initial_state
      (record {
        match_id = "f";
        size = 3;
        players = (ann, bob);
        opponent_type = human;
        rules = rules;
        ranked = false;
        source = friend;
      })
      25 2000

abbrev hosting : Service memory_store settings
hosting =
    logged memory_store settings (save_state memory_store settings idle friends)
      (count_event session_created)

abbrev friends_ready : FriendMatchReady
friends_ready = record {
  match_id = friends.match_id;
  board_size = friends.size;
  rules = friends.rules;
  players = friends.players;
}

abbrev answered : Invites
answered =
    notified (notified (delete_friend_invite asked "i") (ready 7 friends_ready))
      (ready 8 friends_ready)

bob_accepts :
    accept_friend_invite memory_store settings idle asked "i" 8 "f" [] 2000
    ≡ some (hosting, answered, ok friends_ready)
unfolding accept_friend_invite create_friend_invite get_pending_friend_invite
    get_outgoing_friend_invite send_invite save_friend_invite lookup insert new_invite open_session
    create_session resolve_rules_for_match normalize_match_rules
bob_accepts = refl

accept_friend_invite-Joined_example :
    Joined memory_store settings hosting asked "i" 8 2000 "f" answered friends_ready
accept_friend_invite-Joined_example =
    accept_friend_invite-Joined memory_store settings idle hosting asked answered "i" 8 "f" [] 2000
      friends_ready asked-IsIndexed bob_accepts

-- Ann asks again.
abbrev asked_again : Invites
asked_again = (create_friend_invite answered ann bob 3 rules "j" 2500).0

another_id : ◌≢◌ {A = String} "j" "i"
another_id e = absurd (let f = (string_eq.beq_iff "j" "i").1 e in cc)

calls_after : InviteCalls memory_store settings (λ new. new ≢ "i") answered asked_again
calls_after = creates ann bob 3 rules "j" 2500 begin another_id

accept_once_example :
    accept_friend_invite memory_store settings hosting asked_again "i" 8 "g" [] 3000
    ≢ some (hosting, answered, ok friends_ready)
accept_once_example =
    accept_once memory_store settings idle hosting hosting hosting asked answered asked_again
      answered "i" 8 8 "f" "g" [] [] 2000 3000 friends_ready friends_ready asked-IsIndexed
      bob_accepts calls_after

asked_stored : lookup "i" asked.invites ≡ some (new_invite ann bob 3 rules "i" 1000)
unfolding create_friend_invite get_pending_friend_invite get_outgoing_friend_invite send_invite
    save_friend_invite lookup insert new_invite
asked_stored = refl

one_invite_per_user_example :
    IsIndexed asked
    × (◌≡◌ {A = String} "i" "i")
    × (new_invite ann bob 3 rules "i" 1000 ≡ new_invite ann bob 3 rules "i" 1000)
one_invite_per_user_example =
    one_invite_per_user memory_store settings no_invites asked "i" "i"
      (new_invite ann bob 3 rules "i" 1000) (new_invite ann bob 3 rules "i" 1000)
      no_invites-IsIndexed (creates ann bob 3 rules "i" 1000 begin tt) asked_stored asked_stored
      (inl refl)

abbrev no_rematches : Rematches
no_rematches = record { requests = []; by_user = []; told = [] }

abbrev wanted : Rematches
wanted = (request_rematch memory_store settings leaving no_rematches "g" 7 3000).0

abbrev again : SessionState
again =
    initial_state
      (record {
        match_id = "h";
        size = 3;
        players = (bob, ann);
        opponent_type = human;
        rules = rules;
        ranked = true;
        source = matchmaking;
      })
      25 4000

abbrev replaying : Service memory_store settings
replaying =
    logged memory_store settings (save_state memory_store settings leaving again)
      (count_event session_created)

abbrev settled : Rematches
settled =
    tell (tell (delete_rematch_request wanted "g" 4000) (rematch_ready 7 again))
      (rematch_ready 8 again)

bob_replays :
    accept_rematch memory_store settings leaving wanted "g" 8 "h" [] 4000
    ≡ some (replaying, settled, ok "h")
unfolding accept_rematch read_rematch_request request_rematch find_player ask save_rematch_request
    accept_request start_rematch lookup insert get save save_state abandon initial_state is_terminal
    is_participant find_opponent settle emit_session_state abandoned_state persist_online_result
    create_session resolve_rules_for_match normalize_match_rules
bob_replays = refl

accept_rematch-Agreed_example :
    Agreed memory_store settings leaving replaying wanted "g" 8 4000 "h" settled "h"
accept_rematch-Agreed_example =
    accept_rematch-Agreed memory_store settings leaving replaying wanted settled "g" 8 "h" [] 4000
      "h" bob_replays

-- The first player loses the connection and does not come back.
abbrev lost : SessionState
lost = disconnected_state 60 2000 opened 7

abbrev losing : Service memory_store settings
losing = (mark_disconnected memory_store settings serving "g" 7 2000).0

losing-AllValid : AllValid memory_store settings losing
losing-AllValid =
    Reach-AllValid memory_store settings serving losing serving-AllValid
      (next here (disconnects "g" 7 2000 refl))

lost_stored : get_state memory_store settings losing "g" ≡ some lost
unfolding mark_disconnected get lookup save_state save insert initial_state is_terminal
    is_participant disconnected_state
lost_stored = refl

lost_stored_by_id : get_state memory_store settings losing lost.match_id ≡ some lost
unfolding disconnected_state initial_state
lost_stored_by_id = lost_stored

sweep_session-winner_example :
    (t : SessionState) × (get_state memory_store settings
        (sweep_session memory_store settings losing lost (λ id. 5) 70000).0
        lost.match_id
      ≡ some t)
    × ((sweep_session memory_store settings losing lost (λ id. 5) 70000).1 ≡ 1)
    × (t.status ≡ expired)
    × (t.version ≡ lost.version + 1)
    × (t.winner ≡ some lost.players.1.symbol)
unfolding disconnected_state initial_state lookup insert
sweep_session-winner_example =
    sweep_session-winner memory_store settings losing lost 70000 lost.players.0 lost.players.1
      (λ id. 5) 62000 lost_stored_by_id (losing-AllValid "g" lost lost_stored).0 refl
      (inl (refl, refl)) refl (omega arith) (omega arith) refl
