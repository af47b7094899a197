-- ===== src/Lib.antt =====
-- The Game of Y: the game service (gameservice/src), in which two players take turns on a
-- triangular board until the stones of one connect its three sides, and the services beside it that
-- log users in (auth/src) and keep their profiles, friendships and chats (users/src).
--
-- Parts, files and their code:
--   Prelude       lists, text, maps and tables that the other modules share. Text is a list of
--                 UTF-16 code units, a JavaScript Map an association list in insertion order, a
--                 table of SQL a list of rows (Query).
--   Rules         gameservice/src/types/rules.ts: match rules and the blocked cells; Draws and
--                 Blocked are about the loop that draws them.
--   Board         the board inside gameservice/src/services/OnlineSessionService.ts. Layout
--                 holds getCell, setCell, isMoveValid and their like, Coords the cube
--                 coordinates, Winner the search of checkWinner and resolveWinner. Cells,
--                 Stones, Triangle and Recolour prove what reads, writes and recolouring do;
--                 below Winner stand the adjacency of cells, the chains of stones and the proof
--                 of the search.
--   Session       gameservice/src/types/online.ts and the service itself. State has the data,
--                 Transitions the next states, Store the session store with
--                 gameservice/src/repositories/OnlineSessionRepository.ts as an instance,
--                 Service saving, messages and the recording of results, Handlers createSession,
--                 handleMove, handlePieSwap, markDisconnected, reconnect, expireGrace, abandon
--                 and handleTurnTimeout, Chat addChatMessage, Invites the friend invites,
--                 Rematch the rematches, Sweep sweepExpiredSessions and getActiveSessionForUser.
--                 Machine describes the changes of a session as a step relation; Accepted and
--                 Changes relate the handlers to it, Creation is about createSession,
--                 Chatted about what a chat message changes, History
--                 and Finality follow calls that do not overlap, Overlap chat messages that
--                 overlap other calls; PieRule, Forfeits and Lost are about swaps,
--                 surrender and the chat, Invitations, InviteSteps, InviteAccept, InviteSent,
--                 InviteCalls and Rematches about invites and rematches, Swept about sweeps.
--   Matchmaking   gameservice/src/repositories/MatchmakingRepository.ts (Queue) and
--                 gameservice/src/services/MatchmakingService.ts (Service, and Initial for the
--                 session of persistInitialMatch); Claims is about claiming a pair.
--   Match         gameservice/src/services/MatchService.ts and
--                 gameservice/src/repositories/MatchRepository.ts: Layouts reads and writes the
--                 layouts of matches against a bot, Service stores matches and moves and plays the
--                 bot's move, Finish ends a match. Shape, Fallback and BotMoves prove what they
--                 make.
--   Ranking       gameservice/src/services/RankingService.ts and
--                 gameservice/src/repositories/RankingRepository.ts (Service); History is about
--                 the ratings over any updates.
--   Auth          auth/src/repositories/credentials.repository.ts (Tables) and
--                 auth/src/services/auth.service.ts (Hex and Password, Service). Calls runs any calls of
--                 the service; Marks, Reuse, Unique and Safety follow refresh tokens through them,
--                 Oldest and Limits the sessions of a user.
--   Users         users/src/repositories/users.repository.ts (Tables, Friends) and
--                 users/src/repositories/chat.repository.ts (Chat). Calls runs any calls of both;
--                 Edits and Steps say what a call does to the friend requests, Relations and
--                 Friendships what follows for the users, Conversations and Messages are about
--                 the chat.
--
-- How they fit: a handler takes a service (its store, a log of what it sends out, and the ids of
-- the persisted sessions) and the arguments of the method, and gives the next service and the
-- method's answer, a refusal being its error code. The clock, the random number of a timeout and
-- those behind the blocked cells are arguments. A handler that runs under withMatchLock is one step;
-- addChatMessage, which does not, is two, one before the chat filter and one after it. The
-- sequences of History have a chat message save the state that is still stored, and create
-- sessions under unused ids only; those of Overlap have neither limit. The operations on rematches and invites are taken as
-- one step each, although acceptRematch takes no lock. The store is any instance of SessionStore; what Redis does beyond it (expiry,
-- indexes) is left out, and io and matchService are taken to be given. What
-- MatchService.createMatch returns is a function of the configuration. Matchmaking assigns
-- players to matches; the session of a match is the one of Initial.
--
-- The services over SQL take their tables and the clock and give the next tables and the answer. A
-- query is the function that its text says, an INSERT that breaks a constraint fails, and a call is
-- one step. scrypt, SHA-256, the signing of access tokens, the bot service, the collation of names
-- and the floating-point formula of a rating are parameters, and what is drawn at random is an argument.
--
-- Bounds: the search takes at most one round for each cell of the board, since a cell is queued
-- once; `explore` has that many rounds and one more. The loop that draws
-- blocked cells is driven by the list of random numbers and answers `none` when they are used up; it
-- is enough that they give as many different cells as are wanted.
-- Versions, times and sizes are natural numbers; coordinates are integers.
--
-- Not modelled: promises, the lock itself and interleavings of the calls over SQL; JSON and the
-- validation of requests, so that a move has integer coordinates; the skill band of a win rate,
-- statistics, the chat filter; the HTTP and socket handlers of the services, the webapp and
-- the engine in gamey.
pub mod Prelude
pub mod Rules
pub mod Board
pub mod Session
pub mod Matchmaking
pub mod Auth
pub mod Users
pub mod Match
pub mod Ranking
