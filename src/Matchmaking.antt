-- ===== src/Matchmaking.antt =====
-- Matchmaking: gameservice/src/repositories/MatchmakingRepository.ts and
-- gameservice/src/services/MatchmakingService.ts.
pub mod Queue
pub mod Service
pub mod Claims
pub mod Initial
pub mod Examples
