-- ===== src/Match.antt =====
-- Matches against a bot and their records: gameservice/src/services/MatchService.ts over
-- gameservice/src/repositories/MatchRepository.ts.
pub mod Layouts
pub mod Service
pub mod Shape
pub mod Fallback
pub mod BotMoves
pub mod Finish
pub mod Examples
