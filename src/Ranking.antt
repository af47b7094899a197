-- ===== src/Ranking.antt =====
-- Player rankings: gameservice/src/services/RankingService.ts over
-- gameservice/src/repositories/RankingRepository.ts.
pub mod Service
pub mod History
pub mod Examples
