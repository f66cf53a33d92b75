-- ===== src/Leaderboard.antt =====
-- The leaderboard (internal/leaderboard): ranking of workers and the prizes of the ranks.
pub mod Sorting
pub mod Ranking
