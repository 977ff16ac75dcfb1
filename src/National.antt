-- ===== src/National.antt =====
-- src/national-radar: the National mosaic's work queue, its loops, coverage and sampling.
pub mod Queue
pub mod Loops
pub mod Coverage
pub mod Staging
pub mod Rollback
pub mod WorkingSet
pub mod Tests
