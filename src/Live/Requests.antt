-- ===== src/Live/Requests.antt =====
-- src/live/siteRequestTracker.ts and src/live/backfillRetry.ts.
pub mod Tracker
pub mod Backfill
pub mod Tests
