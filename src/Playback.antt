-- ===== src/Playback.antt =====
-- src/playback: which frame plays next.
pub mod Playhead
pub mod Resident
pub mod Tests
