-- ===== src/PackedSweep.antt =====
-- src/packed-sweep/packedSweep.ts: the PackedSweep v1 wire format of a radar sweep.
pub mod Wire
pub mod Sections
pub mod Gates
pub mod Parse
pub mod Tests
