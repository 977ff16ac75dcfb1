-- ===== src/Transfer.antt =====
-- src/packed-grid/transferPipeline.ts and the other parts that move grid chunks.
pub mod Pipeline
pub mod Acquire
pub mod Lanes
pub mod Acks
pub mod Tests
