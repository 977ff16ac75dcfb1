-- ===== src/PackedGrid.antt =====
-- src/packed-grid/packedGrid.ts: the PackedGrid v1 wire format of the National mosaic.
pub mod Bytes
pub mod Descriptor
pub mod Header
pub mod Chunk
pub mod ObjectKey
pub mod Manifest
pub mod Match
pub mod Batch
pub mod Tests
