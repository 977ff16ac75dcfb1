-- ===== src/PackedGrid/Batch.antt =====
-- src/packed-grid/chunkBatch.ts: `parseGridChunkBatch`, a batch of chunks behind one another, each under its
-- length. `buffer.slice` past the checks stays inside the buffer.
pub mod Laws
use mistr.Prelude.{
  ltb, ◌==◌, ◌>>=◌, ◌>>◌, require, throw_if, Result, ok, err, length, ℕ, ◌+◌, Bool, true, not, ◌&&◌,
  ◌||◌, Option, none, some, List, [], ◌∷◌,
}
use mistr.PackedGrid.Bytes.{get_uint32, subarray, PackedGridErrorCode}
use mistr.PackedGrid.Chunk.{packed_grid_chunk_limit, parse_packed_grid_chunk, PackedGridChunk}

pub record PackedGridBatch : Type 0 where
  pub generation : ℕ
  pub chunks : List PackedGridChunk

-- A constructor for each `throw`, and the errors of `parsePackedGridChunk`.
pub data BatchError : Type 0 where
  invalid_header invalid_count truncated_length invalid_length : BatchError
  identity_mismatch trailing_bytes : BatchError
  chunk_error : PackedGridErrorCode → BatchError

abbrev pub grid_transfer_batch_size : ℕ
grid_transfer_batch_size = 16

abbrev pub as_batch : {A : Type 0} → Result PackedGridErrorCode A → Result BatchError A
as_batch (ok a) = ok a
as_batch (err code) = err (chunk_error code)

-- `!chunks.length || chunk.generation === chunks[0].generation`.
abbrev pub same_generation : Option ℕ → ℕ → Bool
same_generation none generation = true
same_generation (some first) generation = generation == first

abbrev pub or_first : Option ℕ → ℕ → ℕ
or_first none generation = generation
or_first (some first) generation = first

module _ (parse : List ℕ → Result PackedGridErrorCode PackedGridChunk) where
  -- The chunk in the frame at `offset`: its length, and the parser on what follows it.
  unfoldable pub read_frame : List ℕ → ℕ → Result BatchError PackedGridChunk
  read_frame bytes offset = do
    throw_if (ltb (length bytes) (offset + 4)) truncated_length
    throw_if
        (ltb (get_uint32 bytes offset) 1
          || ltb packed_grid_chunk_limit (get_uint32 bytes offset)
          || ltb (length bytes) (offset + 4 + get_uint32 bytes offset))
        invalid_length
    as_batch (parse (subarray bytes (offset + 4) (offset + 4 + get_uint32 bytes offset)))

  -- The loop, with the generation of the first chunk: the chunks, and the offset behind them.
  unfoldable pub read_frames :
      List ℕ → List ℕ → ℕ → Option ℕ → Result BatchError (List PackedGridChunk × ℕ)
  read_frames bytes [] offset first = ok ([], offset)
  read_frames bytes (index ∷ indices) offset first = do
    chunk ← read_frame bytes offset
    require (chunk.descriptor.geometry.index == index && same_generation first chunk.generation)
        identity_mismatch
    (chunks, end) ←
        read_frames bytes indices (offset + 4 + get_uint32 bytes offset)
          (some (or_first first chunk.generation))
    ok (chunk ∷ chunks, end)

  abbrev pub generation_of : List PackedGridChunk → ℕ
  generation_of [] = 0
  generation_of (chunk ∷ chunks) = chunk.generation

  -- Behind the header, for the chunk parser `parse`. The count is not 0, so there is a first chunk.
  unfoldable pub read_batch : List ℕ → List ℕ → Result BatchError PackedGridBatch
  read_batch bytes indices = do
    throw_if (ltb (length bytes) 8 || not (get_uint32 bytes 0 == 0x4d47_4231)) invalid_header
    throw_if
        (ltb (get_uint32 bytes 4) 1
          || ltb grid_transfer_batch_size (get_uint32 bytes 4)
          || not (get_uint32 bytes 4 == length indices))
        invalid_count
    (chunks, end) ← read_frames bytes indices 8 none
    require (end == length bytes) trailing_bytes
    ok (record { generation = generation_of chunks; chunks = chunks })

unfoldable pub parse_grid_chunk_batch :
    (List ℕ → List ℕ) → List ℕ → List ℕ → Result BatchError PackedGridBatch
parse_grid_chunk_batch sha256 bytes indices =
    read_batch (parse_packed_grid_chunk sha256) bytes indices
