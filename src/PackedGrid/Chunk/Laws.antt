-- ===== src/PackedGrid/Chunk/Laws.antt =====
-- src/packed-grid/packedGrid.ts: what `parsePackedGridChunk` promises of a chunk that it accepts.
use mistr.Prelude.{
  Bool-cases, Ensures, Ensures-ok, Result-cases, ok, length, drop, any, All, ℕ, ◌+◌, ◌*◌, ◌/◌, ◌%◌,
  ◌<◌, ◌≡◌, refl, ◌∙◌, inl, inr, true, false, ◌&&◌, List, arith,
}
use mistr.PackedGrid.Bytes.{get_uint16, get_uint32, subarray, equal_bytes, read_words}
use mistr.PackedGrid.Bytes.Words.{
  encode_words, AreBytes, length-read_words, read_words-lt, encode_words-read_words,
}
use mistr.PackedGrid.Descriptor.{halo_cells}
use mistr.PackedGrid.Descriptor.Valid.{validate_descriptor-IsChunk, IsChunk}
use mistr.PackedGrid.Header.{is_level}
use mistr.PackedGrid.Chunk.{
  chunk_geometry, chunk_descriptor, is_payload_range, check_chunk, is_measured, PackedGridChunk,
  read_chunk, parse_packed_grid_chunk,
}

-- What holds once the checks before the payload have passed.
record IsChecked (bytes : List ℕ) : Type 0 where
  level : is_level (get_uint16 bytes 76) (get_uint32 bytes 68) (get_uint32 bytes 72) ≡ true
  chunk :
      IsChunk
        (chunk_descriptor bytes)
        (get_uint32 bytes 80)
        (get_uint32 bytes 68)
        (get_uint32 bytes 72)
  starts : get_uint32 bytes 128 ≡ 176
  even : get_uint32 bytes 132 % 2 ≡ 0
  ends : 176 + get_uint32 bytes 132 ≡ length bytes
  cells : halo_cells (chunk_geometry bytes) * 2 ≡ get_uint32 bytes 132

check_chunk-IsChecked : (bytes : List ℕ) → check_chunk bytes ≡ ok tt → IsChecked bytes
unfolding check_chunk is_payload_range
check_chunk-IsChecked bytes h = ground (
  arith,
  validate_descriptor-IsChunk (chunk_descriptor bytes) (get_uint32 bytes 80) (get_uint32 bytes 68)
      (get_uint32 bytes 72),
)

-- What the caller of the parser may rely on.
pub record IsParsed (sha256 : List ℕ → List ℕ) (bytes : List ℕ) (c : PackedGridChunk) : Type 0 where
  pub level : is_level c.presentation_factor c.width c.height ≡ true
  pub chunk : IsChunk c.descriptor c.descriptor.index c.width c.height
  pub complete : length c.raw_codes ≡ c.descriptor.halo_width * c.descriptor.halo_height
  pub words : All (λ w. w < 65_536) c.raw_codes
  pub lossless : encode_words c.raw_codes ≡ drop 176 bytes
  pub authentic : equal_bytes (sha256 (encode_words c.raw_codes)) (subarray bytes 136 168) ≡ true
  pub whole : c.descriptor.encoded_length ≡ length bytes
  pub blank : c.descriptor.draws_nothing ≡ true → any is_measured c.raw_codes ≡ false

module _ (sha256 : List ℕ → List ℕ) (bytes : List ℕ) (valid : AreBytes bytes)
    (c : IsChecked bytes) where
  words_lossless :
      encode_words (read_words bytes (get_uint32 bytes 128) (get_uint32 bytes 132 / 2))
      ≡ drop (get_uint32 bytes 128) bytes
  words_lossless =
      encode_words-read_words bytes (get_uint32 bytes 128) (get_uint32 bytes 132 / 2) valid
        (omega (arith, c.starts, c.even, c.ends))

  read_chunk-IsParsed : Ensures (IsParsed sha256 bytes) (read_chunk sha256 bytes)
  unfolding read_chunk chunk_descriptor chunk_geometry get_uint32
  read_chunk-IsParsed =
      elim (Bool-cases
        (equal_bytes (sha256 (drop (get_uint32 bytes 128) bytes)) (subarray bytes 136 168))) [
          | inr forged ↦ rw (forged, read_chunk) tt
          | inl genuine ↦
              elim (Bool-cases (
                (chunk_descriptor bytes).draws_nothing
                && any is_measured
                    (read_words bytes (get_uint32 bytes 128) (get_uint32 bytes 132 / 2)))) [
                      | inl lying ↦ rw (genuine, read_chunk, lying) tt
                      | inr honest ↦
                          rw (genuine, read_chunk, honest)
                            (record {
                              level = c.level;
                              chunk = record {
                                placed = c.chunk.placed;
                                inside_x = c.chunk.inside_x;
                                inside_y = c.chunk.inside_y;
                                sized = c.chunk.sized;
                              };
                              complete = omega (
                                arith,
                                length-read_words bytes (get_uint32 bytes 128)
                                    (get_uint32 bytes 132 / 2),
                                c.cells,
                                c.even,
                              );
                              words =
                                  read_words-lt bytes (get_uint32 bytes 128)
                                    (get_uint32 bytes 132 / 2) valid;
                              lossless = words_lossless ∙ rw c.starts refl;
                              authentic = rw words_lossless genuine;
                              whole = refl;
                              blank = ground arith;
                            })
                    ]
        ]

-- A chunk that the parser accepts is the chunk of its index in a grid of a known level. It holds one code for
-- each cell that it carries; written big-endian again, these are the payload, byte for byte, and have the
-- header's digest; the buffer is as long as the chunk says; a chunk that is marked as drawing nothing holds no
-- measured value.
pub parse_packed_grid_chunk-IsParsed :
    (sha256 : List ℕ → List ℕ) (bytes : List ℕ) (c : PackedGridChunk)
    → AreBytes bytes
    → parse_packed_grid_chunk sha256 bytes ≡ ok c
    → IsParsed sha256 bytes c
unfolding parse_packed_grid_chunk
parse_packed_grid_chunk-IsParsed sha256 bytes c valid h = elim (Result-cases (check_chunk bytes)) [
  | inl (done, passed) ↦
      Ensures-ok (IsParsed sha256 bytes) (read_chunk sha256 bytes)
        (read_chunk-IsParsed sha256 bytes valid (check_chunk-IsChecked bytes passed))
        (rw passed at h)
  | inr (code, failed) ↦ ground arith
]
