-- ===== src/PackedGrid/Descriptor/Valid.antt =====
-- src/packed-grid/packedGrid.ts: what a descriptor that passes `validateDescriptor` is.
use mistr.Prelude.{ok, ℕ, ◌+◌, ◌*◌, ◌<◌, ◌≡◌, true, arith}
use mistr.PackedGrid.Descriptor.{
  expected_geometry, same_geometry, is_valid_descriptor, validate_descriptor, Geometry,
  PackedGridChunkDescriptor,
}

-- The chunk of that index, inside the grid.
pub record IsChunk (d : PackedGridChunkDescriptor) (index width height : ℕ) : Type 0 where
  pub placed : d.geometry ≡ expected_geometry index width height
  pub inside_x : d.interior_x < width
  pub inside_y : d.interior_y < height
  pub sized : d.encoded_length ≡ 176 + d.halo_width * d.halo_height * 2

pub same_geometry→eq : (a b : Geometry) → same_geometry a b ≡ true → a ≡ b
unfolding same_geometry
same_geometry→eq a b h = ground arith

pub validate_descriptor-IsChunk :
    (d : PackedGridChunkDescriptor) (index width height : ℕ)
    → validate_descriptor d index width height ≡ ok tt
    → IsChunk d index width height
unfolding validate_descriptor is_valid_descriptor
validate_descriptor-IsChunk d index width height h =
    ground (arith, same_geometry→eq d.geometry (expected_geometry index width height))
