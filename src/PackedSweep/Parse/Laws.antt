-- ===== src/PackedSweep/Parse/Laws.antt =====
-- src/packed-sweep/packedSweep.ts: what `parsePackedSweep` promises of a sweep that it accepts.
use mistr.Prelude.{
  require, bind_ok, ok-injective, ok, length, take, drop, ℕ, zero, suc, ◌+◌, ◌*◌, ◌/◌, ◌≤◌, ◌≡◌,
  refl, ap, subst, ◌⊎◌, true, List, ◌++◌, arith,
}
use mistr.PackedSweep.Wire.{byte_at, get_uint32, subarray, equal_bytes, Floats, hash_mismatch}
use mistr.PackedSweep.Sections.{read_sections, check_sections, Sections}
use mistr.PackedSweep.Sections.Layout.{check_sections-IsLayout, IsLayout}
use mistr.PackedSweep.Gates.Decoded.{AreDecoded, validate_gates-AreDecoded}
use mistr.PackedSweep.Parse.Cells.{AreCells, read_gates-AreCells, equal_bytes-same}
use mistr.PackedSweep.Gates.{validate_gates, validate_radials, Product}
use mistr.PackedSweep.Parse.{
  is_combination, check_prefix, check_flags, check_kinds, check_encoding, check_dimensions,
  check_metadata, read_gates, read_metadata, calculate_wire_hash, read_sweep, parse_packed_sweep,
  Host, SourceKind, PackedSweep,
}

record IsHeader (bytes : List ℕ) : Type 0 where
  radials : (1 ≤ get_uint32 bytes 68) × (get_uint32 bytes 68 ≤ 2048)
  gates : (1 ≤ get_uint32 bytes 72) × (get_uint32 bytes 72 ≤ 4096)
  cells : get_uint32 bytes 68 * get_uint32 bytes 72 ≡ get_uint32 bytes 76

check_dimensions-IsHeader : (bytes : List ℕ) → check_dimensions bytes ≡ ok tt → IsHeader bytes
unfolding check_dimensions
check_dimensions-IsHeader bytes h = ground arith

check_encoding_word :
    (bytes : List ℕ)
    → check_flags bytes ≡ ok tt
    → check_encoding bytes ≡ ok tt
    → (byte_at bytes 61 ≡ 8) ⊎ (byte_at bytes 61 ≡ 16)
unfolding check_flags check_encoding
check_encoding_word bytes f h = ground arith

check_kinds_combination :
    (bytes : List ℕ) (product : Product) (source_kind : SourceKind)
    → check_kinds bytes ≡ ok (product, source_kind)
    → is_combination product source_kind ≡ true
unfolding check_kinds
check_kinds_combination bytes product source_kind h = ground arith

module _ (floats : Floats) (sha256 : List ℕ → List ℕ) where
  length-read_gates :
      (bytes : List ℕ) (s : Sections) (raw_width i n : ℕ)
      → length (read_gates floats bytes s raw_width i n) ≡ n
  unfolding read_gates
  length-read_gates bytes s raw_width i zero = refl
  length-read_gates bytes s raw_width i (suc n) =
      ap suc (length-read_gates bytes s raw_width (i + 1) n)

  -- What the caller of the parser may rely on.
  pub record IsSweep (bytes : List ℕ) (p : PackedSweep floats) : Type 0 where
    pub radials : (1 ≤ p.metadata.radial_count) × (p.metadata.radial_count ≤ 2048)
    pub gates : (1 ≤ p.metadata.gate_count) × (p.metadata.gate_count ≤ 4096)
    pub cells : p.metadata.radial_count * p.metadata.gate_count ≡ p.metadata.cell_count
    pub word : (p.metadata.data_word_size_bits ≡ 8) ⊎ (p.metadata.data_word_size_bits ≡ 16)
    pub combined : is_combination p.metadata.product p.metadata.source_kind ≡ true
    pub laid_out :
        IsLayout
          (length bytes)
          p.sections
          p.metadata.radial_count
          p.metadata.cell_count
          (p.metadata.data_word_size_bits / 8)
    pub filled : length p.gates ≡ p.metadata.cell_count
    pub read : AreCells floats bytes p.sections p.metadata.data_word_size_bits p.gates
    pub decoded : AreDecoded floats p.metadata.product p.metadata.scale p.metadata.offset p.gates
    pub authentic : subarray bytes 208 240 ≡ sha256 (take 208 bytes ++ drop 240 bytes)

  read_sweep-IsSweep :
      (bytes : List ℕ) (product : Product) (source_kind : SourceKind) (p : PackedSweep floats)
      → IsHeader bytes
      → (byte_at bytes 61 ≡ 8) ⊎ (byte_at bytes 61 ≡ 16)
      → is_combination product source_kind ≡ true
      → read_sweep floats sha256 bytes product source_kind ≡ ok p
      → IsSweep bytes p
  unfolding read_sweep read_metadata calculate_wire_hash
  read_sweep-IsSweep bytes product source_kind p header word combined h =
      let width = byte_at bytes 61 / 8 in
      let cells = get_uint32 bytes 76 in
      let s = read_sections bytes in
      let gates = read_gates floats bytes s width 0 cells in
      let (_, sections, h1) =
        bind_ok (check_sections bytes s (get_uint32 bytes 68) cells width) _ h in
      let (_, hash, h2) =
        bind_ok
          (require (equal_bytes (subarray bytes 208 240) (calculate_wire_hash floats sha256 bytes))
            hash_mismatch)
          _ h1 in
      let (_, _, h3) =
        bind_ok (validate_radials floats bytes s.radials.offset (get_uint32 bytes 68)) _ h2 in
      let (_, valid, h4) = bind_ok (validate_gates floats product _ _ gates) _ h3 in
      subst (IsSweep bytes) (ok-injective h4) (record {
        radials = header.radials;
        gates = header.gates;
        cells = header.cells;
        word = word;
        combined = combined;
        laid_out = check_sections-IsLayout bytes s (get_uint32 bytes 68) cells width sections;
        filled = length-read_gates bytes s width 0 cells;
        read = read_gates-AreCells floats bytes s (byte_at bytes 61) cells;
        decoded =
            validate_gates-AreDecoded floats product (floats.of_word (get_uint32 bytes 104))
              (floats.of_word (get_uint32 bytes 108)) gates valid;
        authentic = equal_bytes-same (subarray bytes 208 240) _ (ground (arith, hash));
      })

  -- A sweep that the parser accepts has 1 to 2048 radials of 1 to 4096 gates, whose product is its number of
  -- cells; its four sections lie apart in the buffer with the sizes that these counts call for. It holds one
  -- gate for each cell, whose value, status and raw code stand at the cell's place in their sections. Each
  -- value is finite. Of reflectivity and base velocity, status and value are what the raw code gives: the code
  -- itself without a scale, and with one no value for 0 and 1 and the scaled code for the others; of
  -- storm-relative velocity, the raw code is at most 15 and gives the status, and the value is 0 where there
  -- is none. And the digest that the buffer carries is that of all its other bytes.
  pub parse_packed_sweep-IsSweep :
      (host : Host) (bytes : List ℕ) (p : PackedSweep floats)
      → parse_packed_sweep floats sha256 host bytes ≡ ok p
      → IsSweep bytes p
  unfolding parse_packed_sweep
  parse_packed_sweep-IsSweep host bytes p h =
      let (_, _, h1) = bind_ok (check_prefix host bytes) _ h in
      let (_, flags, h2) = bind_ok (check_flags bytes) _ h1 in
      let ((product, source_kind), kinds, h3) = bind_ok (check_kinds bytes) _ h2 in
      let (_, encoding, h4) = bind_ok (check_encoding bytes) _ h3 in
      let (_, dimensions, h5) = bind_ok (check_dimensions bytes) _ h4 in
      let (_, _, h6) = bind_ok (check_metadata floats bytes) _ h5 in
      read_sweep-IsSweep bytes product source_kind p (check_dimensions-IsHeader bytes dimensions)
        (check_encoding_word bytes flags encoding)
        (check_kinds_combination bytes product source_kind kinds) h6
