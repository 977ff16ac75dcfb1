-- ===== src/PackedSweep/Parse/Cells.antt =====
-- src/packed-sweep/packedSweep.ts: where in the buffer the gates of a sweep are read, and the digest over it.
use mistr.Prelude.{
  get_elem?, ℕ, zero, suc, ◌+◌, ◌*◌, ◌/◌, ◌≡◌, refl, subst, true, some, List, [], ◌∷◌, arith,
}
use mistr.PackedSweep.Gates.{Gate}
use mistr.PackedSweep.Parse.{read_gates}
use mistr.PackedSweep.Wire.{byte_at, get_uint16, get_uint32, equal_bytes, Floats}
use mistr.PackedSweep.Sections.{Sections}

module _ (floats : Floats) where
  open floats use {F, of_word}

  -- The gate of cell `k`: a little-endian word of the values' section, a byte of the statuses' section, and a raw
  -- code of 8 or 16 bits.
  pub record IsCell (bytes : List ℕ) (s : Sections) (bits k : ℕ) (g : Gate floats) : Type 0 where
    pub value_read : g.value ≡ of_word (get_uint32 bytes (s.values.offset + k * 4))
    pub status_read : g.status ≡ byte_at bytes (s.statuses.offset + k)
    pub raw_byte : bits ≡ 8 → g.raw ≡ byte_at bytes (s.raw.offset + k)
    pub raw_word : bits ≡ 16 → g.raw ≡ get_uint16 bytes (s.raw.offset + k * 2)

  abbrev pub AreCells : List ℕ → Sections → ℕ → List (Gate floats) → Type 0
  AreCells bytes s bits gates =
      (k : ℕ) (g : Gate floats) → get_elem? gates k ≡ some g → IsCell bytes s bits k g

  read_gates-first :
      (bytes : List ℕ) (s : Sections) (bits i n : ℕ)
      → (g : Gate floats) → get_elem? (read_gates floats bytes s (bits / 8) i (suc n)) 0 ≡ some g
      → IsCell bytes s bits i g
  unfolding read_gates
  read_gates-first bytes s bits i n g e = record {
    value_read = ground (arith, e);
    status_read = ground (arith, e);
    raw_byte = λ w. ground (arith, e, w);
    raw_word = λ w. ground (arith, e, w);
  }

  read_gates-IsCell :
      (bytes : List ℕ) (s : Sections) (bits i n k : ℕ) (g : Gate floats)
      → get_elem? (read_gates floats bytes s (bits / 8) i n) k ≡ some g
      → IsCell bytes s bits (i + k) g
  unfolding read_gates
  read_gates-IsCell bytes s bits i zero k g e = absurd (ground (arith, e))
  read_gates-IsCell bytes s bits i (suc n) zero g e =
      let same : i ≡ i + 0 = omega arith in
      subst (λ j. IsCell bytes s bits j g) same (read_gates-first bytes s bits i n g e)
  read_gates-IsCell bytes s bits i (suc n) (suc k) g e =
      let same : i + 1 + k ≡ i + suc k = omega arith in
      subst (λ j. IsCell bytes s bits j g) same (read_gates-IsCell bytes s bits (i + 1) n k g e)

  pub read_gates-AreCells :
      (bytes : List ℕ) (s : Sections) (bits n : ℕ)
      → AreCells bytes s bits (read_gates floats bytes s (bits / 8) 0 n)
  read_gates-AreCells bytes s bits n k g e =
      let same : 0 + k ≡ k = omega arith in
      subst (λ j. IsCell bytes s bits j g) same (read_gates-IsCell bytes s bits 0 n k g e)

pub equal_bytes-same : (left right : List ℕ) → equal_bytes left right ≡ true → left ≡ right
unfolding equal_bytes
equal_bytes-same [] [] h = refl
equal_bytes-same [] (b ∷ right) h = absurd (ground (arith, h))
equal_bytes-same (a ∷ left) [] h = absurd (ground (arith, h))
equal_bytes-same (a ∷ left) (b ∷ right) h = ground (arith, h, equal_bytes-same left right)
