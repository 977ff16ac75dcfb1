-- ===== src/PackedGrid/Descriptor/Tiling.antt =====
-- src/packed-grid/packedGrid.ts: the chunks of a grid tile it.
use mistr.Prelude.{ℕ, ◌+◌, ◌-◌, ◌*◌, ◌/◌, ◌%◌, ◌≤◌, ◌<◌, ◌≡◌, sym, ◌∙◌, ◌↔◌, arith}
use mistr.PackedGrid.Descriptor.{
  chunks_across, expected_geometry, Geometry, expected_interior, expected_halo,
}

-- The cell is one that the chunk owns.
abbrev pub Owns : Geometry → ℕ → ℕ → Type 0
Owns g x y =
    (g.interior_x ≤ x)
    × (x < g.interior_x + g.interior_width)
    × (g.interior_y ≤ y)
    × (y < g.interior_y + g.interior_height)

-- The cell is one that the chunk carries.
abbrev pub Carries : Geometry → ℕ → ℕ → Type 0
Carries g x y =
    (g.halo_x ≤ x) × (x < g.halo_x + g.halo_width) × (g.halo_y ≤ y) × (y < g.halo_y + g.halo_height)

-- The index of the chunk that owns a cell.
abbrev pub owner : ℕ → ℕ → ℕ → ℕ
owner width x y = (y / 256) * chunks_across width + x / 256

index_in_range : (r c w h : ℕ) → r < h → c < w → r * w + c < w * h
index_in_range r c w h p q = grind arith

owner-lt :
    (width height x y : ℕ)
    → x < width
    → y < height
    → owner width x y < chunks_across width * chunks_across height
owner-lt width height x y p q =
    index_in_range (y / 256) (x / 256) (chunks_across width) (chunks_across height) (omega arith)
      (omega arith)

owner_mod : (n a b : ℕ) → b < n → (a * n + b) % n ≡ b
owner_mod n a b h = grind arith

owner_div : (n a b : ℕ) → b < n → (a * n + b) / n ≡ a
owner_div n a b h = grind arith

div_mod : (index n : ℕ) → 0 < n → (index / n) * n + index % n ≡ index
div_mod index n h = grind arith

-- Along one axis: the chunk `c` owns sample `x` exactly if `c` is `x / 256`.
abbrev OwnsAlong : ℕ → ℕ → ℕ → Type 0
OwnsAlong samples c x = (c * 256 ≤ x) × (x < c * 256 + expected_interior samples (c * 256))

along_iff : (samples c x : ℕ) → x < samples → OwnsAlong samples c x ↔ (c ≡ x / 256)
unfolding expected_interior
along_iff samples c x h = (λ o. omega (arith, o), λ e. omega arith)

-- Every cell of a grid is owned by the chunk of the index `owner`, which is below the number of chunks, and
-- by the chunk of no other index.
pub chunks_tile :
    (width height index x y : ℕ)
    → x < width
    → y < height
    → (owner width x y < chunks_across width * chunks_across height)
      × Owns (expected_geometry (owner width x y) width height) x y
      × (Owns (expected_geometry index width height) x y → index ≡ owner width x y)
unfolding expected_geometry
chunks_tile width height index x y p q =
    let n : ℕ = chunks_across width in
    let b : x / 256 < n = omega arith in
    let col = (along_iff width (owner width x y % n) x p).1 (owner_mod n (y / 256) (x / 256) b) in
    let row = (along_iff height (owner width x y / n) y q).1 (owner_div n (y / 256) (x / 256) b) in
    (
      owner-lt width height x y p q,
      (col.0, col.1, row.0, row.1),
      λ o.
          let c = (along_iff width (index % n) x p).0 (o.0, o.1) in
          let r = (along_iff height (index / n) y q).0 (o.2, o.3) in
          sym (div_mod index n (omega arith)) ∙ (rw (c, r)),
    )

along_halo :
    (samples c x x' : ℕ)
    → OwnsAlong samples c x
    → x' < samples
    → (x' ≤ x + 1) × (x ≤ x' + 1)
    → (c * 256 - 1 ≤ x') × (x' < c * 256 - 1 + expected_halo samples (c * 256))
unfolding expected_interior expected_halo
along_halo samples c x x' o h near = omega (arith, o, near)

-- A chunk that owns a cell carries it, with the cells beside it that the grid has.
pub halo-Carries_neighbours :
    (width height index x y x' y' : ℕ)
    → Owns (expected_geometry index width height) x y
    → x' < width
    → y' < height
    → (x' ≤ x + 1) × (x ≤ x' + 1)
    → (y' ≤ y + 1) × (y ≤ y' + 1)
    → Carries (expected_geometry index width height) x' y'
unfolding expected_geometry
halo-Carries_neighbours width height index x y x' y' o p q near_x near_y =
    let col = along_halo width (index % chunks_across width) x x' (o.0, o.1) p near_x in
    let row = along_halo height (index / chunks_across width) y y' (o.2, o.3) q near_y in
    (col.0, col.1, row.0, row.1)
