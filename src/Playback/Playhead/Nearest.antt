-- ===== src/Playback/Playhead/Nearest.antt =====
-- src/playback/playheadCarry.ts: `nearestFrameIndex` finds the nearest frame.
use native.Mathlib.Decide.{dec_lt}
use mistr.Prelude.{
  ltb, leb, Bool-cases, length, ℕ, zero, suc, ◌+◌, ◌-◌, ◌/◌, ◌≤◌, ◌<◌, ◌≡◌, refl, inl, inr, some,
  List, [], ◌∷◌, arith,
}
use mistr.Playback.Playhead.{at, bisect, nearer, nearest_frame_index}

-- What the search returns: neighbours with the target between them.
pub record Brackets (times : List ℕ) (target low high : ℕ) (r : ℕ × ℕ) : Type 0 where
  pub adjacent : r.1 ≡ r.0 + 1
  pub from : low ≤ r.0
  pub to : r.1 ≤ high
  pub before : at times r.0 ≤ target
  pub after : target < at times r.1

Brackets-widen :
    (times : List ℕ) (target low high low' high' : ℕ) (r : ℕ × ℕ)
    → low ≤ low'
    → high' ≤ high
    → Brackets times target low' high' r
    → Brackets times target low high r
Brackets-widen times target low high low' high' r p q b = omega (arith, b)

-- With as much fuel as the interval is long, the search ends.
bisect-Brackets :
    (fuel : ℕ) (times : List ℕ) (target low high : ℕ)
    → low < high
    → high - low ≤ fuel
    → at times low ≤ target
    → target < at times high
    → (r : ℕ × ℕ) × (bisect fuel times target low high ≡ some r) × Brackets times target low high r
unfolding bisect
bisect-Brackets zero times target low high p q a b = absurd (omega arith)
bisect-Brackets (suc fuel) times target low high p q a b = elim (Bool-cases (ltb 1 (high - low))) [
  | inr near ↦ ((low, high), rw near refl, ground arith)
  | inl far ↦ elim (Bool-cases (leb (at times ((low + high) / 2)) target)) [
    | inl right ↦
        let (r, e, k) =
          bisect-Brackets fuel times target ((low + high) / 2) high (ground arith) (ground arith)
            (ground arith) b in
        (
          r,
          rw (far, right) e,
          Brackets-widen times target low high ((low + high) / 2) high r (omega arith) (omega arith)
              k,
        )
    | inr left ↦
        let (r, e, k) =
          bisect-Brackets fuel times target low ((low + high) / 2) (ground arith) (ground arith) a
            (ground arith) in
        (
          r,
          rw (far, left) e,
          Brackets-widen times target low high low ((low + high) / 2) r (omega arith) (ground arith)
              k,
        )
  ]
]

abbrev pub dist : ℕ → ℕ → ℕ
dist a b = (a - b) + (b - a)

abbrev pub IsAscending : List ℕ → Type 0
IsAscending times = (i j : ℕ) → i < j → j < length times → at times i < at times j

-- Frame `i` is there, nearer to the target than every older one, and as near as every newer one.
pub record IsNearest (times : List ℕ) (target i : ℕ) : Type 0 where
  pub resident : i < length times
  pub beats_older : (j : ℕ) → j < i → dist (at times i) target < dist (at times j) target
  pub matches_newer :
      (j : ℕ) → i < j → j < length times → dist (at times i) target ≤ dist (at times j) target

first-IsNearest :
    (t : ℕ) (ts : List ℕ) (target : ℕ)
    → IsAscending (t ∷ ts)
    → target ≤ t
    → IsNearest (t ∷ ts) target 0
first-IsNearest t ts target asc h = record {
  resident = omega arith;
  beats_older = λ j p. absurd (omega arith);
  matches_newer = λ j p q. omega (arith, asc 0 j p q);
}

last-IsNearest :
    (t : ℕ) (ts : List ℕ) (target : ℕ)
    → IsAscending (t ∷ ts)
    → at (t ∷ ts) (length ts) ≤ target
    → IsNearest (t ∷ ts) target (length ts)
last-IsNearest t ts target asc h = record {
  resident = omega arith;
  beats_older = λ j p. omega (arith, asc j (length ts) p (omega arith));
  matches_newer = λ j p q. absurd (omega arith);
}

nearer-IsNearest :
    (times : List ℕ) (target high : ℕ) (r : ℕ × ℕ)
    → IsAscending times
    → high < length times
    → Brackets times target 0 high r
    → IsNearest times target (nearer times target r)
unfolding nearer
nearer-IsNearest times target high (low, next) asc inside b =
    elim (Bool-cases (leb (target - at times low) (at times next - target))) [
      | inl older ↦ rw older (record {
        resident = omega (arith, b);
        beats_older = λ j p. ground (arith, asc j low p, b);
        matches_newer = λ j p q. elim (dec_lt next j) [
          | yes far ↦ ground (arith, asc next j far q, b)
          | no near ↦ let e : j ≡ next = omega (arith, b) in rw e (ground (arith, b))
        ];
      })
      | inr newer ↦ rw newer (record {
        resident = omega (arith, b);
        beats_older = λ j p. elim (dec_lt j low) [
          | yes far ↦ ground (arith, asc j low far, b)
          | no near ↦ let e : j ≡ low = omega (arith, b) in rw e (ground (arith, b))
        ];
        matches_newer = λ j p q. ground (arith, asc next j p q, b);
      })
    ]

-- On a history of strictly ascending times that is not empty, `nearestFrameIndex` returns the index of the
-- nearest frame, and of two that are equally near the older one.
pub nearest_frame_index-IsNearest :
    (t : ℕ) (ts : List ℕ) (target : ℕ)
    → IsAscending (t ∷ ts)
    → (i : ℕ) × (nearest_frame_index (t ∷ ts) target ≡ some i) × IsNearest (t ∷ ts) target i
unfolding nearest_frame_index
nearest_frame_index-IsNearest t ts target asc = elim (Bool-cases (leb target t)) [
  | inl early ↦ (0, rw early, first-IsNearest t ts target asc (ground arith))
  | inr later ↦ elim (Bool-cases (leb (at (t ∷ ts) (length ts)) target)) [
    | inl late ↦ (length ts, rw (later, late), last-IsNearest t ts target asc (ground arith))
    | inr inside ↦
        let (r, e, b) =
          bisect-Brackets (suc (length ts)) (t ∷ ts) target 0 (length ts)
            (some_after ts (ground arith) (ground arith)) (omega arith) (ground arith)
            (ground arith) in
        (
          nearer (t ∷ ts) target r,
          rw (later, inside, e) refl,
          nearer-IsNearest (t ∷ ts) target (length ts) r asc (omega arith) b,
        )
  ]
]
  where
    some_after : (us : List ℕ) → t < target → target < at (t ∷ us) (length us) → 0 < length us
    some_after [] p q = absurd (omega arith)
    some_after (u ∷ us) p q = omega arith
