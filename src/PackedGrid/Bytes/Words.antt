-- ===== src/PackedGrid/Bytes/Words.antt =====
-- src/packed-grid/packedGrid.ts: the raw codes that a payload holds.
use mistr.Prelude.{
  length, drop, All, ℕ, zero, suc, ◌+◌, ◌*◌, ◌/◌, ◌%◌, ◌<◌, ◌≡◌, refl, sym, ap, ◌∙◌, List, [], ◌∷◌,
  arith,
}
use mistr.PackedGrid.Bytes.{byte_at, get_uint16, read_words}

abbrev pub AreBytes : List ℕ → Type 0
AreBytes = All (λ b. b < 256)

-- The big-endian bytes of words.
unfoldable pub encode_words : List ℕ → List ℕ
encode_words [] = []
encode_words (w ∷ ws) = w / 256 ∷ w % 256 ∷ encode_words ws

pub byte_at-lt : (bytes : List ℕ) (i : ℕ) → AreBytes bytes → byte_at bytes i < 256
unfolding byte_at
byte_at-lt [] i h = omega arith
byte_at-lt (b ∷ bytes) zero h = h.0
byte_at-lt (b ∷ bytes) (suc i) h = byte_at-lt bytes i h.1

drop-suc :
    (bytes : List ℕ) (i : ℕ)
    → i < length bytes
    → drop i bytes ≡ byte_at bytes i ∷ drop (suc i) bytes
unfolding byte_at
drop-suc [] i h = absurd (omega arith)
drop-suc (b ∷ bytes) zero h = refl
drop-suc (b ∷ bytes) (suc i) h = drop-suc bytes i (omega arith)

drop-all : (bytes : List ℕ) → drop (length bytes) bytes ≡ []
drop-all [] = refl
drop-all (b ∷ bytes) = drop-all bytes

drop-next :
    (bytes : List ℕ) (i j : ℕ)
    → i < length bytes
    → j ≡ i + 1
    → drop i bytes ≡ byte_at bytes i ∷ drop j bytes
drop-next bytes i j h e = let f : j ≡ suc i = omega arith in rw f (drop-suc bytes i h)

drop-word :
    (bytes : List ℕ) (i : ℕ)
    → i + 1 < length bytes
    → drop i bytes ≡ byte_at bytes i ∷ byte_at bytes (i + 1) ∷ drop (i + 2) bytes
drop-word bytes i h =
    drop-next bytes i (i + 1) (omega arith) refl
    ∙ ap (λ l. byte_at bytes i ∷ l) (drop-next bytes (i + 1) (i + 2) h (omega arith))

pub length-read_words : (bytes : List ℕ) (offset n : ℕ) → length (read_words bytes offset n) ≡ n
unfolding read_words
length-read_words bytes offset zero = refl
length-read_words bytes offset (suc n) = ap suc (length-read_words bytes (offset + 2) n)

pub read_words-lt :
    (bytes : List ℕ) (offset n : ℕ)
    → AreBytes bytes
    → All (λ w. w < 65_536) (read_words bytes offset n)
unfolding read_words get_uint16
read_words-lt bytes offset zero h = tt
read_words-lt bytes offset (suc n) h = (
  omega (arith, byte_at-lt bytes offset h, byte_at-lt bytes (offset + 1) h),
  read_words-lt bytes (offset + 2) n h,
)

-- Reading words loses nothing: the words read from `offset` to the end of a list of bytes, written again,
-- are its bytes from `offset` on.
pub encode_words-read_words :
    (bytes : List ℕ) (offset n : ℕ)
    → AreBytes bytes
    → offset + 2 * n ≡ length bytes
    → encode_words (read_words bytes offset n) ≡ drop offset bytes
unfolding encode_words read_words get_uint16
encode_words-read_words bytes offset zero h e =
    let f : length bytes ≡ offset = omega arith in rw (← f) (sym (drop-all bytes))
encode_words-read_words bytes offset (suc n) h e = ground (
  arith,
  drop-word bytes offset,
  byte_at-lt bytes offset h,
  byte_at-lt bytes (offset + 1) h,
  encode_words-read_words bytes (offset + 2) n h,
)
