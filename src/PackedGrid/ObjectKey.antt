-- ===== src/PackedGrid/ObjectKey.antt =====
-- src/packed-grid/packedGrid.ts: `objectObservationTime`. A key is the list of its characters' codes. `date_utc`
-- is the platform's `Date.UTC`, where a time before 1970 is `none`, and `utc_fields` are the getters of a `Date`.
-- Months count from 1 in both.
use mathlib.Core.Option
use mistr.Prelude.{
  leb, ◌==◌, if◌then◌else◌, codes, take, drop, ℕ, zero, suc, ◌+◌, ◌-◌, ◌*◌, Bool, true, false, ◌&&◌,
  Option, none, some, List, [], ◌∷◌,
}
use mistr.PackedGrid.Bytes.{equal_bytes}

-- `do` on an `Option`.
infixl 5 ◌>>=◌
abbrev ◌>>=◌ : {A B : Type 0} → Option A → (A → Option B) → Option B
none >>= f = none
some a >>= f = f a

abbrev guard : Bool → ℕ → Option ℕ
guard true n = some n
guard false n = none

pub record Calendar : Type 0 where
  pub year : ℕ
  pub month : ℕ
  pub day : ℕ
  pub hour : ℕ
  pub minute : ℕ
  pub second : ℕ

abbrev pub is_digit : ℕ → Bool
is_digit c = leb 48 c && leb c 57

-- The text after `prefix`, if it begins so.
unfoldable pub strip : List ℕ → List ℕ → Option (List ℕ)
strip [] text = some text
strip (p ∷ prefix) [] = none
strip (p ∷ prefix) (c ∷ text) = let rest = strip prefix text in if p == c then rest else none

-- `n` digits, and the text after them.
unfoldable pub take_digits : ℕ → List ℕ → Option (List ℕ × List ℕ)
take_digits zero text = some ([], text)
take_digits (suc n) [] = none
take_digits (suc n) (c ∷ text) =
    let rest = take_digits n text in
    if is_digit c then Option.map (λ (ds, after). (c ∷ ds, after)) rest else none

unfoldable pub number_of : ℕ → List ℕ → ℕ
number_of acc [] = acc
number_of acc (d ∷ ds) = number_of (acc * 10 + (d - 48)) ds

-- The regular expression with its three groups.
unfoldable pub match_key : List ℕ → Option (List ℕ × List ℕ × List ℕ)
unfolding strip take_digits
match_key key = do
  a ← strip (codes "CONUS/MergedBaseReflectivityQC_00.50/") key
  (folder, b) ← take_digits 8 a
  c ← strip (codes "/MRMS_MergedBaseReflectivityQC_00.50_") b
  (date, d) ← take_digits 8 c
  e ← strip (codes "-") d
  (time, f) ← take_digits 6 e
  g ← strip (codes ".grib2.gz") f
  elim g [ [] ↦ some (folder, date, time) | _ ∷ _ ↦ none ]

-- `stamp.slice(...)` of the date and the time, as numbers.
unfoldable pub calendar_of : List ℕ → List ℕ → Calendar
unfolding number_of
calendar_of date time = record {
  year = number_of 0 (take 4 date);
  month = number_of 0 (take 2 (drop 4 date));
  day = number_of 0 (take 2 (drop 6 date));
  hour = number_of 0 (take 2 time);
  minute = number_of 0 (take 2 (drop 2 time));
  second = number_of 0 (take 2 (drop 4 time));
}

unfoldable pub same_calendar : Calendar → Calendar → Bool
same_calendar a b =
    a.year == b.year
    && a.month == b.month
    && a.day == b.day
    && a.hour == b.hour
    && a.minute == b.minute
    && a.second == b.second

module _ (date_utc : Calendar → Option ℕ) (utc_fields : ℕ → Calendar) where
  unfoldable pub object_observation_time : List ℕ → Option ℕ
  unfolding match_key calendar_of
  object_observation_time key = do
    (folder, date, time) ← match_key key
    milliseconds ← date_utc (calendar_of date time)
    guard
        (equal_bytes folder date && same_calendar (utc_fields milliseconds) (calendar_of date time))
        milliseconds
