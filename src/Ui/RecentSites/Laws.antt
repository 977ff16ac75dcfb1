-- ===== src/Ui/RecentSites/Laws.antt =====
-- src/ui/recentSites.ts: the recent sites are few, supported and different, and they are kept.
use mistr.Prelude.{
  if◌then◌else◌, Bool-cases, length, take, any, All, length-take, ℕ, zero, suc, ◌≤◌, String, ◌≡◌,
  refl, ap, ◌∙◌, inl, inr, Bool, true, false, Option, none, some, List, [], ◌∷◌, map, arith, str_eq,
}
use mistr.Sites.{RadarSiteOption, is_supported_radar_site}
use mistr.Ui.RecentSites.{
  Stored, without, distinct, supported, read_recent_sites, remember_recent_site,
}

abbrev pub contains : String → List String → Bool
contains x xs = any (λ y. str_eq y x) xs

abbrev pub Distinct : List String → Type 0
Distinct [] = Unit {0}
Distinct (x ∷ xs) = (contains x xs ≡ false) × Distinct xs

-- The second list is the first without the site: each other element is kept, in its place.
pub data LeavesOut (site : String) : List String → List String → Type 0 where
  nothing_left : LeavesOut site [] []
  leaves :
      {x : String} {xs ys : List String}
      → str_eq x site ≡ true
      → LeavesOut site xs ys
      → LeavesOut site (x ∷ xs) ys
  keeps :
      {x : String} {xs ys : List String}
      → str_eq x site ≡ false
      → LeavesOut site xs ys
      → LeavesOut site (x ∷ xs) (x ∷ ys)

without-LeavesOut : (site : String) (xs : List String) → LeavesOut site xs (without site xs)
unfolding without
without-LeavesOut site [] = nothing_left
without-LeavesOut site (x ∷ xs) =
    let rest = without-LeavesOut site xs in
    elim (Bool-cases (str_eq x site)) [ inl h ↦ rw h (leaves h rest) | inr h ↦ rw h (keeps h rest) ]

contains-without : (x : String) (xs : List String) → contains x (without x xs) ≡ false
unfolding without
contains-without x [] = refl
contains-without x (y ∷ ys) = ground (arith, contains-without x ys)

contains-without_other :
    (x y : String) (xs : List String) → contains x xs ≡ false → contains x (without y xs) ≡ false
unfolding without
contains-without_other x y [] h = refl
contains-without_other x y (z ∷ zs) h = ground (arith, h, contains-without_other x y zs)

without-Distinct : (x : String) (xs : List String) → Distinct xs → Distinct (without x xs)
unfolding without
without-Distinct x [] h = tt
without-Distinct x (y ∷ ys) h =
    let rest = without-Distinct x ys h.1 in
    let fresh = contains-without_other y x ys h.0 in ground (arith, rest, fresh)

distinct-Distinct : (xs : List String) → Distinct (distinct xs)
unfolding distinct
distinct-Distinct [] = tt
distinct-Distinct (x ∷ xs) =
    (contains-without x (distinct xs), without-Distinct x (distinct xs) (distinct-Distinct xs))

contains-take :
    (x : String) (n : ℕ) (xs : List String) → contains x xs ≡ false → contains x (take n xs) ≡ false
contains-take x zero xs h = refl
contains-take x (suc n) [] h = refl
contains-take x (suc n) (y ∷ ys) h = ground (arith, h, contains-take x n ys)

take-Distinct : (n : ℕ) (xs : List String) → Distinct xs → Distinct (take n xs)
take-Distinct zero xs h = tt
take-Distinct (suc n) [] h = tt
take-Distinct (suc n) (x ∷ xs) h = (contains-take x n xs h.0, take-Distinct n xs h.1)

without-fresh : (x : String) (xs : List String) → contains x xs ≡ false → without x xs ≡ xs
unfolding without
without-fresh x [] h = refl
without-fresh x (y ∷ ys) h = ground (arith, h, without-fresh x ys)

distinct-same : (xs : List String) → Distinct xs → distinct xs ≡ xs
unfolding distinct
distinct-same [] h = refl
distinct-same (x ∷ xs) h =
    ap (λ ys. x ∷ ys) (ap (without x) (distinct-same xs h.1) ∙ without-fresh x xs h.0)

take-short : (n : ℕ) (xs : List String) → length xs ≤ n → take n xs ≡ xs
take-short zero [] h = refl
take-short zero (x ∷ xs) h = absurd (omega (arith, h))
take-short (suc n) [] h = refl
take-short (suc n) (x ∷ xs) h = ap (λ ys. x ∷ ys) (take-short n xs (omega (arith, h)))

module _ (sites : List RadarSiteOption) where
  abbrev pub AllSupported : List String → Type 0
  AllSupported xs = All (λ x. is_supported_radar_site sites x ≡ true) xs

  supported-AllSupported : (xs : List (Option String)) → AllSupported (supported sites xs)
  unfolding supported
  supported-AllSupported [] = tt
  supported-AllSupported (none ∷ xs) = supported-AllSupported xs
  supported-AllSupported (some x ∷ xs) = ground (arith, supported-AllSupported xs)

  supported-same : (xs : List String) → AllSupported xs → supported sites (map some xs) ≡ xs
  unfolding supported
  supported-same [] h = refl
  supported-same (x ∷ xs) h = ground (arith, h.0, supported-same xs h.1)

  without-AllSupported :
      (x : String) (xs : List String) → AllSupported xs → AllSupported (without x xs)
  unfolding without
  without-AllSupported x [] h = tt
  without-AllSupported x (y ∷ ys) h =
      let rest = without-AllSupported x ys h.1 in ground (arith, h.0, rest)

  distinct-AllSupported : (xs : List String) → AllSupported xs → AllSupported (distinct xs)
  unfolding distinct
  distinct-AllSupported [] h = tt
  distinct-AllSupported (x ∷ xs) h =
      (h.0, without-AllSupported x (distinct xs) (distinct-AllSupported xs h.1))

  take-AllSupported : (n : ℕ) (xs : List String) → AllSupported xs → AllSupported (take n xs)
  take-AllSupported zero xs h = tt
  take-AllSupported (suc n) [] h = tt
  take-AllSupported (suc n) (x ∷ xs) h = (h.0, take-AllSupported n xs h.1)

  abbrev pub AreRecent : List String → Type 0
  AreRecent xs = Distinct xs × AllSupported xs × (length xs ≤ 5)

  read-AreRecent : (stored : Stored) → AreRecent (read_recent_sites sites stored)
  unfolding read_recent_sites
  read-AreRecent none = (tt, tt, omega arith)
  read-AreRecent (some parsed) =
      let xs = distinct (supported sites parsed) in
      (
        take-Distinct 5 xs (distinct-Distinct (supported sites parsed)),
        take-AllSupported 5 xs
            (distinct-AllSupported (supported sites parsed) (supported-AllSupported parsed)),
        omega (arith, length-take 5 xs),
      )

  -- What is written is read back.
  read-written :
      (xs : List String) → AreRecent xs → read_recent_sites sites (some (map some xs)) ≡ xs
  unfolding read_recent_sites
  read-written xs (d, s, n) =
      ap (λ ys. take 5 (distinct ys)) (supported-same xs s)
      ∙ ap (take 5) (distinct-same xs d)
      ∙ take-short 5 xs n

  -- Of a supported site, whatever the storage holds: the list that is returned is that site and then the first
  -- four of the sites that were read, in order, the site itself left out and no other; it has at most five
  -- sites, all supported and different; and if the storage takes it, it is the list that is read next.
  pub remember-AreRecent :
      (site : String) (writes : Bool) (stored : Stored)
      → is_supported_radar_site sites site ≡ true
      → let (next, stored') = remember_recent_site sites site writes stored in
        ((others : List String) × LeavesOut site (read_recent_sites sites stored) others
          × (next ≡ site ∷ take 4 others))
        × AreRecent next
        × (writes ≡ true → read_recent_sites sites stored' ≡ next)
  unfolding remember_recent_site
  remember-AreRecent site writes stored h =
      let (d, s, n) = read-AreRecent stored in
      let recent = read_recent_sites sites stored in
      let others = without site recent in
      let next = site ∷ take 4 others in
      let are : AreRecent next = (
        (
          contains-take site 4 others (contains-without site recent),
          take-Distinct 4 others (without-Distinct site recent d),
        ),
        (h, take-AllSupported 4 others (without-AllSupported site recent s)),
        omega (arith, length-take 4 others),
      ) in
      let e : remember_recent_site sites site writes stored
          ≡ (next, if writes then some (map some next) else stored) =
        ground (arith, h) in
      let back = read-written next are in
      let told : writes ≡ true
          → read_recent_sites sites (if writes then some (map some next) else stored) ≡ next =
        ground (arith, back) in
      rw e ((others, without-LeavesOut site recent, refl), are, told)
