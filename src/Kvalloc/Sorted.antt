-- ===== src/Kvalloc/Sorted.antt =====
-- kvalloc.c: the list stays sorted without overlaps, and the first gap that fits is taken.
use sharkix.Common.{
  ℕ, ◌+◌, ◌-◌, ◌%◌, ◌^◌, ◌<◌, ◌≤◌, ◌≡◌, ◌⊎◌, inl, inr, refl, ◌==◌, ==_refl, ltb, leb, ◌&&◌, ◌||◌,
  Bool, true, false, Bool-cases, Option, none, some, List, [], ◌∷◌, arith,
}
use sharkix.Kvalloc.{Region, kvalloc_end, insert_at, first_fit, unlink}

-- Whole pages within the arena, behind `low`.
pub record IsPlaced (low : ℕ) (r : Region) : Type 0 where
  pub behind : low ≤ r.base
  pub some_pages : 0 < r.length
  pub aligned : r.base % 4096 ≡ 0
  pub whole : r.length % 4096 ≡ 0
  pub inside : r.base + r.length ≤ kvalloc_end

abbrev pub IsSorted : (low : ℕ) → List Region → Type 0
IsSorted low [] = Unit {0}
IsSorted low (r ∷ rs) = IsPlaced low r × IsSorted (r.base + r.length) rs

abbrev pub in_range : (base length x : ℕ) → Bool
in_range base length x = leb base x && ltb x (base + length)

-- An address that belongs to a region.
abbrev pub covered : ℕ → List Region → Bool
covered x [] = false
covered x (r ∷ rs) = in_range r.base r.length x || covered x rs

pub covered_low : (low x : ℕ) (rs : List Region) → IsSorted low rs → x < low → covered x rs ≡ false
covered_low low x [] sorted h = refl
covered_low low x (r ∷ rs) (p, sorted) h =
    ground
      (arith, p.behind, covered_low (r.base + r.length) x rs sorted (omega (arith, p.behind, h)))

-- Every place from `low` on that ends by `high` has an address that belongs to a region.
abbrev pub NoGap : (low length : ℕ) → List Region → (a : ℕ) → Type 0
NoGap low length rs a = (a < low) ⊎ ((x : ℕ) × (in_range a length x ≡ true) × (covered x rs ≡ true))

-- What the search finds: no gap at all, or the first one.
abbrev pub Found : (low length : ℕ) (rs : List Region) → Option (ℕ × List Region) → Type 0
Found low length rs r =
    ((r ≡ none) × ((a : ℕ) → (kvalloc_end < a + length) ⊎ NoGap low length rs a))
    ⊎ ((address : ℕ) × (rs' : List Region) × (r ≡ some (address, rs'))
        × (low ≤ address)
        × (address % 4096 ≡ 0)
        × (address + length ≤ kvalloc_end)
        × IsSorted low rs'
        × (unlink address rs' ≡ some rs)
        × ((x : ℕ) → covered x rs' ≡ (in_range address length x || covered x rs))
        × ((x : ℕ) → (in_range address length x && covered x rs) ≡ false)
        × ((a : ℕ) → (address ≤ a) ⊎ NoGap low length rs a))

-- A gap in front of the rest of the list.
insert_at-Found :
    (low length : ℕ) (rs : List Region)
    → 0 < length
    → length % 4096 ≡ 0
    → low % 4096 ≡ 0
    → low ≤ kvalloc_end
    → IsSorted (low + length) rs
    → (low + length ≤ kvalloc_end)
    → Found low length rs (insert_at low length rs)
unfolding insert_at unlink
insert_at-Found low length rs pos whole aligned inside sorted fits =
    let test : (ltb kvalloc_end low || ltb (kvalloc_end - low) length) ≡ false =
      ground (arith, fits) in
    inr (
      low,
      record { base = low; length = length } ∷ rs,
      rw test refl,
      omega arith,
      aligned,
      fits,
      (
        record {
          behind = omega arith;
          some_pages = pos;
          aligned = aligned;
          whole = whole;
          inside = fits;
        },
        sorted,
      ),
      rw (==_refl low) refl,
      (λ x. refl),
      (λ x. elim (Bool-cases (ltb x (low + length))) [
        | inl below ↦ ground (arith, covered_low (low + length) x rs sorted, below)
        | inr above ↦ ground (arith, above)
      ]),
      (λ a. elim (Bool-cases (leb low a)) [
        | inl from ↦ inl (ground (arith, from))
        | inr before ↦ inr (inl (ground (arith, before)))
      ]),
    )

unlink_behind :
    (address : ℕ) (cur : Region) (more rest : List Region)
    → cur.base < address
    → unlink address more ≡ some rest
    → unlink address (cur ∷ more) ≡ some (cur ∷ rest)
unfolding unlink
unlink_behind address cur more rest h e =
    let other : (cur.base == address) ≡ false = ground (arith, h) in
    let later : ltb address cur.base ≡ false = ground (arith, h) in simp (unlink, other, later, e)

-- A place that starts before the end of the next region meets it.
meets :
    (low length a : ℕ) (cur : Region) (rest : List Region)
    → IsPlaced low cur
    → cur.base < low + length
    → 0 < length
    → NoGap (cur.base + cur.length) length rest a
    → NoGap low length (cur ∷ rest) a
meets low length a cur rest p tight pos h = elim (Bool-cases (ltb a low)) [
  | inl before ↦ inl (ground (arith, before))
  | inr from ↦ elim (Bool-cases (ltb a cur.base)) [
    | inl under ↦ inr (cur.base, ground (arith, from, under, tight), ground (arith, p.some_pages))
    | inr over ↦ elim h [
      | inl within ↦ inr (a, ground (arith, pos), ground (arith, over, within))
      | inr (x, there, is) ↦ inr (x, there, ground (arith, is))
    ]
  ]
]

pub first_fit-Found :
    (low length : ℕ) (rs : List Region)
    → 0 < length
    → length % 4096 ≡ 0
    → low % 4096 ≡ 0
    → low ≤ kvalloc_end
    → IsSorted low rs
    → Found low length rs (first_fit low length rs)
unfolding first_fit insert_at
first_fit-Found low length [] pos whole aligned inside sorted =
    elim (Bool-cases (ltb kvalloc_end low || ltb (kvalloc_end - low) length)) [
      | inl full ↦ inl (rw full refl, λ a. ground (arith, full))
      | inr fits ↦ insert_at-Found low length [] pos whole aligned inside tt (ground (arith, fits))
    ]
first_fit-Found low length (cur ∷ rest) pos whole aligned inside (p, sorted) =
    elim (Bool-cases (leb low cur.base && leb length (cur.base - low))) [
      | inl gap ↦
          let before : low + length ≤ cur.base = ground (arith, gap) in
          rw gap (
            insert_at-Found low length (cur ∷ rest) pos whole aligned inside
              (
                record {
                  behind = before;
                  some_pages = p.some_pages;
                  aligned = p.aligned;
                  whole = p.whole;
                  inside = p.inside;
                },
                sorted,
              )
              (omega (arith, before, p.inside)))
      | inr tight ↦
          let next = cur.base + cur.length in
          let close : cur.base < low + length = ground (arith, tight, p.behind) in
          let small : ltb (2 ^ 64 - 1 - cur.length) cur.base ≡ false = ground (arith, p.inside) in
          let same : next % 2 ^ 64 ≡ next = omega (arith, p.inside) in
          let next_aligned : next % 4096 ≡ 0 = omega (arith, p.aligned, p.whole) in
          rw (tight, small, same)
            (elim (first_fit-Found next length rest pos whole next_aligned p.inside sorted) [
              | inl (none_found, full) ↦ inl (
                rw none_found refl,
                λ a. elim (full a) [
                  | inl over ↦ inl over
                  | inr taken ↦ inr (meets low length a cur rest p close pos taken)
                ],
              )
              | inr (address, rs', found, above, at, fits, placed, back, cover, apart, first) ↦
                  inr (
                    address,
                    cur ∷ rs',
                    rw found refl,
                    omega (arith, above, p.behind),
                    at,
                    fits,
                    (p, placed),
                    unlink_behind address cur rs' rest (omega (arith, above, p.some_pages)) back,
                    (λ x. ground (arith, cover x)),
                    (λ x. ground (arith, apart x, above)),
                    (λ a. elim (first a) [
                      | inl later ↦ inl later
                      | inr taken ↦ inr (meets low length a cur rest p close pos taken)
                    ]),
                  )
            ])
    ]
