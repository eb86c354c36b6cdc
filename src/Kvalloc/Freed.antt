-- ===== src/Kvalloc/Freed.antt =====
-- kvalloc.c: the calls of kvalloc and kvfree.
use sharkix.Common.{
  ℕ, ◌+◌, ◌-◌, ◌%◌, ◌^◌, ◌<◌, ◌≤◌, ◌≡◌, ◌⊎◌, inl, inr, refl, ◌==◌, ==_iff, ltb, not, ◌&&◌, ◌||◌,
  if◌then◌else◌, Bool, true, false, Bool-cases, Option, none, some, List, [], ◌∷◌, arith, ap, ap₂,
  ◌∙◌, sym,
}
use sharkix.Memory.{rounded}
use sharkix.Kvalloc.{
  Region, Regions, kvalloc_base, kvalloc_end, round_up_page, kvalloc, unlink, kvfree,
}
use sharkix.Kvalloc.Sorted.{IsSorted, in_range, covered, covered_low, NoGap, first_fit-Found}

abbrev pub IsValid : Regions → Type 0
IsValid s = IsSorted kvalloc_base s.regions

-- The length of the region that starts at the address.
abbrev pub region_at : ℕ → List Region → Option ℕ
region_at a [] = none
region_at a (r ∷ rs) = if r.base == a then some r.length else region_at a rs

region_at_low : (low a : ℕ) (rs : List Region) → IsSorted low rs → a < low → region_at a rs ≡ none
region_at_low low a [] sorted h = refl
region_at_low low a (r ∷ rs) (p, sorted) h =
    let other : (r.base == a) ≡ false = ground (arith, p.behind, h) in
    rw other (region_at_low (r.base + r.length) a rs sorted (omega (arith, p.behind, h)))

lower : (low low' : ℕ) (rs : List Region) → low' ≤ low → IsSorted low rs → IsSorted low' rs
lower low low' [] h sorted = tt
lower low low' (r ∷ rs) h (p, sorted) = (
  record {
    behind = omega (arith, h, p.behind);
    some_pages = p.some_pages;
    aligned = p.aligned;
    whole = p.whole;
    inside = p.inside;
  },
  sorted,
)

-- The outcomes of unlinking.
abbrev pub Unlinks : (low a : ℕ) → List Region → Option (List Region) → Type 0
Unlinks low a rs r =
    ((region_at a rs ≡ none) × (r ≡ none))
    ⊎ ((len : ℕ) × (rs' : List Region) × (region_at a rs ≡ some len)
        × (r ≡ some rs')
        × IsSorted low rs'
        × ((x : ℕ) → covered x rs' ≡ (covered x rs && not (in_range a len x))))

unlink-Unlinks : (low a : ℕ) (rs : List Region) → IsSorted low rs → Unlinks low a rs (unlink a rs)
unfolding unlink
unlink-Unlinks low a [] sorted = inl (refl, refl)
unlink-Unlinks low a (cur ∷ rest) (p, sorted) = elim (Bool-cases (cur.base == a)) [
  | inl here ↦
      let it : cur.base ≡ a = (==_iff cur.base a).0 here in
      inr (
        cur.length,
        rest,
        rw here refl,
        rw here refl,
        lower (cur.base + cur.length) low rest (omega (arith, p.behind)) sorted,
        (λ x. elim (Bool-cases (ltb x (cur.base + cur.length))) [
          | inl below ↦ ground (arith, covered_low (cur.base + cur.length) x rest sorted, below, it)
          | inr above ↦ ground (arith, above, it)
        ]),
      )
  | inr other ↦ elim (Bool-cases (ltb a cur.base)) [
    | inl past ↦ inl (
      rw other (region_at_low (cur.base + cur.length) a rest sorted (ground (arith, past))),
      rw (other, past) refl,
    )
    | inr ahead ↦ elim (unlink-Unlinks (cur.base + cur.length) a rest sorted) [
      | inl (absent, e) ↦ inl (rw (other) absent, rw (other, ahead, e) refl)
      | inr (len, rs', at, e, sorted', cover) ↦
          let far : cur.base + cur.length ≤ a = elim (Bool-cases (ltb a (cur.base + cur.length))) [
            | inl near ↦
                absurd
                  (ground (arith, at, region_at_low (cur.base + cur.length) a rest sorted, near))
            | inr far ↦ ground (arith, far)
          ] in
          inr (
            len,
            cur ∷ rs',
            rw other at,
            rw (other, ahead, e) refl,
            (p, sorted'),
            (λ x. ground (arith, cover x, far)),
          )
    ]
  ]
]

-- The arguments pass the tests of kvalloc.
abbrev pub Accepted : (out mem : Bool) (size : ℕ) → Regions → Type 0
Accepted out mem size s =
    (out ≡ true)
    × (s.kvalloc_initialized ≡ true)
    × (0 < size)
    × (size ≤ 2 ^ 64 - 4096)
    × (mem ≡ true)

-- The outcomes of kvalloc.
abbrev pub Allocates : (out mem : Bool) (size : ℕ) → Regions → Regions × Option ℕ → Type 0
Allocates out mem size s r =
    (((out ≡ false)
        ⊎ (s.kvalloc_initialized ≡ false)
        ⊎ (size ≡ 0)
        ⊎ (2 ^ 64 - 4096 < size)
        ⊎ (mem ≡ false)
        ⊎ ((a : ℕ)
            → (kvalloc_end < a + rounded size) ⊎ NoGap kvalloc_base (rounded size) s.regions a))
      × (r ≡ (s, none)))
    ⊎ ((address : ℕ) × (regions : List Region) × (r
          ≡ (record s { regions = regions }, some address))
        × (kvalloc_base ≤ address)
        × (address % 4096 ≡ 0)
        × (address + rounded size ≤ kvalloc_end)
        × IsSorted kvalloc_base regions
        × (unlink address regions ≡ some s.regions)
        × ((x : ℕ) → covered x regions ≡ (in_range address (rounded size) x || covered x s.regions))
        × ((x : ℕ) → (in_range address (rounded size) x && covered x s.regions) ≡ false)
        × ((a : ℕ) → (address ≤ a) ⊎ NoGap kvalloc_base (rounded size) s.regions a)
        × Accepted out mem size s)

-- kvalloc on a valid list changes nothing and fails when the result pointer is NULL, before kvalloc_init,
-- for a size of 0 or that does not fit when rounded up, without memory, or when every place of the arena
-- for the rounded size meets a region; else it returns the lowest place that meets none, whole pages
-- within the arena, it adds exactly these addresses, and the list is valid again.
pub kvalloc_lem :
    (out mem : Bool) (size : ℕ) (s : Regions)
    → IsValid s
    → Allocates out mem size s (kvalloc out mem size s)
unfolding kvalloc round_up_page
kvalloc_lem out mem size s v = elim (Bool-cases (not out || not s.kvalloc_initialized)) [
  | inl bad ↦ inl (ground (arith, bad), rw bad refl)
  | inr good ↦ elim (Bool-cases (size == 0 || ltb (2 ^ 64 - 1 - 4095) size)) [
    | inl bad ↦ inl (ground (arith, bad), rw (good, bad) refl)
    | inr fits ↦ elim (Bool-cases mem) [
      | inr full ↦ inl (inr (inr (inr (inr (inl full)))), rw (good, fits, full) refl)
      | inl room ↦
          let pos : 0 < rounded size = ground (arith, fits) in
          elim (first_fit-Found kvalloc_base (rounded size) s.regions pos (omega arith)
            (omega arith) (omega arith) v) [
              | inl (e, full) ↦
                  inl (inr (inr (inr (inr (inr full)))), rw (good, fits, room, e) refl)
              | inr
                    (
                      address, regions, e, behind, whole, inside, sorted, back, cover, apart, first,
                    ) ↦
                  inr (
                    address,
                    regions,
                    rw (good, fits, room, e) refl,
                    behind,
                    whole,
                    inside,
                    sorted,
                    back,
                    cover,
                    apart,
                    first,
                    (
                      ground (arith, good, Bool-cases out),
                      ground (arith, good, Bool-cases s.kvalloc_initialized),
                      ground (arith, fits),
                      ground (arith, fits),
                      room,
                    ),
                  )
            ]
    ]
  ]
]

-- The outcomes of kvfree.
abbrev pub Frees : (address : ℕ) → Regions → Regions × Bool → Type 0
Frees address s r =
    (((s.kvalloc_initialized ≡ false) ⊎ (region_at address s.regions ≡ none)) × (r ≡ (s, false)))
    ⊎ ((len : ℕ) × (regions : List Region) × (region_at address s.regions ≡ some len)
        × (r ≡ (record s { regions = regions }, true))
        × IsSorted kvalloc_base regions
        × ((x : ℕ) → covered x regions ≡ (covered x s.regions && not (in_range address len x))))

-- kvfree on a valid list changes nothing and fails before kvalloc_init or when no region starts at the
-- address; else exactly the addresses of that region are free again, and the list is valid again.
pub kvfree_lem : (address : ℕ) (s : Regions) → IsValid s → Frees address s (kvfree address s)
unfolding kvfree
kvfree_lem address s v = elim (Bool-cases s.kvalloc_initialized) [
  | inr off ↦ inl (inl off, simp (kvfree, off))
  | inl on ↦ elim (unlink-Unlinks kvalloc_base address s.regions v) [
    | inl (absent, e) ↦ inl (inr absent, simp (kvfree, on, e))
    | inr (len, regions, at, e, sorted, cover) ↦
        inr (len, regions, at, simp (kvfree, on, e), sorted, cover)
  ]
]

-- On a valid list after kvalloc_init, kvfree of an address that kvalloc returned succeeds and leaves the
-- list as it was before.
pub kvfree-kvalloc :
    (out mem : Bool) (size address : ℕ) (s t : Regions)
    → IsValid s
    → s.kvalloc_initialized ≡ true
    → kvalloc out mem size s ≡ (t, some address)
    → kvfree address t ≡ (s, true)
unfolding kvfree
kvfree-kvalloc out mem size address s t v on made = elim (kvalloc_lem out mem size s v) [
  | inl (bad, e) ↦ absurd (ground (arith, ap (λ r. r.1) (sym made ∙ e)))
  | inr (a, regions, e, behind, whole, inside, sorted, back, cover, apart, first, accepted) ↦
      let same : t ≡ record s { regions = regions } = ap (λ r. r.0) (sym made ∙ e) in
      let at : address ≡ a = ground (arith, ap (λ r. r.1) (sym made ∙ e)) in
      let finish : Regions → Regions × Bool = λ r. (r, true) in
      let restored : record s { kvalloc_initialized = true } ≡ s =
        ap (λ b. record s { kvalloc_initialized = b }) (sym on) in
      let freed : kvfree a (record s { regions = regions }) ≡ (s, true) =
        simp (kvfree, on, back) (ap finish restored) in
      ap₂ kvfree at same ∙ freed
]
