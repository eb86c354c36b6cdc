-- ===== src/Pmem/Ranges.antt =====
-- A derived range lies in its source, and a merged range is the union of two.
use sharkix.Common.{
  true, Option-cases, ℕ, ◌+◌, ◌-◌, ◌%◌, ◌^◌, ◌<◌, ◌≤◌, ◌≡◌, ◌↔◌, ◌⊎◌, inl, inr, ◌==◌, ltb, leb,
  ◌||◌, if◌then◌else◌, false, Bool-cases, Option, none, some, arith, sym, subst,
}
use sharkix.Pmem.{Range, kpmem_get_end, derive_range, join_range, merge_range}

-- The address stands in the range.
abbrev pub In : ℕ → Range → Type 0
In x r = (r.phys_base ≤ x) × (x < r.phys_base + r.length)

-- The end of the range is a uintptr_t.
abbrev pub Fits : Range → Type 0
Fits r = r.phys_base + r.length < 2 ^ 64

kpmem_get_end_lem :
    (base length : ℕ)
    → base < 2 ^ 64
    → ((base + length < 2 ^ 64) × (kpmem_get_end base length ≡ some (base + length)))
      ⊎ ((2 ^ 64 ≤ base + length) × (kpmem_get_end base length ≡ none))
unfolding kpmem_get_end
kpmem_get_end_lem base length b = elim (Bool-cases (ltb (2 ^ 64 - 1 - base) length)) [
  | inl over ↦ inr (ground (arith, over), simp over)
  | inr fits ↦
      let small : base + length < 2 ^ 64 = ground (arith, fits) in
      let same : (base + length) % 2 ^ 64 ≡ base + length = omega (arith, small) in
      inl (small, simp (fits, same))
]

kpmem_get_end-Fits :
    (r : Range) → Fits r → kpmem_get_end r.phys_base r.length ≡ some (r.phys_base + r.length)
kpmem_get_end-Fits r f = elim (kpmem_get_end_lem r.phys_base r.length (omega (arith, f))) [
  | inl (small, e) ↦ e
  | inr (big, e) ↦ absurd (omega (arith, f, big))
]

-- The new range and the source end within the address space, and the source holds the new range.
abbrev pub Contained : Range → (base length : ℕ) → Type 0
Contained source base length =
    (base + length < 2 ^ 64)
    × (source.phys_base + source.length < 2 ^ 64)
    × (source.phys_base ≤ base)
    × (base + length ≤ source.phys_base + source.length)

-- One of them wraps, or the new range starts before the source or ends behind it.
abbrev pub NotContained : Range → (base length : ℕ) → Type 0
NotContained source base length =
    (2 ^ 64 ≤ base + length)
    ⊎ (2 ^ 64 ≤ source.phys_base + source.length)
    ⊎ (base < source.phys_base)
    ⊎ (source.phys_base + source.length < base + length)

-- kpmem_derive takes an address and a length exactly when the source holds the range that they describe,
-- and it publishes that range.
pub derive_range_lem :
    (source : Range) (base length : ℕ)
    → base < 2 ^ 64
    → (Contained source base length
        × (derive_range source base length ≡ some (record { phys_base = base; length = length })))
      ⊎ (NotContained source base length × (derive_range source base length ≡ none))
unfolding derive_range
derive_range_lem source base length b = elim (kpmem_get_end_lem base length b) [
  | inr (big, e) ↦ inr (inl big, simp (derive_range, e))
  | inl (small, e) ↦ elim (Bool-cases (ltb source.phys_base (2 ^ 64))) [
    | inr over ↦
        let before : ltb base source.phys_base ≡ true = ground (arith, over, b) in
        inr (
          inr (inr (inl (ground (arith, before)))),
          elim (Option-cases (kpmem_get_end source.phys_base source.length)) [
            | inl none_there ↦ simp (derive_range, e, none_there)
            | inr (end, there) ↦ simp (derive_range, e, there, before)
          ],
        )
    | inl low ↦ elim (kpmem_get_end_lem source.phys_base source.length (ground (arith, low))) [
      | inr (wraps, f) ↦ inr (inr (inl wraps), simp (derive_range, e, f))
      | inl (fits, end) ↦
          elim (Bool-cases
            (ltb base source.phys_base || ltb (source.phys_base + source.length) (base + length))) [
              | inl bad ↦ inr (inr (inr (ground (arith, bad))), simp (derive_range, e, end, bad))
              | inr good ↦ inl (
                (small, fits, ground (arith, good), ground (arith, good)),
                simp (derive_range, e, end, good),
              )
            ]
    ]
  ]
]

-- What a merge of two ranges came to: exactly their union, or nothing, with a hole between them.
abbrev pub Merges : Range → Range → Option Range → Type 0
Merges a b r =
    ((c : Range) × (r ≡ some c) × Fits c × ((x : ℕ) → In x c ↔ (In x a ⊎ In x b)))
    ⊎ ((0 < a.length)
        × (0 < b.length)
        × ((a.phys_base + a.length < b.phys_base) ⊎ (b.phys_base + b.length < a.phys_base))
        × (r ≡ none))

join_range-Merges :
    (lo hi : Range)
    → Fits lo
    → Fits hi
    → 0 < lo.length
    → 0 < hi.length
    → lo.phys_base ≤ hi.phys_base
    → Merges lo hi (join_range lo hi (lo.phys_base + lo.length) (hi.phys_base + hi.length))
unfolding join_range
join_range-Merges lo hi f g l m le =
    let lo_end = lo.phys_base + lo.length in
    let hi_end = hi.phys_base + hi.length in
    elim (Bool-cases (ltb lo_end hi.phys_base)) [
      | inl hole ↦ inr (l, m, inl (ground (arith, hole)), simp hole)
      | inr meets ↦ elim (Bool-cases (ltb hi_end lo_end)) [
        | inl inner ↦
            let small : ltb (2 ^ 64 - 1) (lo_end - lo.phys_base) ≡ false = ground (arith, f) in
            inl (
              record { phys_base = lo.phys_base; length = lo_end - lo.phys_base },
              simp (meets, inner, small),
              omega (arith, f),
              λ x. ground (arith, meets, inner),
            )
        | inr outer ↦
            let small : ltb (2 ^ 64 - 1) (hi_end - lo.phys_base) ≡ false = ground (arith, g) in
            inl (
              record { phys_base = lo.phys_base; length = hi_end - lo.phys_base },
              simp (meets, outer, small),
              ground (arith, g, outer),
              λ x. ground (arith, meets, outer),
            )
      ]
    ]

Merges-swap : (a b : Range) {r : Option Range} → Merges a b r → Merges b a r
Merges-swap a b (inl (c, e, f, same)) = inl (c, e, f, λ x. ground (arith, same x))
Merges-swap a b (inr (l, m, hole, e)) = inr (m, l, ground (arith, hole), e)

-- Two ranges that fit are merged by kpmem_merge into one that fits and has exactly the addresses of
-- both, unless both have addresses and there is a hole between them; then it fails.
pub merge_range-Merges : (a b : Range) → Fits a → Fits b → Merges a b (merge_range a b)
unfolding merge_range
merge_range-Merges a b f g =
    let a_end = kpmem_get_end-Fits a f in
    let b_end = kpmem_get_end-Fits b g in
    elim (Bool-cases (a.length == 0)) [
      | inl no_a ↦ elim (Bool-cases (b.length == 0)) [
        | inl no_b ↦ inl (
          record {
            phys_base = if ltb a.phys_base b.phys_base then a.phys_base else b.phys_base;
            length = 0;
          },
          simp (merge_range, a_end, b_end, no_a, no_b),
          ground (arith, f, g),
          λ x. ground (arith, no_a, no_b),
        )
        | inr some_b ↦ inl (
          record { phys_base = b.phys_base; length = b.length },
          simp (merge_range, a_end, b_end, no_a, some_b),
          g,
          λ x. ground (arith, no_a),
        )
      ]
      | inr some_a ↦ elim (Bool-cases (b.length == 0)) [
        | inl no_b ↦ inl (
          record { phys_base = a.phys_base; length = a.length },
          simp (merge_range, a_end, b_end, some_a, no_b),
          f,
          λ x. ground (arith, no_b),
        )
        | inr some_b ↦ elim (Bool-cases (leb a.phys_base b.phys_base)) [
          | inl below ↦
              let same : merge_range a b
                  ≡ join_range a b (a.phys_base + a.length) (b.phys_base + b.length) =
                simp (merge_range, a_end, b_end, some_a, some_b, below) in
              subst (Merges a b) (sym same) (
                join_range-Merges a b f g (ground (arith, some_a)) (ground (arith, some_b))
                  (ground (arith, below)))
          | inr above ↦
              let same : merge_range a b
                  ≡ join_range b a (b.phys_base + b.length) (a.phys_base + a.length) =
                simp (merge_range, a_end, b_end, some_a, some_b, above) in
              subst (Merges a b) (sym same) (
                Merges-swap b a (
                  join_range-Merges b a g f (ground (arith, some_b)) (ground (arith, some_a))
                    (ground (arith, above))))
        ]
      ]
    ]
