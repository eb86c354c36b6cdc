-- ===== src/Pmem/Deriving.antt =====
-- kpmem.c: kpmem_derive on every branch.
use sharkix.Common.{
  ◌<◌, sym, subst, ℕ, ◌-◌, ◌^◌, ◌≡◌, ◌⊎◌, inl, inr, refl, ◌==◌, ==_iff, Bool, true, false,
  Bool-cases, Option-cases, none, some, [], ◌∷◌, arith,
}
use sharkix.Pmem.{Range, derive_range}
use sharkix.Pmem.Ranges.{Contained, NotContained, derive_range_lem}
use sharkix.Pmem.Objects.{
  Pmem, Pmems, Made, refuse, decrease, increase, change, kpmem_find_locked, kpmem_derive,
}
use sharkix.Pmem.Valid.{IsValid, kpmem_find_locked-some}
use sharkix.Pmem.Making.{Publishes, published_lem, retained_lem}

-- The outcomes of kpmem_derive, by what its tests on the addresses give.
abbrev pub DerivesBy : (out mem : Bool) (source new_base new_len : ℕ) → Pmems → Made → Type 0
DerivesBy out mem source new_base new_len s r =
    ((out ≡ false) × (r ≡ (s, false, none)))
    ⊎ (((mem ≡ false) ⊎ (kpmem_find_locked source s ≡ none)) × (r ≡ refuse s))
    ⊎ ((src : Pmem) × (kpmem_find_locked source s ≡ some src)
        × (((derive_range src.range new_base new_len ≡ none) ⊎ (src.refcount ≡ 2 ^ 64 - 1))
            × (r ≡ refuse s)))
    ⊎ ((src : Pmem) × (range : Range) × (out ≡ true)
        × (mem ≡ true)
        × (kpmem_find_locked source s ≡ some src)
        × (derive_range src.range new_base new_len ≡ some range)
        × Publishes s range false (source ∷ []) r)

pub kpmem_derive_cases :
    (out mem : Bool) (source new_base new_len : ℕ) (s : Pmems)
    → IsValid s
    → DerivesBy out mem source new_base new_len s (kpmem_derive out mem source new_base new_len s)
unfolding kpmem_derive
kpmem_derive_cases false mem source new_base new_len s v = inl (refl, refl)
kpmem_derive_cases true false source new_base new_len s v = inr (inl (inl refl, refl))
kpmem_derive_cases true true source new_base new_len s v =
    elim (Option-cases (kpmem_find_locked source s)) [
      | inl absent ↦ inr (inl (inr absent, rw absent refl))
      | inr (src, here) ↦ elim (Option-cases (derive_range src.range new_base new_len)) [
        | inl bad ↦ inr (inr (inl (src, here, (inl bad, rw (here, bad) refl))))
        | inr (range, good) ↦ elim (Bool-cases (src.refcount == 2 ^ 64 - 1)) [
          | inl full ↦ inr (
              inr (
                inl (
                  src,
                  here,
                  (inr ((==_iff src.refcount (2 ^ 64 - 1)).0 full), simp (here, good, full)),
                )))
          | inr room ↦
              let (at, on) = kpmem_find_locked-some source s src here in
              let (h, others, back) =
                retained_lem source src at
                  (λ e. ground (arith, room, ==_iff src.refcount (2 ^ 64 - 1), e)) v in
              inr (
                inr (
                  inr (
                    src,
                    range,
                    refl,
                    refl,
                    here,
                    good,
                    rw (here, good, room)
                        (published_lem range false (source ∷ [])
                          (change source decrease (change source increase s)) h (λ p. refl) refl
                          others back),
                  )))
        ]
      ]
    ]

-- The outcomes of kpmem_derive.
abbrev pub Derives : (out mem : Bool) (source new_base new_len : ℕ) → Pmems → Made → Type 0
Derives out mem source new_base new_len s r =
    ((out ≡ false) × (r ≡ (s, false, none)))
    ⊎ (((mem ≡ false) ⊎ (kpmem_find_locked source s ≡ none)) × (r ≡ refuse s))
    ⊎ ((src : Pmem) × (kpmem_find_locked source s ≡ some src)
        × ((NotContained src.range new_base new_len ⊎ (src.refcount ≡ 2 ^ 64 - 1))
            × (r ≡ refuse s)))
    ⊎ ((src : Pmem) × (out ≡ true)
        × (mem ≡ true)
        × (kpmem_find_locked source s ≡ some src)
        × Contained src.range new_base new_len
        × Publishes s (record { phys_base = new_base; length = new_len }) false (source ∷ []) r)

-- kpmem_derive between any calls, for a base of 64 bits: a NULL result pointer changes nothing; without
-- memory, without the source, when the new range or that of the source goes past 2^64 - 1, when the new
-- range starts before the source or ends behind it, or when the source's count is 2^64 - 1, it writes
-- PMEM_INVALID_HANDLE and changes nothing; else, when the handles are spent, the same; else it
-- publishes exactly the range that was asked for, which lies in the source, with the source as parent
-- under the next handle, every other record stays but for its count, and all counts are exact again.
pub kpmem_derive_lem :
    (out mem : Bool) (source new_base new_len : ℕ) (s : Pmems)
    → IsValid s
    → new_base < 2 ^ 64
    → Derives out mem source new_base new_len s (kpmem_derive out mem source new_base new_len s)
kpmem_derive_lem out mem source new_base new_len s v b =
    elim (kpmem_derive_cases out mem source new_base new_len s v) [
      | inl null ↦ inl null
      | inr (inl bare) ↦ inr (inl bare)
      | inr (inr (inl (src, at, (inr full, e)))) ↦ inr (inr (inl (src, at, (inr full, e))))
      | inr (inr (inl (src, at, (inl bad, e)))) ↦
          elim (derive_range_lem src.range new_base new_len b) [
            | inl (within, good) ↦ absurd (ground (arith, bad, good))
            | inr (out_of, none_there) ↦ inr (inr (inl (src, at, (inl out_of, e))))
          ]
      | inr (inr (inr (src, range, is, room, at, good, p))) ↦
          elim (derive_range_lem src.range new_base new_len b) [
            | inr (out_of, none_there) ↦ absurd (ground (arith, none_there, good))
            | inl (within, taken) ↦
                let it : record { phys_base = new_base; length = new_len } ≡ range =
                  ground (arith, taken, good) in
                inr (
                  inr (
                    inr (
                      src,
                      is,
                      room,
                      at,
                      within,
                      subst
                          (λ w.
                            Publishes s w false (source ∷ [])
                              (kpmem_derive out mem source new_base new_len s))
                          (sym it) p,
                    )))
          ]
    ]
