-- ===== src/Pmem/Owned.antt =====
-- kpmem.c: the calls that make an object without parents.
use sharkix.Common.{
  ◌≤◌, ℕ, ◌-◌, ◌/◌, ◌%◌, ◌^◌, ◌<◌, ◌≡◌, ◌⊎◌, inl, inr, refl, ◌==◌, Bool, true, false, Bool-cases,
  Option-cases, Option, none, some, List, [], ◌∷◌, arith, ap, sym, ltb, ◌&&◌, ◌||◌, subst, not,
}
use sharkix.Memory.{rounded}
use sharkix.Pmem.{kpmem_get_end}
use sharkix.Pmem.Objects.{
  Pmems, Made, refuse, allocated, kpmem_create_internal, kpmem_alloc_owned_pages,
}
use sharkix.Pmem.Valid.{IsValid}
use sharkix.Pmem.Making.{Publishes, published_lem}

-- The test on a range that owns its pages.
abbrev pub whole_pages : (base len : ℕ) → Bool
whole_pages base len = not (len == 0 || not (base % 4096 == 0) || not (len % 4096 == 0))

abbrev pub Creates : (out mem : Bool) (base len : ℕ) (owns_pages : Bool) → Pmems → Made → Type 0
Creates out mem base len owns_pages s r =
    ((out ≡ false) × (r ≡ (s, false, none)))
    ⊎ (((kpmem_get_end base len ≡ none)
          ⊎ ((owns_pages ≡ true) × (whole_pages base len ≡ false))
          ⊎ (mem ≡ false))
        × (r ≡ refuse s))
    ⊎ ((out ≡ true)
        × ((owns_pages ≡ false) ⊎ (whole_pages base len ≡ true))
        × Publishes s (record { phys_base = base; length = len }) owns_pages [] r)

pub kpmem_create_internal_lem :
    (out mem : Bool) (base len : ℕ) (owns_pages : Bool) (s : Pmems)
    → IsValid s
    → Creates out mem base len owns_pages s (kpmem_create_internal out mem base len owns_pages s)
unfolding kpmem_create_internal
kpmem_create_internal_lem false mem base len owns_pages s v = inl (refl, refl)
kpmem_create_internal_lem true mem base len owns_pages s v =
    elim (Option-cases (kpmem_get_end base len)) [
      | inl wraps ↦ inr (inl (inl wraps, rw wraps refl))
      | inr (end, fits) ↦
          elim (Bool-cases
            (owns_pages && (len == 0 || not (base % 4096 == 0) || not (len % 4096 == 0)))) [
              | inl bad ↦
                  inr (
                    inl (inr (inl (ground (arith, bad), ground (arith, bad))), rw (fits, bad) refl))
              | inr good ↦ elim (Bool-cases mem) [
                | inr full ↦ inr (inl (inr (inr full), rw (fits, good, full) refl))
                | inl room ↦ inr (
                    inr (
                      refl,
                      ground (arith, good),
                      rw (fits, good, room)
                          (published_lem (record { phys_base = base; length = len }) owns_pages [] s
                            v (λ p. refl) refl (λ k. refl) refl),
                    ))
              ]
            ]
    ]

-- The pages go back, or the new record owns them.
abbrev pub AllocEnds : (base len : ℕ) → Pmems → Made × Option ℕ × List (ℕ × ℕ) → Type 0
AllocEnds base len s r =
    ((r.0 ≡ refuse s) × (r.1 ≡ some 0) × (r.2 ≡ (base, len / 4096) ∷ []))
    ⊎ (Publishes s (record { phys_base = base; length = len }) true [] r.0
        × (r.0.1 ≡ true)
        × (r.1 ≡ some len)
        × (r.2 ≡ []))

-- The arguments pass the tests of kpmem_alloc_owned_pages.
abbrev pub Admitted : (out actual_len : Bool) (requested_len : ℕ) → Type 0
Admitted out actual_len requested_len =
    ((out && actual_len) ≡ true) × (0 < requested_len) × (requested_len ≤ 2 ^ 64 - 4096)

abbrev pub Allocates :
    (out actual_len : Bool) (pages : Option ℕ) (requested_len : ℕ)
    → Pmems
    → Made × Option ℕ × List (ℕ × ℕ)
    → Type 0
Allocates out actual_len pages requested_len s r =
    (((out && actual_len) ≡ false) × (r ≡ ((s, false, none), none, [])))
    ⊎ (((requested_len ≡ 0) ⊎ (2 ^ 64 - 4096 < requested_len) ⊎ (pages ≡ none))
        × (r ≡ (refuse s, some 0, [])))
    ⊎ ((base : ℕ) × (pages ≡ some base)
        × Admitted out actual_len requested_len
        × AllocEnds base (rounded requested_len) s r)

-- A record that could not be made gives its pages back.
allocated_cases :
    (base len : ℕ) (s : Pmems) (m : Made)
    → (m ≡ refuse s) ⊎ Publishes s (record { phys_base = base; length = len }) true [] m
    → AllocEnds base len s (allocated base len m)
unfolding allocated
allocated_cases base len s (t, true, w) (inl e) = absurd (ground (arith, ap (λ r. r.1) e))
allocated_cases base len s (t, true, w) (inr p) = inr (p, refl, refl, refl)
allocated_cases base len s (t, false, w) (inl e) = inl (e, refl, refl)
allocated_cases base len s (t, false, w) (inr (inl (spent, e))) = inl (e, refl, refl)
allocated_cases base len s (t, false, w) (inr (inr (more, done, written, g))) =
    absurd (ground (arith, done))

-- kpmem_alloc_owned_pages between any calls: a NULL pointer changes nothing; a length of 0 or that does
-- not fit when rounded up, or no pages, is refused; else either the record could not be made and exactly
-- the allocated pages go back, or it owns the range of whole pages, whose length is written, and none
-- goes back.
pub kpmem_alloc_owned_pages_lem :
    (out actual_len mem : Bool) (pages : Option ℕ) (requested_len : ℕ) (s : Pmems)
    → IsValid s
    → Allocates out actual_len pages requested_len s
        (kpmem_alloc_owned_pages out actual_len mem pages requested_len s)
unfolding kpmem_alloc_owned_pages
kpmem_alloc_owned_pages_lem out actual_len mem pages len s v =
    elim (Bool-cases (not out || not actual_len)) [
      | inl bad ↦ inl (ground (arith, bad), rw bad refl)
      | inr good ↦ elim (Bool-cases (len == 0 || ltb (2 ^ 64 - 1 - 4095) len)) [
        | inl bad ↦ inr (inl (ground (arith, bad), rw (good, bad) refl))
        | inr fits ↦ elim (Option-cases pages) [
          | inl spent ↦ inr (inl (inr (inr spent), rw (good, fits, spent) refl))
          | inr (base, got) ↦
              let answer : kpmem_alloc_owned_pages out actual_len mem pages len s
                  ≡ allocated base (rounded len)
                      (kpmem_create_internal true mem base (rounded len) true s) =
                simp (kpmem_alloc_owned_pages, good, fits, got) in
              let made = kpmem_create_internal true mem base (rounded len) true s in
              let ends : (made ≡ refuse s)
                  ⊎ Publishes s (record { phys_base = base; length = rounded len }) true [] made =
                elim (kpmem_create_internal_lem true mem base (rounded len) true s v) [
                  | inl (bad, e) ↦ absurd (ground (arith, bad))
                  | inr (inl (why, e)) ↦ inl e
                  | inr (inr (is, whole, p)) ↦ inr p
                ] in
              inr (
                inr (
                  base,
                  got,
                  (ground (arith, good), ground (arith, fits), ground (arith, fits)),
                  subst (AllocEnds base (rounded len) s) (sym answer)
                      (allocated_cases base (rounded len) s made ends),
                ))
        ]
      ]
    ]
