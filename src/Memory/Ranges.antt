-- ===== src/Memory/Ranges.antt =====
-- What the range operations of memory.c do to the pages of a range.
use mathlib.Core.Option
use sharkix.Common.{
  ==_iff, ◌<◌, ◌≢◌, ℕ, ◌+◌, ◌-◌, ◌*◌, ◌/◌, ◌%◌, ◌^◌, ◌≡◌, ◌⊎◌, inl, inr, ◌==◌, ltb, leb, not,
  bit_and, ◌&&◌, ◌||◌, if◌then◌else◌, Bool, true, false, Bool-cases, Option, none, some, arith,
  refl, sym, subst, ap, ◌∙◌,
}
use sharkix.Memory.{
  refuses, panicked, Page, Outcome, failed, rounded, protection, range_allowed, in_pages,
}
use sharkix.Memory.Allowed.{range_allowed_lem, range_allowed-mapping_allowed}
use sharkix.Memory.Pages.{
  PageTables, any_mapped, all_mapped, map_pages, sweep, address_space_map_owned,
  address_space_map_range, address_space_unmap_range, address_space_protect_range,
}
use sharkix.Memory.Sweeps.{
  within, any_mapped_lem, any_mapped_found, all_mapped_lem, Same, fresh_page, Installed, Stops,
  map_pages_lem,
}
use sharkix.Memory.Passes.{Acts, sweep_lem}

pub within-in_pages :
    (va length a : ℕ) → within (0 + rounded length / 4096) va a ≡ in_pages va length a
within-in_pages va length a =
    let whole : (0 + rounded length / 4096) * 4096 ≡ rounded length = omega arith in
    ap (λ k. leb va a && ltb a (va + k)) whole

module _ (tables : PageTables) where
  unmap_Acts : Acts tables (λ t at. tables.unmap_page_internal t at) (λ p. none)
  unmap_Acts = record {
    one = λ s t va a done. tables.unmap_one s t va a done;
    one_same = λ s t va done. tables.unmap_one_same s t va done;
    one_mapped = λ s va p allowed at. tables.unmap_one_mapped s va p allowed at;
  }

  protect_Acts :
      (flags : ℕ)
      → Acts tables
          (λ t at. tables.protect_page_internal t at flags)
          (Option.map (λ (p : Page). record p { flags = protection flags }))
  protect_Acts flags = record {
    one = λ s t va a done. tables.protect_one s t va flags a done;
    one_same = λ s t va done. tables.protect_one_same s t va flags done;
    one_mapped = λ s va p allowed at. tables.protect_one_mapped s va flags p allowed at;
  }

  -- All pages as they were, in the same address space.
  abbrev pub Unchanged : (s t : tables.Space) → Type 0
  Unchanged s t = Same tables s t × ((a : ℕ) → tables.page t a ≡ tables.page s a)

  -- Why address_space_map_range refuses: an argument, a page of the range that is mapped, or
  -- map_page_internal, for a page of the range after those before it.
  abbrev pub Unmappable : (given : Bool) (va pa length flags : ℕ) → tables.Space → Type 0
  Unmappable given va pa length flags s =
      (given ≡ false)
      ⊎ (pa % 4096 ≢ 0)
      ⊎ (range_allowed (tables.kernel s) va length ≡ false)
      ⊎ (2 ^ 64 - 1 - (rounded length - 1) < pa)
      ⊎ (bit_and flags address_space_map_owned ≢ 0)
      ⊎ ((a : ℕ) × (p : Page) × (in_pages va length a ≡ true) × (tables.page s a ≡ some p))
      ⊎ ((w : tables.Space) × Stops tables (rounded length / 4096) va pa flags s w refuses)

  -- What mapping a range did: 0 and exactly its pages are new, all free before; or -1, and nothing; or
  -- memory_panic, at a page of the physical range that phys_page_get does not let pass.
  abbrev pub MapsRange :
      (given : Bool) (va pa length flags : ℕ) → tables.Space → tables.Space × Outcome → Type 0
  MapsRange given va pa length flags s r =
      ((r.1 ≡ Outcome.ok)
        × (range_allowed (tables.kernel s) va length ≡ true)
        × ((a : ℕ) → (in_pages va length a ≡ false) ⊎ (tables.page s a ≡ none))
        × Same tables s r.0
        × ((a : ℕ)
            → tables.page r.0 a ≡ (
                if in_pages va length a
                then some (fresh_page tables va pa flags a)
                else tables.page s a)))
      ⊎ ((r.1 ≡ failed) × Unmappable given va pa length flags s × Unchanged s r.0)
      ⊎ ((r.1 ≡ panicked)
          × ((k : ℕ) × (k < rounded length / 4096)
              × Installed tables k va pa flags s r.0
              × (tables.held r.0 (pa + k * 4096) ≡ false)))

  refused_range :
      (given : Bool) (va pa length flags : ℕ) (s : tables.Space)
      → (not given
          || not (pa % 4096 == 0)
          || not (range_allowed (tables.kernel s) va length)
          || ltb (2 ^ 64 - 1 - (rounded length - 1)) pa
          || not (bit_and flags address_space_map_owned == 0))
        ≡ true
      → Unmappable given va pa length flags s
  refused_range given va pa length flags s bad = elim (Bool-cases given) [
    | inr null ↦ inl null
    | inl real ↦ elim (Bool-cases (pa % 4096 == 0)) [
      | inr off ↦ inr (inl (ground (arith, off, ==_iff (pa % 4096) 0)))
      | inl whole ↦ elim (Bool-cases (range_allowed (tables.kernel s) va length)) [
        | inr outside ↦ inr (inr (inl outside))
        | inl inside ↦ elim (Bool-cases (ltb (2 ^ 64 - 1 - (rounded length - 1)) pa)) [
          | inl wraps ↦ inr (inr (inr (inl (ground (arith, wraps)))))
          | inr fits ↦ inr (
              inr (
                inr (
                  inr (
                    inl (
                      ground (
                        arith,
                        bad,
                        real,
                        whole,
                        inside,
                        fits,
                        ==_iff (bit_and flags address_space_map_owned) 0,
                      ))))))
        ]
      ]
    ]
  ]

  pub address_space_map_range_lem :
      (given : Bool) (va pa length flags : ℕ) (s : tables.Space)
      → MapsRange given va pa length flags s
          (address_space_map_range tables given va pa length flags s)
  unfolding address_space_map_range
  address_space_map_range_lem given va pa length flags s =
      let n = rounded length / 4096 in
      let unchanged : Unchanged s s = ((refl, refl), λ a. refl) in
      elim (Bool-cases (
        not given
        || not (pa % 4096 == 0)
        || not (range_allowed (tables.kernel s) va length)
        || ltb (2 ^ 64 - 1 - (rounded length - 1)) pa
        || not (bit_and flags address_space_map_owned == 0))) [
          | inl bad ↦
              let why = refused_range given va pa length flags s bad in
              rw bad (inr (inl (refl, why, unchanged)))
          | inr good ↦ elim (Bool-cases (any_mapped tables n va s)) [
            | inl taken ↦
                let (a, p, inside, at) = any_mapped_found tables n va s taken in
                let here : in_pages va length a ≡ true =
                  sym (within-in_pages va length a) ∙ ground (arith, inside) in
                rw (good, taken)
                  (inr (inl (refl, inr (inr (inr (inr (inr (inl (a, p, here, at)))))), unchanged)))
            | inr clear ↦
                let allowed : range_allowed (tables.kernel s) va length ≡ true =
                  ground (arith, good) in
                let (al, pos, top) = range_allowed_lem (tables.kernel s) va length allowed in
                let free = λ (a : ℕ) (inside : within (0 + n) va a ≡ true).
                  any_mapped_lem tables n va a s al clear (ground (arith, inside)) in
                let out : address_space_map_range tables given va pa length flags s
                    ≡ map_pages tables n 0 va pa flags s =
                  simp (address_space_map_range, good, clear) in
                subst (MapsRange given va pa length flags s) (sym out)
                  (elim (map_pages_lem tables n 0 va pa flags s s al
                    (λ i b.
                      range_allowed-mapping_allowed (tables.kernel s) va length i allowed
                        (omega (arith, b)))
                    free
                    (
                      (refl, refl),
                      λ a. let outside : within 0 va a ≡ false = ground arith in rw outside refl,
                    )) [
                      | inl (done, (same, pages)) ↦ inl (
                        done,
                        allowed,
                        (λ a. elim (Bool-cases (in_pages va length a)) [
                          | inl inside ↦ inr (free a (within-in_pages va length a ∙ inside))
                          | inr outside ↦ inl outside
                        ]),
                        same,
                        λ a.
                            pages a
                            ∙ ap
                                (λ b.
                                  if b
                                  then some (fresh_page tables va pa flags a)
                                  else tables.page s a)
                                (within-in_pages va length a),
                      )
                      | inr (inl (done, (w, (k, below, before, full)), same, pages)) ↦
                          let why : (w : tables.Space) × Stops tables n va pa flags s w refuses =
                            (w, (k, omega (arith, below), before, full)) in
                          inr (inl (done, inr (inr (inr (inr (inr (inr why))))), (same, pages)))
                      | inr (inr (done, (k, below, before, bad))) ↦
                          let u = (map_pages tables n 0 va pa flags s).0 in
                          let free_page =
                            tables.map_halts u (va + k * 4096) (pa + k * 4096) flags bad in
                          inr (inr (done, (k, omega (arith, below), before, free_page)))
                    ])
          ]
        ]

  -- What a sweep over a range did: 0 and exactly its pages changed, all mapped before; or -1 and nothing,
  -- for a range that the tests refuse or that has a hole.
  abbrev pub SweepsRange :
      (f : Option Page → Option Page) (va length : ℕ)
      → tables.Space
      → tables.Space × Outcome
      → Type 0
  SweepsRange f va length s r =
      ((r.1 ≡ Outcome.ok)
        × Same tables s r.0
        × ((a : ℕ)
            → tables.page r.0 a
              ≡ (if in_pages va length a then f (tables.page s a) else tables.page s a)))
      ⊎ ((r ≡ (s, failed))
          × ((range_allowed (tables.kernel s) va length ≡ false)
              ⊎ (all_mapped tables (rounded length / 4096) va s ≡ false)))

  swept_range :
      (act : tables.Space → ℕ → Option tables.Space) (f : Option Page → Option Page) (va length : ℕ)
      (s : tables.Space)
      → Acts tables act f
      → range_allowed (tables.kernel s) va length ≡ true
      → all_mapped tables (rounded length / 4096) va s ≡ true
      → SweepsRange f va length s (sweep tables act (rounded length / 4096) 0 va s)
  swept_range act f va length s acts allowed full =
      let n = rounded length / 4096 in
      let (al, pos, top) = range_allowed_lem (tables.kernel s) va length allowed in
      let (u, out, (same, pages)) =
        sweep_lem tables act f n 0 va s s acts al
          (λ i b.
            range_allowed-mapping_allowed (tables.kernel s) va length i allowed (omega (arith, b)))
          (λ a inside. all_mapped_lem tables n va a s al full (ground (arith, inside)))
          (
            (refl, refl),
            λ a. let outside : within 0 va a ≡ false = ground arith in rw outside refl,
          ) in
      subst (SweepsRange f va length s) (sym out) (
        inl (
          refl,
          same,
          λ a.
              pages a
              ∙ ap (λ b. if b then f (tables.page s a) else tables.page s a)
                  (within-in_pages va length a),
        ))

  pub address_space_unmap_range_lem :
      (va length : ℕ) (s : tables.Space)
      → SweepsRange (λ p. none) va length s (address_space_unmap_range tables true va length s)
  unfolding address_space_unmap_range
  address_space_unmap_range_lem va length s =
      elim (Bool-cases (range_allowed (tables.kernel s) va length)) [
        | inr bad ↦ rw bad (inr (refl, inl refl))
        | inl allowed ↦ elim (Bool-cases (all_mapped tables (rounded length / 4096) va s)) [
          | inr hole ↦ rw (allowed, hole) (inr (refl, inr refl))
          | inl full ↦
              let out : address_space_unmap_range tables true va length s
                  ≡ sweep tables (λ t at. tables.unmap_page_internal t at) (rounded length / 4096) 0
                      va s =
                simp (address_space_unmap_range, allowed, full) in
              subst (SweepsRange (λ p. none) va length s) (sym out)
                (swept_range _ (λ p. none) va length s unmap_Acts allowed full)
        ]
      ]

  pub address_space_protect_range_lem :
      (va length flags : ℕ) (s : tables.Space)
      → SweepsRange
          (Option.map (λ (p : Page). record p { flags = protection flags }))
          va
          length
          s
          (address_space_protect_range tables true va length flags s)
  unfolding address_space_protect_range
  address_space_protect_range_lem va length flags s =
      elim (Bool-cases (range_allowed (tables.kernel s) va length)) [
        | inr bad ↦ rw bad (inr (refl, inl refl))
        | inl allowed ↦ elim (Bool-cases (all_mapped tables (rounded length / 4096) va s)) [
          | inr hole ↦ rw (allowed, hole) (inr (refl, inr refl))
          | inl full ↦
              let f = Option.map (λ (p : Page). record p { flags = protection flags }) in
              let out : address_space_protect_range tables true va length flags s
                  ≡ sweep tables (λ t at. tables.protect_page_internal t at flags)
                      (rounded length / 4096) 0 va s =
                simp (address_space_protect_range, allowed, full) in
              subst (SweepsRange f va length s) (sym out)
                (swept_range _ f va length s (protect_Acts flags) allowed full)
        ]
      ]
