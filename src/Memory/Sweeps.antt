-- ===== src/Memory/Sweeps.antt =====
-- What the loops of memory.c over the pages of a range do.
use sharkix.Common.{
  ℕ, zero, suc, ◌+◌, ◌-◌, ◌*◌, ◌/◌, ◌%◌, ◌<◌, ◌≡◌, ◌⊎◌, inl, inr, ==_iff, ltb, leb, ◌&&◌,
  if◌then◌else◌, Bool, true, false, Bool-cases, Option-cases, none, some, arith, refl, sym, subst,
  ◌∙◌,
}
use sharkix.Memory.{
  Answer, Answer-cases, accepts, refuses, halts, Outcome, panicked, Page, failed, frame, protection,
  mapping_allowed,
}
use sharkix.Memory.Pages.{PageTables, same_page, any_mapped, all_mapped, rollback, map_pages}

-- The address lies in one of the first `n` pages from `va` on.
abbrev pub within : (n va a : ℕ) → Bool
within n va a = leb va a && ltb a (va + n * 4096)

pub within-suc :
    (n va a : ℕ)
    → va % 4096 ≡ 0
    → within (suc n) va a ≡ (if same_page (va + n * 4096) a then true else within n va a)
within-suc n va a al = elim (Bool-cases (same_page (va + n * 4096) a)) [
  | inl here ↦ rw here (ground (arith, al, here, ==_iff (a / 4096) ((va + n * 4096) / 4096)))
  | inr other ↦ rw other (ground (arith, al, other, ==_iff (a / 4096) ((va + n * 4096) / 4096)))
]

pub within-first :
    (n va a : ℕ)
    → va % 4096 ≡ 0
    → within (suc n) va a ≡ (if same_page va a then true else within n (va + 4096) a)
within-first n va a al = elim (Bool-cases (same_page va a)) [
  | inl here ↦ rw here (ground (arith, al, here, ==_iff (a / 4096) (va / 4096)))
  | inr other ↦ rw other (ground (arith, al, other, ==_iff (a / 4096) (va / 4096)))
]

module _ (tables : PageTables) where
  pub any_mapped_lem :
      (n va a : ℕ) (s : tables.Space)
      → va % 4096 ≡ 0
      → any_mapped tables n va s ≡ false
      → within n va a ≡ true
      → tables.page s a ≡ none
  unfolding any_mapped
  any_mapped_lem zero va a s al clear inside = absurd (ground arith)
  any_mapped_lem (suc n) va a s al clear inside = elim (Bool-cases (same_page va a)) [
    | inl here ↦ elim (Option-cases (tables.page s va)) [
      | inl bare ↦ tables.page_whole s va a here ∙ bare
      | inr (p, at) ↦ absurd (ground (arith, clear, at))
    ]
    | inr other ↦
        any_mapped_lem n (va + 4096) a s (ground (arith, al)) (ground (arith, clear))
          (ground (arith, within-first n va a al, other, inside))
  ]

  pub any_mapped_found :
      (n va : ℕ) (s : tables.Space)
      → any_mapped tables n va s ≡ true
      → (a : ℕ) × (p : Page) × (within n va a ≡ true) × (tables.page s a ≡ some p)
  unfolding any_mapped
  any_mapped_found zero va s some_there = absurd (ground (arith, some_there))
  any_mapped_found (suc n) va s some_there = elim (Option-cases (tables.page s va)) [
    | inr (p, at) ↦ (va, p, ground arith, at)
    | inl bare ↦
        let (a, p, inside, at) =
          any_mapped_found n (va + 4096) s (ground (arith, some_there, bare)) in
        (a, p, ground (arith, inside), at)
  ]

  pub all_mapped_lem :
      (n va a : ℕ) (s : tables.Space)
      → va % 4096 ≡ 0
      → all_mapped tables n va s ≡ true
      → within n va a ≡ true
      → (p : Page) × (tables.page s a ≡ some p)
  unfolding all_mapped
  all_mapped_lem zero va a s al full inside = absurd (ground arith)
  all_mapped_lem (suc n) va a s al full inside = elim (Bool-cases (same_page va a)) [
    | inl here ↦ elim (Option-cases (tables.page s va)) [
      | inl bare ↦ absurd (ground (arith, full, bare))
      | inr (p, at) ↦ (p, tables.page_whole s va a here ∙ at)
    ]
    | inr other ↦
        all_mapped_lem n (va + 4096) a s (ground (arith, al)) (ground (arith, full))
          (ground (arith, within-first n va a al, other, inside))
  ]

  pub all_mapped-mapped :
      (n va : ℕ) (s : tables.Space)
      → va % 4096 ≡ 0
      → ((a : ℕ) → within n va a ≡ true → (p : Page) × (tables.page s a ≡ some p))
      → all_mapped tables n va s ≡ true
  unfolding all_mapped
  all_mapped-mapped zero va s al full = refl
  all_mapped-mapped (suc n) va s al full =
      let (p, at) = full va (ground arith) in
      let rest =
        all_mapped-mapped n (va + 4096) s (ground (arith, al))
          (λ a inside. full a (ground (arith, inside))) in
      rw (at, rest) refl

  -- The address space is the same one.
  abbrev pub Same : (s t : tables.Space) → Type 0
  Same s t = (tables.vmoset t ≡ tables.vmoset s) × (tables.kernel t ≡ tables.kernel s)

  -- mapping_allowed lets the first `n` pages from `va` on pass.
  abbrev pub AllAllowed : (n va : ℕ) → tables.Space → Type 0
  AllAllowed n va s = (i : ℕ) → i < n → mapping_allowed (tables.kernel s) (va + i * 4096) ≡ true

  abbrev pub fresh_page : (va pa flags a : ℕ) → Page
  fresh_page va pa flags a = record {
    physical = frame (pa + (a / 4096 * 4096 - va));
    flags = protection flags;
  }

  -- The first `n` pages have been installed, and no other page has changed.
  abbrev pub Installed : (n va pa flags : ℕ) (s t : tables.Space) → Type 0
  Installed n va pa flags s t =
      Same s t
      × ((a : ℕ)
          → tables.page t a
            ≡ (if within n va a then some (fresh_page va pa flags a) else tables.page s a))

  Installed-suc :
      (n va pa flags : ℕ) (s t u : tables.Space)
      → va % 4096 ≡ 0
      → Installed n va pa flags s t
      → tables.map_page_internal t (va + n * 4096) (pa + n * 4096) flags ≡ accepts u
      → Installed (suc n) va pa flags s u
  Installed-suc n va pa flags s t u al (same, pages) done =
      let (set, kind) = tables.map_one_same t u (va + n * 4096) (pa + n * 4096) flags done in
      (
        (set ∙ same.0, kind ∙ same.1),
        λ a.
            let law = tables.map_one t u (va + n * 4096) (pa + n * 4096) flags a done in
            elim (Bool-cases (same_page (va + n * 4096) a)) [
              | inl here ↦
                  let at : pa + (a / 4096 * 4096 - va) ≡ pa + n * 4096 =
                    ground (arith, al, here, ==_iff (a / 4096) ((va + n * 4096) / 4096)) in
                  law ∙ rw (within-suc n va a al, here, at) refl
              | inr other ↦ law ∙ rw (within-suc n va a al, other) (pages a)
            ],
      )

  -- One step of the rollback.
  Installed-pred :
      (n va pa flags : ℕ) (s t u : tables.Space)
      → va % 4096 ≡ 0
      → ((a : ℕ) → within (suc n) va a ≡ true → tables.page s a ≡ none)
      → Installed (suc n) va pa flags s t
      → tables.unmap_page_internal t (va + n * 4096) ≡ some u
      → Installed n va pa flags s u
  Installed-pred n va pa flags s t u al free (same, pages) undone =
      let (set, kind) = tables.unmap_one_same t u (va + n * 4096) undone in
      (
        (set ∙ same.0, kind ∙ same.1),
        λ a.
            let law = tables.unmap_one t u (va + n * 4096) a undone in
            let grows = within-suc n va a al in
            elim (Bool-cases (same_page (va + n * 4096) a)) [
              | inl here ↦
                  let outside : within n va a ≡ false =
                    ground (arith, al, here, ==_iff (a / 4096) ((va + n * 4096) / 4096)) in
                  let inside : within (suc n) va a ≡ true = ground (arith, grows, here) in
                  law ∙ rw (here, outside) (sym (free a inside))
              | inr other ↦
                  let grows' : within (suc n) va a ≡ within n va a = ground (arith, grows, other) in
                  law ∙ rw other (pages a ∙ rw grows' refl)
            ],
      )

  rollback_lem :
      (n va pa flags : ℕ) (s t : tables.Space)
      → va % 4096 ≡ 0
      → AllAllowed n va s
      → ((a : ℕ) → within n va a ≡ true → tables.page s a ≡ none)
      → Installed n va pa flags s t
      → (u : tables.Space) × (rollback tables n va t ≡ (u, failed))
        × Same s u
        × ((a : ℕ) → tables.page u a ≡ tables.page s a)
  unfolding rollback
  rollback_lem zero va pa flags s t al allowed free (same, pages) = (
    t,
    refl,
    same,
    λ a. let outside : within 0 va a ≡ false = ground arith in pages a ∙ rw outside refl,
  )
  rollback_lem (suc n) va pa flags s t al allowed free (same, pages) =
      let at = va + n * 4096 in
      let ok_at : mapping_allowed (tables.kernel t) at ≡ true =
        subst (λ k. mapping_allowed k at ≡ true) (sym same.1) (allowed n (omega arith)) in
      let top : within (suc n) va at ≡ true = ground arith in
      let (u, undone) =
        tables.unmap_one_mapped t at (fresh_page va pa flags at) ok_at (pages at ∙ rw top refl) in
      let (v, out, same', pages') =
        rollback_lem n va pa flags s u al (λ i b. allowed i (omega (arith, b)))
          (λ a inside. free a (ground (arith, inside)))
          (Installed-pred n va pa flags s t u al free (same, pages) undone) in
      let step : rollback tables (suc n) va t ≡ rollback tables n va u = simp (rollback, undone) in
      (v, step ∙ out, same', pages')

  -- With fewer than `m` pages installed, map_page_internal gave that answer for the next one.
  abbrev pub Stops :
      (m va pa flags : ℕ) (s w : tables.Space) (answer : Answer tables.Space) → Type 0
  Stops m va pa flags s w answer =
      (k : ℕ) × (k < m)
      × Installed k va pa flags s w
      × (tables.map_page_internal w (va + k * 4096) (pa + k * 4096) flags ≡ answer)

  -- How the second loop of address_space_map_range may end for `m` pages: all are installed; one was
  -- refused, and all pages are as they were; or the machine halted at one.
  abbrev pub MapsPages : (m va pa flags : ℕ) (s : tables.Space) → tables.Space × Outcome → Type 0
  MapsPages m va pa flags s r =
      ((r.1 ≡ Outcome.ok) × Installed m va pa flags s r.0)
      ⊎ ((r.1 ≡ Outcome.failed)
          × ((w : tables.Space) × Stops m va pa flags s w refuses)
          × Same s r.0
          × ((a : ℕ) → tables.page r.0 a ≡ tables.page s a))
      ⊎ ((r.1 ≡ Outcome.panicked) × Stops m va pa flags s r.0 halts)

  pub map_pages_lem :
      (left n va pa flags : ℕ) (s t : tables.Space)
      → va % 4096 ≡ 0
      → AllAllowed (n + left) va s
      → ((a : ℕ) → within (n + left) va a ≡ true → tables.page s a ≡ none)
      → Installed n va pa flags s t
      → MapsPages (n + left) va pa flags s (map_pages tables left n va pa flags t)
  unfolding map_pages
  map_pages_lem zero n va pa flags s t al allowed free i =
      inl (refl, subst (λ k. Installed k va pa flags s t) (omega arith) i)
  map_pages_lem (suc left) n va pa flags s t al allowed free i =
      let Goal = MapsPages (n + suc left) va pa flags s in
      elim (Answer-cases (tables.map_page_internal t (va + n * 4096) (pa + n * 4096) flags)) [
        | inr (inl full) ↦
            let (u, out, same, pages) =
              rollback_lem n va pa flags s t al (λ j b. allowed j (omega (arith, b)))
                (λ a inside. free a (ground (arith, inside))) i in
            let step : map_pages tables (suc left) n va pa flags t ≡ rollback tables n va t =
              simp (map_pages, full) in
            subst Goal (sym (step ∙ out))
              (inr (inl (refl, (t, (n, omega arith, i, full)), same, pages)))
        | inr (inr bad) ↦
            let step : map_pages tables (suc left) n va pa flags t ≡ (t, panicked) =
              simp (map_pages, bad) in
            subst Goal (sym step) (inr (inr (refl, (n, omega arith, i, bad))))
        | inl (w, done) ↦
            let same_count : n + suc left ≡ suc n + left = omega arith in
            let step : map_pages tables (suc left) n va pa flags t
                ≡ map_pages tables left (suc n) va pa flags w =
              simp (map_pages, done) in
            subst Goal (sym step) (
              subst (λ m. MapsPages m va pa flags s (map_pages tables left (suc n) va pa flags w))
                (sym same_count)
                (map_pages_lem left (suc n) va pa flags s w al
                  (subst (λ k. AllAllowed k va s) same_count allowed)
                  (subst (λ k. (a : ℕ) → within k va a ≡ true → tables.page s a ≡ none) same_count
                    free)
                  (Installed-suc n va pa flags s t w al i done)))
      ]
