-- ===== src/Memory/Passes.antt =====
-- The loops of memory.c that unmap or protect each page of a range.
use sharkix.Common.{
  ℕ, zero, suc, ◌+◌, ◌*◌, ◌/◌, ◌%◌, ◌≡◌, inl, inr, ==_iff, if◌then◌else◌, true, false, Bool-cases,
  Option, some, arith, refl, sym, subst, ap, ◌∙◌,
}
use sharkix.Memory.{Page, ok, mapping_allowed}
use sharkix.Memory.Pages.{PageTables, same_page, sweep}
use sharkix.Memory.Sweeps.{within, within-suc, Same, AllAllowed}

module _ (tables : PageTables) where
  -- The first `n` pages have been treated, and no other.
  abbrev pub Swept : (f : Option Page → Option Page) (n va : ℕ) (s t : tables.Space) → Type 0
  Swept f n va s t =
      Same tables s t
      × ((a : ℕ)
          → tables.page t a ≡ (if within n va a then f (tables.page s a) else tables.page s a))

  -- What a sweep needs of an operation on a page.
  pub record Acts (act : tables.Space → ℕ → Option tables.Space) (f : Option Page → Option Page)
      : Type 0 where
    pub one :
        (s t : tables.Space) (va a : ℕ)
        → act s va ≡ some t
        → tables.page t a ≡ (if same_page va a then f (tables.page s a) else tables.page s a)
    pub one_same : (s t : tables.Space) (va : ℕ) → act s va ≡ some t → Same tables s t
    pub one_mapped :
        (s : tables.Space) (va : ℕ) (p : Page)
        → mapping_allowed (tables.kernel s) va ≡ true
        → tables.page s va ≡ some p
        → (t : tables.Space) × (act s va ≡ some t)

  Swept-suc :
      (act : tables.Space → ℕ → Option tables.Space) (f : Option Page → Option Page) (n va : ℕ)
      (s t u : tables.Space)
      → Acts act f
      → va % 4096 ≡ 0
      → Swept f n va s t
      → act t (va + n * 4096) ≡ some u
      → Swept f (suc n) va s u
  Swept-suc act f n va s t u acts al (same, pages) done =
      let (set, kind) = acts.one_same t u (va + n * 4096) done in
      (
        (set ∙ same.0, kind ∙ same.1),
        λ a.
            let law = acts.one t u (va + n * 4096) a done in
            elim (Bool-cases (same_page (va + n * 4096) a)) [
              | inl here ↦
                  let outside : within n va a ≡ false =
                    ground (arith, al, here, ==_iff (a / 4096) ((va + n * 4096) / 4096)) in
                  law ∙ rw (within-suc n va a al, here) (ap f (pages a ∙ rw outside refl))
              | inr other ↦ law ∙ rw (within-suc n va a al, other) (pages a)
            ],
      )

  -- The second loop of address_space_unmap_range and address_space_protect_range treats all pages.
  pub sweep_lem :
      (act : tables.Space → ℕ → Option tables.Space) (f : Option Page → Option Page) (left n va : ℕ)
      (s t : tables.Space)
      → Acts act f
      → va % 4096 ≡ 0
      → AllAllowed tables (n + left) va s
      → ((a : ℕ) → within (n + left) va a ≡ true → (p : Page) × (tables.page s a ≡ some p))
      → Swept f n va s t
      → (u : tables.Space) × (sweep tables act left n va t ≡ (u, ok)) × Swept f (n + left) va s u
  unfolding sweep
  sweep_lem act f zero n va s t acts al allowed full i =
      (t, refl, subst (λ k. Swept f k va s t) (omega arith) i)
  sweep_lem act f (suc left) n va s t acts al allowed full (same, pages) =
      let at = va + n * 4096 in
      let outside : within n va at ≡ false = ground arith in
      let (p, there) = full at (ground arith) in
      let ok_at : mapping_allowed (tables.kernel t) at ≡ true =
        subst (λ k. mapping_allowed k at ≡ true) (sym same.1) (allowed n (omega arith)) in
      let (w, done) = acts.one_mapped t at p ok_at (pages at ∙ rw outside there) in
      let same_count : n + suc left ≡ suc n + left = omega arith in
      let step : sweep tables act (suc left) n va t ≡ sweep tables act left (suc n) va w =
        simp (sweep, done) in
      let (u, out, all) =
        sweep_lem act f left (suc n) va s w acts al
          (subst (λ k. AllAllowed tables k va s) same_count allowed)
          (subst (λ k. (a : ℕ) → within k va a ≡ true → (q : Page) × (tables.page s a ≡ some q))
            same_count full)
          (Swept-suc act f n va s t w acts al (same, pages) done) in
      (u, step ∙ out, subst (λ k. Swept f k va s u) (sym same_count) all)
