-- ===== src/Memory/Spaces.antt =====
-- The range operations as the rest of the kernel uses them.
use mathlib.Core.Option
use sharkix.Common.{
  ℕ, ◌/◌, ◌≡◌, ◌⊎◌, inl, inr, if◌then◌else◌, true, false, Option, none, some, arith, refl, sym,
  subst, ap, ◌∙◌,
}
use sharkix.Memory.{
  AddressSpaces, Answer, accepts, refuses, halts, Page, Outcome, ok, failed, panicked, unfinished,
  rounded, protection, range_allowed, in_pages,
}
use sharkix.Memory.Allowed.{range_allowed_lem}
use sharkix.Memory.Pages.{
  PageTables, address_space_map_range, address_space_unmap_range, address_space_protect_range,
}
use sharkix.Memory.Sweeps.{all_mapped-mapped, Same, fresh_page}
use sharkix.Memory.Ranges.{
  within-in_pages, address_space_map_range_lem, SweepsRange, address_space_unmap_range_lem,
  address_space_protect_range_lem,
}

module _ (tables : PageTables) where
  -- -1 is `none` for those who use the range operations.
  abbrev pub accepted : tables.Space × Outcome → Option tables.Space
  accepted r = elim r.1 [ ok ↦ some r.0 | other ↦ none ]

  accepted-ok :
      (r : tables.Space × Outcome) (t : tables.Space)
      → accepted r ≡ some t
      → (r.1 ≡ Outcome.ok) × (r.0 ≡ t)
  accepted-ok (u, ok) t e = (refl, ground (arith, e))
  accepted-ok (u, failed) t e = absurd (ground (arith, e))
  accepted-ok (u, panicked) t e = absurd (ground (arith, e))
  accepted-ok (u, unfinished) t e = absurd (ground (arith, e))

  -- A mapping can also end the machine.
  abbrev pub answered : tables.Space × Outcome → Answer tables.Space
  answered (u, ok) = accepts u
  answered (u, failed) = refuses
  answered (u, panicked) = halts
  answered (u, unfinished) = refuses

  answered-accepts :
      (r : tables.Space × Outcome) (t : tables.Space)
      → answered r ≡ accepts t
      → (r.1 ≡ Outcome.ok) × (r.0 ≡ t)
  answered-accepts (u, ok) t e = (refl, ground (arith, e))
  answered-accepts (u, failed) t e = absurd (ground (arith, e))
  answered-accepts (u, panicked) t e = absurd (ground (arith, e))
  answered-accepts (u, unfinished) t e = absurd (ground (arith, e))

  -- A mapping that was made, as the rest of the kernel sees it.
  pub map_done :
      (s t : tables.Space) (va pa length flags : ℕ)
      → answered (address_space_map_range tables true va pa length flags s) ≡ accepts t
      → (range_allowed (tables.kernel s) va length ≡ true)
        × ((a : ℕ) → (in_pages va length a ≡ false) ⊎ (tables.page s a ≡ none))
        × Same tables s t
        × ((a : ℕ)
            → tables.page t a ≡ (
                if in_pages va length a
                then some (fresh_page tables va pa flags a)
                else tables.page s a))
  map_done s t va pa length flags e =
      let (good, it) =
        answered-accepts (address_space_map_range tables true va pa length flags s) t e in
      elim (address_space_map_range_lem tables true va pa length flags s) [
        | inl (o, allowed, free, same, pages) ↦ (
          allowed,
          free,
          subst (Same tables s) it same,
          λ a. ap (λ u. tables.page u a) (sym it) ∙ pages a,
        )
        | inr (inl (bad, why, unchanged)) ↦ absurd (ground (arith, good, bad))
        | inr (inr (bad, where_it_stopped)) ↦ absurd (ground (arith, good, bad))
      ]

  pub map_free_range :
      (s : tables.Space) (va length a : ℕ)
      → (in_pages va length a ≡ false) ⊎ (tables.page s a ≡ none)
      → in_pages va length a ≡ true
      → tables.page s a ≡ none
  map_free_range s va length a free inside = ground (arith, free, inside)

  pub sweep_done :
      (f : Option Page → Option Page) (r : tables.Space × Outcome) (s t : tables.Space)
      (va length : ℕ)
      → SweepsRange tables f va length s r
      → accepted r ≡ some t
      → Same tables s t
        × ((a : ℕ)
            → tables.page t a
              ≡ (if in_pages va length a then f (tables.page s a) else tables.page s a))
  sweep_done f r s t va length swept e =
      let (good, it) = accepted-ok r t e in
      elim swept [
        | inl (o, same, pages) ↦
            (subst (Same tables s) it same, λ a. ap (λ u. tables.page u a) (sym it) ∙ pages a)
        | inr (bad, why) ↦ absurd (ground (arith, good, bad))
      ]

  -- A sweep over a range of mapped pages that the tests allow is accepted.
  sweep_accepted :
      (f : Option Page → Option Page) (r : tables.Space × Outcome) (s : tables.Space)
      (va length : ℕ)
      → SweepsRange tables f va length s r
      → range_allowed (tables.kernel s) va length ≡ true
      → ((a : ℕ) → in_pages va length a ≡ true → (p : Page) × (tables.page s a ≡ some p))
      → (t : tables.Space) × (accepted r ≡ some t)
  sweep_accepted f r s va length swept allowed full =
      let (al, pos, top) = range_allowed_lem (tables.kernel s) va length allowed in
      elim swept [
        | inl (o, same, pages) ↦
            (r.0, subst (λ x. (elim x [ ok ↦ some r.0 | other ↦ none ]) ≡ some r.0) (sym o) refl)
        | inr (bad, inl refused) ↦ absurd (ground (arith, allowed, refused))
        | inr (bad, inr hole) ↦
            let all =
              all_mapped-mapped tables (rounded length / 4096) va s al
                (λ a inside. full a (sym (within-in_pages va length a) ∙ ground (arith, inside))) in
            absurd (ground (arith, all, hole))
      ]

  pub unmap_mapped_range :
      (s : tables.Space) (va length : ℕ)
      → range_allowed (tables.kernel s) va length ≡ true
      → ((a : ℕ) → in_pages va length a ≡ true → (p : Page) × (tables.page s a ≡ some p))
      → (t : tables.Space) × (accepted (address_space_unmap_range tables true va length s) ≡ some t)
  unmap_mapped_range s va length allowed full =
      sweep_accepted (λ p. none) (address_space_unmap_range tables true va length s) s va length
        (address_space_unmap_range_lem tables va length s) allowed full

  pub protect_mapped_range :
      (s : tables.Space) (va length flags : ℕ)
      → range_allowed (tables.kernel s) va length ≡ true
      → ((a : ℕ) → in_pages va length a ≡ true → (p : Page) × (tables.page s a ≡ some p))
      → (t : tables.Space) × (accepted (address_space_protect_range tables true va length flags s)
          ≡ some t)
  protect_mapped_range s va length flags allowed full =
      sweep_accepted (Option.map (λ (p : Page). record p { flags = protection flags }))
        (address_space_protect_range tables true va length flags s) s va length
        (address_space_protect_range_lem tables va length flags s) allowed full

  -- The range operations are what the rest of the kernel takes an address space for.
  abbrev pub ranges : AddressSpaces
  ranges = record {
    Space = tables.Space;
    vmoset = tables.vmoset;
    kernel = tables.kernel;
    page = tables.page;
    map_range =
        λ s va pa length flags. answered (address_space_map_range tables true va pa length flags s);
    unmap_range = λ s va length. accepted (address_space_unmap_range tables true va length s);
    protect_range =
        λ s va length flags. accepted (address_space_protect_range tables true va length flags s);
    map_allowed = λ s t va pa length flags e. (map_done s t va pa length flags e).0;
    map_free = λ s t va pa length flags a e inside.
        map_free_range s va length a ((map_done s t va pa length flags e).1 a) inside;
    map_page = λ s t va pa length flags a e. (map_done s t va pa length flags e).3 a;
    map_same = λ s t va pa length flags e. (map_done s t va pa length flags e).2;
    unmap_page = λ s t va length a e.
        (sweep_done (λ p. none) (address_space_unmap_range tables true va length s) s t va length
            (address_space_unmap_range_lem tables va length s) e).1
          a;
    unmap_same = λ s t va length e.
        (sweep_done (λ p. none) (address_space_unmap_range tables true va length s) s t va length
          (address_space_unmap_range_lem tables va length s) e).0;
    unmap_mapped = λ s va length allowed full. unmap_mapped_range s va length allowed full;
    protect_page = λ s t va length flags a e.
        (sweep_done (Option.map (λ (p : Page). record p { flags = protection flags }))
            (address_space_protect_range tables true va length flags s) s t va length
            (address_space_protect_range_lem tables va length flags s) e).1
          a;
    protect_same = λ s t va length flags e.
        (sweep_done (Option.map (λ (p : Page). record p { flags = protection flags }))
          (address_space_protect_range tables true va length flags s) s t va length
          (address_space_protect_range_lem tables va length flags s) e).0;
    protect_mapped =
        λ s va length flags allowed full. protect_mapped_range s va length flags allowed full;
  }
