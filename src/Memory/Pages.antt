-- ===== src/Memory/Pages.antt =====
-- memory.c: the range operations on an address space, over the operations on single pages.
use mathlib.Core.Option
use sharkix.Common.{
  ℕ, zero, suc, ◌+◌, ◌-◌, ◌*◌, ◌/◌, ◌%◌, ◌^◌, ◌≡◌, ◌==◌, ltb, not, bit_and, ◌&&◌, ◌||◌,
  if◌then◌else◌, Bool, true, false, Option, none, some, is_some,
}
use sharkix.Memory.{
  Page, Answer, accepts, refuses, halts, Outcome, ok, failed, panicked, rounded, frame, protection,
  mapping_allowed, range_allowed,
}

abbrev pub address_space_map_owned : ℕ
address_space_map_owned = 2 ^ 48

abbrev pub same_page : (va a : ℕ) → Bool
same_page va a = a / 4096 == va / 4096

-- The page tables of an address space, with the operations on one page; `none` and `refuses` are -1. `page` is the page
-- of a canonical address, and `none` for every other number, which no operation reaches.
pub record PageTables : Type 1 where
  pub Space : Type 0
  pub vmoset : Space → ℕ
  pub kernel : Space → Bool
  pub page : Space → ℕ → Option Page
  -- phys_page_get lets the page pass, or is not called for it: the page is not managed, or its count is
  -- neither 0 nor one of the last two values of 32 bits.
  pub held : Space → (pa : ℕ) → Bool
  pub map_page_internal : Space → (va pa flags : ℕ) → Answer Space
  pub unmap_page_internal : Space → (va : ℕ) → Option Space
  pub protect_page_internal : Space → (va flags : ℕ) → Option Space
  pub page_whole : (s : Space) (a b : ℕ) → same_page a b ≡ true → page s b ≡ page s a
  pub map_one :
      (s t : Space) (va pa flags a : ℕ)
      → map_page_internal s va pa flags ≡ accepts t
      → page t a ≡ (
          if same_page va a
          then some (record { physical = frame pa; flags = protection flags })
          else page s a)
  pub map_one_same :
      (s t : Space) (va pa flags : ℕ)
      → map_page_internal s va pa flags ≡ accepts t
      → (vmoset t ≡ vmoset s) × (kernel t ≡ kernel s)
  pub map_halts :
      (s : Space) (va pa flags : ℕ) → map_page_internal s va pa flags ≡ halts → held s pa ≡ false
  pub unmap_one :
      (s t : Space) (va a : ℕ)
      → unmap_page_internal s va ≡ some t
      → page t a ≡ (if same_page va a then none else page s a)
  pub unmap_one_same :
      (s t : Space) (va : ℕ)
      → unmap_page_internal s va ≡ some t
      → (vmoset t ≡ vmoset s) × (kernel t ≡ kernel s)
  -- A mapped page at an address that mapping_allowed lets pass can be unmapped.
  pub unmap_one_mapped :
      (s : Space) (va : ℕ) (p : Page)
      → mapping_allowed (kernel s) va ≡ true
      → page s va ≡ some p
      → (t : Space) × (unmap_page_internal s va ≡ some t)
  pub protect_one :
      (s t : Space) (va flags a : ℕ)
      → protect_page_internal s va flags ≡ some t
      → page t a ≡ (
          if same_page va a
          then Option.map (λ (p : Page). record p { flags = protection flags }) (page s a)
          else page s a)
  pub protect_one_same :
      (s t : Space) (va flags : ℕ)
      → protect_page_internal s va flags ≡ some t
      → (vmoset t ≡ vmoset s) × (kernel t ≡ kernel s)
  pub protect_one_mapped :
      (s : Space) (va flags : ℕ) (p : Page)
      → mapping_allowed (kernel s) va ≡ true
      → page s va ≡ some p
      → (t : Space) × (protect_page_internal s va flags ≡ some t)

module _ (tables : PageTables) where
  -- The first loop of address_space_map_range: some page_is_mapped.
  unfoldable pub any_mapped : (pages va : ℕ) → tables.Space → Bool
  any_mapped zero va s = false
  any_mapped (suc n) va s = is_some (tables.page s va) || any_mapped n (va + 4096) s

  -- The first loop of address_space_unmap_range and of address_space_protect_range.
  unfoldable pub all_mapped : (pages va : ℕ) → tables.Space → Bool
  all_mapped zero va s = true
  all_mapped (suc n) va s = is_some (tables.page s va) && all_mapped n (va + 4096) s

  -- The loop after `rollback`, with `done` pages below `offset`.
  unfoldable pub rollback : (done va : ℕ) → tables.Space → tables.Space × Outcome
  rollback zero va s = (s, failed)
  rollback (suc done) va s = elim (tables.unmap_page_internal s (va + done * 4096)) [
    | none ↦ (s, panicked)
    | some t ↦ rollback done va t
  ]

  -- The second loop of address_space_map_range.
  unfoldable pub map_pages : (left done va pa flags : ℕ) → tables.Space → tables.Space × Outcome
  unfolding rollback
  map_pages zero done va pa flags s = (s, ok)
  map_pages (suc left) done va pa flags s =
      elim (tables.map_page_internal s (va + done * 4096) (pa + done * 4096) flags) [
        | refuses ↦ rollback done va s
        | halts ↦ (s, panicked)
        | accepts t ↦ map_pages left (suc done) va pa flags t
      ]

  -- The second loop of address_space_unmap_range and of address_space_protect_range, with what they do
  -- to a page.
  unfoldable pub sweep :
      (act : tables.Space → ℕ → Option tables.Space) (left done va : ℕ)
      → tables.Space
      → tables.Space × Outcome
  sweep act zero done va s = (s, ok)
  sweep act (suc left) done va s = elim (act s (va + done * 4096)) [
    | none ↦ (s, panicked)
    | some t ↦ sweep act left (suc done) va t
  ]

  -- `given` says that the address space is not NULL.
  unfoldable pub address_space_map_range :
      (given : Bool) (va pa length flags : ℕ) → tables.Space → tables.Space × Outcome
  address_space_map_range given va pa length flags s =
      if not given
        || not (pa % 4096 == 0)
        || not (range_allowed (tables.kernel s) va length)
        || ltb (2 ^ 64 - 1 - (rounded length - 1)) pa
        || not (bit_and flags address_space_map_owned == 0)
      then (s, failed)
      else if any_mapped (rounded length / 4096) va s
      then (s, failed)
      else map_pages (rounded length / 4096) 0 va pa flags s

  unfoldable pub address_space_unmap_range :
      (given : Bool) (va length : ℕ) → tables.Space → tables.Space × Outcome
  address_space_unmap_range given va length s =
      if not given || not (range_allowed (tables.kernel s) va length)
      then (s, failed)
      else if not (all_mapped (rounded length / 4096) va s)
      then (s, failed)
      else sweep (λ t at. tables.unmap_page_internal t at) (rounded length / 4096) 0 va s

  unfoldable pub address_space_protect_range :
      (given : Bool) (va length flags : ℕ) → tables.Space → tables.Space × Outcome
  address_space_protect_range given va length flags s =
      if not given || not (range_allowed (tables.kernel s) va length)
      then (s, failed)
      else if not (all_mapped (rounded length / 4096) va s)
      then (s, failed)
      else sweep (λ t at. tables.protect_page_internal t at flags) (rounded length / 4096) 0 va s
