-- ===== src/Memory.antt =====
-- src/kernel/core/memory.c and include/sharkix/kernel/memory.h: address spaces, as the rest of the kernel
-- uses them.
pub mod Allowed
pub mod Pages
pub mod Sweeps
pub mod Passes
pub mod Ranges
pub mod Spaces
pub mod Flat
pub mod Tests
use sharkix.Common.{
  ◌⊎◌, inl, inr, refl, ℕ, ◌+◌, ◌*◌, ◌/◌, ◌%◌, ◌^◌, ◌≤◌, ◌<◌, ◌≡◌, ◌-◌, ltb, leb, ◌==◌, not, bit_and,
  ◌&&◌, if◌then◌else◌, Bool, true, false, Option, none, some,
}
use mathlib.Core.Option

abbrev pub page_size : ℕ
page_size = 4096

abbrev pub physmap_base : ℕ
physmap_base = 0xffff800000000000

abbrev pub user_canonical_top : ℕ
user_canonical_top = 2 ^ 47

-- The length in whole pages, as page_range_length gives it.
abbrev pub rounded : ℕ → ℕ
rounded length = (length + 4095) / 4096 * 4096

-- The address lies in one of the pages of the range.
abbrev pub in_pages : (va length a : ℕ) → Bool
in_pages va length a = leb va a && ltb a (va + rounded length)

-- `pa & PAGE_ADDR_MASK`, bits 12 to 51.
abbrev pub frame : ℕ → ℕ
frame pa = pa / 4096 % 2 ^ 40 * 4096

abbrev pub page_present : ℕ
page_present = 1

abbrev pub page_writable : ℕ
page_writable = 2

abbrev pub page_user : ℕ
page_user = 4

abbrev pub page_nx : ℕ
page_nx = 2 ^ 63

-- `flags & (PAGE_WRITABLE | PAGE_USER | PAGE_NX)`
abbrev pub protection : ℕ → ℕ
protection flags = bit_and flags (page_writable + page_user + page_nx)

-- 0, -1, memory_panic, and no result within the fuel.
pub data Outcome : Type 0 where
  ok failed panicked unfinished : Outcome

-- 0 with what it leaves, -1, or memory_panic.
pub data Answer (A : Type 0) : Type 0 where
  accepts : A → Answer A
  refuses : Answer A
  halts : Answer A

pub Answer-cases :
    {A : Type 0} (x : Answer A) → ((a : A) × (x ≡ accepts a)) ⊎ (x ≡ refuses) ⊎ (x ≡ halts)
Answer-cases (accepts a) = inl (a, refl)
Answer-cases refuses = inr (inl refl)
Answer-cases halts = inr (inr refl)

-- What the entry of a mapped page says: its physical address and its protection bits.
pub record Page : Type 0 where
  pub physical : ℕ
  pub flags : ℕ

-- `kernel_region` says that the address space is address_space_kernel().
unfoldable pub mapping_allowed : (kernel_region : Bool) (va : ℕ) → Bool
mapping_allowed kernel_region va =
    if not (va % 4096 == 0)
    then false
    else if kernel_region
    then leb physmap_base va
    else ltb va user_canonical_top

-- `none` is false. `x & ~(PAGE_SIZE - 1)` is x / 4096 * 4096.
unfoldable pub page_range_length : ℕ → Option ℕ
page_range_length length =
    if length == 0
    then none
    else if ltb (2 ^ 64 - 1 - 4095) length
    then none
    else some (rounded length)

-- The tests on the virtual range that the three range operations share.
unfoldable pub range_allowed : (kernel_region : Bool) (va length : ℕ) → Bool
unfolding mapping_allowed page_range_length
range_allowed kernel_region va length =
    if not (va % 4096 == 0) then false else elim (page_range_length length) [
      | none ↦ false
      | some bytes ↦
          if ltb (2 ^ 64 - 1 - (bytes - 1)) va
          then false
          else mapping_allowed kernel_region va
            && mapping_allowed kernel_region ((va + bytes - 4096) % 2 ^ 64)
    ]

-- Address spaces with their range operations; `none` and `refuses` are -1, with all pages as they were.
-- map_range halts where phys_page_get panics. `page` is the
-- page of an address.
pub record AddressSpaces : Type 1 where
  pub Space : Type 0
  pub vmoset : Space → ℕ
  pub kernel : Space → Bool
  pub page : Space → ℕ → Option Page
  pub map_range : Space → (va pa length flags : ℕ) → Answer Space
  pub unmap_range : Space → (va length : ℕ) → Option Space
  pub protect_range : Space → (va length flags : ℕ) → Option Space
  pub map_allowed :
      (s t : Space) (va pa length flags : ℕ)
      → map_range s va pa length flags ≡ accepts t
      → range_allowed (kernel s) va length ≡ true
  pub map_free :
      (s t : Space) (va pa length flags a : ℕ)
      → map_range s va pa length flags ≡ accepts t
      → in_pages va length a ≡ true
      → page s a ≡ none
  pub map_page :
      (s t : Space) (va pa length flags a : ℕ)
      → map_range s va pa length flags ≡ accepts t
      → page t a ≡ (
          if in_pages va length a
          then some
              (record { physical = frame (pa + (a / 4096 * 4096 - va)); flags = protection flags })
          else page s a)
  pub map_same :
      (s t : Space) (va pa length flags : ℕ)
      → map_range s va pa length flags ≡ accepts t
      → (vmoset t ≡ vmoset s) × (kernel t ≡ kernel s)
  pub unmap_page :
      (s t : Space) (va length a : ℕ)
      → unmap_range s va length ≡ some t
      → page t a ≡ (if in_pages va length a then none else page s a)
  pub unmap_same :
      (s t : Space) (va length : ℕ)
      → unmap_range s va length ≡ some t
      → (vmoset t ≡ vmoset s) × (kernel t ≡ kernel s)
  -- A range of mapped pages that the tests allow can be unmapped.
  pub unmap_mapped :
      (s : Space) (va length : ℕ)
      → range_allowed (kernel s) va length ≡ true
      → ((a : ℕ) → in_pages va length a ≡ true → (p : Page) × (page s a ≡ some p))
      → (t : Space) × (unmap_range s va length ≡ some t)
  pub protect_page :
      (s t : Space) (va length flags a : ℕ)
      → protect_range s va length flags ≡ some t
      → page t a ≡ (
          if in_pages va length a
          then Option.map (λ (p : Page). record p { flags = protection flags }) (page s a)
          else page s a)
  pub protect_same :
      (s t : Space) (va length flags : ℕ)
      → protect_range s va length flags ≡ some t
      → (vmoset t ≡ vmoset s) × (kernel t ≡ kernel s)
  -- And so can its protection be changed.
  pub protect_mapped :
      (s : Space) (va length flags : ℕ)
      → range_allowed (kernel s) va length ≡ true
      → ((a : ℕ) → in_pages va length a ≡ true → (p : Page) × (page s a ≡ some p))
      → (t : Space) × (protect_range s va length flags ≡ some t)
