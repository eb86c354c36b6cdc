-- ===== src/Kvmo.antt =====
-- src/kernel/subsystems/kvmo.c and include/sharkix/kernel/subsystems/kvmo.h: memory objects, and the
-- sets of their mappings.
pub mod Sets
pub mod Mapped
pub mod Lookups
pub mod View
pub mod Refinement
pub mod Removal
pub mod Maps
pub mod Objects
pub mod Lifetime
pub mod Anonymous
pub mod Elsewhere
pub mod Reach
pub mod Tests
pub mod Coherent
pub mod Targets
pub mod Mapping
pub mod Unmapping
pub mod Emptying
pub mod Permissions
pub mod Protection
use sharkix.Common.{
  ℕ, ◌+◌, ◌-◌, ◌%◌, ◌/◌, ◌*◌, ◌^◌, ◌==◌, if◌then◌else◌, Bool, true, false, Option, none, some, List,
  [], ◌∷◌, bit_and, bit_not,
}
use sharkix.Table.{UtHash}
use sharkix.Table.Laws.{Table, find}

abbrev pub vmo_invalid_handle : ℕ
vmo_invalid_handle = 2 ^ 64 - 1

abbrev pub vmoset_invalid_handle : ℕ
vmoset_invalid_handle = 2 ^ 64 - 1

-- VMO_MAP, VMO_READ, VMO_WRITE and VMO_EXEC are 1, 2, 4 and 8.
abbrev pub vmo_map_right : ℕ
vmo_map_right = 1

abbrev pub vmo_read : ℕ
vmo_read = 2

abbrev pub vmo_write : ℕ
vmo_write = 4

abbrev pub vmo_exec : ℕ
vmo_exec = 8

abbrev pub vmo_valid_rights : ℕ
vmo_valid_rights = 15

-- VMO_READ | VMO_WRITE | VMO_EXEC
abbrev pub page_rights : ℕ
page_rights = 14

-- `!(rights & ~allowed)`
abbrev pub subset : (rights allowed : ℕ) → Bool
subset rights allowed = bit_and rights (bit_not allowed) == 0

-- vmo_t; kvmo_create_from_pmem leaves `owns_pmem` as kmalloc gave it, which is `none` here.
pub record Vmo : Type 0 where
  pub handle : ℕ
  pub rights : ℕ
  pub pmem : ℕ
  pub owns_pmem : Option Bool

-- vmoset_entry_t
pub record VmoEntry : Type 0 where
  pub virtual_address : ℕ
  pub length : ℕ
  pub vmo : ℕ
  pub offset : ℕ
  pub rights : ℕ

module _ ⦃h : UtHash⦄ where
  -- vmoset_t; the key of an entry is its virtual address.
  pub record VmoSet : Type 0 where
    pub handle : ℕ
    pub entries : Table VmoEntry

  -- The static variables of kvmo.c.
  pub record Vmos : Type 0 where
    pub vmos : Table Vmo
    pub vmosets : Table VmoSet
    pub next_vmo_handle : ℕ
    pub next_vmoset_handle : ℕ

  abbrev pub kvmo_lookup_locked : ℕ → Vmos → Option Vmo
  kvmo_lookup_locked handle s = find handle s.vmos

  abbrev pub vmoset_lookup_locked : ℕ → Vmos → Option VmoSet
  vmoset_lookup_locked handle s = find handle s.vmosets
