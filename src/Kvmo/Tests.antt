-- ===== src/Kvmo/Tests.antt =====
-- kvmo.c at a concrete address space with set 1, and a memory object over four pages.
use sharkix.Common.{
  sym, ◌↔◌, ◌⊎◌, ℕ, ◌≡◌, ◌≢◌, refl, true, false, Option, none, some, [], ◌∷◌, ◌==◌, if◌then◌else◌,
  arith,
}
use sharkix.Table.Laws.{find}
use sharkix.Table.Assoc.{assoc_table}
use sharkix.Pmem.{Range}
use sharkix.Memory.{Outcome, failed, range_allowed, page_range_length, mapping_allowed}
use sharkix.Memory.Pages.{address_space_map_range, any_mapped, map_pages}
use sharkix.Memory.Spaces.{ranges}
use sharkix.Memory.Flat.{FlatSpace, flat}
use sharkix.Kvmo.{VmoSet, Vmos}
use sharkix.Kvmo.Sets.{kvmoset_new, kvmoset_add, add_arguments, meets, change_entries}
use sharkix.Kvmo.View.{view}
use sharkix.Kvmo.Removal.{kvmoset_find_iff}
use sharkix.Kvmo.Mapped.{covers}
use sharkix.Kvmo.Coherent.{Coherent}
use sharkix.Kvmo.Mapping.{Maps}
use sharkix.Kvmo.Unmapping.{names, Gone, kvmo_unmap_exact_lem}
use sharkix.Kvmo.Emptying.{Emptied, kvmoset_unmap_all-Emptied}
use sharkix.Kvmo.Sets.{kvmoset_find}
use sharkix.Kvmo.Maps.{kvmo_unmap_exact, kvmoset_unmap_all, result}
use sharkix.Kvmo.{vmoset_invalid_handle}
use sharkix.Kvmo.Maps.{Result, kvmo_map, kvmo_get, map_target, map_flags}
use sharkix.Kvmo.Objects.{kvmo_init, kvmo_create_from_pmem}
use sharkix.Kvmo.Reach.{Reach, booted, objects, opened, mapped, Together, Reach-Together}

abbrev bare : FlatSpace
bare = record { vmoset = 1; kernel = false; pages = λ n. none; held = λ p. true }

abbrev backing : ℕ → Option Range
backing k = if k == 1 then some (record { phys_base = 0x100000; length = 16384 }) else none

-- A set, and an object that may be mapped, read and written.
abbrev tables : Vmos
tables = (kvmo_create_from_pmem true true 1 7 (kvmoset_new true true kvmo_init).0).0

abbrev state : Result (ranges flat)
state = kvmo_map (ranges flat) true true backing 1 8192 4096 8193 6 tables bare

maps : state.outcome ≡ Outcome.ok
unfolding kvmo_map map_target map_flags kvmo_get kvmoset_add kvmoset_new add_arguments meets
    change_entries kvmo_init kvmo_create_from_pmem address_space_map_range range_allowed
    page_range_length mapping_allowed any_mapped map_pages
maps = refl

tables_reached : Reach (ranges flat) bare tables bare
unfolding kvmo_init
tables_reached = objects true true 1 7 (opened booted (omega arith))

state_reached : Reach (ranges flat) bare state.vmos state.space
state_reached = mapped true true backing 1 8192 4096 8193 6 tables_reached (omega arith)

real_set : 1 ≢ vmoset_invalid_handle
real_set e = absurd (omega (arith, e))

state-Coherent : Coherent (ranges flat) state.vmos state.space
state-Coherent = (Reach-Together (ranges flat) bare real_set state_reached).0

state_set : (ranges flat).vmoset state.space ≡ 1
state_set = (Reach-Together (ranges flat) bare real_set state_reached).1

Reach-Together_example : Together (ranges flat) bare state.vmos state.space
Reach-Together_example = Reach-Together (ranges flat) bare real_set state_reached

kvmo_unmap_exact_lem_example :
    ((names
          (ranges flat)
          true
          false
          1
          8192
          0
          (view ((ranges flat).vmoset state.space) state.vmos 8192)
        ≡ false)
      × (kvmo_unmap_exact (ranges flat) true false 1 8192 0 state.vmos state.space
          ≡ result (ranges flat) state.vmos state.space failed))
    ⊎ ((names
            (ranges flat)
            true
            false
            1
            8192
            0
            (view ((ranges flat).vmoset state.space) state.vmos 8192)
          ≡ true)
        × Gone
            (ranges flat)
            1
            8192
            state.vmos
            state.space
            (kvmo_unmap_exact (ranges flat) true false 1 8192 0 state.vmos state.space))
kvmo_unmap_exact_lem_example =
    kvmo_unmap_exact_lem (ranges flat) true false 1 8192 0 state.vmos state.space state-Coherent

abbrev only_set : VmoSet
only_set = record {
  handle = 1;
  entries =
      (8192, record { virtual_address = 8192; length = 8193; vmo = 1; offset = 4096; rights = 6 })
      ∷ [];
}

only_set_there : find 1 state.vmos.vmosets ≡ some only_set
unfolding kvmo_map map_target map_flags kvmo_get kvmoset_add kvmoset_new add_arguments meets
    change_entries kvmo_init kvmo_create_from_pmem address_space_map_range range_allowed
    page_range_length mapping_allowed any_mapped map_pages
only_set_there = refl

kvmoset_unmap_all-Emptied_example :
    Emptied
      (ranges flat)
      1
      state.space
      (kvmoset_unmap_all (ranges flat) 2 true 1 state.vmos state.space)
kvmoset_unmap_all-Emptied_example =
    kvmoset_unmap_all-Emptied (ranges flat) 2 1 state.vmos state.space only_set state-Coherent
      (sym state_set) real_set only_set_there (omega arith)

kvmoset_find_iff_example :
    (kvmoset_find true 1 16384 state.vmos
      ≡ some (record { virtual_address = 8192; length = 8193; vmo = 1; offset = 4096; rights = 6 }))
    ↔ ((set : VmoSet) × (find 1 state.vmos.vmosets ≡ some set)
        × (find 8192 set.entries
            ≡ some (record {
              virtual_address = 8192;
              length = 8193;
              vmo = 1;
              offset = 4096;
              rights = 6;
            }))
        × (covers
              (record { virtual_address = 8192; length = 8193; vmo = 1; offset = 4096; rights = 6 })
              16384
            ≡ true))
kvmoset_find_iff_example =
    kvmoset_find_iff 1 16384 state.vmos
      (record { virtual_address = 8192; length = 8193; vmo = 1; offset = 4096; rights = 6 })
      state-Coherent.valid
