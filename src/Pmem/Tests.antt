-- ===== src/Pmem/Tests.antt =====
-- Concrete ranges of kpmem.c.
use sharkix.Common.{◌↔◌, List, [], ◌∷◌, true, false, assoc, ◌≡◌, some, arith, refl}
use sharkix.Pmem.{Range, derive_range, merge_range, join_range, kpmem_get_end}
use sharkix.Pmem.Objects.{
  Pmem, Pmems, kpmem_init, kpmem_create_internal, kpmem_alloc_owned_pages, kpmem_derive,
  kpmem_merge, kpmem_destroy, kpmem_find_locked, kpmem_insert_locked, kpmem_release_locked,
  release_parents, drain, for_parents, published, allocated,
}
use sharkix.Pmem.Runs.{Call, step, run, run-kpmem_init-IsValid, run-kept_iff}
use sharkix.Pmem.Valid.{IsValid}
use sharkix.Pmem.Lifetime.{Live}
use sharkix.Pmem.Deriving.{Derives, kpmem_derive_lem}
use sharkix.Pmem.Calls.{Merged, kpmem_merge_lem}
use sharkix.Pmem.Owned.{Allocates, kpmem_alloc_owned_pages_lem}
use sharkix.Pmem.Destroy.{Destroys, unlisted, kpmem_destroy_lem, kpmem_destroy-kept_iff}
use sharkix.Pmem.Ranges.{Merges, merge_range-Merges}

abbrev low : Range
low = record { phys_base = 4096; length = 8192 }

abbrev high : Range
high = record { phys_base = 8192; length = 8192 }

merged : merge_range high low ≡ some (record { phys_base = 4096; length = 12288 })
unfolding merge_range join_range kpmem_get_end
merged = refl

merge_range-Merges_example : Merges high low (merge_range high low)
merge_range-Merges_example = merge_range-Merges high low (omega arith) (omega arith)

-- An object, one derived from it, one derived from that, and one merged of the first two.
abbrev family_calls : List Call
family_calls =
    Call.alloc true true true (some 8192) 16000
    ∷ Call.derive true true 1 8192 8192
    ∷ Call.derive true true 2 12288 4096
    ∷ Call.merge true true 1 2
    ∷ Call.destroy 1
    ∷ Call.destroy 2
    ∷ []

abbrev family : Pmems
family = run kpmem_init family_calls

family-IsValid : IsValid family
family-IsValid = run-kpmem_init-IsValid family_calls

run-kpmem_init-IsValid_example : IsValid (run kpmem_init family_calls)
run-kpmem_init-IsValid_example = run-kpmem_init-IsValid family_calls

run-kept_iff_example :
    ((r : Pmem) × (assoc 1 (run kpmem_init family_calls).heap ≡ some r))
    ↔ Live (run kpmem_init family_calls).heap 1
run-kept_iff_example = run-kept_iff family_calls 1

kpmem_derive_lem_example :
    Derives true true 4 8192 4096 family (kpmem_derive true true 4 8192 4096 family)
kpmem_derive_lem_example =
    kpmem_derive_lem true true 4 8192 4096 family family-IsValid (omega arith)

kpmem_merge_lem_example : Merged true true 3 4 family (kpmem_merge true true 3 4 family)
kpmem_merge_lem_example = kpmem_merge_lem true true 3 4 family family-IsValid

kpmem_alloc_owned_pages_lem_example :
    Allocates true true
      (some 65536)
      5000
      family
      (kpmem_alloc_owned_pages true true true (some 65536) 5000 family)
kpmem_alloc_owned_pages_lem_example =
    kpmem_alloc_owned_pages_lem true true true (some 65536) 5000 family family-IsValid

kpmem_destroy_lem_example : Destroys 4 family (kpmem_destroy 4 family)
kpmem_destroy_lem_example = kpmem_destroy_lem 4 family family-IsValid

four :
    kpmem_find_locked 4 family
    ≡ some (record {
      range = record { phys_base = 8192; length = 16384 };
      owns_pages = false;
      refcount = 1;
      parents = 1 ∷ 2 ∷ [];
      registered = true;
    })
unfolding run step kpmem_init kpmem_create_internal kpmem_alloc_owned_pages allocated kpmem_derive
    kpmem_merge kpmem_destroy kpmem_insert_locked kpmem_release_locked release_parents drain
    for_parents published derive_range merge_range join_range kpmem_get_end
four = refl

kpmem_destroy-kept_iff_example :
    ((x : Pmem) × (assoc 1 (kpmem_destroy 4 family).pmems.heap ≡ some x))
    ↔ Live (unlisted 4 family) 1
kpmem_destroy-kept_iff_example = kpmem_destroy-kept_iff 4 family _ 1 family-IsValid four
