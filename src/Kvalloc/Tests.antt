-- ===== src/Kvalloc/Tests.antt =====
-- Concrete regions of kvalloc.c.
use sharkix.Common.{◌+◌, ◌≡◌, true, some, List, [], ◌∷◌, refl}
use sharkix.Kvalloc.{
  Regions, kvalloc_init, kvalloc_base, kvalloc, kvfree, first_fit, insert_at, round_up_page, unlink,
}
use sharkix.Kvalloc.Freed.{IsValid, Allocates, Frees, kvalloc_lem, kvfree_lem, kvfree-kvalloc}
use sharkix.Kvalloc.Runs.{Call, alloc, free, run, step, run-kvalloc_init-IsValid}

abbrev calls : List Call
calls =
    alloc true true 5000
    ∷ alloc true true 4096
    ∷ alloc true true 1
    ∷ free (kvalloc_base + 8192)
    ∷ []

-- Two regions with a gap of one page.
abbrev gapped : Regions
gapped = record {
  regions =
      record { base = kvalloc_base; length = 8192 }
      ∷ record { base = kvalloc_base + 12288; length = 4096 }
      ∷ [];
  kvalloc_initialized = true;
}

gapped-run : run kvalloc_init calls ≡ gapped
unfolding run step kvalloc_init kvalloc kvfree first_fit insert_at round_up_page unlink
gapped-run = refl

gapped-IsValid : IsValid gapped
unfolding run step kvalloc_init kvalloc kvfree first_fit insert_at round_up_page unlink
gapped-IsValid = run-kvalloc_init-IsValid calls

run-kvalloc_init-IsValid_example : IsValid (run kvalloc_init calls)
run-kvalloc_init-IsValid_example = run-kvalloc_init-IsValid calls

kvalloc_lem_example : Allocates true true 4000 gapped (kvalloc true true 4000 gapped)
kvalloc_lem_example = kvalloc_lem true true 4000 gapped gapped-IsValid

kvfree_lem_example : Frees kvalloc_base gapped (kvfree kvalloc_base gapped)
kvfree_lem_example = kvfree_lem kvalloc_base gapped gapped-IsValid

abbrev filled : Regions
filled = record {
  regions =
      record { base = kvalloc_base; length = 8192 }
      ∷ record { base = kvalloc_base + 8192; length = 4096 }
      ∷ record { base = kvalloc_base + 12288; length = 4096 }
      ∷ [];
  kvalloc_initialized = true;
}

filled_lem : kvalloc true true 4000 gapped ≡ (filled, some (kvalloc_base + 8192))
unfolding kvalloc first_fit insert_at round_up_page
filled_lem = refl

kvfree-kvalloc_example : kvfree (kvalloc_base + 8192) filled ≡ (gapped, true)
kvfree-kvalloc_example =
    kvfree-kvalloc true true 4000 (kvalloc_base + 8192) gapped filled gapped-IsValid refl filled_lem
