-- ===== src/Kvalloc.antt =====
-- src/kernel/core/kvalloc.c: the regions of kernel addresses, in the order of the list.
pub mod Sorted
pub mod Freed
pub mod Runs
pub mod Tests
use sharkix.Common.{
  ℕ, ◌+◌, ◌-◌, ◌%◌, ◌^◌, ◌==◌, ltb, leb, not, ◌&&◌, ◌||◌, if◌then◌else◌, Bool, true, false, Option,
  none, some, List, [], ◌∷◌,
}
use sharkix.Memory.{rounded}

-- 0xfffff00000000000 and 0xfffff08000000000
abbrev pub kvalloc_base : ℕ
kvalloc_base = 2 ^ 64 - 2 ^ 44

abbrev pub kvalloc_end : ℕ
kvalloc_end = kvalloc_base + 2 ^ 39

pub record Region : Type 0 where
  pub base : ℕ
  pub length : ℕ

pub record Regions : Type 0 where
  pub regions : List Region
  pub kvalloc_initialized : Bool

unfoldable pub round_up_page : ℕ → Option ℕ
round_up_page size = if size == 0 || ltb (2 ^ 64 - 1 - 4095) size then none else some (rounded size)

unfoldable pub kvalloc_init : Regions
kvalloc_init = record { regions = []; kvalloc_initialized = true }

-- The test of the arena, and the new region before the rest of the list.
unfoldable pub insert_at : (candidate length : ℕ) → List Region → Option (ℕ × List Region)
insert_at candidate length rest =
    if ltb kvalloc_end candidate || ltb (kvalloc_end - candidate) length
    then none
    else some (candidate, record { base = candidate; length = length } ∷ rest)

-- The loop of kvalloc from an entry on: the address and the new rest of the list.
unfoldable pub first_fit : (candidate length : ℕ) → List Region → Option (ℕ × List Region)
first_fit candidate length [] = insert_at candidate length []
first_fit candidate length (cur ∷ rest) =
    if leb candidate cur.base && leb length (cur.base - candidate)
    then insert_at candidate length (cur ∷ rest)
    else if ltb (2 ^ 64 - 1 - cur.length) cur.base
    then none
    else elim (first_fit ((cur.base + cur.length) % 2 ^ 64) length rest) [
      | none ↦ none
      | some (address, more) ↦ some (address, cur ∷ more)
    ]

-- The state, and what is written to `*out`: `none` is -1.
unfoldable pub kvalloc : (out mem : Bool) (size : ℕ) → Regions → Regions × Option ℕ
kvalloc out mem size s =
    if not out || not s.kvalloc_initialized then (s, none) else elim (round_up_page size) [
      | none ↦ (s, none)
      | some length ↦
          if not mem then (s, none) else elim (first_fit kvalloc_base length s.regions) [
            | none ↦ (s, none)
            | some (address, regions) ↦ (record s { regions = regions }, some address)
          ]
    ]

-- The loop of kvfree and the unlinking.
unfoldable pub unlink : ℕ → List Region → Option (List Region)
unlink address [] = none
unlink address (cur ∷ rest) =
    if cur.base == address
    then some rest
    else if ltb address cur.base
    then none
    else elim (unlink address rest) [ none ↦ none | some more ↦ some (cur ∷ more) ]

unfoldable pub kvfree : ℕ → Regions → Regions × Bool
kvfree address s =
    if not s.kvalloc_initialized then (s, false) else elim (unlink address s.regions) [
      | none ↦ (s, false)
      | some regions ↦ (record s { regions = regions }, true)
    ]
