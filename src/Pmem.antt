-- ===== src/Pmem.antt =====
-- src/kernel/subsystems/kpmem.c: the ranges of physical addresses that the objects describe.
pub mod Ranges
pub mod Objects
pub mod Counts
pub mod Drain
pub mod Ends
pub mod Valid
pub mod Making
pub mod Deriving
pub mod Calls
pub mod Destroy
pub mod Lifetime
pub mod Owned
pub mod Runs
pub mod Tests
use sharkix.Common.{
  ℕ, ◌+◌, ◌-◌, ◌%◌, ◌^◌, ◌==◌, ltb, leb, if◌then◌else◌, ◌||◌, ◌&&◌, Option, none, some,
}

-- The `phys_base` and `length` of pmem_t.
pub record Range : Type 0 where
  pub phys_base : ℕ
  pub length : ℕ

-- `none` is -1. UINTPTR_MAX is 2^64 - 1.
unfoldable pub kpmem_get_end : (base length : ℕ) → Option ℕ
kpmem_get_end base length =
    if ltb (2 ^ 64 - 1 - base) length then none else some ((base + length) % 2 ^ 64)

-- The tests of kpmem_derive on the addresses, and the range that it publishes.
unfoldable pub derive_range : Range → (new_base new_len : ℕ) → Option Range
derive_range source new_base new_len = elim (kpmem_get_end new_base new_len) [
  | none ↦ none
  | some new_end ↦ elim (kpmem_get_end source.phys_base source.length) [
    | none ↦ none
    | some source_end ↦
        if ltb new_base source.phys_base || ltb source_end new_end
        then none
        else some (record { phys_base = new_base; length = new_len })
  ]
]

-- The part of kpmem_merge after the order of the two is known.
unfoldable pub join_range : (lo hi : Range) (lo_end hi_end : ℕ) → Option Range
join_range lo hi lo_end hi_end =
    if ltb lo_end hi.phys_base
    then none
    else let new_end = if ltb hi_end lo_end then lo_end else hi_end in
      if ltb (2 ^ 64 - 1) (new_end - lo.phys_base)
      then none
      else some (record { phys_base = lo.phys_base; length = new_end - lo.phys_base })

-- The range that kpmem_merge publishes for two live objects; `none` is -1.
unfoldable pub merge_range : Range → Range → Option Range
merge_range a b = elim (kpmem_get_end a.phys_base a.length) [
  | none ↦ none
  | some a_end ↦ elim (kpmem_get_end b.phys_base b.length) [
    | none ↦ none
    | some b_end ↦
        if a.length == 0 && b.length == 0
        then some (record {
          phys_base = if ltb a.phys_base b.phys_base then a.phys_base else b.phys_base;
          length = 0;
        })
        else if a.length == 0
        then some (record { phys_base = b.phys_base; length = b.length })
        else if b.length == 0
        then some (record { phys_base = a.phys_base; length = a.length })
        else if leb a.phys_base b.phys_base
        then join_range a b a_end b_end
        else join_range b a b_end a_end
  ]
]
