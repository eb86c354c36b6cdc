-- ===== src/Pmem/Objects.antt =====
-- kpmem.c: the objects, their references and their parents. A record in memory goes by the handle that
-- kpmem_insert_locked gave it, which no other record ever gets. `out` says that the result pointer is
-- not NULL and `mem` that kmalloc succeeds.
use sharkix.Common.{
  ℕ, zero, suc, ◌+◌, ◌-◌, ◌/◌, ◌%◌, ◌^◌, ◌==◌, ltb, not, ◌&&◌, ◌||◌, if◌then◌else◌, Bool, true,
  false, Option, none, some, List, [], ◌∷◌, length, assoc, without, adjust,
}
use sharkix.Memory.{Outcome, ok, failed, panicked, unfinished, rounded}
use sharkix.Pmem.{Range, kpmem_get_end, derive_range, merge_range}

abbrev pub pmem_invalid_handle : ℕ
pmem_invalid_handle = 2 ^ 64 - 1

-- pmem_record_t; `registered` says that the table holds it, and `parents` are the first `parent_count`.
pub record Pmem : Type 0 where
  pub range : Range
  pub owns_pages : Bool
  pub refcount : ℕ
  pub parents : List ℕ
  pub registered : Bool

abbrev pub Heap : Type 0
Heap = List (ℕ × Pmem)

-- The records in memory, and the static counter.
pub record Pmems : Type 0 where
  pub heap : Heap
  pub next_pmem_handle : ℕ

abbrev pub increase : Pmem → Pmem
increase r = record r { refcount = (r.refcount + 1) % 2 ^ 64 }

abbrev pub decrease : Pmem → Pmem
decrease r = record r { refcount = (r.refcount + 2 ^ 64 - 1) % 2 ^ 64 }

-- A write through a pointer to a record.
abbrev pub change : ℕ → (Pmem → Pmem) → Pmems → Pmems
change p f s = record s { heap = adjust p f s.heap }

abbrev pub when_registered : Option Pmem → Option Pmem
when_registered none = none
when_registered (some r) = if r.registered then some r else none

abbrev pub kpmem_find_locked : ℕ → Pmems → Option Pmem
kpmem_find_locked handle s = when_registered (assoc handle s.heap)

-- The new state and the handle, or `none` for -1.
unfoldable pub kpmem_insert_locked : Pmem → Pmems → Option (Pmems × ℕ)
kpmem_insert_locked r s =
    if s.next_pmem_handle == pmem_invalid_handle
    then none
    else some (
      record {
        heap = (s.next_pmem_handle, record r { registered = true }) ∷ s.heap;
        next_pmem_handle = (s.next_pmem_handle + 1) % 2 ^ 64;
      },
      s.next_pmem_handle,
    )

unfoldable pub kpmem_init : Pmems
kpmem_init = record { heap = []; next_pmem_handle = 1 }

-- The range and `owns_pages` of the copy.
unfoldable pub kpmem_get : (out : Bool) (handle : ℕ) → Pmems → Option (Range × Bool)
kpmem_get out handle s =
    if not out || handle == pmem_invalid_handle
    then none
    else elim (kpmem_find_locked handle s) [ none ↦ none | some r ↦ some (r.range, r.owns_pages) ]

-- A fresh record with the reference of the table.
abbrev pub fresh : Range → (owns_pages : Bool) → (parents : List ℕ) → Pmem
fresh range owns_pages parents = record {
  range = range;
  owns_pages = owns_pages;
  refcount = 1;
  parents = parents;
  registered = false;
}

-- The state, the status, and what is written to `*out`.
abbrev pub Made : Type 0
Made = Pmems × Bool × Option ℕ

abbrev pub refuse : Pmems → Made
refuse s = (s, false, some pmem_invalid_handle)

-- What follows kpmem_insert_locked; `undone` is the state without the references of the new record.
unfoldable pub published : (undone : Pmems) → Option (Pmems × ℕ) → Made
published undone none = refuse undone
published undone (some (t, handle)) = (t, true, some handle)

unfoldable pub kpmem_create_internal :
    (out mem : Bool) (base len : ℕ) (owns_pages : Bool) → Pmems → Made
kpmem_create_internal out mem base len owns_pages s =
    if not out then (s, false, none) else elim (kpmem_get_end base len) [
      | none ↦ refuse s
      | some end ↦
          if owns_pages && (len == 0 || not (base % 4096 == 0) || not (len % 4096 == 0))
          then refuse s
          else if not mem
          then refuse s
          else published s (
              kpmem_insert_locked (fresh (record { phys_base = base; length = len }) owns_pages [])
                s)
    ]

unfoldable pub kpmem_create : (out mem : Bool) (base len : ℕ) → Pmems → Made
kpmem_create out mem base len s = kpmem_create_internal out mem base len false s

-- The end of kpmem_alloc_owned_pages: also what is written to `*actual_len`, and the pages that go back
-- by phys_free_pages.
unfoldable pub allocated : (physical_base rounded_len : ℕ) → Made → Made × Option ℕ × List (ℕ × ℕ)
allocated physical_base rounded_len (t, true, written) = ((t, true, written), some rounded_len, [])
allocated physical_base rounded_len (t, false, written) =
    ((t, false, written), some 0, (physical_base, rounded_len / 4096) ∷ [])

-- `pages` is the answer of phys_alloc_pages.
unfoldable pub kpmem_alloc_owned_pages :
    (out actual_len mem : Bool) (pages : Option ℕ) (requested_len : ℕ)
    → Pmems
    → Made × Option ℕ × List (ℕ × ℕ)
kpmem_alloc_owned_pages out actual_len mem pages requested_len s =
    if not out || not actual_len
    then ((s, false, none), none, [])
    else if requested_len == 0 || ltb (2 ^ 64 - 1 - 4095) requested_len
    then (refuse s, some 0, [])
    else elim pages [
      | none ↦ (refuse s, some 0, [])
      | some physical_base ↦
          allocated physical_base (rounded requested_len)
            (kpmem_create_internal true mem physical_base (rounded requested_len) true s)
    ]

-- The reference counts that kpmem_derive tests, in the order of the tests; that of the end of the new
-- range stands in derive_range.
unfoldable pub kpmem_derive : (out mem : Bool) (source new_base new_len : ℕ) → Pmems → Made
kpmem_derive out mem source new_base new_len s =
    if not out
    then (s, false, none)
    else if not mem
    then refuse s
    else elim (kpmem_find_locked source s) [
      | none ↦ refuse s
      | some src ↦ elim (derive_range src.range new_base new_len) [
        | none ↦ refuse s
        | some range ↦
            if src.refcount == 2 ^ 64 - 1
            then refuse s
            else let s1 = change source increase s in
              published (change source decrease s1)
                (kpmem_insert_locked (fresh range false (source ∷ [])) s1)
      ]
    ]

-- Retain every parent, or give every one back.
unfoldable pub for_parents : (Pmem → Pmem) → List ℕ → Pmems → Pmems
for_parents f [] s = s
for_parents f (p ∷ ps) s = for_parents f ps (change p f s)

unfoldable pub kpmem_merge : (out mem : Bool) (a b : ℕ) → Pmems → Made
kpmem_merge out mem a b s =
    if not out
    then (s, false, none)
    else if not mem
    then refuse s
    else elim (kpmem_find_locked a s) [
      | none ↦ refuse s
      | some pmem_a ↦ elim (kpmem_find_locked b s) [
        | none ↦ refuse s
        | some pmem_b ↦ elim (merge_range pmem_a.range pmem_b.range) [
          | none ↦ refuse s
          | some range ↦
              if pmem_a.refcount == 2 ^ 64 - 1 || pmem_b.refcount == 2 ^ 64 - 1
              then refuse s
              else let parents = if b == a then a ∷ [] else a ∷ b ∷ [] in
                let s1 = for_parents increase parents s in
                published (for_parents decrease parents s1)
                  (kpmem_insert_locked (fresh range false parents) s1)
        ]
      ]
    ]

-- kpmem_release_locked: the records and `pending`, or `none` for the panic.
unfoldable pub kpmem_release_locked : ℕ → Heap → List ℕ → Option (Heap × List ℕ)
kpmem_release_locked p heap pending = elim (assoc p heap) [
  | none ↦ none
  | some r ↦
      if r.refcount == 0
      then none
      else some (adjust p decrease heap, (if r.refcount == 1 then p ∷ pending else pending))
]

-- The loop over the parents of a record.
unfoldable pub release_parents : List ℕ → Heap → List ℕ → Option (Heap × List ℕ)
release_parents [] heap pending = some (heap, pending)
release_parents (p ∷ ps) heap pending = elim (kpmem_release_locked p heap pending) [
  | none ↦ none
  | some (heap', pending') ↦ release_parents ps heap' pending'
]

-- The drain loop. A record moves from the records to `dead` when it is taken from `pending`: it is none
-- of its own parents. `none` for the panic, and the records that died for the loop's end.
unfoldable pub drain :
    (fuel : ℕ) → Heap → (pending : List ℕ) → (dead : Heap) → Heap × Heap × Outcome
drain zero heap pending dead = (heap, dead, unfinished)
drain (suc fuel) heap [] dead = (heap, dead, ok)
drain (suc fuel) heap (p ∷ pending) dead = elim (assoc p heap) [
  | none ↦ (heap, dead, panicked)
  | some r ↦ elim (release_parents r.parents (without p heap) pending) [
    | none ↦ (heap, dead, panicked)
    | some (heap', pending') ↦ drain fuel heap' pending' ((p, r) ∷ dead)
  ]
]

-- The loop that frees the dead records: the calls of phys_free_pages.
unfoldable pub free_pages : Heap → List (ℕ × ℕ)
free_pages [] = []
free_pages ((p, r) ∷ dead) =
    if r.owns_pages
    then (r.range.phys_base, r.range.length / 4096) ∷ free_pages dead
    else free_pages dead

-- What is left, how the call ended, and the records that it freed.
pub record Destroyed : Type 0 where
  pub pmems : Pmems
  pub outcome : Outcome
  pub dead : Heap

-- Each round of the loop takes a record out of memory.
unfoldable pub kpmem_destroy : ℕ → Pmems → Destroyed
kpmem_destroy handle s = elim (kpmem_find_locked handle s) [
  | none ↦ record { pmems = s; outcome = failed; dead = [] }
  | some r ↦
      let unlisted = adjust handle (λ x. record x { registered = false }) s.heap in
      elim (kpmem_release_locked handle unlisted []) [
        | none ↦ record { pmems = record s { heap = unlisted }; outcome = panicked; dead = [] }
        | some (heap, pending) ↦
            let (left, dead, outcome) = drain (suc (length heap)) heap pending [] in
            record { pmems = record s { heap = left }; outcome = outcome; dead = dead }
      ]
]
