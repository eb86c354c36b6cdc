-- ===== src/Kvmo/Maps.antt =====
-- kvmo.c: mappings of memory objects into address spaces. `given` says that the address space is not
-- NULL. `backing` is kpmem_get: the range of physical addresses of a pmem handle.
use sharkix.Common.{
  ℕ, zero, suc, ◌+◌, ◌-◌, ◌%◌, ◌^◌, ◌==◌, ltb, not, ◌&&◌, ◌||◌, if◌then◌else◌, Bool, true, false,
  Option, none, some, [], ◌∷◌, bit_and, bit_or,
}
use sharkix.Table.{UtHash}
use sharkix.Table.Laws.{find, del, entries}
pub use sharkix.Memory.{Outcome, ok, failed, panicked, unfinished}
use sharkix.Memory.{
  AddressSpaces, accepts, refuses, halts, user_canonical_top, page_present, page_writable,
  page_user, page_nx,
}
use sharkix.Pmem.{Range}
use sharkix.Kvmo.{
  Vmo, Vmos, kvmo_lookup_locked, vmoset_lookup_locked, subset, page_rights, vmo_map_right, vmo_read,
  vmo_write, vmo_exec, vmo_invalid_handle, vmoset_invalid_handle,
}
use sharkix.Kvmo.Sets.{change_entries, kvmoset_add, kvmoset_find, kvmoset_set_rights}

-- `rights & right` as a condition.
abbrev pub has : (rights right : ℕ) → Bool
has rights right = not (bit_and rights right == 0)

-- The page-table flags of a mapping.
unfoldable pub map_flags : (rights va : ℕ) → ℕ
map_flags rights va =
    let present = page_present in
    let written = if has rights vmo_write then bit_or present page_writable else present in
    let executed = if has rights vmo_exec then written else bit_or written page_nx in
    if ltb va user_canonical_top then bit_or executed page_user else executed

module _ ⦃h : UtHash⦄ where
  -- The copy has no `owns_pmem`.
  unfoldable pub kvmo_get : (out : Bool) → ℕ → Vmos → Option Vmo
  kvmo_get out handle s =
      if not out
      then none
      else if handle == vmo_invalid_handle
      then none
      else elim (kvmo_lookup_locked handle s) [
        | none ↦ none
        | some vmo ↦ some (record vmo { owns_pmem = none })
      ]

  module _ (spaces : AddressSpaces) where
    -- The tables, the address space, and how the call ended.
    pub record Result : Type 0 where
      pub vmos : Vmos
      pub space : spaces.Space
      pub outcome : Outcome

    abbrev pub result : Vmos → spaces.Space → Outcome → Result
    result s space o = record { vmos = s; space = space; outcome = o }

    -- The physical address to map, when every test of kvmo_map before it passes.
    unfoldable pub map_target :
        (given : Bool) (backing : ℕ → Option Range) (handle offset length rights : ℕ)
        → Vmos
        → Option ℕ
    map_target given backing handle offset length rights s =
        if not given
          || handle == vmo_invalid_handle
          || length == 0
          || not (subset rights page_rights)
        then none
        else elim (kvmo_get true handle s) [
          | none ↦ none
          | some vmo ↦
              if not (has vmo.rights vmo_map_right)
                || not (subset rights vmo.rights)
                || not (has rights vmo_read)
              then none
              else elim (backing vmo.pmem) [
                | none ↦ none
                | some pmem ↦
                    if ltb pmem.length offset
                      || ltb (pmem.length - offset) length
                      || ltb (2 ^ 64 - 1 - pmem.phys_base) offset
                    then none
                    else some ((pmem.phys_base + offset) % 2 ^ 64)
              ]
        ]

    -- kvmo_get, kpmem_get, the page tables and the set each take their own lock; here no other call comes
    -- in between. When the machine halts, the result has the address space before the call: what was
    -- installed by then is seen by nobody.
    unfoldable pub kvmo_map :
        (given mem : Bool) (backing : ℕ → Option Range) (handle va offset length rights : ℕ)
        → Vmos
        → spaces.Space
        → Result
    kvmo_map given mem backing handle va offset length rights s space =
        elim (map_target given backing handle offset length rights s) [
          | none ↦ result s space failed
          | some phys ↦ elim (spaces.map_range space va phys length (map_flags rights va)) [
            | refuses ↦ result s space failed
            | halts ↦ result s space panicked
            | accepts mapped ↦
                let (s', added) =
                  kvmoset_add mem (spaces.vmoset mapped) handle va offset length rights s in
                if added then result s' mapped ok else elim (spaces.unmap_range mapped va length) [
                  | none ↦ result s' mapped panicked
                  | some undone ↦ result s' undone failed
                ]
          ]
        ]

    unfoldable pub kvmo_unmap_exact :
        (given check_length : Bool) (handle va length : ℕ) → Vmos → spaces.Space → Result
    kvmo_unmap_exact given check_length handle va length s space =
        if not given || handle == vmo_invalid_handle || check_length && length == 0
        then result s space failed
        else elim (vmoset_lookup_locked (spaces.vmoset space) s) [
          | none ↦ result s space failed
          | some set ↦ elim (find va set.entries) [
            | none ↦ result s space failed
            | some entry ↦
                if not (entry.vmo == handle) || check_length && not (entry.length == length)
                then result s space failed
                else elim (spaces.unmap_range space va entry.length) [
                  | none ↦ result s space failed
                  | some unmapped ↦
                      result (change_entries (spaces.vmoset space) (del va) s) unmapped ok
                ]
          ]
        ]

    unfoldable pub kvmo_unmap : (given : Bool) (handle va length : ℕ) → Vmos → spaces.Space → Result
    unfolding kvmo_unmap_exact
    kvmo_unmap given handle va length s space = kvmo_unmap_exact given true handle va length s space

    unfoldable pub kvmo_unmap_at : (given : Bool) (handle va : ℕ) → Vmos → spaces.Space → Result
    unfolding kvmo_unmap_exact
    kvmo_unmap_at given handle va s space = kvmo_unmap_exact given false handle va 0 s space

    -- The tests of kvmo_protect before it touches the pages.
    unfoldable pub protect_allowed :
        (given : Bool) (handle va length rights : ℕ) → Vmos → spaces.Space → Bool
    protect_allowed given handle va length rights s space =
        if not given
          || handle == vmo_invalid_handle
          || length == 0
          || not (subset rights page_rights)
          || not (has rights vmo_read)
        then false
        else elim (kvmo_get true handle s) [
          | none ↦ false
          | some vmo ↦
              if not (subset rights vmo.rights)
              then false
              else elim (kvmoset_find true (spaces.vmoset space) va s) [
                | none ↦ false
                | some entry ↦
                    entry.vmo == handle && entry.virtual_address == va && entry.length == length
              ]
        ]

    -- The tests, the page tables and the set each take their own lock; here no other call comes in
    -- between. When one does, and unmaps the range, kvmoset_set_rights fails, and the call panics.
    unfoldable pub kvmo_protect :
        (given : Bool) (handle va length rights : ℕ) → Vmos → spaces.Space → Result
    kvmo_protect given handle va length rights s space =
        if not (protect_allowed given handle va length rights s space)
        then result s space failed
        else elim (spaces.protect_range space va length (map_flags rights va)) [
          | none ↦ result s space failed
          | some protected ↦
              let (s', done) = kvmoset_set_rights (spaces.vmoset protected) va rights s in
              if done then result s' protected ok else result s' protected panicked
        ]

    -- The loop of kvmoset_unmap_all: each round unmaps the first mapping of the set.
    unfoldable pub unmap_rounds : (fuel handle : ℕ) → Vmos → spaces.Space → Result
    unmap_rounds zero handle s space = result s space unfinished
    unmap_rounds (suc fuel) handle s space = elim (vmoset_lookup_locked handle s) [
      | none ↦ result s space failed
      | some set ↦ elim (entries set.entries) [
        | [] ↦ result s space ok
        | ((k, entry) ∷ rest) ↦
            let r = kvmo_unmap true entry.vmo entry.virtual_address entry.length s space in
            elim r.outcome [
              | ok ↦ unmap_rounds fuel handle r.vmos r.space
              | other ↦ result r.vmos r.space failed
            ]
      ]
    ]

    unfoldable pub kvmoset_unmap_all :
        (fuel : ℕ) (given : Bool) (handle : ℕ) → Vmos → spaces.Space → Result
    unfolding unmap_rounds
    kvmoset_unmap_all fuel given handle s space =
        if not given || handle == vmoset_invalid_handle
        then result s space failed
        else unmap_rounds fuel handle s space
