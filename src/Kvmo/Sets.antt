-- ===== src/Kvmo/Sets.antt =====
-- kvmo.c: the sets of mappings. `mem` says that kmalloc succeeds and `out` that the result pointer is
-- not NULL; a status is a Bool, and `true` is 0.
use sharkix.Common.{
  ℕ, ◌+◌, ◌-◌, ◌%◌, ◌^◌, ◌==◌, ltb, leb, not, ◌&&◌, ◌||◌, if◌then◌else◌, Bool, true, false, Option,
  none, some, List, [], ◌∷◌, is_some,
}
use sharkix.Table.{UtHash}
use sharkix.Table.Laws.{Table, find, add, del, modify, entries, empty}
use sharkix.Kvmo.{
  VmoEntry, VmoSet, Vmos, vmoset_lookup_locked, subset, page_rights, vmo_invalid_handle,
  vmoset_invalid_handle,
}

-- The loop of kvmoset_add over the entries: `true` when it refuses [va, new_end).
unfoldable pub meets : (va new_end : ℕ) → List (ℕ × VmoEntry) → Bool
meets va new_end [] = false
meets va new_end ((k, iter) ∷ l) =
    let old_end = (iter.virtual_address + iter.length) % 2 ^ 64 in
    ltb (2 ^ 64 - 1 - iter.virtual_address) iter.length
    || ltb va old_end && ltb iter.virtual_address new_end
    || meets va new_end l

-- The loop of kvmoset_find.
unfoldable pub containing : ℕ → List (ℕ × VmoEntry) → Option VmoEntry
containing va [] = none
containing va ((k, entry) ∷ l) =
    let start = entry.virtual_address in
    let rest = containing va l in
    if ltb (2 ^ 64 - 1 - start) entry.length
    then rest
    else if leb start va && ltb va ((start + entry.length) % 2 ^ 64)
    then some entry
    else rest

module _ ⦃h : UtHash⦄ where
  abbrev pub with_entries : (Table VmoEntry → Table VmoEntry) → VmoSet → VmoSet
  with_entries f set = record set { entries = f set.entries }

  -- A write to the entries of a set.
  unfoldable pub change_entries : ℕ → (Table VmoEntry → Table VmoEntry) → Vmos → Vmos
  change_entries handle f s = record s { vmosets = modify handle (with_entries f) s.vmosets }

  unfoldable pub kvmoset_set_rights : (handle va rights : ℕ) → Vmos → Vmos × Bool
  kvmoset_set_rights handle va rights s =
      if handle == vmoset_invalid_handle
      then (s, false)
      else if not (subset rights page_rights)
      then (s, false)
      else elim (vmoset_lookup_locked handle s) [
        | none ↦ (s, false)
        | some set ↦ if not (is_some (find va set.entries)) then (s, false) else (
          change_entries handle (modify va (λ entry. record entry { rights = rights })) s,
          true,
        )
      ]

  -- The new handle, or `none` for -1.
  unfoldable pub kvmoset_new : (out mem : Bool) → Vmos → Vmos × Option ℕ
  kvmoset_new out mem s = if not out || not mem then (s, none) else (
    record s {
      next_vmoset_handle = (s.next_vmoset_handle + 1) % 2 ^ 64;
      vmosets =
          add s.next_vmoset_handle
            (record { handle = s.next_vmoset_handle; entries = empty VmoEntry }) s.vmosets;
    },
    some s.next_vmoset_handle,
  )

  unfoldable pub kvmoset_destroy : ℕ → Vmos → Vmos × Bool
  kvmoset_destroy handle s =
      if handle == vmoset_invalid_handle then (s, false) else elim (vmoset_lookup_locked handle s) [
        | none ↦ (s, false)
        | some _ ↦ (record s { vmosets = del handle s.vmosets }, true)
      ]

  -- The tests of kvmoset_add before it takes a lock.
  unfoldable pub add_arguments : (handle vmo va length rights : ℕ) → Bool
  add_arguments handle vmo va length rights =
      not (handle == vmoset_invalid_handle)
      && not (vmo == vmo_invalid_handle)
      && not (length == 0)
      && subset rights page_rights
      && not (ltb (2 ^ 64 - 1 - va) length)

  unfoldable pub kvmoset_add :
      (mem : Bool) (handle vmo va offset length rights : ℕ) → Vmos → Vmos × Bool
  kvmoset_add mem handle vmo va offset length rights s =
      if not (add_arguments handle vmo va length rights)
      then (s, false)
      else if not mem
      then (s, false)
      else elim (vmoset_lookup_locked handle s) [
        | none ↦ (s, false)
        | some set ↦
            if meets va ((va + length) % 2 ^ 64) (entries set.entries) then (s, false) else (
              change_entries handle
                  (add va (record {
                    virtual_address = va;
                    length = length;
                    vmo = vmo;
                    offset = offset;
                    rights = rights;
                  }))
                  s,
              true,
            )
      ]

  unfoldable pub kvmoset_remove : (handle va : ℕ) → Vmos → Vmos × Bool
  kvmoset_remove handle va s = elim (vmoset_lookup_locked handle s) [
    | none ↦ (s, false)
    | some set ↦
        if not (is_some (find va set.entries))
        then (s, false)
        else (change_entries handle (del va) s, true)
  ]

  -- The entry that is copied to `*out`, or `none` for -1.
  unfoldable pub kvmoset_find : (out : Bool) (handle va : ℕ) → Vmos → Option VmoEntry
  kvmoset_find out handle va s = if not out then none else elim (vmoset_lookup_locked handle s) [
    | none ↦ none
    | some set ↦ containing va (entries set.entries)
  ]
