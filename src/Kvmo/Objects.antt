-- ===== src/Kvmo/Objects.antt =====
-- kvmo.c: memory objects. A status is a Bool, and `true` is 0.
use sharkix.Common.{
  ℕ, ◌+◌, ◌%◌, ◌^◌, ◌==◌, not, if◌then◌else◌, Bool, true, false, Option, none, some,
}
use sharkix.Table.{UtHash}
use sharkix.Table.Laws.{add, del, empty}
use sharkix.Pmem.{Range}
use sharkix.Kvmo.{
  Vmo, VmoSet, Vmos, kvmo_lookup_locked, subset, vmo_valid_rights, vmo_invalid_handle,
}
use sharkix.Kvmo.Maps.{kvmo_get}

module _ ⦃h : UtHash⦄ where
  unfoldable pub kvmo_init : Vmos
  kvmo_init = record {
    vmos = empty Vmo;
    vmosets = empty VmoSet;
    next_vmo_handle = 1;
    next_vmoset_handle = 1;
  }

  -- The new handle, or `none` for -1.
  unfoldable pub kvmo_create_from_pmem : (out mem : Bool) (pmem rights : ℕ) → Vmos → Vmos × Option ℕ
  kvmo_create_from_pmem out mem pmem rights s =
      if not out
      then (s, none)
      else if not (subset rights vmo_valid_rights)
      then (s, none)
      else if not mem
      then (s, none)
      else (
        record s {
          next_vmo_handle = (s.next_vmo_handle + 1) % 2 ^ 64;
          vmos =
              add s.next_vmo_handle
                (record {
                  handle = s.next_vmo_handle;
                  rights = rights;
                  pmem = pmem;
                  owns_pmem = none;
                })
                s.vmos;
        },
        some s.next_vmo_handle,
      )

  -- The length that is written to `*out`, or `none` for -1.
  unfoldable pub kvmo_getlen :
      (out : Bool) (backing : ℕ → Option Range) (handle : ℕ) → Vmos → Option ℕ
  kvmo_getlen out backing handle s = if not out then none else elim (kvmo_get true handle s) [
    | none ↦ none
    | some vmo ↦ elim (backing vmo.pmem) [ none ↦ none | some pmem ↦ some pmem.length ]
  ]

  unfoldable pub kvmo_destroy : ℕ → Vmos → Vmos × Bool
  kvmo_destroy handle s =
      if handle == vmo_invalid_handle then (s, false) else elim (kvmo_lookup_locked handle s) [
        | none ↦ (s, false)
        | some _ ↦ (record s { vmos = del handle s.vmos }, true)
      ]
