-- ===== src/Kvmo/Targets.antt =====
-- kvmo.c: why the tests of kvmo_map before the page tables refuse.
use sharkix.Common.{
  ℕ, ◌+◌, ◌-◌, ◌^◌, ◌<◌, ◌≡◌, ◌⊎◌, inl, inr, ◌==◌, ==_iff, Bool, false, not, ◌||◌, Bool-cases,
  Option-cases, Option, none, some, arith,
}
use sharkix.Table.{UtHash}
use sharkix.Table.Laws.{find}
use sharkix.Pmem.{Range}
use sharkix.Memory.{AddressSpaces}
use sharkix.Kvmo.{Vmo, Vmos, subset, page_rights, vmo_map_right, vmo_read, vmo_invalid_handle}
use sharkix.Kvmo.Maps.{has, kvmo_get, map_target}

module _ ⦃h : UtHash⦄ (spaces : AddressSpaces) where
  -- The object is not live, does not allow the mapping, or its backing is gone or does not hold the range.
  abbrev pub OutOfReach :
      (backing : ℕ → Option Range) (handle offset length rights : ℕ) → Vmos → Type 0
  OutOfReach backing handle offset length rights s =
      (find handle s.vmos ≡ none)
      ⊎ ((vmo : Vmo) × (find handle s.vmos ≡ some vmo)
          × ((has vmo.rights vmo_map_right ≡ false)
              ⊎ (subset rights vmo.rights ≡ false)
              ⊎ (backing vmo.pmem ≡ none)
              ⊎ ((pmem : Range) × (backing vmo.pmem ≡ some pmem)
                  × ((pmem.length < offset + length) ⊎ (2 ^ 64 - 1 - pmem.phys_base < offset)))))

  -- Why there is nothing to map.
  abbrev pub NoTarget :
      (given : Bool) (backing : ℕ → Option Range) (handle offset length rights : ℕ) → Vmos → Type 0
  NoTarget given backing handle offset length rights s =
      (given ≡ false)
      ⊎ (handle ≡ vmo_invalid_handle)
      ⊎ (length ≡ 0)
      ⊎ (subset rights page_rights ≡ false)
      ⊎ (has rights vmo_read ≡ false)
      ⊎ OutOfReach backing handle offset length rights s

  pub map_target-none :
      (given : Bool) (backing : ℕ → Option Range) (handle offset length rights : ℕ) (s : Vmos)
      → map_target spaces given backing handle offset length rights s ≡ none
      → NoTarget given backing handle offset length rights s
  unfolding map_target kvmo_get
  map_target-none given backing handle offset length rights s refused =
      elim (Bool-cases (
        not given
        || handle == vmo_invalid_handle
        || length == 0
        || not (subset rights page_rights)
        || not (has rights vmo_read))) [
          | inl bad ↦ ground (arith, bad, ==_iff handle vmo_invalid_handle, ==_iff length 0)
          | inr good ↦ inr (
              inr (
                inr (
                  inr (
                    inr (elim (Option-cases (find handle s.vmos)) [
                      | inl missing ↦ inl missing
                      | inr (vmo, there) ↦ inr (
                        vmo,
                        there,
                        elim (Option-cases (backing vmo.pmem)) [
                          | inl bare ↦ inr (inr (inl bare))
                          | inr (pmem, backed) ↦
                              elim (Bool-cases (
                                not (has vmo.rights vmo_map_right)
                                || not (subset rights vmo.rights))) [
                                  | inl weak ↦ ground (arith, weak)
                                  | inr strong ↦ inr (
                                      inr (
                                        inr (
                                          pmem,
                                          backed,
                                          ground (arith, refused, good, there, backed, strong),
                                        )))
                                ]
                        ],
                      )
                    ])))))
        ]
