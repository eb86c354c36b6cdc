-- ===== src/Kvmo/Permissions.antt =====
-- kvmo.c: what the tests of kvmo_protect before the pages come to.
use sharkix.Common.{
  ℕ, ◌<◌, ◌≡◌, ◌≢◌, ◌⊎◌, inl, inr, ◌==◌, ==_iff, Bool, true, false, not, ◌||◌, Bool-cases,
  Option-cases, none, some, arith,
}
use sharkix.Table.{UtHash}
use sharkix.Table.Laws.{find}
use sharkix.Memory.{AddressSpaces}
use sharkix.Kvmo.{Vmo, VmoEntry, Vmos, subset, page_rights, vmo_read, vmo_invalid_handle}
use sharkix.Kvmo.View.{view}
use sharkix.Kvmo.Maps.{has, kvmo_get, protect_allowed}

module _ ⦃h : UtHash⦄ (spaces : AddressSpaces) where
  -- Why kvmo_protect refuses: an argument, the object or its rights, or the mapping at the address.
  abbrev pub Unprotectable :
      (given : Bool) (handle va length rights : ℕ) → Vmos → spaces.Space → Type 0
  Unprotectable given handle va length rights s x =
      (given ≡ false)
      ⊎ (handle ≡ vmo_invalid_handle)
      ⊎ (length ≡ 0)
      ⊎ (subset rights page_rights ≡ false)
      ⊎ (has rights vmo_read ≡ false)
      ⊎ (find handle s.vmos ≡ none)
      ⊎ ((vmo : Vmo) × (find handle s.vmos ≡ some vmo) × (subset rights vmo.rights ≡ false))
      ⊎ (view (spaces.vmoset x) s va ≡ none)
      ⊎ ((e : VmoEntry) × (view (spaces.vmoset x) s va ≡ some e)
          × ((e.vmo ≢ handle) ⊎ (e.virtual_address ≢ va) ⊎ (e.length ≢ length)))

  -- The arguments are valid, and the rights are rights to pages with READ among them, and rights of the live object.
  abbrev pub Permitted : (given : Bool) (handle length rights : ℕ) → Vmos → Type 0
  Permitted given handle length rights s =
      (given ≡ true)
      × (handle ≢ vmo_invalid_handle)
      × (0 < length)
      × (vmo : Vmo) × (find handle s.vmos ≡ some vmo)
      × (subset rights vmo.rights ≡ true)
      × (subset rights page_rights ≡ true)
      × (has rights vmo_read ≡ true)

  pub protect_refused_lem :
      (given : Bool) (handle va length rights : ℕ) (s : Vmos) (x : spaces.Space)
      → protect_allowed spaces given handle va length rights s x ≡ false
      → Unprotectable given handle va length rights s x
  unfolding protect_allowed kvmo_get
  protect_refused_lem given handle va length rights s x refused =
      elim (Bool-cases (
        not given
        || handle == vmo_invalid_handle
        || length == 0
        || not (subset rights page_rights)
        || not (has rights vmo_read))) [
          | inl bad ↦ (ground (arith, bad, ==_iff handle vmo_invalid_handle, ==_iff length 0))
          | inr good ↦ elim (Option-cases (find handle s.vmos)) [
            | inl missing ↦ inr (inr (inr (inr (inr (inl missing)))))
            | inr (vmo, there) ↦ elim (Bool-cases (subset rights vmo.rights)) [
              | inr wide ↦ inr (inr (inr (inr (inr (inr (inl (vmo, there, wide)))))))
              | inl narrow ↦ elim (Option-cases (view (spaces.vmoset x) s va)) [
                | inl unmapped ↦ inr (inr (inr (inr (inr (inr (inr (inl unmapped)))))))
                | inr (e, at) ↦ inr (
                    inr (
                      inr (
                        inr (
                          inr (
                            inr (
                              inr (
                                inr (
                                  e,
                                  at,
                                  (ground (
                                    arith,
                                    refused,
                                    good,
                                    there,
                                    narrow,
                                    at,
                                    ==_iff e.vmo handle,
                                    ==_iff e.virtual_address va,
                                    ==_iff e.length length,
                                  )),
                                ))))))))
              ]
            ]
          ]
        ]

  -- What the tests of kvmo_protect establish.
  pub protect_allowed_lem :
      (given : Bool) (handle va length rights : ℕ) (s : Vmos) (x : spaces.Space)
      → protect_allowed spaces given handle va length rights s x ≡ true
      → Permitted given handle length rights s
        × ((e : VmoEntry) × (view (spaces.vmoset x) s va ≡ some e)
            × (e.virtual_address ≡ va)
            × (e.length ≡ length)
            × (e.vmo ≡ handle))
  unfolding protect_allowed kvmo_get
  protect_allowed_lem given handle va length rights s x yes_all =
      elim (Option-cases (find handle s.vmos)) [
        | inl missing ↦ absurd (ground (arith, missing))
        | inr (vmo, there) ↦ elim (Option-cases (view (spaces.vmoset x) s va)) [
          | inl unmapped ↦ absurd (ground (arith, there, unmapped))
          | inr (e, at) ↦ (
            (
              ground (arith, there, at),
              (λ w. absurd (ground (arith, there, at, ==_iff handle vmo_invalid_handle, w))),
              ground (arith, there, at, ==_iff length 0),
              vmo,
              there,
              ground (arith, there, at),
              ground (arith, there, at),
              ground (arith, there, at),
            ),
            (
              e,
              at,
              ground (arith, there, at, ==_iff e.virtual_address va),
              ground (arith, there, at, ==_iff e.length length),
              ground (arith, there, at, ==_iff e.vmo handle),
            ),
          )
        ]
      ]

  pub page_wide :
      {A : Type 0} (given : Bool) (handle length rights : ℕ) (s : Vmos)
      → Permitted given handle length rights s
      → subset rights page_rights ≡ false
      → A
  page_wide given handle length rights s (g, real, some_length, vmo, there, within, narrow, read)
        wide =
      absurd (ground arith)
