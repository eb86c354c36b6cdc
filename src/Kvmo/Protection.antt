-- ===== src/Kvmo/Protection.antt =====
-- What a change of rights does to the tables and to the pages together, and what a mapping may reach.
use sharkix.Common.{
  ℕ, ◌+◌, ◌≤◌, ◌≡◌, ◌≢◌, ◌⊎◌, inl, inr, refl, if◌then◌else◌, Bool, true, Bool-cases, Option, some,
  arith, sym, subst, ap, ◌∙◌,
}
use mathlib.Core.Option
use sharkix.Table.{UtHash}
use sharkix.Table.Laws.{find}
use sharkix.Pmem.{Range}
use sharkix.Memory.{AddressSpaces, Page, in_pages, protection}
use sharkix.Kvmo.{Vmo, VmoEntry, Vmos, subset, vmo_map_right, vmo_read, vmoset_invalid_handle}
use sharkix.Kvmo.Sets.{kvmoset_set_rights}
use sharkix.Kvmo.Mapped.{covers}
use sharkix.Kvmo.Lookups.{give}
use sharkix.Kvmo.View.{view}
use sharkix.Kvmo.Refinement.{Becomes}
use sharkix.Kvmo.Removal.{start-find, kvmoset_set_rights_lem}
use sharkix.Kvmo.Maps.{
  Outcome, ok, failed, Result, result, has, map_flags, kvmo_protect, protect_allowed,
}
use sharkix.Kvmo.Permissions.{
  Unprotectable, Permitted, protect_refused_lem, protect_allowed_lem, page_wide,
}
use sharkix.Kvmo.Coherent.{Coherent, Coherent-rights}

module _ ⦃h : UtHash⦄ (spaces : AddressSpaces) where
  -- What kvmo_protect did: nothing, for one of the reasons; or the mapping that starts at the address and
  -- has the length has the new rights, and all its pages the flags for them.
  abbrev pub Protects :
      (given : Bool) (handle va length rights : ℕ) → Vmos → spaces.Space → Result spaces → Type 0
  Protects given handle va length rights s x r =
      ((r ≡ result spaces s x failed) × Unprotectable spaces given handle va length rights s x)
      ⊎ ((e : VmoEntry) × (r.outcome ≡ Outcome.ok)
          × Permitted spaces given handle length rights s
          × (view (spaces.vmoset x) s va ≡ some e)
          × (e.virtual_address ≡ va)
          × (e.length ≡ length)
          × (e.vmo ≡ handle)
          × (spaces.vmoset r.space ≡ spaces.vmoset x)
          × (spaces.kernel r.space ≡ spaces.kernel x)
          × ((a : ℕ)
              → spaces.page r.space a ≡ (
                  if in_pages va length a
                  then Option.map
                      (λ (p : Page). record p { flags = protection (map_flags rights va) })
                      (spaces.page x a)
                  else spaces.page x a))
          × Becomes (spaces.vmoset x) s r.vmos
              (λ at. if covers e at then some (give rights e) else view (spaces.vmoset x) s at))

  pub kvmo_protect_lem :
      (given : Bool) (handle va length rights : ℕ) (s : Vmos) (x : spaces.Space)
      → Coherent spaces s x
      → spaces.vmoset x ≢ vmoset_invalid_handle
      → Protects given handle va length rights s x
          (kvmo_protect spaces given handle va length rights s x)
  unfolding kvmo_protect
  kvmo_protect_lem given handle va length rights s x c good =
      elim (Bool-cases (protect_allowed spaces given handle va length rights s x)) [
        | inr refused ↦ inl (
          simp (kvmo_protect, refused),
          protect_refused_lem spaces given handle va length rights s x refused,
        )
        | inl allowed ↦
            let (permitted, (e, at, start, size, object)) =
              protect_allowed_lem spaces given handle va length rights s x allowed in
            let (al, pos, top, real, placed) = c.aligned va e at in
            let (y, done) =
              spaces.protect_mapped x va length (map_flags rights va)
                (rw (sym start, sym size) placed)
                (λ a inside. c.backed va a e at (ground (arith, inside, start, size))) in
            let (set, kind) = spaces.protect_same x y va length (map_flags rights va) done in
            let (table, there, here) = start-find (spaces.vmoset x) va s e c.valid at start in
            elim (kvmoset_set_rights_lem (spaces.vmoset x) va rights s c.valid) [
              | inl (inl invalid, same) ↦ absurd (good invalid)
              | inl (inr (inl wide), same) ↦
                  absurd (page_wide spaces given handle length rights s permitted wide)
              | inl (inr (inr (inl missing)), same) ↦ absurd (ground (arith, missing, there))
              | inl (inr (inr (inr (other, found, absent))), same) ↦
                  absurd (ground (arith, found, there, absent, here))
              | inr (f, given_rights, start_f, at_f, becomes) ↦
                  let t = (kvmoset_set_rights (spaces.vmoset x) va rights s).0 in
                  let it : f ≡ e = ground (arith, at, at_f) in
                  let out : kvmo_protect spaces given handle va length rights s x
                      ≡ result spaces t y ok =
                    simp (kvmo_protect, allowed, done, set, given_rights) in
                  subst (Protects given handle va length rights s x) (sym out) (
                    inr (
                      f,
                      refl,
                      permitted,
                      at_f,
                      start_f,
                      ap (λ (z : VmoEntry). z.length) it ∙ size,
                      ap (λ (z : VmoEntry). z.vmo) it ∙ object,
                      set,
                      kind,
                      λ a. spaces.protect_page x y va length (map_flags rights va) a done,
                      becomes,
                    ))
            ]
      ]

  -- kvmo_protect keeps the set of the address space and its pages together.
  pub kvmo_protect-Coherent :
      (given : Bool) (handle va length rights : ℕ) (s : Vmos) (x : spaces.Space)
      → Coherent spaces s x
      → spaces.vmoset x ≢ vmoset_invalid_handle
      → Coherent spaces
          (kvmo_protect spaces given handle va length rights s x).vmos
          (kvmo_protect spaces given handle va length rights s x).space
  kvmo_protect-Coherent given handle va length rights s x c good =
      elim (kvmo_protect_lem given handle va length rights s x c good) [
        | inl (same, why) ↦
            subst (λ (r : Result spaces). Coherent spaces r.vmos r.space) (sym same) c
        | inr (e, o, permitted, here, start, size, object, set, kind, pages, becomes) ↦
            let r = kvmo_protect spaces given handle va length rights s x in
            let f = λ (p : Page). record p { flags = protection (map_flags rights va) } in
            Coherent-rights spaces s r.vmos x r.space e rights c set kind
              (λ a p at. elim (Bool-cases (in_pages va length a)) [
                | inl inside ↦ (f p, pages a ∙ rw (inside, at) refl)
                | inr outside ↦ (p, pages a ∙ rw (outside, at) refl)
              ])
              (ap (view (spaces.vmoset x) s) start ∙ here) becomes
      ]

  -- A physical range that a mapping may reach: a live object with VMO_MAP and the rights, over a backing
  -- that holds the whole range.
  abbrev pub Reaches :
      (backing : ℕ → Option Range) (handle offset length rights : ℕ) → Vmos → (phys : ℕ) → Type 0
  Reaches backing handle offset length rights s phys =
      (vmo : Vmo) × (pmem : Range) × (find handle s.vmos ≡ some vmo)
      × (has vmo.rights vmo_map_right ≡ true)
      × (subset rights vmo.rights ≡ true)
      × (has rights vmo_read ≡ true)
      × (backing vmo.pmem ≡ some pmem)
      × (offset + length ≤ pmem.length)
      × (phys ≡ pmem.phys_base + offset)
