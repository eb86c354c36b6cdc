-- ===== src/Kvmo/Mapping.antt =====
-- What mapping and unmapping do to the tables and to the pages together.
use sharkix.Common.{
  ℕ, ◌+◌, ◌-◌, ◌*◌, ◌/◌, ◌^◌, ◌<◌, ◌≡◌, ◌≢◌, ◌⊎◌, inl, inr, refl, if◌then◌else◌, Bool, true,
  Bool-cases, Option-cases, Option, some, arith, sym, subst, ◌∙◌,
}
use sharkix.Table.{UtHash}
use sharkix.Pmem.{Range}
use sharkix.Memory.{
  AddressSpaces, Answer-cases, accepts, refuses, halts, in_pages, range_allowed, frame, protection,
}
use sharkix.Memory.Allowed.{range_allowed_lem}
use sharkix.Kvmo.{VmoEntry, Vmos, vmo_invalid_handle}
use sharkix.Kvmo.Sets.{add_arguments, kvmoset_add}
use sharkix.Kvmo.Mapped.{covers}
use sharkix.Kvmo.View.{IsValid, view}
use sharkix.Kvmo.Refinement.{Refused, Becomes, kvmoset_add_lem}
use sharkix.Kvmo.Targets.{NoTarget, map_target-none}
use sharkix.Kvmo.Maps.{
  Outcome, ok, failed, panicked, Result, result, map_flags, kvmo_map, map_target,
}
use sharkix.Kvmo.Coherent.{Coherent, Coherent-same, Coherent-add}

module _ ⦃h : UtHash⦄ (spaces : AddressSpaces) where
  -- The pages and the set of the address space are as they were.
  abbrev pub SamePages : (x y : spaces.Space) → Type 0
  SamePages x y =
      (spaces.vmoset y ≡ spaces.vmoset x)
      × (spaces.kernel y ≡ spaces.kernel x)
      × ((a : ℕ) → spaces.page y a ≡ spaces.page x a)

  abbrev pub entry : (handle va offset length rights : ℕ) → VmoEntry
  entry handle va offset length rights = record {
    virtual_address = va;
    length = length;
    vmo = handle;
    offset = offset;
    rights = rights;
  }

  -- What kvmo_map did: it failed, with tables and pages as they were, for a test before the page tables,
  -- or the page tables refused the range, or the set refused the entry; or the machine halted in
  -- address_space_map_range; or it made a mapping of the physical range, in the pages and in the set.
  abbrev pub Maps :
      (given mem : Bool) (backing : ℕ → Option Range) (handle va offset length rights : ℕ)
      → Vmos
      → spaces.Space
      → Result spaces
      → Type 0
  Maps given mem backing handle va offset length rights s x r =
      ((r.outcome ≡ Outcome.failed)
        × (NoTarget spaces given backing handle offset length rights s
            ⊎ ((phys : ℕ) × (map_target spaces given backing handle offset length rights s
                  ≡ some phys)
                × ((spaces.map_range x va phys length (map_flags rights va) ≡ refuses)
                    ⊎ Refused mem (spaces.vmoset x) (entry handle va offset length rights) s)))
        × (r.vmos ≡ s)
        × SamePages x r.space)
      ⊎ ((phys : ℕ) × (r.outcome ≡ Outcome.panicked)
          × (map_target spaces given backing handle offset length rights s ≡ some phys)
          × (spaces.map_range x va phys length (map_flags rights va) ≡ halts)
          × (r.vmos ≡ s)
          × SamePages x r.space)
      ⊎ ((phys : ℕ) × (r.outcome ≡ Outcome.ok)
          × (map_target spaces given backing handle offset length rights s ≡ some phys)
          × (range_allowed (spaces.kernel x) va length ≡ true)
          × (handle ≢ vmo_invalid_handle)
          × (spaces.vmoset r.space ≡ spaces.vmoset x)
          × (spaces.kernel r.space ≡ spaces.kernel x)
          × ((a : ℕ)
              → spaces.page r.space a ≡ (
                  if in_pages va length a
                  then some (record {
                    physical = frame (phys + (a / 4096 * 4096 - va));
                    flags = protection (map_flags rights va);
                  })
                  else spaces.page x a))
          × Becomes (spaces.vmoset x) s r.vmos (λ at.
            if covers (entry handle va offset length rights) at
            then some (entry handle va offset length rights)
            else view (spaces.vmoset x) s at))

  real_handle :
      (set handle va length rights : ℕ)
      → add_arguments set handle va length rights ≡ true
      → handle ≢ vmo_invalid_handle
  unfolding add_arguments
  real_handle set handle va length rights ok_arguments = ground (arith, ok_arguments)

  -- Pages that were just mapped can be unmapped.
  map_undone :
      (x y : spaces.Space) (va pa length flags : ℕ)
      → spaces.map_range x va pa length flags ≡ accepts y
      → (z : spaces.Space) × (spaces.unmap_range y va length ≡ some z)
  map_undone x y va pa length flags mapped =
      let allowed : range_allowed (spaces.kernel y) va length ≡ true =
        subst (λ k. range_allowed k va length ≡ true)
          (sym (spaces.map_same x y va pa length flags mapped).1)
          (spaces.map_allowed x y va pa length flags mapped) in
      spaces.unmap_mapped y va length allowed (λ a inside. (
        record { physical = frame (pa + (a / 4096 * 4096 - va)); flags = protection flags },
        spaces.map_page x y va pa length flags a mapped ∙ rw inside refl,
      ))

  -- And then all pages are as they were.
  restored :
      (x y z : spaces.Space) (va pa length flags : ℕ)
      → spaces.map_range x va pa length flags ≡ accepts y
      → spaces.unmap_range y va length ≡ some z
      → (a : ℕ) → spaces.page z a ≡ spaces.page x a
  restored x y z va pa length flags mapped undone a = elim (Bool-cases (in_pages va length a)) [
    | inl inside ↦
        spaces.unmap_page y z va length a undone
        ∙ rw inside (sym (spaces.map_free x y va pa length flags a mapped inside))
    | inr outside ↦
        spaces.unmap_page y z va length a undone
        ∙ rw outside (spaces.map_page x y va pa length flags a mapped ∙ rw outside refl)
  ]

  pub kvmo_map_lem :
      (given mem : Bool) (backing : ℕ → Option Range) (handle va offset length rights : ℕ)
      (s : Vmos) (x : spaces.Space)
      → IsValid s
      → va < 2 ^ 64
      → Maps given mem backing handle va offset length rights s x
          (kvmo_map spaces given mem backing handle va offset length rights s x)
  unfolding kvmo_map
  kvmo_map_lem given mem backing handle va offset length rights s x v b =
      let target = map_target spaces given backing handle offset length rights s in
      let Goal = Maps given mem backing handle va offset length rights s x in
      elim (Option-cases target) [
        | inl refused ↦
            let out : kvmo_map spaces given mem backing handle va offset length rights s x
                ≡ result spaces s x failed =
              simp (kvmo_map, refused) in
            subst Goal (sym out) (
              inl (
                refl,
                inl (map_target-none spaces given backing handle offset length rights s refused),
                refl,
                (refl, refl, λ a. refl),
              ))
        | inr (phys, allowed) ↦
            elim (Answer-cases (spaces.map_range x va phys length (map_flags rights va))) [
              | inr (inr bad) ↦
                  let out : kvmo_map spaces given mem backing handle va offset length rights s x
                      ≡ result spaces s x panicked =
                    simp (kvmo_map, allowed, bad) in
                  subst Goal (sym out)
                    (inr (inl (phys, refl, allowed, bad, refl, (refl, refl, λ a. refl))))
              | inr (inl full) ↦
                  let out : kvmo_map spaces given mem backing handle va offset length rights s x
                      ≡ result spaces s x failed =
                    simp (kvmo_map, allowed, full) in
                  subst Goal (sym out)
                    (inl (refl, inr (phys, allowed, inl full), refl, (refl, refl, λ a. refl)))
              | inl (y, mapped) ↦
                  let (set, kind) =
                    spaces.map_same x y va phys length (map_flags rights va) mapped in
                  let allowed_range =
                    spaces.map_allowed x y va phys length (map_flags rights va) mapped in
                  let pages =
                    λ (a : ℕ). spaces.map_page x y va phys length (map_flags rights va) a mapped in
                  elim (kvmoset_add_lem mem (spaces.vmoset y) handle va offset length rights s v
                    b) [
                      | inl (why, refused) ↦
                          let (z, undone) =
                            map_undone x y va phys length (map_flags rights va) mapped in
                          let out : kvmo_map spaces given mem backing handle va offset length rights
                                s x
                              ≡ result spaces s z failed =
                            simp (kvmo_map, allowed, mapped, refused, undone) in
                          subst Goal (sym out) (
                            inl (
                              refl,
                              inr (
                                phys,
                                allowed,
                                inr (
                                    subst
                                      (λ k. Refused mem k (entry handle va offset length rights) s)
                                      set why),
                              ),
                              refl,
                              (
                                (spaces.unmap_same y z va length undone).0 ∙ set,
                                (spaces.unmap_same y z va length undone).1 ∙ kind,
                                restored x y z va phys length (map_flags rights va) mapped undone,
                              ),
                            ))
                      | inr (done, ok_arguments, free, becomes) ↦
                          let t =
                            (kvmoset_add mem (spaces.vmoset y) handle va offset length rights
                              s).0 in
                          let out : kvmo_map spaces given mem backing handle va offset length rights
                                s x
                              ≡ result spaces t y ok =
                            simp (kvmo_map, allowed, mapped, done) in
                          subst Goal (sym out) (
                            inr (
                              inr (
                                phys,
                                refl,
                                allowed,
                                allowed_range,
                                real_handle (spaces.vmoset y) handle va length rights ok_arguments,
                                set,
                                kind,
                                pages,
                                subst
                                    (λ k. Becomes k s t (λ at.
                                      if covers (entry handle va offset length rights) at
                                      then some (entry handle va offset length rights)
                                      else view k s at))
                                    set becomes,
                              )))
                    ]
            ]
      ]

  -- kvmo_map keeps the set of the address space and its pages together.
  pub kvmo_map-Coherent :
      (given mem : Bool) (backing : ℕ → Option Range) (handle va offset length rights : ℕ)
      (s : Vmos) (x : spaces.Space)
      → Coherent spaces s x
      → va < 2 ^ 64
      → Coherent spaces
          (kvmo_map spaces given mem backing handle va offset length rights s x).vmos
          (kvmo_map spaces given mem backing handle va offset length rights s x).space
  kvmo_map-Coherent given mem backing handle va offset length rights s x c b =
      elim (kvmo_map_lem given mem backing handle va offset length rights s x c.valid b) [
        | inl (o, why, same, (set, kind, pages)) ↦
            let r = kvmo_map spaces given mem backing handle va offset length rights s x in
            subst (λ t. Coherent spaces t r.space) (sym same)
              (Coherent-same spaces s x r.space c set kind pages)
        | inr (inl (phys, o, target, bad, same, (set, kind, pages))) ↦
            let r = kvmo_map spaces given mem backing handle va offset length rights s x in
            subst (λ t. Coherent spaces t r.space) (sym same)
              (Coherent-same spaces s x r.space c set kind pages)
        | inr (inr (phys, o, target, allowed, real, set, kind, pages, becomes)) ↦
            let (al, pos, top) = range_allowed_lem (spaces.kernel x) va length allowed in
            Coherent-add spaces s
              (kvmo_map spaces given mem backing handle va offset length rights s x).vmos x
              (kvmo_map spaces given mem backing handle va offset length rights s x).space
              (entry handle va offset length rights)
              (λ a. record {
                physical = frame (phys + (a / 4096 * 4096 - va));
                flags = protection (map_flags rights va);
              })
              c set kind pages (al, pos, top, real, allowed) becomes
      ]
