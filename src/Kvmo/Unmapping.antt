-- ===== src/Kvmo/Unmapping.antt =====
-- What unmapping does to the tables and to the pages together, and that kvmoset_unmap_all ends.
use sharkix.Common.{
  ℕ, ◌≡◌, ◌⊎◌, inl, inr, refl, ◌==◌, ==_iff, if◌then◌else◌, Bool, true, false, not, ◌&&◌, ◌||◌,
  Bool-cases, Option-cases, Option, none, some, arith, sym, subst, ap, ◌∙◌, length,
}
use sharkix.Table.{UtHash}
use sharkix.Table.Laws.{find, del, find-entries}
use sharkix.Memory.{AddressSpaces, in_pages, range_allowed}
use sharkix.Kvmo.{VmoEntry, VmoSet, Vmos, vmo_invalid_handle}
use sharkix.Kvmo.Sets.{change_entries}
use sharkix.Kvmo.Mapped.{covers}
use sharkix.Kvmo.View.{IsValid, view}
use sharkix.Kvmo.Refinement.{Becomes}
use sharkix.Kvmo.Removal.{start-find, removed, start-view}
use sharkix.Kvmo.Maps.{Outcome, ok, failed, Result, result, kvmo_unmap_exact, kvmo_unmap}
use sharkix.Kvmo.Coherent.{Coherent, Coherent-remove}

module _ ⦃h : UtHash⦄ (spaces : AddressSpaces) where
  -- The mapping that starts at the address went, with all its pages.
  abbrev pub Gone : (handle va : ℕ) → Vmos → spaces.Space → Result spaces → Type 0
  Gone handle va s x r =
      (e : VmoEntry) × (r.outcome ≡ Outcome.ok)
      × (view (spaces.vmoset x) s va ≡ some e)
      × (e.virtual_address ≡ va)
      × (e.vmo ≡ handle)
      × (spaces.vmoset r.space ≡ spaces.vmoset x)
      × (spaces.kernel r.space ≡ spaces.kernel x)
      × ((a : ℕ)
          → spaces.page r.space a ≡ (if in_pages va e.length a then none else spaces.page x a))
      × Becomes (spaces.vmoset x) s r.vmos
          (λ at. if covers e at then none else view (spaces.vmoset x) s at)

  -- The arguments name the mapping that is found at the address.
  abbrev pub names : (given check_length : Bool) (handle va length : ℕ) → Option VmoEntry → Bool
  names given check_length handle va length none = false
  names given check_length handle va length (some e) =
      given
      && e.virtual_address == va
      && e.vmo == handle
      && not (check_length && not (e.length == length))

  -- What an unmapping did: nothing; or the mapping that its arguments name went.
  abbrev pub Unmaps :
      (given check_length : Bool) (handle va length : ℕ)
      → Vmos
      → spaces.Space
      → Result spaces
      → Type 0
  Unmaps given check_length handle va length s x r =
      (r ≡ result spaces s x failed)
      ⊎ ((names given check_length handle va length (view (spaces.vmoset x) s va) ≡ true)
          × Gone handle va s x r)

  pub kvmo_unmap_exact-Unmaps :
      (given check_length : Bool) (handle va length : ℕ) (s : Vmos) (x : spaces.Space)
      → IsValid s
      → Unmaps given check_length handle va length s x
          (kvmo_unmap_exact spaces given check_length handle va length s x)
  unfolding kvmo_unmap_exact
  kvmo_unmap_exact-Unmaps given check_length handle va length s x v =
      elim (Bool-cases (not given || handle == vmo_invalid_handle || check_length && length == 0)) [
        | inl bad ↦ inl (simp (kvmo_unmap_exact, bad))
        | inr good ↦ elim (Option-cases (find (spaces.vmoset x) s.vmosets)) [
          | inl missing ↦ inl (simp (kvmo_unmap_exact, good, missing))
          | inr (set, there) ↦ elim (Option-cases (find va set.entries)) [
            | inl absent ↦ inl (simp (kvmo_unmap_exact, good, there, absent))
            | inr (e, at) ↦
                elim (Bool-cases
                  (not (e.vmo == handle) || check_length && not (e.length == length))) [
                    | inl other ↦ inl (simp (kvmo_unmap_exact, good, there, at, other))
                    | inr same ↦ elim (Option-cases (spaces.unmap_range x va e.length)) [
                      | inl stuck ↦ inl (simp (kvmo_unmap_exact, good, there, at, same, stuck))
                      | inr (y, undone) ↦
                          let out : kvmo_unmap_exact spaces given check_length handle va length s x
                              ≡ result spaces (change_entries (spaces.vmoset x) (del va) s) y ok =
                            simp (kvmo_unmap_exact, good, there, at, same, undone) in
                          let (start, here) =
                            start-view (spaces.vmoset x) va s set e v there
                              (sym (find-entries va set.entries) ∙ at) in
                          let named : names given check_length handle va length
                                (view (spaces.vmoset x) s va)
                              ≡ true =
                            ground (arith, good, here, start, same, ==_iff e.virtual_address va) in
                          subst (Unmaps given check_length handle va length s x) (sym out) (
                            inr (
                              named,
                              (
                                e,
                                refl,
                                here,
                                start,
                                ground (arith, same, ==_iff e.vmo handle),
                                (spaces.unmap_same x y va e.length undone).0,
                                (spaces.unmap_same x y va e.length undone).1,
                                λ a. spaces.unmap_page x y va e.length a undone,
                                removed (spaces.vmoset x) va s set e v there at,
                              ),
                            ))
                    ]
                  ]
          ]
        ]
      ]

  pub kvmo_unmap_exact-Coherent :
      (given check_length : Bool) (handle va length : ℕ) (s : Vmos) (x : spaces.Space)
      → Coherent spaces s x
      → Coherent spaces
          (kvmo_unmap_exact spaces given check_length handle va length s x).vmos
          (kvmo_unmap_exact spaces given check_length handle va length s x).space
  kvmo_unmap_exact-Coherent given check_length handle va length s x c =
      elim (kvmo_unmap_exact-Unmaps given check_length handle va length s x c.valid) [
        | inl same ↦ subst (λ (r : Result spaces). Coherent spaces r.vmos r.space) (sym same) c
        | inr (named, (e, o, here, start, vmo, set, kind, pages, becomes)) ↦
            let r = kvmo_unmap_exact spaces given check_length handle va length s x in
            Coherent-remove spaces s r.vmos x r.space e c set kind
              (λ a.
                pages a
                ∙ ap (λ k. if in_pages k e.length a then none else spaces.page x a) (sym start))
              (ap (view (spaces.vmoset x) s) start ∙ here) becomes
      ]

  pub kvmo_unmap-Coherent :
      (handle va length : ℕ) (s : Vmos) (x : spaces.Space)
      → Coherent spaces s x
      → Coherent spaces
          (kvmo_unmap spaces true handle va length s x).vmos
          (kvmo_unmap spaces true handle va length s x).space
  unfolding kvmo_unmap
  kvmo_unmap-Coherent handle va length s x c =
      kvmo_unmap_exact-Coherent true true handle va length s x c

  -- A mapping of the set can be unmapped: its pages are all there.
  unmap_exact_ok :
      (check_length : Bool) (handle va length : ℕ) (s : Vmos) (x : spaces.Space) (set : VmoSet)
      (e : VmoEntry)
      → Coherent spaces s x
      → find (spaces.vmoset x) s.vmosets ≡ some set
      → find va set.entries ≡ some e
      → e.vmo ≡ handle
      → (check_length && not (e.length == length)) ≡ false
      → (y : spaces.Space) × (kvmo_unmap_exact spaces true check_length handle va length s x
          ≡ result spaces (change_entries (spaces.vmoset x) (del va) s) y ok)
        × (spaces.vmoset y ≡ spaces.vmoset x)
  unfolding kvmo_unmap_exact
  unmap_exact_ok check_length handle va length s x set e c there at vmo size =
      let (start, here) =
        start-view (spaces.vmoset x) va s set e c.valid there
          (sym (find-entries va set.entries) ∙ at) in
      let (al, pos, top, real, allowed) = c.aligned va e here in
      let (y, undone) =
        spaces.unmap_mapped x va e.length
          (subst (λ a. range_allowed (spaces.kernel x) a e.length ≡ true) start allowed)
          (λ a inside. c.backed va a e here (ground (arith, inside, start))) in
      let bad : (handle == vmo_invalid_handle || check_length && length == 0) ≡ false =
        ground (arith, real, vmo, size, pos, ==_iff e.length length) in
      let same : (not (e.vmo == handle) || check_length && not (e.length == length)) ≡ false =
        ground (arith, vmo, size, ==_iff e.vmo handle) in
      (
        y,
        simp (kvmo_unmap_exact, bad, there, at, same, undone),
        (spaces.unmap_same x y va e.length undone).0,
      )

  pub unmap_ok :
      (handle va length : ℕ) (s : Vmos) (x : spaces.Space) (set : VmoSet) (e : VmoEntry)
      → Coherent spaces s x
      → find (spaces.vmoset x) s.vmosets ≡ some set
      → find va set.entries ≡ some e
      → e.vmo ≡ handle
      → e.length ≡ length
      → (y : spaces.Space) × (kvmo_unmap spaces true handle va length s x
          ≡ result spaces (change_entries (spaces.vmoset x) (del va) s) y ok)
        × (spaces.vmoset y ≡ spaces.vmoset x)
  unfolding kvmo_unmap
  unmap_ok handle va length s x set e c there at vmo size =
      unmap_exact_ok true handle va length s x set e c there at vmo
        (ground (arith, size, ==_iff e.length length))

  -- With tables and pages together, kvmo_unmap_exact fails and changes nothing exactly when its arguments
  -- name no mapping: none of that object starts at the address, or the length is checked and another; else
  -- the mapping goes from the set with all its pages, and no other address, page or set is touched.
  pub kvmo_unmap_exact_lem :
      (given check_length : Bool) (handle va length : ℕ) (s : Vmos) (x : spaces.Space)
      → Coherent spaces s x
      → ((names given check_length handle va length (view (spaces.vmoset x) s va) ≡ false)
          × (kvmo_unmap_exact spaces given check_length handle va length s x
              ≡ result spaces s x failed))
        ⊎ ((names given check_length handle va length (view (spaces.vmoset x) s va) ≡ true)
            × Gone handle va s x (kvmo_unmap_exact spaces given check_length handle va length s x))
  kvmo_unmap_exact_lem given check_length handle va length s x c =
      let r = kvmo_unmap_exact spaces given check_length handle va length s x in
      elim (Bool-cases (names given check_length handle va length (view (spaces.vmoset x) s va))) [
        | inl named ↦ elim (Option-cases (view (spaces.vmoset x) s va)) [
          | inl bare ↦ absurd (ground (arith, named, bare))
          | inr (e, at) ↦
              let present : given ≡ true = ground (arith, named, at) in
              let start : e.virtual_address ≡ va =
                ground (arith, named, at, ==_iff e.virtual_address va) in
              let vmo : e.vmo ≡ handle = ground (arith, named, at, ==_iff e.vmo handle) in
              let size : (check_length && not (e.length == length)) ≡ false =
                ground (arith, named, at) in
              let (set, there, found) = start-find (spaces.vmoset x) va s e c.valid at start in
              let (y, out, same) =
                unmap_exact_ok check_length handle va length s x set e c there found vmo size in
              let done : r.outcome ≡ Outcome.ok =
                ap (λ g. (kvmo_unmap_exact spaces g check_length handle va length s x).outcome)
                  present
                ∙ ap (λ (q : Result spaces). q.outcome) out in
              elim (kvmo_unmap_exact-Unmaps given check_length handle va length s x c.valid) [
                | inl refused ↦
                    absurd (ground (arith, done, ap (λ (q : Result spaces). q.outcome) refused))
                | inr gone ↦ inr (named, gone.1)
              ]
        ]
        | inr other ↦
            elim (kvmo_unmap_exact-Unmaps given check_length handle va length s x c.valid) [
              | inl refused ↦ inl (other, refused)
              | inr gone ↦ absurd (ground (arith, other, gone.0))
            ]
      ]
