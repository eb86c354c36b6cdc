-- ===== src/Kvmo/Removal.antt =====
-- The removal of a mapping, the change of its rights and its lookup, as changes of the address map.
use sharkix.Common.{
  ℕ, ◌≡◌, ◌↔◌, ◌⊎◌, inl, inr, refl, ◌==◌, ==_iff, if◌then◌else◌, Bool, true, false, Bool-cases,
  Option-cases, none, some, arith, sym, subst, ◌∙◌, assoc, adjust, without,
}
use sharkix.Table.{UtHash}
use sharkix.Table.Laws.{find, del, modify, entries, entries-del, entries-modify, find-entries}
use sharkix.Kvmo.{VmoEntry, VmoSet, Vmos, subset, page_rights, vmoset_invalid_handle}
use sharkix.Kvmo.Sets.{change_entries, containing, kvmoset_find, kvmoset_remove, kvmoset_set_rights}
use sharkix.Kvmo.Mapped.{Mapped, covers}
use sharkix.Kvmo.Lookups.{
  give, without-Mapped, containing-without, adjust-Mapped, containing-adjust, containing_sound,
  containing_complete, assoc-start,
}
use sharkix.Kvmo.View.{IsValid, view, view-some, view-found}
use sharkix.Kvmo.Refinement.{Becomes, becomes-change}

module _ ⦃h : UtHash⦄ where
  -- For a valid table, kvmoset_remove takes out the mapping that starts at the address, with all its
  -- addresses and nothing else; it fails and changes nothing exactly when there is none.
  abbrev pub Removes : (handle va : ℕ) (s : Vmos) → Vmos × Bool → Type 0
  Removes handle va s r =
      (((find handle s.vmosets ≡ none)
          ⊎ ((set : VmoSet) × (find handle s.vmosets ≡ some set) × (find va set.entries ≡ none)))
        × (r ≡ (s, false)))
      ⊎ ((e : VmoEntry) × (r.1 ≡ true)
          × (e.virtual_address ≡ va)
          × (view handle s va ≡ some e)
          × Becomes handle s r.0 (λ at. if covers e at then none else view handle s at))

  -- The mapping that starts at an address is the one that covers it.
  pub start-view :
      (handle va : ℕ) (s : Vmos) (set : VmoSet) (e : VmoEntry)
      → IsValid s
      → find handle s.vmosets ≡ some set
      → assoc va (entries set.entries) ≡ some e
      → (e.virtual_address ≡ va) × (view handle s va ≡ some e)
  start-view handle va s set e v there at =
      let m = (v.sets handle set there).1 in
      let start = assoc-start va (entries set.entries) e m at in
      let covered : covers e va ≡ true = ground (arith, start) in
      (
        start.0,
        view-found handle va s set there
            ∙ containing_complete va va (entries set.entries) e m at covered,
      )

  -- The mapping that starts at an address is in the table of its set.
  pub start-find :
      (handle va : ℕ) (s : Vmos) (e : VmoEntry)
      → IsValid s
      → view handle s va ≡ some e
      → e.virtual_address ≡ va
      → (set : VmoSet) × (find handle s.vmosets ≡ some set) × (find va set.entries ≡ some e)
  start-find handle va s e v at start =
      let (set, there, found) = view-some handle va s e at in
      let (inside, key) =
        containing_sound va (entries set.entries) e (v.sets handle set there).1 found in
      (
        set,
        there,
        subst (λ i. find i set.entries ≡ some e) start
            (find-entries e.virtual_address set.entries ∙ key),
      )

  -- HASH_DEL of the mapping that starts at an address.
  pub removed :
      (handle va : ℕ) (s : Vmos) (set : VmoSet) (e : VmoEntry)
      → IsValid s
      → find handle s.vmosets ≡ some set
      → find va set.entries ≡ some e
      → Becomes handle s
          (change_entries handle (del va) s)
          (λ at. if covers e at then none else view handle s at)
  removed handle va s set e v there at =
      let l = entries set.entries in
      let m = (v.sets handle set there).1 in
      let here : assoc va l ≡ some e = sym (find-entries va set.entries) ∙ at in
      let less : entries (del va set.entries) ≡ without va l = entries-del va set.entries in
      becomes-change (del va) (λ x. if covers e x then none else view handle s x) handle s set v
        there (subst Mapped (sym less) (without-Mapped va l m))
        (λ x.
          subst (λ z. containing x z ≡ (if covers e x then none else view handle s x)) (sym less)
            (rw (view-found handle x s set there) (containing-without x va l e m here)))

  pub kvmoset_remove_lem :
      (handle va : ℕ) (s : Vmos) → IsValid s → Removes handle va s (kvmoset_remove handle va s)
  unfolding kvmoset_remove
  kvmoset_remove_lem handle va s v = elim (Option-cases (find handle s.vmosets)) [
    | inl missing ↦ inl (inl missing, simp (kvmoset_remove, missing))
    | inr (set, there) ↦ elim (Option-cases (find va set.entries)) [
      | inl absent ↦ inl (inr (set, there, absent), simp (kvmoset_remove, there, absent))
      | inr (e, at) ↦
          let out : kvmoset_remove handle va s ≡ (change_entries handle (del va) s, true) =
            simp (kvmoset_remove, there, at) in
          let (start, here) =
            start-view handle va s set e v there (sym (find-entries va set.entries) ∙ at) in
          subst (Removes handle va s) (sym out)
            (inr (e, refl, start, here, removed handle va s set e v there at))
    ]
  ]

  -- What kvmoset_set_rights did: it gave the mapping that starts at the address new rights, and changed
  -- nothing else; or nothing.
  abbrev pub SetsRights : (handle va rights : ℕ) (s : Vmos) → Vmos × Bool → Type 0
  SetsRights handle va rights s r =
      (((handle ≡ vmoset_invalid_handle)
          ⊎ (subset rights page_rights ≡ false)
          ⊎ (find handle s.vmosets ≡ none)
          ⊎ ((set : VmoSet) × (find handle s.vmosets ≡ some set) × (find va set.entries ≡ none)))
        × (r ≡ (s, false)))
      ⊎ ((e : VmoEntry) × (r.1 ≡ true)
          × (e.virtual_address ≡ va)
          × (view handle s va ≡ some e)
          × Becomes handle s r.0
              (λ at. if covers e at then some (give rights e) else view handle s at))

  -- A write to the rights of the mapping that starts at an address.
  given :
      (handle va rights : ℕ) (s : Vmos) (set : VmoSet) (e : VmoEntry)
      → IsValid s
      → find handle s.vmosets ≡ some set
      → find va set.entries ≡ some e
      → Becomes handle s
          (change_entries handle (modify va (give rights)) s)
          (λ at. if covers e at then some (give rights e) else view handle s at)
  given handle va rights s set e v there at =
      let l = entries set.entries in
      let m = (v.sets handle set there).1 in
      let here : assoc va l ≡ some e = sym (find-entries va set.entries) ∙ at in
      let same : entries (modify va (give rights) set.entries) ≡ adjust va (give rights) l =
        entries-modify va (give rights) set.entries in
      becomes-change (modify va (give rights))
        (λ x. if covers e x then some (give rights e) else view handle s x) handle s set v there
        (subst Mapped (sym same) (adjust-Mapped va rights l m))
        (λ x.
          subst
            (λ z. containing x z ≡ (if covers e x then some (give rights e) else view handle s x))
            (sym same)
            (rw (view-found handle x s set there) (containing-adjust x va rights l e m here)))

  pub kvmoset_set_rights_lem :
      (handle va rights : ℕ) (s : Vmos)
      → IsValid s
      → SetsRights handle va rights s (kvmoset_set_rights handle va rights s)
  unfolding kvmoset_set_rights
  kvmoset_set_rights_lem handle va rights s v =
      elim (Bool-cases (handle == vmoset_invalid_handle)) [
        | inl bad ↦ inl (inl ((==_iff handle vmoset_invalid_handle).0 bad), simp bad)
        | inr good ↦ elim (Bool-cases (subset rights page_rights)) [
          | inr wide ↦ inl (inr (inl wide), simp (good, wide))
          | inl narrow ↦ elim (Option-cases (find handle s.vmosets)) [
            | inl missing ↦ inl (inr (inr (inl missing)), simp (good, narrow, missing))
            | inr (set, there) ↦ elim (Option-cases (find va set.entries)) [
              | inl absent ↦
                  inl (inr (inr (inr (set, there, absent))), simp (good, narrow, there, absent))
              | inr (e, at) ↦
                  let out : kvmoset_set_rights handle va rights s
                      ≡ (change_entries handle (modify va (give rights)) s, true) =
                    simp (good, narrow, there, at) in
                  let (start, here) =
                    start-view handle va s set e v there (sym (find-entries va set.entries) ∙ at) in
                  subst (SetsRights handle va rights s) (sym out)
                    (inr (e, refl, start, here, given handle va rights s set e v there at))
            ]
          ]
        ]
      ]

  -- For a valid table, kvmoset_find gives out exactly the mapping of the set that covers the address.
  pub kvmoset_find_iff :
      (handle va : ℕ) (s : Vmos) (e : VmoEntry)
      → IsValid s
      → (kvmoset_find true handle va s ≡ some e) ↔ (
          (set : VmoSet) × (find handle s.vmosets ≡ some set)
          × (find e.virtual_address set.entries ≡ some e)
          × (covers e va ≡ true))
  unfolding kvmoset_find
  kvmoset_find_iff handle va s e v = (
    λ found. elim (Option-cases (find handle s.vmosets)) [
      | inl missing ↦ absurd (ground arith)
      | inr (set, there) ↦
          let at : containing va (entries set.entries) ≡ some e = ground (arith, there) in
          let (inside, start) =
            containing_sound va (entries set.entries) e (v.sets handle set there).1 at in
          (set, there, find-entries e.virtual_address set.entries ∙ start, inside)
    ],
    λ (set, there, start, inside).
        view-found handle va s set there
        ∙ containing_complete va e.virtual_address (entries set.entries) e
            (v.sets handle set there).1 (sym (find-entries e.virtual_address set.entries) ∙ start)
            inside,
  )
