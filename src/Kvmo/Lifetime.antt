-- ===== src/Kvmo/Lifetime.antt =====
-- What the creation and the end of memory objects and of sets, and calls for other sets, leave of one
-- address space.
use sharkix.Common.{
  ℕ, ◌+◌, ◌^◌, ◌<◌, ◌≡◌, ◌⊎◌, inl, inr, refl, ◌==◌, ==_iff, Bool, true, false, Bool-cases,
  Option-cases, Option, none, some, arith, sym, subst,
}
use sharkix.Table.{UtHash}
use sharkix.Table.Laws.{
  find, add, del, empty, entries, entries-empty, find-add, find-del, find-empty,
}
use sharkix.Kvmo.{
  VmoEntry, VmoSet, Vmos, vmoset_invalid_handle, vmo_invalid_handle, subset, vmo_valid_rights,
}
use sharkix.Kvmo.Sets.{containing, kvmoset_find, kvmoset_new, kvmoset_destroy}
use sharkix.Kvmo.Mapped.{Mapped}
use sharkix.Kvmo.View.{IsValid, view}
use sharkix.Kvmo.Objects.{kvmo_init, kvmo_create_from_pmem, kvmo_destroy}

module _ ⦃h : UtHash⦄ where
  -- The counter of the sets has not come to its end.
  abbrev pub HasRoom : Vmos → Type 0
  HasRoom s = s.next_vmoset_handle + 1 < 2 ^ 64

  pub kvmoset_new-IsValid : (s : Vmos) → IsValid s → HasRoom s → IsValid (kvmoset_new true true s).0
  unfolding kvmoset_new
  kvmoset_new-IsValid s v room =
      let n = s.next_vmoset_handle in
      let new : VmoSet = record { handle = n; entries = empty VmoEntry } in
      let law = λ (k : ℕ). find-add k n new s.vmosets (v.fresh n (omega arith)) in
      record {
        fresh = λ k b. ground (arith, law k, v.fresh k, room, ==_iff n k);
        sets = λ k x found. elim (Bool-cases (n == k)) [
          | inl here ↦
              let it : new ≡ x = ground (arith, law k, here, found) in
              subst (λ (z : VmoSet). (z.handle ≡ k) × Mapped (entries z.entries)) it
                ((==_iff n k).0 here, subst Mapped (sym (entries-empty)) tt)
          | inr there ↦ v.sets k x (ground (arith, law k, there, found))
        ];
      }

  pub view-kvmoset_new :
      (s : Vmos) (j va : ℕ) → IsValid s → view j (kvmoset_new true true s).0 va ≡ view j s va
  unfolding kvmoset_new kvmoset_find
  view-kvmoset_new s j va v =
      let n = s.next_vmoset_handle in
      let new : VmoSet = record { handle = n; entries = empty VmoEntry } in
      let law = find-add j n new s.vmosets (v.fresh n (omega arith)) in
      elim (Bool-cases (n == j)) [
        | inl here ↦
            let absent : find j s.vmosets ≡ none = v.fresh j (ground (arith, ==_iff n j, here)) in
            let there : find j (add n new s.vmosets) ≡ some new = ground (arith, law, here) in
            let bare : containing va (entries (empty VmoEntry)) ≡ none =
              subst (λ l. containing va l ≡ none) (sym (entries-empty))
                (unfold containing in refl) in
            rw (there, absent) bare
        | inr other ↦
            let there : find j (add n new s.vmosets) ≡ find j s.vmosets =
              ground (arith, law, other) in
            rw there refl
      ]

  -- kvmoset_destroy does nothing, or takes the set out of the table.
  pub kvmoset_destroy-cases :
      (handle : ℕ) (s : Vmos)
      → ((kvmoset_destroy handle s).0 ≡ s)
        ⊎ ((kvmoset_destroy handle s).0 ≡ record s { vmosets = del handle s.vmosets })
  unfolding kvmoset_destroy
  kvmoset_destroy-cases handle s = elim (Bool-cases (handle == vmoset_invalid_handle)) [
    | inl bad ↦ inl (simp bad)
    | inr good ↦ elim (Option-cases (find handle s.vmosets)) [
      | inl missing ↦ inl (simp (good, missing))
      | inr (set, there) ↦ inr (simp (good, there))
    ]
  ]

  pub del-IsValid :
      (handle : ℕ) (s : Vmos) → IsValid s → IsValid (record s { vmosets = del handle s.vmosets })
  del-IsValid handle s v = record {
    fresh = λ k b. ground (arith, find-del k handle s.vmosets, v.fresh k);
    sets = λ k x found. v.sets k x (ground (arith, find-del k handle s.vmosets, found));
  }

  pub del_view :
      (handle j va : ℕ) (s : Vmos) (e : VmoEntry)
      → view j (record s { vmosets = del handle s.vmosets }) va ≡ some e
      → view j s va ≡ some e
  unfolding kvmoset_find
  del_view handle j va s e found = elim (Bool-cases (handle == j)) [
    | inl here ↦
        let absent : find j (del handle s.vmosets) ≡ none =
          ground (arith, find-del j handle s.vmosets, here) in
        absurd (ground (arith, found, absent))
    | inr other ↦
        let same : find j (del handle s.vmosets) ≡ find j s.vmosets =
          ground (arith, find-del j handle s.vmosets, other) in
        subst
          (λ (o : Option VmoSet).
            elim o [ none ↦ none | some set ↦ containing va (entries set.entries) ] ≡ some e)
          same found
  ]

  pub init_view : (j va : ℕ) → view j kvmo_init va ≡ none
  unfolding kvmo_init kvmoset_find
  init_view j va = rw (find-empty {V = VmoSet} j) refl

  pub init-IsValid : IsValid kvmo_init
  unfolding kvmo_init
  init-IsValid = record {
    fresh = λ k b. find-empty k;
    sets = λ k x found. absurd (ground (arith, find-empty {V = VmoSet} k, found));
  }

  -- Memory objects and the sets of mappings have nothing in common.
  pub kvmo_create_sets :
      (out mem : Bool) (pmem rights : ℕ) (s : Vmos)
      → let t = (kvmo_create_from_pmem out mem pmem rights s).0 in
        (t.vmosets ≡ s.vmosets) × (t.next_vmoset_handle ≡ s.next_vmoset_handle)
  unfolding kvmo_create_from_pmem
  kvmo_create_sets false mem pmem rights s = (refl, refl)
  kvmo_create_sets true mem pmem rights s = elim (Bool-cases (subset rights vmo_valid_rights)) [
    | inr wide ↦ (rw wide refl, rw wide refl)
    | inl narrow ↦ elim (Bool-cases mem) [
      | inl room ↦ (rw (narrow, room) refl, rw (narrow, room) refl)
      | inr full ↦ (rw (narrow, full) refl, rw (narrow, full) refl)
    ]
  ]

  pub kvmo_destroy_sets :
      (handle : ℕ) (s : Vmos)
      → let t = (kvmo_destroy handle s).0 in
        (t.vmosets ≡ s.vmosets) × (t.next_vmoset_handle ≡ s.next_vmoset_handle)
  unfolding kvmo_destroy
  kvmo_destroy_sets handle s = elim (Bool-cases (handle == vmo_invalid_handle)) [
    | inl bad ↦ (rw bad refl, rw bad refl)
    | inr good ↦ elim (Option-cases (find handle s.vmos)) [
      | inl missing ↦ (rw (good, missing) refl, rw (good, missing) refl)
      | inr (vmo, there) ↦ (rw (good, there) refl, rw (good, there) refl)
    ]
  ]
