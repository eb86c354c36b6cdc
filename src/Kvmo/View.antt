-- ===== src/Kvmo/View.antt =====
-- The sets of mappings as the table of kvmo.c holds them: the invariant, and the address map that each
-- set stands for.
use sharkix.Common.{
  ℕ, ◌≤◌, ◌≡◌, inl, inr, refl, ◌==◌, ==_iff, if◌then◌else◌, true, Bool-cases, Option-cases, Option,
  none, some, arith, sym, subst,
}
use sharkix.Table.{UtHash}
use sharkix.Table.Laws.{Table, find, modify, entries, find-modify, find-modify_inv}
use sharkix.Kvmo.{VmoEntry, VmoSet, Vmos}
use sharkix.Kvmo.Sets.{change_entries, with_entries, containing, kvmoset_find}
use sharkix.Kvmo.Mapped.{Mapped}

module _ ⦃h : UtHash⦄ where
  -- Handles from the counter on are free; each set stands under its own handle, and its mappings do
  -- not overlap.
  pub record IsValid (s : Vmos) : Type 0 where
    pub fresh : (k : ℕ) → s.next_vmoset_handle ≤ k → find k s.vmosets ≡ none
    pub sets :
        (k : ℕ) (set : VmoSet)
        → find k s.vmosets ≡ some set
        → (set.handle ≡ k) × Mapped (entries set.entries)

  -- What a set says of an address.
  abbrev pub view : (handle : ℕ) → Vmos → ℕ → Option VmoEntry
  view handle s va = kvmoset_find true handle va s

  pub view-found :
      (handle va : ℕ) (s : Vmos) (set : VmoSet)
      → find handle s.vmosets ≡ some set
      → view handle s va ≡ containing va (entries set.entries)
  unfolding kvmoset_find
  view-found handle va s set e = rw e refl

  pub view-change :
      (f : Table VmoEntry → Table VmoEntry) (handle j va : ℕ) (s : Vmos) (set : VmoSet)
      → find handle s.vmosets ≡ some set
      → view j (change_entries handle f s) va
        ≡ (if handle == j then containing va (entries (f set.entries)) else view j s va)
  unfolding kvmoset_find change_entries
  view-change f handle j va s set e = elim (Bool-cases (handle == j)) [
    | inl same ↦
        let found : find j (modify handle (with_entries f) s.vmosets) ≡ some (with_entries f set) =
          ground (arith, find-modify j handle (with_entries f) s.vmosets, ==_iff handle j) in
        rw (same, found) refl
    | inr other ↦
        let found : find j (modify handle (with_entries f) s.vmosets) ≡ find j s.vmosets =
          ground (arith, find-modify j handle (with_entries f) s.vmosets) in
        rw (other, found) refl
  ]

  pub change-IsValid :
      (f : Table VmoEntry → Table VmoEntry) (handle : ℕ) (s : Vmos) (set : VmoSet)
      → IsValid s
      → find handle s.vmosets ≡ some set
      → Mapped (entries (f set.entries))
      → IsValid (change_entries handle f s)
  unfolding change_entries
  change-IsValid f handle s set v e m = record {
    fresh = λ k b. ground (arith, find-modify k handle (with_entries f) s.vmosets, v.fresh k);
    sets = λ k x found.
        let (y, before, same) = find-modify_inv k handle (with_entries f) s.vmosets found in
        elim (Bool-cases (handle == k)) [
          | inl here ↦
              let it : y ≡ set = ground (arith, here, ==_iff handle k, before, e) in
              let now : x ≡ with_entries f set = ground (arith, here, same, it) in
              (
                ground (arith, now, (v.sets handle set e).0, ==_iff handle k),
                subst (λ (z : VmoSet). Mapped (entries z.entries)) (sym now) m,
              )
          | inr there ↦
              let now : x ≡ y = ground (arith, there, same) in
              subst (λ (z : VmoSet). (z.handle ≡ k) × Mapped (entries z.entries)) (sym now)
                (v.sets k y before)
        ];
  }

  -- Whether a set is found tells what its view is.
  pub view-other :
      (handle va : ℕ) (s t : Vmos)
      → find handle t.vmosets ≡ find handle s.vmosets
      → view handle t va ≡ view handle s va
  unfolding kvmoset_find
  view-other handle va s t e = rw e refl

  -- An address that is mapped is so by a set of the table.
  pub view-some :
      (handle va : ℕ) (s : Vmos) (e : VmoEntry)
      → view handle s va ≡ some e
      → (set : VmoSet) × (find handle s.vmosets ≡ some set)
        × (containing va (entries set.entries) ≡ some e)
  unfolding kvmoset_find
  view-some handle va s e found = elim (Option-cases (find handle s.vmosets)) [
    | inl missing ↦ absurd (ground arith)
    | inr (set, there) ↦ (set, there, ground (arith, there))
  ]
