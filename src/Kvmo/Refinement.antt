-- ===== src/Kvmo/Refinement.antt =====
-- Each change of a set of mappings, as a change of the address map that the set stands for.
use sharkix.Common.{
  ℕ, ◌+◌, ◌%◌, ◌^◌, ◌<◌, ◌≡◌, ◌⊎◌, inl, inr, refl, ◌==◌, ==_iff, if◌then◌else◌, Bool, true, false,
  Bool-cases, Option-cases, Option, none, some, [], ◌∷◌, ◌++◌, arith, sym, subst, ◌∙◌,
}
use sharkix.Table.{UtHash}
use sharkix.Table.Laws.{Table, find, add, entries, entries-add}
use sharkix.Kvmo.{VmoEntry, VmoSet, Vmos}
use sharkix.Kvmo.Sets.{change_entries, containing, add_arguments, kvmoset_add}
use sharkix.Kvmo.Mapped.{
  Mapped, Proper, AllApart, covers, meets-cases, append-Mapped, containing-append, apart-containing,
}
use sharkix.Kvmo.Lookups.{free-start}
use sharkix.Kvmo.View.{IsValid, view, view-found, view-change, change-IsValid}

module _ ⦃h : UtHash⦄ where
  -- After a change, the set with this handle says `f` of each address, and every other says what it
  -- said.
  abbrev pub Becomes : (handle : ℕ) (s t : Vmos) → (ℕ → Option VmoEntry) → Type 0
  Becomes handle s t f =
      IsValid t × ((j va : ℕ) → view j t va ≡ (if handle == j then f va else view j s va))

  pub becomes-here :
      (handle : ℕ) (s t : Vmos) (f : ℕ → Option VmoEntry)
      → Becomes handle s t f
      → (va : ℕ) → view handle t va ≡ f va
  becomes-here handle s t f b va = ground (arith, b.1 handle va, ==_iff handle handle)

  pub becomes-change :
      (f : Table VmoEntry → Table VmoEntry) (g : ℕ → Option VmoEntry) (handle : ℕ) (s : Vmos)
      (set : VmoSet)
      → IsValid s
      → find handle s.vmosets ≡ some set
      → Mapped (entries (f set.entries))
      → ((va : ℕ) → containing va (entries (f set.entries)) ≡ g va)
      → Becomes handle s (change_entries handle f s) g
  becomes-change f g handle s set v e m same = (
    change-IsValid f handle s set v e m,
    λ j va. ground (arith, view-change f handle j va s set e, same va),
  )

  -- A bad argument, no memory, no set, or an address that is taken.
  abbrev pub Refused : (mem : Bool) (handle : ℕ) → VmoEntry → Vmos → Type 0
  Refused mem handle new s =
      (add_arguments handle new.vmo new.virtual_address new.length new.rights ≡ false)
      ⊎ (mem ≡ false)
      ⊎ (find handle s.vmosets ≡ none)
      ⊎ ((va : ℕ) × (e : VmoEntry) × (covers new va ≡ true) × (view handle s va ≡ some e))

  -- What kvmoset_add did: nothing, for a bad argument, no memory, no set or an address that is taken;
  -- or exactly the addresses of the new mapping, free before, are its own now.
  abbrev pub Adds : (mem : Bool) (handle : ℕ) → VmoEntry → Vmos → Vmos × Bool → Type 0
  Adds mem handle new s r =
      (Refused mem handle new s × (r ≡ (s, false)))
      ⊎ ((r.1 ≡ true)
          × (add_arguments handle new.vmo new.virtual_address new.length new.rights ≡ true)
          × ((va : ℕ) → (covers new va ≡ false) ⊎ (view handle s va ≡ none))
          × Becomes handle s r.0 (λ va. if covers new va then some new else view handle s va))

  add_arguments-Proper :
      (handle : ℕ) (new : VmoEntry)
      → new.virtual_address < 2 ^ 64
      → add_arguments handle new.vmo new.virtual_address new.length new.rights ≡ true
      → Proper new
  unfolding add_arguments
  add_arguments-Proper handle new b ok = ground (arith, ok)

  -- HASH_ADD of a mapping that overlaps none.
  added :
      (handle : ℕ) (new : VmoEntry) (s : Vmos) (set : VmoSet)
      → IsValid s
      → find handle s.vmosets ≡ some set
      → Proper new
      → AllApart new (entries set.entries)
      → Becomes handle s
          (change_entries handle (add new.virtual_address new) s)
          (λ va. if covers new va then some new else view handle s va)
  added handle new s set v e p apart =
      let m = (v.sets handle set e).1 in
      let l = entries set.entries in
      let grown : entries (add new.virtual_address new set.entries)
          ≡ l ++ (new.virtual_address, new) ∷ [] =
        entries-add new.virtual_address new set.entries (free-start new l m p apart) in
      becomes-change (add new.virtual_address new)
        (λ va. if covers new va then some new else view handle s va) handle s set v e
        (subst Mapped (sym grown) (append-Mapped new l m p apart))
        (λ va.
          subst (λ x. containing va x ≡ (if covers new va then some new else view handle s va))
            (sym grown) (rw (view-found handle va s set e) (containing-append va new l m p apart)))

  pub kvmoset_add_lem :
      (mem : Bool) (handle vmo va offset length rights : ℕ) (s : Vmos)
      → IsValid s
      → va < 2 ^ 64
      → Adds mem handle
          (record {
            virtual_address = va;
            length = length;
            vmo = vmo;
            offset = offset;
            rights = rights;
          })
          s
          (kvmoset_add mem handle vmo va offset length rights s)
  unfolding kvmoset_add
  kvmoset_add_lem mem handle vmo va offset length rights s v b =
      let new : VmoEntry = record {
        virtual_address = va;
        length = length;
        vmo = vmo;
        offset = offset;
        rights = rights;
      } in
      elim (Bool-cases (add_arguments handle vmo va length rights)) [
        | inr bad ↦ inl (inl bad, simp bad)
        | inl good ↦ elim (Bool-cases mem) [
          | inr full ↦ inl (inr (inl full), simp (good, full))
          | inl room ↦ elim (Option-cases (find handle s.vmosets)) [
            | inl missing ↦ inl (inr (inr (inl missing)), simp (good, room, missing))
            | inr (set, there) ↦
                let p = add_arguments-Proper handle new b good in
                let m = (v.sets handle set there).1 in
                let same : (va + length) % 2 ^ 64 ≡ va + length = omega (arith, p) in
                elim (meets-cases new (entries set.entries) m p) [
                  | inr (at, e, inside, taken, hit) ↦ inl (
                    inr (inr (inr (at, e, inside, view-found handle at s set there ∙ taken))),
                    simp (good, room, there, same, hit),
                  )
                  | inl (apart, clear) ↦
                      let out : kvmoset_add mem handle vmo va offset length rights s
                          ≡ (change_entries handle (add va new) s, true) =
                        simp (good, room, there, same, clear) in
                      subst (Adds mem handle new s) (sym out) (
                        inr (
                          refl,
                          good,
                          λ at. elim (Bool-cases (covers new at)) [
                            | inl inside ↦ inr (
                                view-found handle at s set there
                                ∙ apart-containing at new (entries set.entries) m apart inside)
                            | inr outside ↦ inl outside
                          ],
                          added handle new s set v there p apart,
                        ))
                ]
          ]
        ]
      ]
