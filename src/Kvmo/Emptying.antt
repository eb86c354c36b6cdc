-- ===== src/Kvmo/Emptying.antt =====
-- That kvmoset_unmap_all ends, with an empty set.
use sharkix.Common.{
  ℕ, zero, suc, ◌<◌, ◌≡◌, ◌≢◌, inl, inr, refl, ◌==◌, true, false, some, arith, sym, subst, ap, ◌∙◌,
  List, [], ◌∷◌, length, without, assoc, length-without, List-cases, ==_refl,
}
use sharkix.Table.{UtHash}
use sharkix.Table.Laws.{find, del, entries, find-entries, entries-del, find-modify}
use sharkix.Memory.{AddressSpaces}
use sharkix.Kvmo.{VmoEntry, VmoSet, Vmos, vmoset_invalid_handle}
use sharkix.Kvmo.Sets.{change_entries, with_entries}
use sharkix.Kvmo.Mapped.{Mapped}
use sharkix.Kvmo.View.{IsValid}
use sharkix.Kvmo.Maps.{Outcome, ok, Result, result, kvmoset_unmap_all, unmap_rounds}
use sharkix.Kvmo.Coherent.{Coherent}
use sharkix.Kvmo.Unmapping.{kvmo_unmap-Coherent, unmap_ok}

module _ ⦃h : UtHash⦄ (spaces : AddressSpaces) where
  -- What is left to do: the number of mappings.
  abbrev pub mappings : VmoSet → ℕ
  mappings set = length (entries set.entries)

  fewer :
      (k : ℕ) (e : VmoEntry) (l : List (ℕ × VmoEntry))
      → length (without k ((k, e) ∷ l)) < length ((k, e) ∷ l)
  fewer k e l = ground (arith, ==_refl k, length-without k l)

  first_found :
      (set : VmoSet) (k : ℕ) (e : VmoEntry) (l : List (ℕ × VmoEntry))
      → entries set.entries ≡ (k, e) ∷ l
      → find k set.entries ≡ some e
  first_found set k e l all =
      find-entries k set.entries ∙ ap (assoc k) all ∙ ground (arith, ==_refl k)

  -- Whether a round has a set, and a mapping in it.
  first_key :
      (s : Vmos) (handle k : ℕ) (set : VmoSet) (e : VmoEntry) (l : List (ℕ × VmoEntry))
      → IsValid s
      → find handle s.vmosets ≡ some set
      → entries set.entries ≡ (k, e) ∷ l
      → k ≡ e.virtual_address
  first_key s handle k set e l v there all = (subst Mapped all (v.sets handle set there).1).0

  removal_shrinks :
      (set : VmoSet) (k : ℕ) (e : VmoEntry) (l : List (ℕ × VmoEntry))
      → entries set.entries ≡ (k, e) ∷ l
      → k ≡ e.virtual_address
      → mappings (with_entries (del e.virtual_address) set) < mappings set
  removal_shrinks set k e l all key =
      subst (λ i. length (entries (del i set.entries)) < mappings set) key
        (rw (entries-del k set.entries, all) (fewer k e l))

  set_after :
      (handle va : ℕ) (s : Vmos) (set : VmoSet)
      → find handle s.vmosets ≡ some set
      → find handle (change_entries handle (del va) s).vmosets ≡ some (with_entries (del va) set)
  unfolding change_entries
  set_after handle va s set there =
      ground
        (arith, find-modify handle handle (with_entries (del va)) s.vmosets, ==_refl handle, there)

  -- The end of kvmoset_unmap_all: done, with the set there and empty, and pages and tables together.
  abbrev pub Emptied : (handle : ℕ) → spaces.Space → Result spaces → Type 0
  Emptied handle x r =
      (r.outcome ≡ Outcome.ok)
      × Coherent spaces r.vmos r.space
      × (spaces.vmoset r.space ≡ spaces.vmoset x)
      × ((set : VmoSet) × (find handle r.vmos.vmosets ≡ some set) × (entries set.entries ≡ []))

  rounds-Emptied :
      (fuel handle : ℕ) (s : Vmos) (x : spaces.Space) (set : VmoSet)
      → Coherent spaces s x
      → handle ≡ spaces.vmoset x
      → find handle s.vmosets ≡ some set
      → mappings set < fuel
      → Emptied handle x (unmap_rounds spaces fuel handle s x)
  unfolding unmap_rounds
  rounds-Emptied zero handle s x set c own there enough = absurd (omega arith)
  rounds-Emptied (suc fuel) handle s x set c own there enough =
      elim (List-cases (entries set.entries)) [
        | inl bare ↦
            let out : unmap_rounds spaces (suc fuel) handle s x ≡ result spaces s x ok =
              simp (unmap_rounds, there, bare) in
            subst (Emptied handle x) (sym out) (refl, c, refl, (set, there, bare))
        | inr ((k, e), rest, all) ↦
            let key = first_key s handle k set e rest c.valid there all in
            let at : find e.virtual_address set.entries ≡ some e =
              subst (λ i. find i set.entries ≡ some e) key (first_found set k e rest all) in
            let there' : find (spaces.vmoset x) s.vmosets ≡ some set =
              subst (λ i. find i s.vmosets ≡ some set) own there in
            let (y, undone, same) =
              unmap_ok spaces e.vmo e.virtual_address e.length s x set e c there' at refl refl in
            let t = change_entries (spaces.vmoset x) (del e.virtual_address) s in
            let out : unmap_rounds spaces (suc fuel) handle s x
                ≡ unmap_rounds spaces fuel handle t y =
              simp (unmap_rounds, there, all, undone) in
            let less = with_entries (del e.virtual_address) set in
            let there_after : find handle t.vmosets ≡ some less =
              subst (λ i. find i t.vmosets ≡ some less) (sym own)
                (set_after (spaces.vmoset x) e.virtual_address s set there') in
            let shrunk : mappings less < mappings set = removal_shrinks set k e rest all key in
            let rec =
              rounds-Emptied fuel handle t y less
                (subst (λ (r : Result spaces). Coherent spaces r.vmos r.space) undone
                  (kvmo_unmap-Coherent spaces e.vmo e.virtual_address e.length s x c))
                (own ∙ sym same) there_after (omega (arith, shrunk, enough)) in
            subst (Emptied handle x) (sym out) (rec.0, rec.1, rec.2 ∙ same, rec.3)
      ]

  -- With tables and pages together and a round for each mapping and one more, kvmoset_unmap_all on the set
  -- of the address space ends with 0: the set is empty, and tables and pages are still together.
  pub kvmoset_unmap_all-Emptied :
      (fuel handle : ℕ) (s : Vmos) (x : spaces.Space) (set : VmoSet)
      → Coherent spaces s x
      → handle ≡ spaces.vmoset x
      → handle ≢ vmoset_invalid_handle
      → find handle s.vmosets ≡ some set
      → mappings set < fuel
      → Emptied handle x (kvmoset_unmap_all spaces fuel true handle s x)
  unfolding kvmoset_unmap_all
  kvmoset_unmap_all-Emptied fuel handle s x set c own good there enough =
      let valid_handle : handle == vmoset_invalid_handle ≡ false = ground (arith, good) in
      rw (valid_handle) (rounds-Emptied fuel handle s x set c own there enough)
