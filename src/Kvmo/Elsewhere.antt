-- ===== src/Kvmo/Elsewhere.antt =====
-- Calls that leave one address space and its set alone, or keep its set.
use sharkix.Common.{
  ℕ, ◌^◌, ◌<◌, ◌≡◌, ◌≢◌, inl, inr, ==_iff, Bool, Option, some, arith, sym, subst, ap, ◌∙◌,
}
use sharkix.Table.{UtHash}
use sharkix.Table.Laws.{find, del}
use sharkix.Memory.{AddressSpaces}
use sharkix.Pmem.{Range}
use sharkix.Kvmo.{VmoEntry, Vmos, vmoset_invalid_handle}
use sharkix.Kvmo.Sets.{kvmoset_destroy, kvmoset_add, kvmoset_remove, kvmoset_set_rights}
use sharkix.Kvmo.View.{IsValid, view, view-other}
use sharkix.Kvmo.Refinement.{Becomes, kvmoset_add_lem}
use sharkix.Kvmo.Removal.{kvmoset_remove_lem, kvmoset_set_rights_lem}
use sharkix.Kvmo.Maps.{Result, kvmo_map, kvmo_unmap_exact, kvmo_protect}
use sharkix.Kvmo.Objects.{kvmo_init}
use sharkix.Kvmo.Coherent.{Coherent}
use sharkix.Kvmo.Mapping.{kvmo_map_lem}
use sharkix.Kvmo.Unmapping.{kvmo_unmap_exact-Unmaps}
use sharkix.Kvmo.Protection.{kvmo_protect_lem}
use sharkix.Kvmo.Lifetime.{kvmoset_destroy-cases, del-IsValid, del_view, init_view, init-IsValid}

module _ ⦃h : UtHash⦄ where
  module _ (spaces : AddressSpaces) where
    -- The table is still valid, and no mapping of the address space is new.
    pub Coherent-fewer :
        (s t : Vmos) (x : spaces.Space)
        → Coherent spaces s x
        → IsValid t
        → ((va : ℕ) (e : VmoEntry)
            → view (spaces.vmoset x) t va ≡ some e
            → view (spaces.vmoset x) s va ≡ some e)
        → Coherent spaces t x
    Coherent-fewer s t x c v old = record {
      valid = v;
      aligned = λ va e found. c.aligned va e (old va e found);
      backed = λ va a e found inside. c.backed va a e (old va e found) inside;
    }

    -- A change of another set.
    Coherent-elsewhere :
        (handle : ℕ) (s t : Vmos) (x : spaces.Space) (f : ℕ → Option VmoEntry)
        → Coherent spaces s x
        → handle ≢ spaces.vmoset x
        → Becomes handle s t f
        → Coherent spaces t x
    Coherent-elsewhere handle s t x f c other b = Coherent-fewer s t x c b.0 (λ va e found.
        ground (arith, b.1 (spaces.vmoset x) va, found, ==_iff handle (spaces.vmoset x), other))

    pub booted-Coherent : (x : spaces.Space) → Coherent spaces kvmo_init x
    booted-Coherent x = record {
      valid = init-IsValid;
      aligned = λ va e found. absurd (ground (arith, found, init_view (spaces.vmoset x) va));
      backed =
          λ va a e found inside. absurd (ground (arith, found, init_view (spaces.vmoset x) va));
    }

    pub same_sets :
        (s t : Vmos) (x : spaces.Space)
        → (t.vmosets ≡ s.vmosets) × (t.next_vmoset_handle ≡ s.next_vmoset_handle)
        → Coherent spaces s x
        → Coherent spaces t x
    same_sets s t x (same, next) c =
        Coherent-fewer s t x c
          (record {
            fresh = λ k b. ground (arith, ap (find k) same, c.valid.fresh k, next);
            sets = λ k set found. c.valid.sets k set (ap (find k) (sym same) ∙ found);
          })
          (λ va e found.
            sym (view-other (spaces.vmoset x) va s t (ap (find (spaces.vmoset x)) same)) ∙ found)

    pub closed-Coherent :
        (handle : ℕ) (s : Vmos) (x : spaces.Space)
        → Coherent spaces s x
        → Coherent spaces (kvmoset_destroy handle s).0 x
    closed-Coherent handle s x c = elim (kvmoset_destroy-cases handle s) [
      | inl same ↦ subst (λ t. Coherent spaces t x) (sym same) c
      | inr gone ↦
          subst (λ t. Coherent spaces t x) (sym gone)
            (Coherent-fewer s (record s { vmosets = del handle s.vmosets }) x c
              (del-IsValid handle s c.valid)
              (λ va e found. del_view handle (spaces.vmoset x) va s e found))
    ]

    pub map_keeps :
        (given mem : Bool) (backing : ℕ → Option Range) (handle va offset length rights : ℕ)
        (s : Vmos) (x : spaces.Space)
        → IsValid s
        → va < 2 ^ 64
        → spaces.vmoset (kvmo_map spaces given mem backing handle va offset length rights s x).space
          ≡ spaces.vmoset x
    map_keeps given mem backing handle va offset length rights s x v b =
        elim (kvmo_map_lem spaces given mem backing handle va offset length rights s x v b) [
          | inl (o, why, same, (set, kind, pages)) ↦ set
          | inr (inl (phys, o, target, bad, same, (set, kind, pages))) ↦ set
          | inr (inr (phys, o, target, allowed, real, set, kind, pages, becomes)) ↦ set
        ]

    pub unmap_keeps :
        (given check_length : Bool) (handle va length : ℕ) (s : Vmos) (x : spaces.Space)
        → IsValid s
        → spaces.vmoset (kvmo_unmap_exact spaces given check_length handle va length s x).space
          ≡ spaces.vmoset x
    unmap_keeps given check_length handle va length s x v =
        elim (kvmo_unmap_exact-Unmaps spaces given check_length handle va length s x v) [
          | inl same ↦ ap (λ (r : Result spaces). spaces.vmoset r.space) same
          | inr (named, (e, o, here, start, vmo, set, kind, pages, becomes)) ↦ set
        ]

    pub protect_keeps :
        (given : Bool) (handle va length rights : ℕ) (s : Vmos) (x : spaces.Space)
        → Coherent spaces s x
        → spaces.vmoset x ≢ vmoset_invalid_handle
        → spaces.vmoset (kvmo_protect spaces given handle va length rights s x).space
          ≡ spaces.vmoset x
    protect_keeps given handle va length rights s x c good =
        elim (kvmo_protect_lem spaces given handle va length rights s x c good) [
          | inl (same, why) ↦ ap (λ (r : Result spaces). spaces.vmoset r.space) same
          | inr (e, o, permitted, here, start, size, object, set, kind, pages, becomes) ↦ set
        ]

    pub added_elsewhere :
        (mem : Bool) (handle vmo va offset length rights : ℕ) (s : Vmos) (x : spaces.Space)
        → Coherent spaces s x
        → va < 2 ^ 64
        → handle ≢ spaces.vmoset x
        → Coherent spaces (kvmoset_add mem handle vmo va offset length rights s).0 x
    added_elsewhere mem handle vmo va offset length rights s x c b other =
        let r = kvmoset_add mem handle vmo va offset length rights s in
        elim (kvmoset_add_lem mem handle vmo va offset length rights s c.valid b) [
          | inl (why, same) ↦ subst (λ (q : Vmos × Bool). Coherent spaces q.0 x) (sym same) c
          | inr (done, good, free, becomes) ↦ Coherent-elsewhere handle s r.0 x _ c other becomes
        ]

    pub removed_elsewhere :
        (handle va : ℕ) (s : Vmos) (x : spaces.Space)
        → Coherent spaces s x
        → handle ≢ spaces.vmoset x
        → Coherent spaces (kvmoset_remove handle va s).0 x
    removed_elsewhere handle va s x c other = elim (kvmoset_remove_lem handle va s c.valid) [
      | inl (why, same) ↦ subst (λ (q : Vmos × Bool). Coherent spaces q.0 x) (sym same) c
      | inr (e, done, start, here, becomes) ↦
          Coherent-elsewhere handle s (kvmoset_remove handle va s).0 x _ c other becomes
    ]

    pub rights_elsewhere :
        (handle va rights : ℕ) (s : Vmos) (x : spaces.Space)
        → Coherent spaces s x
        → handle ≢ spaces.vmoset x
        → Coherent spaces (kvmoset_set_rights handle va rights s).0 x
    rights_elsewhere handle va rights s x c other =
        elim (kvmoset_set_rights_lem handle va rights s c.valid) [
          | inl (why, same) ↦ subst (λ (q : Vmos × Bool). Coherent spaces q.0 x) (sym same) c
          | inr (e, done, start, here, becomes) ↦
              Coherent-elsewhere handle s (kvmoset_set_rights handle va rights s).0 x _ c other
                becomes
        ]
