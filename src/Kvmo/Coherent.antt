-- ===== src/Kvmo/Coherent.antt =====
-- The mappings that the set of an address space records are those that its page tables hold.
use sharkix.Common.{
  ℕ, ◌+◌, ◌%◌, ◌^◌, ◌<◌, ◌≤◌, ◌≡◌, ◌≢◌, ◌⊎◌, inl, inr, refl, if◌then◌else◌, Bool, true, false,
  Bool-cases, none, some, arith, sym, subst, ap, ◌∙◌,
}
use sharkix.Table.{UtHash}
use sharkix.Table.Laws.{entries}
use sharkix.Memory.{AddressSpaces, Page, in_pages, rounded, range_allowed}
use sharkix.Kvmo.{VmoEntry, Vmos, vmo_invalid_handle}
use sharkix.Kvmo.Mapped.{Apart, covers}
use sharkix.Kvmo.Lookups.{give, containing_sound, containing_complete, assoc-pair}
use sharkix.Kvmo.View.{IsValid, view, view-found, view-some}
use sharkix.Kvmo.Refinement.{Becomes, becomes-here}

module _ ⦃h : UtHash⦄ where
  -- Two mappings of a set are one, or apart, and none is empty.
  pub view-pair :
      (handle i j : ℕ) (s : Vmos) (e f : VmoEntry)
      → IsValid s
      → view handle s i ≡ some e
      → view handle s j ≡ some f
      → ((e ≡ f) ⊎ Apart e f) × (covers e i ≡ true) × (covers f j ≡ true)
  view-pair handle i j s e f v p q =
      let (set, there, at) = view-some handle i s e p in
      let m = (v.sets handle set there).1 in
      let also = sym (view-found handle j s set there) ∙ q in
      let (ci, ei) = containing_sound i (entries set.entries) e m at in
      let (cj, fj) = containing_sound j (entries set.entries) f m also in
      (assoc-pair e.virtual_address f.virtual_address (entries set.entries) e f m ei fj, ci, cj)

  -- A mapping that is found at one of its addresses is found at all.
  pub view-spread :
      (handle i j : ℕ) (s : Vmos) (e : VmoEntry)
      → IsValid s
      → view handle s i ≡ some e
      → covers e j ≡ true
      → view handle s j ≡ some e
  view-spread handle i j s e v p inside =
      let (set, there, at) = view-some handle i s e p in
      let m = (v.sets handle set there).1 in
      let (ci, ei) = containing_sound i (entries set.entries) e m at in
      view-found handle j s set there
      ∙ containing_complete j e.virtual_address (entries set.entries) e m ei inside

  module _ (spaces : AddressSpaces) where
    -- The mapping starts at a page, has a length, ends by 2^64, is in the half of its address space, and
    -- has a real object.
    abbrev pub Placed : (kernel : Bool) → VmoEntry → Type 0
    Placed kernel e =
        (e.virtual_address % 4096 ≡ 0)
        × (0 < e.length)
        × (e.virtual_address + rounded e.length ≤ 2 ^ 64)
        × (e.vmo ≢ vmo_invalid_handle)
        × (range_allowed kernel e.virtual_address e.length ≡ true)

    -- The table is valid, each mapping of the address space is where one may be, and all its pages are
    -- mapped.
    pub record Coherent (s : Vmos) (space : spaces.Space) : Type 0 where
      pub valid : IsValid s
      pub aligned :
          (va : ℕ) (e : VmoEntry)
          → view (spaces.vmoset space) s va ≡ some e
          → Placed (spaces.kernel space) e
      pub backed :
          (va a : ℕ) (e : VmoEntry)
          → view (spaces.vmoset space) s va ≡ some e
          → in_pages e.virtual_address e.length a ≡ true
          → (p : Page) × (spaces.page space a ≡ some p)

    -- It depends on the address space through its pages only.
    pub Coherent-same :
        (s : Vmos) (x y : spaces.Space)
        → Coherent s x
        → spaces.vmoset y ≡ spaces.vmoset x
        → spaces.kernel y ≡ spaces.kernel x
        → ((a : ℕ) → spaces.page y a ≡ spaces.page x a)
        → Coherent s y
    Coherent-same s x y c set kind pages = record {
      valid = c.valid;
      aligned = λ va e found.
          subst (λ k. Placed k e) (sym kind)
            (c.aligned va e (ap (λ k. view k s va) (sym set) ∙ found));
      backed = λ va a e found inside.
          let (p, here) = c.backed va a e (ap (λ k. view k s va) (sym set) ∙ found) inside in
          (p, pages a ∙ here);
    }

    -- A new mapping over new pages.
    pub Coherent-add :
        (s t : Vmos) (x y : spaces.Space) (new : VmoEntry) (page : ℕ → Page)
        → Coherent s x
        → spaces.vmoset y ≡ spaces.vmoset x
        → spaces.kernel y ≡ spaces.kernel x
        → ((a : ℕ)
            → spaces.page y a ≡ (
                if in_pages new.virtual_address new.length a
                then some (page a)
                else spaces.page x a))
        → Placed (spaces.kernel x) new
        → Becomes
            (spaces.vmoset x)
            s
            t
            (λ va. if covers new va then some new else view (spaces.vmoset x) s va)
        → Coherent t y
    Coherent-add s t x y new page c set kind pages placed b = record {
      valid = b.0;
      aligned = λ va e found. elim (known va e found) [
        | inl here ↦
            subst (Placed (spaces.kernel y)) here (subst (λ k. Placed k new) (sym kind) placed)
        | inr old ↦ subst (λ k. Placed k e) (sym kind) (c.aligned va e old)
      ];
      backed = λ va a e found inside.
          elim (Bool-cases (in_pages new.virtual_address new.length a)) [
            | inl fresh ↦ (page a, pages a ∙ rw fresh refl)
            | inr other ↦ elim (known va e found) [
              | inl here ↦ absurd (ground (arith, here, inside, other))
              | inr old ↦ let (p, at) = c.backed va a e old inside in (p, pages a ∙ rw other at)
            ]
          ];
    }
      where
        known :
            (va : ℕ) (e : VmoEntry)
            → view (spaces.vmoset y) t va ≡ some e
            → (new ≡ e) ⊎ (view (spaces.vmoset x) s va ≡ some e)
        known va e found =
            let was =
              sym (becomes-here (spaces.vmoset x) s t _ b va)
              ∙ ap (λ k. view k t va) (sym set)
              ∙ found in
            elim (Bool-cases (covers new va)) [
              | inl inside ↦ inl (ground (arith, was, inside))
              | inr outside ↦ inr (ground (arith, was, outside))
            ]

    -- A mapping goes with its pages.
    pub Coherent-remove :
        (s t : Vmos) (x y : spaces.Space) (old : VmoEntry)
        → Coherent s x
        → spaces.vmoset y ≡ spaces.vmoset x
        → spaces.kernel y ≡ spaces.kernel x
        → ((a : ℕ)
            → spaces.page y a
              ≡ (if in_pages old.virtual_address old.length a then none else spaces.page x a))
        → view (spaces.vmoset x) s old.virtual_address ≡ some old
        → Becomes
            (spaces.vmoset x)
            s
            t
            (λ va. if covers old va then none else view (spaces.vmoset x) s va)
        → Coherent t y
    Coherent-remove s t x y old c set kind pages there b = record {
      valid = b.0;
      aligned =
          λ va e found. subst (λ k. Placed k e) (sym kind) (c.aligned va e (known va e found).1);
      backed = λ va a e found inside.
          let (outside, before) = known va e found in
          let (p, at) = c.backed va a e before inside in
          let (which, ci, cj) =
            view-pair (spaces.vmoset x) old.virtual_address va s old e c.valid there before in
          let apart : Apart old e = ground (arith, which, outside, cj) in
          let free : in_pages old.virtual_address old.length a ≡ false = ground (
            arith,
            apart,
            inside,
            c.aligned old.virtual_address old there,
            c.aligned va e before,
          ) in
          (p, pages a ∙ rw free at);
    }
      where
        known :
            (va : ℕ) (e : VmoEntry)
            → view (spaces.vmoset y) t va ≡ some e
            → (covers old va ≡ false) × (view (spaces.vmoset x) s va ≡ some e)
        known va e found =
            let was =
              sym (becomes-here (spaces.vmoset x) s t _ b va)
              ∙ ap (λ k. view k t va) (sym set)
              ∙ found in
            elim (Bool-cases (covers old va)) [
              | inl inside ↦ absurd (ground (arith, was, inside))
              | inr outside ↦ (outside, ground (arith, was, outside))
            ]

    Placed-same :
        (k l : Bool) (g f : VmoEntry)
        → k ≡ l
        → f.virtual_address ≡ g.virtual_address
        → f.length ≡ g.length
        → f.vmo ≡ g.vmo
        → Placed k g
        → Placed l f
    Placed-same k l g f kind start size object (al, pos, top, real, allowed) = (
      ground (arith, al, start),
      ground (arith, pos, size),
      ground (arith, top, start, size),
      λ bad. real (sym object ∙ bad),
      rw (sym kind, start, size) allowed,
    )

    -- New rights for a mapping leave its pages mapped.
    pub Coherent-rights :
        (s t : Vmos) (x y : spaces.Space) (e : VmoEntry) (rights : ℕ)
        → Coherent s x
        → spaces.vmoset y ≡ spaces.vmoset x
        → spaces.kernel y ≡ spaces.kernel x
        → ((a : ℕ)
            → (p : Page) → spaces.page x a ≡ some p
            → (q : Page) × (spaces.page y a ≡ some q))
        → view (spaces.vmoset x) s e.virtual_address ≡ some e
        → Becomes
            (spaces.vmoset x)
            s
            t
            (λ va. if covers e va then some (give rights e) else view (spaces.vmoset x) s va)
        → Coherent t y
    Coherent-rights s t x y e rights c set kind pages there b = record {
      valid = b.0;
      aligned = λ va f found.
          let (g, before, start, size, object) = known va f found in
          Placed-same (spaces.kernel x) (spaces.kernel y) g f (sym kind) start size object
            (c.aligned va g before);
      backed = λ va a f found inside.
          let (g, before, start, size, object) = known va f found in
          let within : in_pages g.virtual_address g.length a ≡ true =
            ground (arith, inside, start, size) in
          let (p, at) = c.backed va a g before within in pages a p at;
    }
      where
        known :
            (va : ℕ) (f : VmoEntry)
            → view (spaces.vmoset y) t va ≡ some f
            → (g : VmoEntry) × (view (spaces.vmoset x) s va ≡ some g)
              × (f.virtual_address ≡ g.virtual_address)
              × (f.length ≡ g.length)
              × (f.vmo ≡ g.vmo)
        known va f found =
            let was =
              sym (becomes-here (spaces.vmoset x) s t _ b va)
              ∙ ap (λ k. view k t va) (sym set)
              ∙ found in
            elim (Bool-cases (covers e va)) [
              | inl inside ↦
                  let same : give rights e ≡ f = ground (arith, was, inside) in
                  (
                    e,
                    view-spread (spaces.vmoset x) e.virtual_address va s e c.valid there inside,
                    ground (arith, same),
                    ground (arith, same),
                    ground (arith, same),
                  )
              | inr outside ↦ (f, ground (arith, was, outside), refl, refl, refl)
            ]
