-- ===== src/Kvmo/Reach.antt =====
-- One address space and the tables of kvmo.c, from kvmo_init on through any sequence of calls.
use sharkix.Common.{ℕ, ◌^◌, ◌<◌, ◌≡◌, ◌≢◌, refl, Bool, true, Option, sym, ◌∙◌}
use sharkix.Table.{UtHash}
use sharkix.Memory.{AddressSpaces}
use sharkix.Pmem.{Range}
use sharkix.Kvmo.{Vmos, vmoset_invalid_handle}
use sharkix.Kvmo.Sets.{
  kvmoset_new, kvmoset_destroy, kvmoset_add, kvmoset_remove, kvmoset_set_rights,
}
use sharkix.Kvmo.Maps.{kvmo_map, kvmo_unmap_exact, kvmo_protect}
use sharkix.Kvmo.Anonymous.{PageSource, kvmo_create_anon, kvmo_create_anon_sets}
use sharkix.Kvmo.Objects.{kvmo_init, kvmo_create_from_pmem, kvmo_destroy}
use sharkix.Kvmo.Coherent.{Coherent}
use sharkix.Kvmo.Mapping.{kvmo_map-Coherent}
use sharkix.Kvmo.Unmapping.{kvmo_unmap_exact-Coherent}
use sharkix.Kvmo.Protection.{kvmo_protect-Coherent}
use sharkix.Kvmo.Lifetime.{
  HasRoom, kvmoset_new-IsValid, view-kvmoset_new, kvmo_create_sets, kvmo_destroy_sets,
}
use sharkix.Kvmo.Elsewhere.{
  Coherent-fewer, booted-Coherent, same_sets, closed-Coherent, map_keeps, unmap_keeps,
  protect_keeps, added_elsewhere, removed_elsewhere, rights_elsewhere,
}

module _ ⦃h : UtHash⦄ where
  module _ (spaces : AddressSpaces) where
    -- The tables of kvmo.c and one address space, after kvmo_init and any calls for this address space
    -- and for the sets of others.
    pub data Reach (start : spaces.Space) : Vmos → spaces.Space → Type 1 where
      booted : Reach start kvmo_init start
      objects :
          {s : Vmos} {x : spaces.Space} (out mem : Bool) (pmem rights : ℕ)
          → Reach start s x
          → Reach start (kvmo_create_from_pmem out mem pmem rights s).0 x
      anonymous :
          {s : Vmos} {x : spaces.Space} (source : PageSource) (w : source.World)
          → (out actual_len mem : Bool) (requested_len rights : ℕ) → Reach start s x
          → Reach start (kvmo_create_anon source out actual_len mem requested_len rights s w).vmos x
      dropped :
          {s : Vmos} {x : spaces.Space} (handle : ℕ)
          → Reach start s x
          → Reach start (kvmo_destroy handle s).0 x
      opened :
          {s : Vmos} {x : spaces.Space}
          → Reach start s x
          → HasRoom s
          → Reach start (kvmoset_new true true s).0 x
      closed :
          {s : Vmos} {x : spaces.Space} (handle : ℕ)
          → Reach start s x
          → Reach start (kvmoset_destroy handle s).0 x
      mapped :
          {s : Vmos} {x : spaces.Space} (given mem : Bool) (backing : ℕ → Option Range)
          (handle va offset length rights : ℕ)
          → Reach start s x
          → va < 2 ^ 64
          → Reach start
              (kvmo_map spaces given mem backing handle va offset length rights s x).vmos
              (kvmo_map spaces given mem backing handle va offset length rights s x).space
      unmapped :
          {s : Vmos} {x : spaces.Space} (given check_length : Bool) (handle va length : ℕ)
          → Reach start s x
          → Reach start
              (kvmo_unmap_exact spaces given check_length handle va length s x).vmos
              (kvmo_unmap_exact spaces given check_length handle va length s x).space
      protected :
          {s : Vmos} {x : spaces.Space} (given : Bool) (handle va length rights : ℕ)
          → Reach start s x
          → Reach start
              (kvmo_protect spaces given handle va length rights s x).vmos
              (kvmo_protect spaces given handle va length rights s x).space
      other_added :
          {s : Vmos} {x : spaces.Space} (mem : Bool) (handle vmo va offset length rights : ℕ)
          → Reach start s x
          → va < 2 ^ 64
          → handle ≢ spaces.vmoset x
          → Reach start (kvmoset_add mem handle vmo va offset length rights s).0 x
      other_removed :
          {s : Vmos} {x : spaces.Space} (handle va : ℕ)
          → Reach start s x
          → handle ≢ spaces.vmoset x
          → Reach start (kvmoset_remove handle va s).0 x
      other_rights :
          {s : Vmos} {x : spaces.Space} (handle va rights : ℕ)
          → Reach start s x
          → handle ≢ spaces.vmoset x
          → Reach start (kvmoset_set_rights handle va rights s).0 x

    abbrev pub Together : (start : spaces.Space) → Vmos → spaces.Space → Type 0
    Together start s x = Coherent spaces s x × (spaces.vmoset x ≡ spaces.vmoset start)

    -- From kvmo_init on, and whatever calls follow, the mappings that the set of an address space records
    -- do not overlap, each starts at a page and ends by 2^64, and each of its pages is mapped; the address
    -- space keeps its set.
    pub Reach-Together :
        (start : spaces.Space) {s : Vmos} {x : spaces.Space}
        → spaces.vmoset start ≢ vmoset_invalid_handle
        → Reach start s x
        → Together start s x
    Reach-Together start real booted = (booted-Coherent spaces start, refl)
    Reach-Together start real (objects {s} {x} out mem pmem rights r) =
        let (c, same) = Reach-Together start real r in
        (
          same_sets spaces s (kvmo_create_from_pmem out mem pmem rights s).0 x
              (kvmo_create_sets out mem pmem rights s) c,
          same,
        )
    Reach-Together start real
          (anonymous {s} {x} source w out actual_len mem requested_len rights r) =
        let (c, same) = Reach-Together start real r in
        (
          same_sets spaces s
              (kvmo_create_anon source out actual_len mem requested_len rights s w).vmos x
              (kvmo_create_anon_sets source out actual_len mem requested_len rights s w) c,
          same,
        )
    Reach-Together start real (dropped {s} {x} handle r) =
        let (c, same) = Reach-Together start real r in
        (same_sets spaces s (kvmo_destroy handle s).0 x (kvmo_destroy_sets handle s) c, same)
    Reach-Together start real (opened {s} {x} r room) =
        let (c, same) = Reach-Together start real r in
        (
          Coherent-fewer spaces s (kvmoset_new true true s).0 x c
              (kvmoset_new-IsValid s c.valid room)
              (λ va e found. sym (view-kvmoset_new s (spaces.vmoset x) va c.valid) ∙ found),
          same,
        )
    Reach-Together start real (closed {s} {x} handle r) =
        let (c, same) = Reach-Together start real r in (closed-Coherent spaces handle s x c, same)
    Reach-Together start real
          (mapped {s} {x} given mem backing handle va offset length rights r b) =
        let (c, same) = Reach-Together start real r in
        (
          kvmo_map-Coherent spaces given mem backing handle va offset length rights s x c b,
          map_keeps spaces given mem backing handle va offset length rights s x c.valid b ∙ same,
        )
    Reach-Together start real (unmapped {s} {x} given check_length handle va length r) =
        let (c, same) = Reach-Together start real r in
        (
          kvmo_unmap_exact-Coherent spaces given check_length handle va length s x c,
          unmap_keeps spaces given check_length handle va length s x c.valid ∙ same,
        )
    Reach-Together start real (protected {s} {x} given handle va length rights r) =
        let (c, same) = Reach-Together start real r in
        let good : spaces.vmoset x ≢ vmoset_invalid_handle = λ bad. real (sym same ∙ bad) in
        (
          kvmo_protect-Coherent spaces given handle va length rights s x c good,
          protect_keeps spaces given handle va length rights s x c good ∙ same,
        )
    Reach-Together start real
          (other_added {s} {x} mem handle vmo va offset length rights r b other) =
        let (c, same) = Reach-Together start real r in
        (added_elsewhere spaces mem handle vmo va offset length rights s x c b other, same)
    Reach-Together start real (other_removed {s} {x} handle va r other) =
        let (c, same) = Reach-Together start real r in
        (removed_elsewhere spaces handle va s x c other, same)
    Reach-Together start real (other_rights {s} {x} handle va rights r other) =
        let (c, same) = Reach-Together start real r in
        (rights_elsewhere spaces handle va rights s x c other, same)
