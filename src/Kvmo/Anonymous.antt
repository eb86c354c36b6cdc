-- ===== src/Kvmo/Anonymous.antt =====
-- kvmo.c: memory objects over pages of their own.
use sharkix.Common.{
  ℕ, ◌-◌, ◌/◌, ◌^◌, ◌≡◌, ◌==◌, ltb, not, ◌||◌, if◌then◌else◌, Bool, true, Bool-cases, Option-cases,
  Option, none, some, refl, inl, inr, ap, ◌∙◌,
}
use sharkix.Table.{UtHash}
use sharkix.Table.Laws.{find, modify}
use sharkix.Memory.{rounded, Outcome, ok, failed, panicked}
use sharkix.Kvmo.{Vmos, subset, vmo_valid_rights, kvmo_lookup_locked}
use sharkix.Kvmo.Objects.{kvmo_create_from_pmem}
use sharkix.Kvmo.Lifetime.{kvmo_create_sets}

-- phys_alloc_pages, phys_free_pages, kpmem_create, kpmem_destroy and memset of physical pages.
pub record PageSource : Type 1 where
  pub World : Type 0
  pub phys_alloc_pages : (count : ℕ) → World → Option (ℕ × World)
  pub phys_free_pages : (page count : ℕ) → World → World
  pub kpmem_create : (base length : ℕ) → World → Option (ℕ × World)
  pub kpmem_destroy : ℕ → World → World
  pub zero_pages : (page length : ℕ) → World → World

module _ ⦃h : UtHash⦄ (source : PageSource) where
  -- What the call leaves, how it ended, and the handle and the length that it wrote.
  pub record Anonymous : Type 0 where
    pub vmos : Vmos
    pub world : source.World
    pub outcome : Outcome
    pub written : Option (ℕ × ℕ)

  abbrev pub left : Vmos → source.World → Outcome → Anonymous
  left s w o = record { vmos = s; world = w; outcome = o; written = none }

  -- The end of kvmo_create_anon, with the new object in the table.
  unfoldable pub own_pmem : (new_vmo new_pages bytes : ℕ) → Vmos → source.World → Anonymous
  own_pmem new_vmo new_pages bytes s w =
      let zeroed = source.zero_pages new_pages bytes w in
      elim (kvmo_lookup_locked new_vmo s) [
        | none ↦ left s zeroed panicked
        | some vmo ↦ record {
          vmos = record s {
            vmos = modify new_vmo (λ v. record v { owns_pmem = some true }) s.vmos;
          };
          world = zeroed;
          outcome = ok;
          written = some (new_vmo, bytes);
        }
      ]

  unfoldable pub kvmo_create_anon :
      (out actual_len mem : Bool) (requested_len rights : ℕ) → Vmos → source.World → Anonymous
  kvmo_create_anon out actual_len mem requested_len rights s w =
      if not out
        || not actual_len
        || not (subset rights vmo_valid_rights)
        || requested_len == 0
        || ltb (2 ^ 64 - 1 - 4095) requested_len
      then left s w failed
      else let bytes = rounded requested_len in
        elim (source.phys_alloc_pages (bytes / 4096) w) [
          | none ↦ left s w failed
          | some (new_pages, w1) ↦ elim (source.kpmem_create new_pages bytes w1) [
            | none ↦ left s (source.phys_free_pages new_pages (bytes / 4096) w1) failed
            | some (pm_handle, w2) ↦
                let (s1, created) = kvmo_create_from_pmem true mem pm_handle rights s in
                elim created [
                  | none ↦
                      left s1
                        (source.phys_free_pages new_pages (bytes / 4096)
                          (source.kpmem_destroy pm_handle w2))
                        failed
                  | some new_vmo ↦ own_pmem new_vmo new_pages bytes s1 w2
                ]
          ]
        ]

  own_pmem_sets :
      (new_vmo new_pages bytes : ℕ) (s : Vmos) (w : source.World)
      → let t = (own_pmem new_vmo new_pages bytes s w).vmos in
        (t.vmosets ≡ s.vmosets) × (t.next_vmoset_handle ≡ s.next_vmoset_handle)
  unfolding own_pmem
  own_pmem_sets new_vmo new_pages bytes s w = elim (Option-cases (find new_vmo s.vmos)) [
    | inl missing ↦
        let out : own_pmem new_vmo new_pages bytes s w
            ≡ left s (source.zero_pages new_pages bytes w) panicked =
          simp (own_pmem, missing) in
        (
          ap (λ (a : Anonymous). a.vmos.vmosets) out,
          ap (λ (a : Anonymous). a.vmos.next_vmoset_handle) out,
        )
    | inr (vmo, there) ↦
        let out : own_pmem new_vmo new_pages bytes s w ≡ record {
          vmos = record s {
            vmos = modify new_vmo (λ v. record v { owns_pmem = some true }) s.vmos;
          };
          world = source.zero_pages new_pages bytes w;
          outcome = ok;
          written = some (new_vmo, bytes);
        } =
          simp (own_pmem, there) in
        (
          ap (λ (a : Anonymous). a.vmos.vmosets) out,
          ap (λ (a : Anonymous). a.vmos.next_vmoset_handle) out,
        )
  ]

  -- The sets of mappings stay as they are.
  pub kvmo_create_anon_sets :
      (out actual_len mem : Bool) (requested_len rights : ℕ) (s : Vmos) (w : source.World)
      → let t = (kvmo_create_anon out actual_len mem requested_len rights s w).vmos in
        (t.vmosets ≡ s.vmosets) × (t.next_vmoset_handle ≡ s.next_vmoset_handle)
  unfolding kvmo_create_anon
  kvmo_create_anon_sets out actual_len mem requested_len rights s w =
      let bytes = rounded requested_len in
      elim (Bool-cases (
        not out
        || not actual_len
        || not (subset rights vmo_valid_rights)
        || requested_len == 0
        || ltb (2 ^ 64 - 1 - 4095) requested_len)) [
          | inl bad ↦ (rw bad refl, rw bad refl)
          | inr good ↦ elim (Option-cases (source.phys_alloc_pages (bytes / 4096) w)) [
            | inl full ↦ (rw (good, full) refl, rw (good, full) refl)
            | inr ((new_pages, w1), some_pages) ↦
                elim (Option-cases (source.kpmem_create new_pages bytes w1)) [
                  | inl none_made ↦
                      (rw (good, some_pages, none_made) refl, rw (good, some_pages, none_made) refl)
                  | inr ((pm_handle, w2), made) ↦
                      let made_sets = kvmo_create_sets true mem pm_handle rights s in
                      let r = kvmo_create_from_pmem true mem pm_handle rights s in
                      elim (Option-cases r.1) [
                        | inl refused ↦ (
                          rw (good, some_pages, made, refused) made_sets.0,
                          rw (good, some_pages, made, refused) made_sets.1,
                        )
                        | inr (new_vmo, created) ↦
                            let owned = own_pmem_sets new_vmo new_pages bytes r.0 w2 in
                            (
                              rw (good, some_pages, made, created) (owned.0 ∙ made_sets.0),
                              rw (good, some_pages, made, created) (owned.1 ∙ made_sets.1),
                            )
                      ]
                ]
          ]
        ]
