-- ===== src/Caps/Destruction.antt =====
-- kcaps.c: what kcapset_delcap, kcapset_destroy and kcap_destroy_obj take away.
use sharkix.Common.{
  is_some, subst, ==_iff, ℕ, ◌≡◌, ◌≢◌, refl, ap, ◌∙◌, ◌==◌, ◌&&◌, ◌||◌, if◌then◌else◌, Bool, true,
  false, none, some, arith, ◌⊎◌, inl, inr, Option-cases, Bool-cases, bit_and, List, [], ◌∷◌,
}
use sharkix.Table.{UtHash}
use sharkix.Table.Laws.{find, del, entries, find-del}
use sharkix.Caps.State.{Cap, CapSet, Caps}
use sharkix.Caps.Valid.{IsValid}
use sharkix.Caps.Global.{kcap_destroy, Subsystems}
use sharkix.Caps.Rights.{right_destroy}
use sharkix.Caps.CapType
use sharkix.Caps.Sets.{
  kcapset_delcap, kcapset_hascap, kcapset_destroy, destroy_members, change_set, remove_member,
}
use sharkix.Caps.Membership.{kcapset_hascap-remove}

-- Some entry of the walk holds the handle.
abbrev pub holds : ℕ → List (ℕ × ℕ) → Bool
holds k [] = false
holds k ((_, c) ∷ l) = (c == k) || holds k l

module _ ⦃h : UtHash⦄ where
  find-kcap_destroy :
      (j k : ℕ) (s : Caps)
      → find j (kcap_destroy k s).0.caps ≡ (if k == j then none else find j s.caps)
  unfolding kcap_destroy
  find-kcap_destroy j k s = elim (Option-cases (find k s.caps)) [
    | inl gone ↦ elim (Bool-cases (k == j)) [
      | inl same ↦ let e : k ≡ j = ground arith in rw (gone, kcap_destroy, same) (rw e at gone)
      | inr other ↦ ground arith
    ]
    | inr (c, live) ↦ ground (arith, find-del j k s.caps)
  ]

  capsets-kcap_destroy : (k : ℕ) (s : Caps) → (kcap_destroy k s).0.capsets ≡ s.capsets
  unfolding kcap_destroy
  capsets-kcap_destroy k s = ground arith

  find-destroy_members :
      (j : ℕ) (l : List (ℕ × ℕ)) (s : Caps)
      → find j (destroy_members l s).caps ≡ (if holds j l then none else find j s.caps)
  unfolding destroy_members
  find-destroy_members j [] s = refl
  find-destroy_members j ((_, c) ∷ l) s =
      ground (arith, find-destroy_members j l (kcap_destroy c s).0, find-kcap_destroy j c s)

  capsets-destroy_members :
      (l : List (ℕ × ℕ)) (s : Caps) → (destroy_members l s).capsets ≡ s.capsets
  unfolding destroy_members
  capsets-destroy_members [] s = refl
  capsets-destroy_members ((_, c) ∷ l) s =
      capsets-destroy_members l (kcap_destroy c s).0 ∙ capsets-kcap_destroy c s

  names-kcap_destroy :
      (j k : ℕ) (s : Caps) → (k == j) ≡ false → find j (kcap_destroy k s).0.names ≡ find j s.names
  unfolding kcap_destroy
  names-kcap_destroy j k s other = ground (arith, find-del j k s.names)

  names-destroy_members :
      (j : ℕ) (l : List (ℕ × ℕ)) (s : Caps)
      → holds j l ≡ false
      → find j (destroy_members l s).names ≡ find j s.names
  unfolding destroy_members
  names-destroy_members j [] s out = refl
  names-destroy_members j ((_, c) ∷ l) s out =
      names-destroy_members j l (kcap_destroy c s).0 (ground (arith, out))
      ∙ names-kcap_destroy j c s (ground (arith, out))

  abbrev SameCounters : (s t : Caps) → Type 0
  SameCounters s t =
      (t.next_cap_handle ≡ s.next_cap_handle) × (t.next_capset_handle ≡ s.next_capset_handle)

  counters-destroy_members : (l : List (ℕ × ℕ)) (s : Caps) → SameCounters s (destroy_members l s)
  unfolding destroy_members kcap_destroy
  counters-destroy_members [] s = (refl, refl)
  counters-destroy_members ((_, c) ∷ l) s =
      ground (arith, counters-destroy_members l (kcap_destroy c s).0)

  -- The set lists the capability.
  abbrev pub Lists : (k j : ℕ) → Caps → Type 0
  Lists k j s = (x : CapSet) × (find k s.capsets ≡ some x) × (holds j (entries x.caps) ≡ true)

  -- kcapset_destroy succeeds exactly when the set exists, and when it fails nothing changes. The set is
  -- gone, every other set is as it was, every capability that the set does not list keeps its
  -- descriptor and its name, and no handle counter changes.
  pub kcapset_destroy_lem :
      (k j : ℕ) (s : Caps)
      → let r = kcapset_destroy k s in
        (r.1 ≡ is_some (find k s.capsets))
        × (r.0 ≡ (if r.1 then r.0 else s))
        × (find j r.0.capsets ≡ (if k == j then none else find j s.capsets))
        × (Lists k j s ⊎ ((find j r.0.caps ≡ find j s.caps) × (find j r.0.names ≡ find j s.names)))
        × (r.0.next_cap_handle ≡ s.next_cap_handle)
        × (r.0.next_capset_handle ≡ s.next_capset_handle)
  unfolding kcapset_destroy
  kcapset_destroy_lem k j s = elim (Option-cases (find k s.capsets)) [
    | inl e ↦
        rw (e, kcapset_destroy)
          (
            refl,
            refl,
            elim (Bool-cases (k == j)) [
              | inl same ↦ rw same (subst (λ i. find i s.capsets ≡ none) ((==_iff k j).0 same) e)
              | inr other ↦ rw other refl
            ],
            inr (refl, refl),
            refl,
            refl,
          )
    | inr (x, e) ↦
        let s' = record s { capsets = del k s.capsets } in
        let l = entries x.caps in
        rw (e, kcapset_destroy)
          (
            refl,
            refl,
            ap (find j) (capsets-destroy_members l s') ∙ find-del j k s.capsets,
            elim (Bool-cases (holds j l)) [
              | inl listed ↦ inl (x, refl, listed)
              | inr not_listed ↦ inr (
                find-destroy_members j l s' ∙ rw not_listed refl,
                names-destroy_members j l s' not_listed,
              )
            ],
            (counters-destroy_members l s').0,
            (counters-destroy_members l s').1,
          )
  ]

  kcapset_hascap-kcap_destroy :
      (i d k : ℕ) (s : Caps) → kcapset_hascap i d (kcap_destroy k s).0 ≡ kcapset_hascap i d s
  unfolding kcapset_hascap
  kcapset_hascap-kcap_destroy i d k s = rw (capsets-kcap_destroy k s, kcapset_hascap)

  delcap_within :
      (k c : ℕ) (s : Caps)
      → IsValid s
      → kcapset_hascap k c s ≡ true
      → kcapset_delcap k c s ≡ ((kcap_destroy c (change_set k (remove_member c) s)).0, true)
  unfolding kcapset_delcap kcapset_hascap
  delcap_within k c s v m = elim (Option-cases (find k s.capsets)) [
    | inl e ↦ absurd (ground arith)
    | inr (x, e) ↦ elim (Option-cases (find c x.caps)) [
      | inl f ↦ absurd (ground arith)
      | inr (entry, f) ↦
          rw (e, f, kcapset_delcap)
            (ap (λ n. ((kcap_destroy n (change_set k (remove_member c) s)).0, true))
              (v.members k x c entry e f).0)
    ]
  ]

  -- kcapset_delcap of a member takes it out of the set and destroys the capability globally, so no
  -- other set can use it either; every other membership and capability stays.
  pub kcapset_delcap_lem :
      (k c i d : ℕ) (s : Caps)
      → IsValid s
      → kcapset_hascap k c s ≡ true
      → let r = kcapset_delcap k c s in
        (r.1 ≡ true)
        × (kcapset_hascap i d r.0 ≡ (if (i == k) && (d == c) then false else kcapset_hascap i d s))
        × (find d r.0.caps ≡ (if c == d then none else find d s.caps))
  kcapset_delcap_lem k c i d s v m = rw (delcap_within k c s v m) (
    refl,
    kcapset_hascap-kcap_destroy i d c (change_set k (remove_member c) s)
        ∙ kcapset_hascap-remove k c i d s,
    find-kcap_destroy d c (change_set k (remove_member c) s),
  )

module _ ⦃h : UtHash⦄ {K : Type 0} (sub : Subsystems K) where
  -- What the destruction of an object of the type came to: the call of its own subsystem, or -1 for a
  -- type that has none.
  abbrev pub Destroys : (type obj : ℕ) → K → K × Bool → Type 0
  Destroys type obj state r =
      ((type ≡ CapType.ipc) × (r ≡ sub.kipc_destroy obj state))
      ⊎ ((type ≡ CapType.pmem) × (r ≡ sub.kpmem_destroy obj state))
      ⊎ ((type ≡ CapType.vmo) × (r ≡ sub.kvmo_destroy obj state))
      ⊎ ((type ≡ CapType.portio) × (r ≡ sub.kportio_destroy obj state))
      ⊎ ((type ≡ CapType.irq) × (r ≡ sub.kirq_destroy obj state))
      ⊎ ((type ≡ CapType.address_space) × (r ≡ sub.kas_unregister obj state))
      ⊎ ((type ≢ CapType.ipc)
          × (type ≢ CapType.pmem)
          × (type ≢ CapType.vmo)
          × (type ≢ CapType.portio)
          × (type ≢ CapType.irq)
          × (type ≢ CapType.address_space)
          × (r ≡ (state, false)))

  -- The capability is not live, or lacks DESTROY.
  abbrev pub MayNot : ℕ → Caps → Type 0
  MayNot k s =
      (find k s.caps ≡ none)
      ⊎ ((cap : Cap) × (find k s.caps ≡ some cap) × (bit_and cap.rights right_destroy ≡ 0))
