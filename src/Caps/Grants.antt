-- ===== src/Caps/Grants.antt =====
-- kcaps.c: which capability kcap_derive, kcap_clone and kcap_merge make.
use sharkix.Common.{
  false, subst, sym, ℕ, ◌≡◌, ◌≢◌, refl, ◌==◌, ◌&&◌, if◌then◌else◌, Bool, true, Option, none, some,
  is_some, arith, ◌⊎◌, inl, inr, Option-cases, Bool-cases, bit_and, bit_or,
}
use sharkix.Table.{UtHash}
use sharkix.Table.Laws.{find, find-add}
use sharkix.Caps.State.{Cap, Caps}
use sharkix.Caps.Valid.{IsValid}
use sharkix.Caps.Rights.{validate_rights, validate_rights-bit_or}
use sharkix.Caps.Global.{publish, kcap_derive, kcap_clone, merge_caps, kcap_merge}

module _ ⦃h : UtHash⦄ where
  -- `t` is `s` with one more capability, under a handle that was free.
  pub record Granted (s t : Caps) (n type obj rights : ℕ) : Type 0 where
    pub issued : n ≡ s.next_cap_handle
    pub was_free : find n s.caps ≡ none
    pub lookup :
        (k : ℕ)
        → find k t.caps ≡ (
            if n == k
            then some (record { cap_handle = n; type = type; obj_handle = obj; rights = rights })
            else find k s.caps)
    pub same_names : t.names ≡ s.names
    pub same_sets : t.capsets ≡ s.capsets

  publish-Granted :
      {s : Caps} (type obj rights : ℕ)
      → IsValid s
      → Granted s (publish type obj rights s).0 s.next_cap_handle type obj rights
  unfolding publish
  publish-Granted {s} type obj rights v = record {
    issued = refl;
    was_free = free;
    lookup = λ k. find-add k s.next_cap_handle _ s.caps free;
    same_names = refl;
    same_sets = refl;
  }
    where
      free : find s.next_cap_handle s.caps ≡ none
      free = v.fresh s.next_cap_handle (omega arith)

  -- What kcap_derive did: it granted the rights on the source's object, or it failed, changed nothing,
  -- and had one of the four reasons.
  abbrev pub Derived : (out mem : Bool) (source rights : ℕ) → Caps → Caps × Option ℕ → Type 0
  Derived out mem source rights s r =
      ((src : Cap) × (out ≡ true)
        × (mem ≡ true)
        × (find source s.caps ≡ some src)
        × (bit_and rights src.rights ≡ rights)
        × Granted s r.0 s.next_cap_handle src.type src.obj_handle rights
        × (r.1 ≡ some s.next_cap_handle))
      ⊎ (((out ≡ false)
            ⊎ (mem ≡ false)
            ⊎ (find source s.caps ≡ none)
            ⊎ ((src : Cap) × (find source s.caps ≡ some src)
                × (bit_and rights src.rights ≢ rights)))
          × (r ≡ (s, none)))

  -- On valid tables kcap_derive fails and changes nothing exactly for a NULL result pointer, without
  -- memory, without a live source, or when a requested right is not among the source's; else it grants
  -- exactly the requested rights on the source's object under a handle that was free, and changes no
  -- other capability, no name and no set.
  pub kcap_derive_lem :
      (out mem : Bool) (source rights : ℕ) (s : Caps)
      → IsValid s
      → Derived out mem source rights s (kcap_derive out mem source rights s)
  unfolding kcap_derive
  kcap_derive_lem false mem source rights s v = inr (inl refl, refl)
  kcap_derive_lem true false source rights s v = inr (inr (inl refl), refl)
  kcap_derive_lem true true source rights s v = elim (Option-cases (find source s.caps)) [
    | inl absent ↦ inr (inr (inr (inl absent)), rw absent refl)
    | inr (src, e) ↦ elim (Bool-cases (bit_and rights src.rights == rights)) [
      | inl sub ↦
          let within : bit_and rights src.rights ≡ rights = ground (arith, sub) in
          let out_is : kcap_derive true true source rights s
              ≡ publish src.type src.obj_handle rights s =
            simp (kcap_derive, e, sub) in
          subst (Derived true true source rights s) (sym out_is) (
            inl (
              src,
              refl,
              refl,
              e,
              within,
              publish-Granted src.type src.obj_handle rights v,
              unfold publish in refl,
            ))
      | inr over ↦ inr (inr (inr (inr (src, e, ground (arith, over)))), simp (kcap_derive, e, over))
    ]
  ]

  -- In a valid state kcap_merge of two live capabilities for one object and type always succeeds,
  -- if memory is there, and grants the union of their rights: its last check never refuses.
  pub kcap_merge_lem :
      (j k : ℕ) (a b : Cap) (s : Caps)
      → IsValid s
      → find j s.caps ≡ some a
      → find k s.caps ≡ some b
      → a.obj_handle ≡ b.obj_handle
      → a.type ≡ b.type
      → Granted s
          (kcap_merge true true j k s).0
          s.next_cap_handle
          a.type
          a.obj_handle
          (bit_or a.rights b.rights)
        × ((kcap_merge true true j k s).1 ≡ some s.next_cap_handle)
  unfolding kcap_merge merge_caps
  kcap_merge_lem j k a b s v e f object type =
      rw (e, f, kcap_merge, merge_caps, same, valid)
        (publish-Granted a.type a.obj_handle (bit_or a.rights b.rights) v, unfold publish in refl)
    where
      same : ((a.obj_handle == b.obj_handle) && (a.type == b.type)) ≡ true
      same = ground arith

      valid : validate_rights a.type (bit_or a.rights b.rights) ≡ true
      valid =
          validate_rights-bit_or a.type a.rights b.rights (v.caps j a e).1
            (rw type (v.caps k b f).1)

  -- The state that a call leaves when it makes no capability is the one before it.
  abbrev pub FailsClean : Caps → Caps × Option ℕ → Type 0
  FailsClean s r = r.0 ≡ (if is_some r.1 then r.0 else s)

  merge_caps_clean :
      (j k : ℕ) (a b : Cap) (s : Caps)
      → IsValid s
      → find j s.caps ≡ some a
      → find k s.caps ≡ some b
      → FailsClean s (merge_caps a b s)
  unfolding merge_caps publish
  merge_caps_clean j k a b s v e f =
      ground (arith, validate_rights-bit_or a.type a.rights b.rights, v.caps j a e, v.caps k b f)

  kcap_merge_clean :
      (out mem : Bool) (j k : ℕ) (s : Caps) → IsValid s → FailsClean s (kcap_merge out mem j k s)
  unfolding kcap_merge
  kcap_merge_clean out mem j k s v = elim (Option-cases (find j s.caps)) [
    | inl e ↦ ground arith
    | inr (a, e) ↦ elim (Option-cases (find k s.caps)) [
      | inl f ↦ ground arith
      | inr (b, f) ↦ ground (arith, merge_caps_clean j k a b s v e f)
    ]
  ]

  -- kcap_derive, kcap_clone and kcap_merge that make no capability leave a valid state as it was;
  -- in particular kcap_merge uses up no handle.
  pub grants_fail_clean :
      (out mem : Bool) (j k rights : ℕ) (s : Caps)
      → IsValid s
      → FailsClean s (kcap_derive out mem j rights s)
        × FailsClean s (kcap_clone out mem j s)
        × FailsClean s (kcap_merge out mem j k s)
  unfolding kcap_derive kcap_clone publish
  grants_fail_clean out mem j k rights s v =
      (ground arith, ground arith, kcap_merge_clean out mem j k s v)
