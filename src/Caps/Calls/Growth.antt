-- ===== src/Caps/Calls/Growth.antt =====
-- One call of kcaps.c advances each handle counter by one at most.
use sharkix.Common.{
  ℕ, ◌+◌, ◌≤◌, ◌≡◌, refl, Bool, Option, List, [], ◌∷◌, arith, inl, inr, Option-cases,
}
use sharkix.Table.{UtHash}
use sharkix.Table.Laws.{find, entries}
use sharkix.Caps.State.{Caps}
use sharkix.Caps.Global.{
  publish, kcap_create, kcap_destroy, kcap_derive, kcap_clone, merge_caps, kcap_merge,
}
use sharkix.Caps.Names.{kcap_set_name}
use sharkix.Caps.Sets.{
  kcapset_new, kcapset_destroy, destroy_members, kcapset_addcap, kcapset_delcap, transfer,
  kcapset_move_cap,
}
use sharkix.Caps.Calls.{
  Call, create, destroy, set_name, derive, clone, merge, set_new, set_destroy, set_addcap,
  set_delcap, set_move, step,
}

module _ ⦃h : UtHash⦄ where
  abbrev Within : Caps → Caps → Type 0
  Within s t =
      (t.next_cap_handle ≤ s.next_cap_handle + 1)
      × (t.next_capset_handle ≤ s.next_capset_handle + 1)

  abbrev Same : Caps → Caps → Type 0
  Same s t = (t.next_cap_handle ≡ s.next_cap_handle) × (t.next_capset_handle ≡ s.next_capset_handle)

  kcap_destroy-Same : (k : ℕ) (s : Caps) → Same s (kcap_destroy k s).0
  unfolding kcap_destroy
  kcap_destroy-Same k s = ground arith

  destroy_members-Same : (l : List (ℕ × ℕ)) (s : Caps) → Same s (destroy_members l s)
  unfolding destroy_members
  destroy_members-Same [] s = (refl, refl)
  destroy_members-Same ((_, c) ∷ l) s =
      omega (arith, kcap_destroy-Same c s, destroy_members-Same l (kcap_destroy c s).0)

  kcap_set_name-Same :
      (mem : Bool) (k : ℕ) (bytes : Option (List ℕ)) (len : ℕ) (s : Caps)
      → Same s (kcap_set_name mem k bytes len s).0
  unfolding kcap_set_name
  kcap_set_name-Same mem k bytes len s = ground arith

  kcapset_destroy-Same : (k : ℕ) (s : Caps) → Same s (kcapset_destroy k s).0
  unfolding kcapset_destroy
  kcapset_destroy-Same k s = elim (Option-cases (find k s.capsets)) [
    | inl e ↦ rw (e, kcapset_destroy) (refl, refl)
    | inr (set, e) ↦ rw (e, kcapset_destroy) (destroy_members-Same (entries set.caps) _)
  ]

  kcapset_delcap-Same : (k c : ℕ) (s : Caps) → Same s (kcapset_delcap k c s).0
  unfolding kcapset_delcap kcap_destroy
  kcapset_delcap-Same k c s = ground arith

  kcapset_move_cap-Same : (i j c : ℕ) (s : Caps) → Same s (kcapset_move_cap i j c s).0
  unfolding kcapset_move_cap transfer
  kcapset_move_cap-Same i j c s = ground arith

  -- A call may take one handle, and the counters do not skip any.
  pub step-Within : (s : Caps) (c : Call) → Within s (step s c)
  unfolding step
  step-Within s (create out mem obj type rights) = unfold kcap_create publish in ground arith
  step-Within s (destroy k) = omega (arith, kcap_destroy-Same k s)
  step-Within s (set_name mem k bytes len) = omega (arith, kcap_set_name-Same mem k bytes len s)
  step-Within s (derive out mem source rights) = unfold kcap_derive publish in ground arith
  step-Within s (clone out mem source) = unfold kcap_clone publish in ground arith
  step-Within s (merge out mem a b) = unfold kcap_merge merge_caps publish in ground arith
  step-Within s (set_new out mem) = unfold kcapset_new in ground arith
  step-Within s (set_destroy k) = omega (arith, kcapset_destroy-Same k s)
  step-Within s (set_addcap mem k cap) = unfold kcapset_addcap in ground arith
  step-Within s (set_delcap k cap) = omega (arith, kcapset_delcap-Same k cap s)
  step-Within s (set_move src dst cap) = omega (arith, kcapset_move_cap-Same src dst cap s)
