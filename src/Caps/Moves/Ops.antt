-- ===== src/Caps/Moves/Ops.antt =====
-- The functions on single capabilities, except kcap_create, as primitive changes.
use sharkix.Common.{
  ℕ, ◌≡◌, ◌==◌, ◌&&◌, Bool, true, false, some, arith, inl, inr, Option-cases, Bool-cases, bit_and,
  bit_or, bit_and_self,
}
use sharkix.Table.{UtHash}
use sharkix.Table.Laws.{find}
use sharkix.Caps.Rights.{validate_rights}
use sharkix.Caps.State.{Cap, Caps}
use sharkix.Caps.Global.{kcap_destroy, kcap_derive, kcap_clone, merge_caps, kcap_merge}
use sharkix.Caps.Valid.{HasRoom}
use sharkix.Caps.Moves.{Moves, burn, shrink, join, destroy, here, one}

module _ ⦃h : UtHash⦄ where
  pub kcap_destroy-Moves : (k : ℕ) (s : Caps) → Moves s (kcap_destroy k s).0
  kcap_destroy-Moves k s = one (destroy k)

  pub kcap_derive-Moves :
      (out mem : Bool) (source rights : ℕ) (s : Caps)
      → HasRoom s
      → Moves s (kcap_derive out mem source rights s).0
  unfolding kcap_derive
  kcap_derive-Moves false mem source rights s room = here
  kcap_derive-Moves true false source rights s room = here
  kcap_derive-Moves true true source rights s room = elim (Option-cases (find source s.caps)) [
    | inl e ↦ rw (e, kcap_derive) here
    | inr (src, e) ↦ elim (Bool-cases (bit_and rights src.rights == rights)) [
      | inl sub ↦ rw (e, kcap_derive, sub) (one (shrink source rights src room e (ground arith)))
      | inr over ↦ rw (e, kcap_derive, over) here
    ]
  ]

  pub kcap_clone-Moves :
      (out mem : Bool) (source : ℕ) (s : Caps) → HasRoom s → Moves s (kcap_clone out mem source s).0
  unfolding kcap_clone
  kcap_clone-Moves false mem source s room = here
  kcap_clone-Moves true false source s room = here
  kcap_clone-Moves true true source s room = elim (Option-cases (find source s.caps)) [
    | inl e ↦ rw (e, kcap_clone) here
    | inr (src, e) ↦
        rw (e, kcap_clone) (one (shrink source src.rights src room e (bit_and_self src.rights)))
  ]

  merge_caps-Moves :
      (j k : ℕ) (a b : Cap) (s : Caps)
      → HasRoom s
      → find j s.caps ≡ some a
      → find k s.caps ≡ some b
      → Moves s (merge_caps a b s).0
  unfolding merge_caps
  merge_caps-Moves j k a b s room e f =
      elim (Bool-cases ((a.obj_handle == b.obj_handle) && (a.type == b.type))) [
        | inr differ ↦ rw differ here
        | inl same ↦
            rw same (elim (Bool-cases (validate_rights a.type (bit_or a.rights b.rights))) [
              | inr refused ↦ rw refused (one (burn room))
              | inl valid ↦ rw valid (one (join j k a b room e f (ground arith) (ground arith)))
            ])
      ]

  pub kcap_merge-Moves :
      (out mem : Bool) (j k : ℕ) (s : Caps) → HasRoom s → Moves s (kcap_merge out mem j k s).0
  unfolding kcap_merge
  kcap_merge-Moves false mem j k s room = here
  kcap_merge-Moves true false j k s room = here
  kcap_merge-Moves true true j k s room = elim (Option-cases (find j s.caps)) [
    | inl e ↦ rw (e, kcap_merge) here
    | inr (a, e) ↦ elim (Option-cases (find k s.caps)) [
      | inl f ↦ rw (e, f, kcap_merge) here
      | inr (b, f) ↦ rw (e, f, kcap_merge) (merge_caps-Moves j k a b s room e f)
    ]
  ]
