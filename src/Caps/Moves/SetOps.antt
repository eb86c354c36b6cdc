-- ===== src/Caps/Moves/SetOps.antt =====
-- The functions on capability sets as primitive changes.
use sharkix.Common.{
  ℕ, ◌<◌, ◌≡◌, ◌≢◌, ◌==◌, Bool, true, false, some, is_some, arith, inl, inr, Option-cases,
  Bool-cases, List, [], ◌∷◌,
}
use sharkix.Table.{UtHash}
use sharkix.Table.Laws.{find, entries, find-modify}
use sharkix.Caps.State.{CapSet, Caps}
use sharkix.Caps.Global.{kcap_destroy}
use sharkix.Caps.Sets.{
  kcapset_new, kcapset_destroy, destroy_members, kcapset_addcap, kcapset_delcap, transfer,
  kcapset_move_cap, remove_member,
}
use sharkix.Caps.Valid.{IsValid, HasRoom}
use sharkix.Caps.Moves.{Moves, destroy, open_set, close_set, enter, leave, here, next, one, chain}

module _ ⦃h : UtHash⦄ where
  -- A live handle was issued.
  issued : {s : Caps} → IsValid s → (c : ℕ) → is_some (find c s.caps) ≡ true → c < s.next_cap_handle
  issued {s} v c live = ground (arith, v.fresh c)

  pub destroy_members-Moves : (l : List (ℕ × ℕ)) (s : Caps) → Moves s (destroy_members l s)
  unfolding destroy_members
  destroy_members-Moves [] s = here
  destroy_members-Moves ((_, c) ∷ l) s =
      chain (one (destroy c)) (destroy_members-Moves l (kcap_destroy c s).0)

  pub kcapset_new-Moves :
      (out mem : Bool) (s : Caps) → HasRoom s → Moves s (kcapset_new out mem s).0
  unfolding kcapset_new
  kcapset_new-Moves false mem s room = here
  kcapset_new-Moves true false s room = here
  kcapset_new-Moves true true s room = one (open_set room)

  pub kcapset_destroy-Moves : (k : ℕ) (s : Caps) → Moves s (kcapset_destroy k s).0
  unfolding kcapset_destroy
  kcapset_destroy-Moves k s = elim (Option-cases (find k s.capsets)) [
    | inl e ↦ rw (e, kcapset_destroy) here
    | inr (set, e) ↦
        rw (e, kcapset_destroy)
          (chain (one (close_set k)) (destroy_members-Moves (entries set.caps) _))
  ]

  pub kcapset_addcap-Moves :
      (mem : Bool) (k c : ℕ) (s : Caps) → IsValid s → Moves s (kcapset_addcap mem k c s).0
  unfolding kcapset_addcap
  kcapset_addcap-Moves false k c s v = here
  kcapset_addcap-Moves true k c s v = elim (Bool-cases (is_some (find c s.caps))) [
    | inr gone ↦ rw gone here
    | inl live ↦ rw live (elim (Option-cases (find k s.capsets)) [
      | inl e ↦ rw (e, kcapset_addcap) here
      | inr (set, e) ↦
          rw (e, kcapset_addcap)
            (elim (Option-cases (find c set.caps)) [
              | inr (old, f) ↦ rw f here
              | inl free ↦ rw free (one (enter k c set (issued v c live) e free))
            ])
    ])
  ]

  pub kcapset_delcap-Moves : (k c : ℕ) (s : Caps) → Moves s (kcapset_delcap k c s).0
  unfolding kcapset_delcap
  kcapset_delcap-Moves k c s = elim (Option-cases (find k s.capsets)) [
    | inl e ↦ rw (e, kcapset_delcap) here
    | inr (set, e) ↦ elim (Option-cases (find c set.caps)) [
      | inl f ↦ rw (e, f, kcapset_delcap) here
      | inr (entry, f) ↦ rw (e, f, kcapset_delcap) (next (one (leave k c)) (destroy entry))
    ]
  ]

  transfer-Moves :
      (i j c : ℕ) (src dst : CapSet) (s : Caps)
      → IsValid s
      → i ≢ j
      → find i s.capsets ≡ some src
      → find j s.capsets ≡ some dst
      → Moves s (transfer i j c src dst s).0
  unfolding transfer
  transfer-Moves i j c src dst s v apart e f = elim (Option-cases (find c src.caps)) [
    | inl missing ↦ rw (missing, transfer) here
    | inr (entry, held) ↦ elim (Option-cases (find c dst.caps)) [
      | inr (old, both) ↦ rw (held, both, transfer) (one (leave i c))
      | inl free ↦
          let (same, below) = v.members i src c entry e held in
          rw (held, free, transfer)
            (next (one (leave i c)) (
              enter j entry dst (omega arith)
                (ground (arith, find-modify j i (remove_member c) s.capsets)) (rw same free)))
    ]
  ]

  pub kcapset_move_cap-Moves :
      (i j c : ℕ) (s : Caps) → IsValid s → Moves s (kcapset_move_cap i j c s).0
  unfolding kcapset_move_cap
  kcapset_move_cap-Moves i j c s v = elim (Option-cases (find i s.capsets)) [
    | inl e ↦ rw (e, kcapset_move_cap) here
    | inr (src, e) ↦ elim (Option-cases (find j s.capsets)) [
      | inl f ↦ rw (e, f, kcapset_move_cap) here
      | inr (dst, f) ↦
          rw (e, f, kcapset_move_cap)
            (elim (Bool-cases (i == j)) [
              | inl same ↦ rw same here
              | inr apart ↦ rw apart (transfer-Moves i j c src dst s v (ground arith) e f)
            ])
    ]
  ]
