-- ===== src/Caps/Calls/Histories.antt =====
-- What holds after any history of calls.
use sharkix.Common.{
  ℕ, suc, ◌+◌, ◌<◌, ◌^◌, ◌≡◌, Bool, true, false, List, [], ◌∷◌, length, arith, inl, inr, Bool-cases,
  bit, ◌⊎◌,
}
use sharkix.Table.{UtHash}
use sharkix.Caps.State.{Caps}
use sharkix.Caps.Rights.{validate_rights}
use sharkix.Caps.Global.{kcap_create, publish}
use sharkix.Caps.Sets.{kinit_caps, empty_tables}
use sharkix.Caps.Valid.{IsValid, HasRoom, publish-IsValid, kinit_caps-IsValid}
use sharkix.Caps.Moves.{Moves, here}
use sharkix.Caps.Moves.Ops.{
  kcap_destroy-Moves, kcap_derive-Moves, kcap_clone-Moves, kcap_merge-Moves,
}
use sharkix.Caps.Moves.NameOps.{kcap_set_name-Moves}
use sharkix.Caps.Moves.SetOps.{
  kcapset_new-Moves, kcapset_destroy-Moves, kcapset_addcap-Moves, kcapset_delcap-Moves,
  kcapset_move_cap-Moves,
}
use sharkix.Caps.Moves.Keep.{Moves-IsValid}
use sharkix.Caps.Moves.Authority.{Held, Moves-Held, publish-Held}
use sharkix.Caps.Calls.{
  Call, create, destroy, set_name, derive, clone, merge, set_new, set_destroy, set_addcap,
  set_delcap, set_move, step, run,
}
use sharkix.Caps.Calls.Growth.{step-Within}

-- A call that mints right `i` on an object of a type.
abbrev pub Mints : Call → ℕ → ℕ → ℕ → Type 0
Mints (create out mem obj type rights) t o i = (type ≡ t) × (obj ≡ o) × (bit rights i ≡ 1)
Mints _ t o i = ⊥

abbrev pub Minted : List Call → ℕ → ℕ → ℕ → Type 0
Minted [] t o i = ⊥
Minted (c ∷ cs) t o i = Mints c t o i ⊎ Minted cs t o i

module _ ⦃h : UtHash⦄ where
  -- `n` more calls do not exhaust the 64-bit counters.
  abbrev pub RoomFor : ℕ → Caps → Type 0
  RoomFor n s = (s.next_cap_handle + n < 2 ^ 64) × (s.next_capset_handle + n < 2 ^ 64)

  -- A call mints one capability, or makes primitive changes that add no authority.
  data Effect (s : Caps) (c : Call) : Caps → Type 0 where
    moved : {t : Caps} → Moves s t → Effect s c t
    minted :
        (type obj rights : ℕ)
        → validate_rights type rights ≡ true
        → ((t o i : ℕ) → type ≡ t → obj ≡ o → bit rights i ≡ 1 → Mints c t o i)
        → Effect s c (publish type obj rights s).0

  create-Effect :
      (out mem : Bool) (obj type rights : ℕ) (s : Caps)
      → Effect s (create out mem obj type rights) (kcap_create out mem obj type rights s).0
  unfolding kcap_create
  create-Effect false mem obj type rights s = moved here
  create-Effect true false obj type rights s = elim (Bool-cases (validate_rights type rights)) [
    | inr refused ↦ rw refused (moved here)
    | inl ok ↦ rw ok (moved here)
  ]
  create-Effect true true obj type rights s = elim (Bool-cases (validate_rights type rights)) [
    | inr refused ↦ rw refused (moved here)
    | inl ok ↦ rw ok (minted type obj rights ok (λ t o i p q r. (p, q, r)))
  ]

  step-Effect : (s : Caps) (c : Call) → IsValid s → HasRoom s → Effect s c (step s c)
  unfolding step
  step-Effect s (create out mem obj type rights) v room = create-Effect out mem obj type rights s
  step-Effect s (destroy k) v room = moved (kcap_destroy-Moves k s)
  step-Effect s (set_name mem k bytes len) v room = moved (kcap_set_name-Moves mem k bytes len s)
  step-Effect s (derive out mem k rights) v room = moved (kcap_derive-Moves out mem k rights s room)
  step-Effect s (clone out mem k) v room = moved (kcap_clone-Moves out mem k s room)
  step-Effect s (merge out mem a b) v room = moved (kcap_merge-Moves out mem a b s room)
  step-Effect s (set_new out mem) v room = moved (kcapset_new-Moves out mem s room)
  step-Effect s (set_destroy k) v room = moved (kcapset_destroy-Moves k s)
  step-Effect s (set_addcap mem k c) v room = moved (kcapset_addcap-Moves mem k c s v)
  step-Effect s (set_delcap k c) v room = moved (kcapset_delcap-Moves k c s)
  step-Effect s (set_move i j c) v room = moved (kcapset_move_cap-Moves i j c s v)

  Effect-IsValid : {s t : Caps} {c : Call} → IsValid s → HasRoom s → Effect s c t → IsValid t
  Effect-IsValid v room (moved m) = Moves-IsValid v m
  Effect-IsValid v room (minted type obj rights ok by) = publish-IsValid v type obj rights room ok

  Effect-Held :
      {s t : Caps} {c : Call} {type obj i : ℕ}
      → IsValid s
      → Effect s c t
      → Held t type obj i
      → Held s type obj i ⊎ Mints c type obj i
  Effect-Held v (moved m) held = inl (Moves-Held v m held)
  Effect-Held {type} {obj} {i} v (minted t o r ok by) held = elim (publish-Held t o r v held) [
    | inl old ↦ inl old
    | inr (p, q, e) ↦ inr (by type obj i p q e)
  ]

  later_room : (s : Caps) (c : Call) (n : ℕ) → RoomFor (suc n) s → RoomFor n (step s c)
  later_room s c n room = omega (arith, step-Within s c)

  run-IsValid :
      (s : Caps) (cs : List Call) → IsValid s → RoomFor (length cs + 1) s → IsValid (run s cs)
  unfolding run
  run-IsValid s [] v room = v
  run-IsValid s (c ∷ cs) v room =
      run-IsValid (step s c) cs (Effect-IsValid v (omega arith) (step-Effect s c v (omega arith)))
        (omega (arith, later_room s c (length cs + 1)))

  -- From boot, and as long as fewer than 2^64 - 3 calls were made, every history of calls leaves
  -- the tables valid: no issued handle is reused, each capability stands under its own handle and
  -- has only rights of its type, names belong to live capabilities, members were issued.
  pub run-kinit_caps-IsValid :
      (mem : Bool) (cs : List Call) → length cs + 3 < 2 ^ 64 → IsValid (run (kinit_caps mem).0 cs)
  unfolding kinit_caps empty_tables
  run-kinit_caps-IsValid true cs few = run-IsValid _ cs (kinit_caps-IsValid true) (omega arith)
  run-kinit_caps-IsValid false cs few = run-IsValid _ cs (kinit_caps-IsValid false) (omega arith)

  -- A right that some capability carries on an object after a history of calls was carried on that
  -- object before it, or a kcap_create of the history named it. So deriving, cloning, merging,
  -- naming, destroying and moving capabilities never adds authority.
  pub run-Held :
      (s : Caps) (cs : List Call) (type obj i : ℕ)
      → IsValid s
      → RoomFor (length cs + 1) s
      → Held (run s cs) type obj i
      → Held s type obj i ⊎ Minted cs type obj i
  unfolding run
  run-Held s [] type obj i v room held = inl held
  run-Held s (c ∷ cs) type obj i v room held =
      let effect = step-Effect s c v (omega arith) in
      elim (run-Held (step s c) cs type obj i (Effect-IsValid v (omega arith) effect)
        (omega (arith, later_room s c (length cs + 1))) held) [
          | inr later ↦ inr (inr later)
          | inl held_now ↦ elim (Effect-Held v effect held_now) [
            | inl before ↦ inl before
            | inr now ↦ inr (inl now)
          ]
        ]
