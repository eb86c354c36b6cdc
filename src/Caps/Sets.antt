-- ===== src/Caps/Sets.antt =====
-- kcaps.c: capability sets and their members. Conventions as in Caps/Global.antt.
use sharkix.Common.{
  ℕ, ◌+◌, ◌%◌, ◌^◌, ◌==◌, if◌then◌else◌, Bool, true, false, not, Option, none, some, List, [], ◌∷◌,
  is_some,
}
use sharkix.Table.{UtHash}
use sharkix.Table.Laws.{empty, find, add, del, modify, entries}
use sharkix.Caps.State.{Cap, CapNameEntry, CapSet, Caps}
use sharkix.Caps.Global.{find_cap, kcap_destroy}

module _ ⦃h : UtHash⦄ where
  -- kcapset_find_locked
  abbrev pub find_set : ℕ → Caps → Option CapSet
  find_set set s = find set s.capsets

  unfoldable pub kcapset_new : (out mem : Bool) → Caps → Caps × Option ℕ
  kcapset_new out mem s = if not out then (s, none) else if not mem then (s, none) else (
    record s {
      next_capset_handle = (s.next_capset_handle + 1) % 2 ^ 64;
      capsets =
          add s.next_capset_handle (record { capset_handle = s.next_capset_handle; caps = empty ℕ })
            s.capsets;
    },
    some s.next_capset_handle,
  )

  unfoldable pub empty_tables : Caps
  empty_tables = record {
    next_cap_handle = 1;
    caps = empty Cap;
    names = empty CapNameEntry;
    next_capset_handle = 1;
    capsets = empty CapSet;
  }

  -- The boot state: empty tables and the kernel's own set, if its allocation succeeds.
  unfoldable pub kinit_caps : (mem : Bool) → Caps × Option ℕ
  unfolding kcapset_new
  kinit_caps mem = kcapset_new true mem empty_tables

  -- The HASH_ITER of kcapset_destroy: every member is destroyed, whatever kcap_destroy says.
  unfoldable pub destroy_members : List (ℕ × ℕ) → Caps → Caps
  destroy_members [] s = s
  destroy_members ((_, cap) ∷ rest) s = destroy_members rest (kcap_destroy cap s).0

  -- The members are destroyed after the locks are left; here no other call comes in between.
  unfoldable pub kcapset_destroy : ℕ → Caps → Caps × Bool
  kcapset_destroy handle s = elim (find_set handle s) [
    | none ↦ (s, false)
    | some set ↦
        (destroy_members (entries set.caps) (record s { capsets = del handle s.capsets }), true)
  ]

  -- The member list of one set, changed in place.
  abbrev pub change_set : ℕ → (CapSet → CapSet) → Caps → Caps
  change_set handle f s = record s { capsets = modify handle f s.capsets }

  abbrev pub insert_member : ℕ → CapSet → CapSet
  insert_member cap set = record set { caps = add cap cap set.caps }

  abbrev pub remove_member : ℕ → CapSet → CapSet
  remove_member cap set = record set { caps = del cap set.caps }

  unfoldable pub kcapset_addcap : (mem : Bool) → ℕ → ℕ → Caps → Caps × Bool
  kcapset_addcap mem handle cap s =
      if not mem
      then (s, false)
      else if not (is_some (find_cap cap s))
      then (s, false)
      else elim (find_set handle s) [
        | none ↦ (s, false)
        | some set ↦
            if is_some (find cap set.caps)
            then (s, false)
            else (change_set handle (insert_member cap) s, true)
      ]

  -- The capability itself is destroyed after its entry has left the set, and after the locks; here no
  -- other call comes in between.
  unfoldable pub kcapset_delcap : ℕ → ℕ → Caps → Caps × Bool
  kcapset_delcap handle cap s = elim (find_set handle s) [
    | none ↦ (s, false)
    | some set ↦ elim (find cap set.caps) [
      | none ↦ (s, false)
      | some entry ↦ ((kcap_destroy entry (change_set handle (remove_member cap) s)).0, true)
    ]
  ]

  unfoldable pub kcapset_hascap : ℕ → ℕ → Caps → Bool
  kcapset_hascap handle cap s = elim (find_set handle s) [
    | none ↦ false
    | some set ↦ is_some (find cap set.caps)
  ]

  -- The entry moves; where the target already has one, the source's entry is freed.
  unfoldable pub transfer : ℕ → ℕ → ℕ → CapSet → CapSet → Caps → Caps × Bool
  transfer src dst cap src_set dst_set s = elim (find cap src_set.caps) [
    | none ↦ (s, false)
    | some entry ↦
        let taken = change_set src (remove_member cap) s in
        (
          if is_some (find cap dst_set.caps)
              then taken
              else change_set dst (insert_member entry) taken,
          true,
        )
  ]

  -- Two sets are the same structure when their handles are equal. The order of the two spinlocks
  -- (lower handle first) does not show in one step.
  unfoldable pub kcapset_move_cap : ℕ → ℕ → ℕ → Caps → Caps × Bool
  kcapset_move_cap src dst cap s = elim (find_set src s) [
    | none ↦ (s, false)
    | some src_set ↦ elim (find_set dst s) [
      | none ↦ (s, false)
      | some dst_set ↦
          if src == dst
          then (s, is_some (find cap src_set.caps))
          else transfer src dst cap src_set dst_set s
    ]
  ]
