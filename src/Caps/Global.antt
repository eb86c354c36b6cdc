-- ===== src/Caps/Global.antt =====
-- kcaps.c: the table of capabilities. `out` says that the result pointer is not NULL, and `mem`
-- that kmalloc succeeds. A call is one step on the tables, with no other call inside it.
-- A new handle is an option, and `none` is -1; a plain status is a Bool, and `true` is 0.
use sharkix.Common.{
  ℕ, ◌+◌, ◌%◌, ◌^◌, ◌==◌, if◌then◌else◌, Bool, true, false, not, ◌&&◌, Option, none, some, bit_and,
  bit_or, is_some,
}
use sharkix.Table.{UtHash}
use sharkix.Table.Laws.{find, add, del}
use sharkix.Caps.Rights.{validate_rights, right_destroy}
use sharkix.Caps.CapType
use sharkix.Caps.State.{Cap, Caps}

module _ ⦃h : UtHash⦄ where
  -- kcap_find_locked
  abbrev pub find_cap : ℕ → Caps → Option Cap
  find_cap handle s = find handle s.caps

  -- `cap_handle = next_cap_handle++` on 64 bits, then HASH_ADD: how each new capability is published.
  unfoldable pub publish : ℕ → ℕ → ℕ → Caps → Caps × Option ℕ
  publish type obj rights s = (
    record s {
      next_cap_handle = (s.next_cap_handle + 1) % 2 ^ 64;
      caps =
          add s.next_cap_handle
            (record {
              cap_handle = s.next_cap_handle;
              type = type;
              obj_handle = obj;
              rights = rights;
            })
            s.caps;
    },
    some s.next_cap_handle,
  )

  unfoldable pub kcap_create : (out mem : Bool) → ℕ → ℕ → ℕ → Caps → Caps × Option ℕ
  kcap_create out mem obj type rights s =
      if not out
      then (s, none)
      else if not (validate_rights type rights)
      then (s, none)
      else if not mem
      then (s, none)
      else publish type obj rights s

  unfoldable pub kcap_cap_exists : ℕ → Caps → Bool
  kcap_cap_exists handle s = is_some (find_cap handle s)

  -- The name goes with the capability.
  unfoldable pub kcap_destroy : ℕ → Caps → Caps × Bool
  kcap_destroy handle s = elim (find_cap handle s) [
    | none ↦ (s, false)
    | some _ ↦ (
      record s {
        caps = del handle s.caps;
        names = if is_some (find handle s.names) then del handle s.names else s.names;
      },
      true,
    )
  ]

  unfoldable pub kcap_derive : (out mem : Bool) → ℕ → ℕ → Caps → Caps × Option ℕ
  kcap_derive out mem source new_rights s =
      if not out then (s, none) else if not mem then (s, none) else elim (find_cap source s) [
        | none ↦ (s, none)
        | some src ↦
            if not (bit_and new_rights src.rights == new_rights)
            then (s, none)
            else publish src.type src.obj_handle new_rights s
      ]

  unfoldable pub kcap_clone : (out mem : Bool) → ℕ → Caps → Caps × Option ℕ
  kcap_clone out mem source s =
      if not out then (s, none) else if not mem then (s, none) else elim (find_cap source s) [
        | none ↦ (s, none)
        | some src ↦ publish src.type src.obj_handle src.rights s
      ]

  -- The check of the merged rights comes after `next_cap_handle++`, so a refusal there uses up a handle.
  unfoldable pub merge_caps : Cap → Cap → Caps → Caps × Option ℕ
  merge_caps a b s =
      if not ((a.obj_handle == b.obj_handle) && (a.type == b.type))
      then (s, none)
      else if not (validate_rights a.type (bit_or a.rights b.rights))
      then (record s { next_cap_handle = (s.next_cap_handle + 1) % 2 ^ 64 }, none)
      else publish a.type a.obj_handle (bit_or a.rights b.rights) s

  unfoldable pub kcap_merge : (out mem : Bool) → ℕ → ℕ → Caps → Caps × Option ℕ
  kcap_merge out mem a b s =
      if not out then (s, none) else if not mem then (s, none) else elim (find_cap a s) [
        | none ↦ (s, none)
        | some cap_a ↦ elim (find_cap b s) [
          | none ↦ (s, none)
          | some cap_b ↦ merge_caps cap_a cap_b s
        ]
      ]

  unfoldable pub kcap_getcap : (out : Bool) → ℕ → Caps → Option Cap
  kcap_getcap out handle s = if not out then none else find_cap handle s

-- The subsystems' destroy functions, over the state `K` of all of them; `true` is 0.
pub record Subsystems (K : Type 0) : Type 0 where
  pub kipc_destroy : ℕ → K → K × Bool
  pub kpmem_destroy : ℕ → K → K × Bool
  pub kvmo_destroy : ℕ → K → K × Bool
  pub kportio_destroy : ℕ → K → K × Bool
  pub kirq_destroy : ℕ → K → K × Bool
  pub kas_unregister : ℕ → K → K × Bool

-- The switch of kcap_destroy_obj.
unfoldable pub destroy_object : {K : Type 0} → Subsystems K → ℕ → ℕ → K → K × Bool
destroy_object sub type obj k =
    if type == CapType.ipc
    then sub.kipc_destroy obj k
    else if type == CapType.pmem
    then sub.kpmem_destroy obj k
    else if type == CapType.vmo
    then sub.kvmo_destroy obj k
    else if type == CapType.portio
    then sub.kportio_destroy obj k
    else if type == CapType.irq
    then sub.kirq_destroy obj k
    else if type == CapType.address_space
    then sub.kas_unregister obj k
    else (k, false)

module _ ⦃h : UtHash⦄ {K : Type 0} (sub : Subsystems K) where
  unfoldable pub kcap_destroy_obj : ℕ → Caps × K → (Caps × K) × Bool
  kcap_destroy_obj handle (s, k) = elim (find_cap handle s) [
    | none ↦ ((s, k), false)
    | some found ↦
        if bit_and found.rights right_destroy == 0
        then ((s, k), false)
        else let (k', status) = destroy_object sub found.type found.obj_handle k in
          ((s, k'), status)
  ]
