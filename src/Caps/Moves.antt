-- ===== src/Caps/Moves.antt =====
-- Every function of kcaps.c as a sequence of a few primitive changes of the tables. Facts about
-- any history of calls are then facts about the primitive changes.
pub mod Ops
pub mod NameOps
pub mod SetOps
pub mod Keep
pub mod Authority
use sharkix.Common.{
  ℕ, ◌+◌, ◌%◌, ◌^◌, ◌<◌, ◌≤◌, ◌≡◌, ◌==◌, Bool, true, false, none, some, is_some, arith, inl, inr,
  Option-cases, Bool-cases, bit_and, bit_or, List, [], ◌∷◌,
}
use sharkix.Table.{UtHash}
use sharkix.Table.Laws.{find, add, del}
use sharkix.Caps.State.{Cap, CapNameEntry, CapSet, Caps}
use sharkix.Caps.Global.{publish, kcap_destroy, kcap_derive}
use sharkix.Caps.Names.{kcap_name_max}
use sharkix.Caps.Valid.{HasRoom}
use sharkix.Caps.Sets.{kcapset_new, destroy_members, change_set, insert_member, remove_member}

module _ ⦃h : UtHash⦄ where
  -- One primitive change, none of which creates authority.
  pub data Move (s : Caps) : Caps → Type 0 where
    burn : HasRoom s → Move s (record s { next_cap_handle = (s.next_cap_handle + 1) % 2 ^ 64 })
    shrink :
        (k rights : ℕ) (src : Cap)
        → HasRoom s
        → find k s.caps ≡ some src
        → bit_and rights src.rights ≡ rights
        → Move s (publish src.type src.obj_handle rights s).0
    join :
        (j k : ℕ) (a b : Cap)
        → HasRoom s
        → find j s.caps ≡ some a
        → find k s.caps ≡ some b
        → a.obj_handle ≡ b.obj_handle
        → a.type ≡ b.type
        → Move s (publish a.type a.obj_handle (bit_or a.rights b.rights) s).0
    destroy : (k : ℕ) → Move s (kcap_destroy k s).0
    unname : (k : ℕ) → Move s (record s { names = del k s.names })
    name :
        (k : ℕ) (n : CapNameEntry)
        → n.handle ≡ k
        → n.len ≤ kcap_name_max
        → is_some (find k s.caps) ≡ true
        → find k s.names ≡ none
        → Move s (record s { names = add k n s.names })
    open_set : HasRoom s → Move s (kcapset_new true true s).0
    close_set : (k : ℕ) → Move s (record s { capsets = del k s.capsets })
    enter :
        (k c : ℕ) (set : CapSet)
        → c < s.next_cap_handle
        → find k s.capsets ≡ some set
        → find c set.caps ≡ none
        → Move s (change_set k (insert_member c) s)
    leave : (k c : ℕ) → Move s (change_set k (remove_member c) s)

  pub data Moves (s : Caps) : Caps → Type 0 where
    here : Moves s s
    next : {t u : Caps} → Moves s t → Move t u → Moves s u

  pub one : {s t : Caps} → Move s t → Moves s t
  one m = next here m

  unfoldable pub chain : {s t u : Caps} → Moves s t → Moves t u → Moves s u
  chain a here = a
  chain a (next b m) = next (chain a b) m
