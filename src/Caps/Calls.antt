-- ===== src/Caps/Calls.antt =====
-- Histories of calls of kcaps.c on one set of tables.
pub mod Growth
pub mod Histories
use sharkix.Common.{ℕ, Bool, Option, List, [], ◌∷◌}
use sharkix.Table.{UtHash}
use sharkix.Caps.State.{Caps}
use sharkix.Caps.Global.{kcap_create, kcap_destroy, kcap_derive, kcap_clone, kcap_merge}
use sharkix.Caps.Names.{kcap_set_name}
use sharkix.Caps.Sets.{
  kcapset_new, kcapset_destroy, kcapset_addcap, kcapset_delcap, kcapset_move_cap,
}

-- The calls that change the tables, with their arguments.
pub data Call : Type 0 where
  create : (out mem : Bool) → ℕ → ℕ → ℕ → Call
  destroy : ℕ → Call
  set_name : (mem : Bool) → ℕ → Option (List ℕ) → ℕ → Call
  derive : (out mem : Bool) → ℕ → ℕ → Call
  clone : (out mem : Bool) → ℕ → Call
  merge : (out mem : Bool) → ℕ → ℕ → Call
  set_new : (out mem : Bool) → Call
  set_destroy : ℕ → Call
  set_addcap : (mem : Bool) → ℕ → ℕ → Call
  set_delcap : ℕ → ℕ → Call
  set_move : ℕ → ℕ → ℕ → Call

module _ ⦃h : UtHash⦄ where
  unfoldable pub step : Caps → Call → Caps
  step s (create out mem obj type rights) = (kcap_create out mem obj type rights s).0
  step s (destroy k) = (kcap_destroy k s).0
  step s (set_name mem k bytes len) = (kcap_set_name mem k bytes len s).0
  step s (derive out mem source rights) = (kcap_derive out mem source rights s).0
  step s (clone out mem source) = (kcap_clone out mem source s).0
  step s (merge out mem a b) = (kcap_merge out mem a b s).0
  step s (set_new out mem) = (kcapset_new out mem s).0
  step s (set_destroy k) = (kcapset_destroy k s).0
  step s (set_addcap mem k cap) = (kcapset_addcap mem k cap s).0
  step s (set_delcap k cap) = (kcapset_delcap k cap s).0
  step s (set_move src dst cap) = (kcapset_move_cap src dst cap s).0

  unfoldable pub run : Caps → List Call → Caps
  run s [] = s
  run s (c ∷ cs) = run (step s c) cs
