-- ===== src/Caps/State.antt =====
-- include/sharkix/kernel/subsystems/kcaps.h: capabilities, names, sets and the global tables.
use sharkix.Common.{ℕ, List}
use sharkix.Table.{UtHash}
use sharkix.Table.Laws.{Table}

pub record Cap : Type 0 where
  pub cap_handle : ℕ
  pub type : ℕ
  pub obj_handle : ℕ
  pub rights : ℕ

-- `char name[KCAP_NAME_MAX]` is a list of bytes.
pub record CapNameEntry : Type 0 where
  pub handle : ℕ
  pub name : List ℕ
  pub len : ℕ

module _ ⦃h : UtHash⦄ where
  -- An entry holds the handle of its capability.
  pub record CapSet : Type 0 where
    pub capset_handle : ℕ
    pub caps : Table ℕ

  -- The static variables of kcaps.c.
  pub record Caps : Type 0 where
    pub next_cap_handle : ℕ
    pub caps : Table Cap
    pub names : Table CapNameEntry
    pub next_capset_handle : ℕ
    pub capsets : Table CapSet
