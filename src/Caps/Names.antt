-- ===== src/Caps/Names.antt =====
-- kcaps.c: kcap_set_name and kcap_get_name.
use sharkix.Common.{
  ℕ, ◌-◌, ◌==◌, ltb, if◌then◌else◌, Bool, true, false, not, ◌&&◌, ◌||◌, Option, none, some, List,
  ◌++◌, is_some, take, replicate,
}
use sharkix.Table.{UtHash}
use sharkix.Table.Laws.{find, add, del}
use sharkix.Caps.State.{CapNameEntry, Caps}
use sharkix.Caps.Global.{find_cap}

abbrev pub kcap_name_max : ℕ
kcap_name_max = 32

-- kmalloc, memset to zero, then memcpy of `len` bytes.
unfoldable pub name_entry : ℕ → List ℕ → ℕ → CapNameEntry
name_entry handle bytes len = record {
  handle = handle;
  name = take len bytes ++ replicate (kcap_name_max - len) 0;
  len = len;
}

module _ ⦃h : UtHash⦄ where
  -- The part under the locks: the old entry goes, and a replacement is added if there is one.
  unfoldable pub replace_name : ℕ → Option CapNameEntry → Caps → Caps × Bool
  replace_name handle replacement s =
      if not (is_some (find_cap handle s))
      then (s, false)
      else let names = if is_some (find handle s.names) then del handle s.names else s.names in
        (
          record s {
            names = elim replacement [ none ↦ names | some entry ↦ add handle entry names ];
          },
          true,
        )

  -- A name that is not empty is copied into a new entry first. NULL was refused before.
  unfoldable pub store_name : (mem : Bool) → ℕ → Option (List ℕ) → ℕ → Caps → Caps × Bool
  unfolding replace_name
  store_name mem handle none len s = (s, false)
  store_name mem handle (some bytes) len s =
      if not mem then (s, false) else replace_name handle (some (name_entry handle bytes len)) s

  -- `new_name` is `none` for NULL, and otherwise the bytes that it points to.
  unfoldable pub kcap_set_name : (mem : Bool) → ℕ → Option (List ℕ) → ℕ → Caps → Caps × Bool
  unfolding store_name
  kcap_set_name mem handle new_name len s =
      if ltb kcap_name_max len || (not (len == 0) && not (is_some new_name))
      then (s, false)
      else if len == 0
      then replace_name handle none s
      else store_name mem handle new_name len s

  -- What is written through `out_len` and `name_out`, if anything, and the status.
  pub record NameReply : Type 0 where
    pub out_len : Option ℕ
    pub name_out : Option (List ℕ)
    pub status : Bool

  unfoldable pub kcap_get_name : (name_out out_len : Bool) → ℕ → ℕ → Caps → NameReply
  kcap_get_name name_out out_len handle out_size s =
      if not name_out || not out_len
      then record { out_len = none; name_out = none; status = false }
      else elim (find_cap handle s) [
        | none ↦ record { out_len = none; name_out = none; status = false }
        | some _ ↦ elim (find handle s.names) [
          | none ↦ record { out_len = none; name_out = none; status = false }
          | some entry ↦
              if ltb out_size entry.len
              then record { out_len = some entry.len; name_out = none; status = false }
              else record {
                out_len = some entry.len;
                name_out = some (take entry.len entry.name);
                status = true;
              }
        ]
      ]
