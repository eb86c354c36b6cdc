-- ===== src/Caps/Naming.antt =====
-- kcaps.c: what kcap_get_name reads back.
use sharkix.Common.{
  ℕ, ◌-◌, ◌<◌, ◌≤◌, ◌≡◌, ◌≢◌, refl, ◌∙◌, ◌==◌, if◌then◌else◌, Bool, true, Option, none, some,
  is_some, arith, List, length, take, replicate, take-take-append,
}
use sharkix.Table.{UtHash}
use sharkix.Table.Laws.{find, add, del, find-add, find-del, Table}
use sharkix.Caps.State.{CapNameEntry, Caps}
use sharkix.Caps.Names.{kcap_name_max, name_entry, kcap_set_name, kcap_get_name, NameReply}

module _ ⦃h : UtHash⦄ where
  -- The names once the old one of `k` is gone.
  abbrev others : ℕ → Caps → Table CapNameEntry
  others k s = if is_some (find k s.names) then del k s.names else s.names

  find-others :
      (j k : ℕ) (s : Caps) → find j (others k s) ≡ (if k == j then none else find j s.names)
  find-others j k s = ground (arith, find-del j k s.names)

  kcap_set_name_stores :
      (k len : ℕ) (bytes : List ℕ) (s : Caps)
      → is_some (find k s.caps) ≡ true
      → 0 < len
      → len ≤ kcap_name_max
      → kcap_set_name true k (some bytes) len s
        ≡ (record s { names = add k (name_entry k bytes len) (others k s) }, true)
  unfolding kcap_set_name
  kcap_set_name_stores k len bytes s live positive short = ground arith

  kcap_get_name_stored :
      (k out_size : ℕ) (entry : CapNameEntry) (t : Caps)
      → is_some (find k t.caps) ≡ true
      → find k t.names ≡ some entry
      → entry.len ≤ out_size
      → kcap_get_name true true k out_size t ≡ record {
        out_len = some entry.len;
        name_out = some (take entry.len entry.name);
        status = true;
      }
  unfolding kcap_get_name
  kcap_get_name_stored k out_size entry t live stored room = ground arith

  -- A name of 1 to 32 bytes that kcap_set_name stored is what kcap_get_name returns, whole and with
  -- its length, to every caller whose buffer is large enough. The buffer given to kcap_set_name
  -- holds at least `len` bytes, and may hold more.
  pub kcap_get_name-kcap_set_name :
      (k len out_size : ℕ) (bytes : List ℕ) (s : Caps)
      → is_some (find k s.caps) ≡ true
      → 0 < len
      → len ≤ kcap_name_max
      → len ≤ length bytes
      → len ≤ out_size
      → ((kcap_set_name true k (some bytes) len s).1 ≡ true)
        × (kcap_get_name true true k out_size (kcap_set_name true k (some bytes) len s).0
            ≡ record { out_len = some len; name_out = some (take len bytes); status = true })
  kcap_get_name-kcap_set_name k len out_size bytes s live positive short held room =
      rw (kcap_set_name_stores k len bytes s live positive short)
        (refl, kcap_get_name_stored k out_size entry after live found fits ∙ same)
    where
      entry : CapNameEntry
      entry = name_entry k bytes len

      after : Caps
      after = record s { names = add k entry (others k s) }

      found : find k after.names ≡ some entry
      found = ground (arith, find-add k k entry (others k s), find-others k k s)

      fits : entry.len ≤ out_size
      fits = unfold name_entry in room

      same_bytes : take entry.len entry.name ≡ take len bytes
      same_bytes = unfold name_entry in take-take-append len bytes (replicate (32 - len) 0) held

      same_len : entry.len ≡ len
      same_len = unfold name_entry in refl

      same :
          ◌≡◌ {A = NameReply}
            (record {
              out_len = some entry.len;
              name_out = some (take entry.len entry.name);
              status = true;
            })
            (record { out_len = some len; name_out = some (take len bytes); status = true })
      same = cc (same_len, same_bytes)

  -- Naming one capability, whether it succeeds or fails, changes what no other handle reads back.
  pub kcap_set_name_local :
      (name_out out_len mem : Bool) (j k len out_size : ℕ) (bytes : Option (List ℕ)) (s : Caps)
      → j ≢ k
      → kcap_get_name name_out out_len j out_size (kcap_set_name mem k bytes len s).0
        ≡ kcap_get_name name_out out_len j out_size s
  unfolding kcap_get_name
  kcap_set_name_local name_out out_len mem j k len out_size bytes s apart =
      ground (arith, caps_kept, names_kept)
    where
      caps_kept : find j (kcap_set_name mem k bytes len s).0.caps ≡ find j s.caps
      caps_kept = unfold kcap_set_name in ground arith

      names_kept : find j (kcap_set_name mem k bytes len s).0.names ≡ find j s.names
      names_kept =
          elim bytes as (λ b. find j (kcap_set_name mem k b len s).0.names ≡ find j s.names) [
            | none ↦ unfold kcap_set_name in ground (arith, find-others j k s)
            | some b ↦
                unfold kcap_set_name in
                ground (
                  arith,
                  find-others j k s,
                  find-others k k s,
                  find-add j k (name_entry k b len) (others k s),
                )
          ]
