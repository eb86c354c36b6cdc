-- ===== src/Caps/Valid.antt =====
-- The invariant of the tables of kcaps.c, and the primitive changes that keep it.
use sharkix.Common.{
  ℕ, ◌+◌, ◌%◌, ◌^◌, ◌<◌, ◌≤◌, ◌≡◌, Bool, true, false, none, some, is_some, arith, inl, inr,
  Option-cases,
}
use sharkix.Table.{UtHash}
use sharkix.Table.Laws.{
  empty, find, add, del, find-empty, find-add, find-del, find-modify, find-modify_inv,
}
use sharkix.Caps.Rights.{validate_rights}
use sharkix.Caps.State.{Cap, CapNameEntry, CapSet, Caps}
use sharkix.Caps.Global.{publish, kcap_destroy}
use sharkix.Caps.Names.{kcap_name_max}
use sharkix.Caps.Sets.{
  kcapset_new, change_set, insert_member, remove_member, kinit_caps, empty_tables,
}

module _ ⦃h : UtHash⦄ where
  -- Handles ahead of the counters are free; each capability stands under its own handle and has only
  -- rights of its type; only live capabilities are named; members are handles that were issued.
  pub record IsValid (s : Caps) : Type 0 where
    pub fresh : (k : ℕ) → s.next_cap_handle ≤ k → find k s.caps ≡ none
    pub caps :
        (k : ℕ) (c : Cap)
        → find k s.caps ≡ some c
        → (c.cap_handle ≡ k) × (validate_rights c.type c.rights ≡ true)
    pub names :
        (k : ℕ) (e : CapNameEntry)
        → find k s.names ≡ some e
        → (e.handle ≡ k) × (e.len ≤ kcap_name_max) × (is_some (find k s.caps) ≡ true)
    pub fresh_sets : (k : ℕ) → s.next_capset_handle ≤ k → find k s.capsets ≡ none
    pub sets : (k : ℕ) (x : CapSet) → find k s.capsets ≡ some x → x.capset_handle ≡ k
    pub members :
        (k : ℕ) (x : CapSet) (c e : ℕ)
        → find k s.capsets ≡ some x
        → find c x.caps ≡ some e
        → (e ≡ c) × (c < s.next_cap_handle)

  -- The handle counters have not reached the end of 64 bits.
  abbrev pub HasRoom : Caps → Type 0
  HasRoom s = (s.next_cap_handle + 1 < 2 ^ 64) × (s.next_capset_handle + 1 < 2 ^ 64)

  module _ {s : Caps} (v : IsValid s) where
    pub publish-IsValid :
        (type obj rights : ℕ)
        → HasRoom s
        → validate_rights type rights ≡ true
        → IsValid (publish type obj rights s).0
    unfolding publish
    publish-IsValid type obj rights room ok = record {
      fresh = λ k b. ground (arith, find-add k s.next_cap_handle new s.caps free, v.fresh k);
      caps = λ k c e. ground (arith, find-add k s.next_cap_handle new s.caps free, v.caps k c);
      names = λ k n e. ground (arith, find-add k s.next_cap_handle new s.caps free, v.names k n);
      fresh_sets = v.fresh_sets;
      sets = v.sets;
      members = λ k x c e p q. ground (arith, v.members k x c e);
    }
      where
        new : Cap
        new = record {
          cap_handle = s.next_cap_handle;
          type = type;
          obj_handle = obj;
          rights = rights;
        }

        free : find s.next_cap_handle s.caps ≡ none
        free = v.fresh s.next_cap_handle (omega arith)

    pub burn-IsValid :
        HasRoom s → IsValid (record s { next_cap_handle = (s.next_cap_handle + 1) % 2 ^ 64 })
    burn-IsValid room = record {
      fresh = λ k b. v.fresh k (omega arith);
      caps = v.caps;
      names = v.names;
      fresh_sets = v.fresh_sets;
      sets = v.sets;
      members = λ k x c e p q. ground (arith, v.members k x c e);
    }

    pub kcap_destroy-IsValid : (handle : ℕ) → IsValid (kcap_destroy handle s).0
    unfolding kcap_destroy
    kcap_destroy-IsValid handle = elim (Option-cases (find handle s.caps)) [
      | inl e ↦ ground arith
      | inr (c, e) ↦
          rw (e, kcap_destroy)
            (record {
              fresh = λ k b. ground (arith, find-del k handle s.caps, v.fresh k);
              caps = λ k d p. ground (arith, find-del k handle s.caps, v.caps k d);
              names = λ k n p.
                  ground (arith, find-del k handle s.caps, find-del k handle s.names, v.names k n);
              fresh_sets = v.fresh_sets;
              sets = v.sets;
              members = v.members;
            })
    ]

    pub unname-IsValid : (handle : ℕ) → IsValid (record s { names = del handle s.names })
    unname-IsValid handle = record {
      fresh = v.fresh;
      caps = v.caps;
      names = λ k n e. ground (arith, find-del k handle s.names, v.names k n);
      fresh_sets = v.fresh_sets;
      sets = v.sets;
      members = v.members;
    }

    pub name-IsValid :
        (handle : ℕ) (n : CapNameEntry)
        → n.handle ≡ handle
        → n.len ≤ kcap_name_max
        → is_some (find handle s.caps) ≡ true
        → find handle s.names ≡ none
        → IsValid (record s { names = add handle n s.names })
    name-IsValid handle n same short live free = record {
      fresh = v.fresh;
      caps = v.caps;
      names = λ k m e. ground (arith, find-add k handle n s.names free, v.names k m);
      fresh_sets = v.fresh_sets;
      sets = v.sets;
      members = v.members;
    }

    pub remove_member-IsValid : (handle cap : ℕ) → IsValid (change_set handle (remove_member cap) s)
    remove_member-IsValid handle cap = record {
      fresh = v.fresh;
      caps = v.caps;
      names = v.names;
      fresh_sets =
          λ k b. ground (arith, find-modify k handle (remove_member cap) s.capsets, v.fresh_sets k);
      sets = λ k x e.
          let (y, before, same) = find-modify_inv k handle (remove_member cap) s.capsets e in
          ground (arith, v.sets k y);
      members = λ k x c e p q.
          let (y, before, same) = find-modify_inv k handle (remove_member cap) s.capsets p in
          ground (arith, find-del c cap y.caps, v.members k y c e before);
    }

    pub insert_member-IsValid :
        (handle cap : ℕ) (set : CapSet)
        → cap < s.next_cap_handle
        → find handle s.capsets ≡ some set
        → find cap set.caps ≡ none
        → IsValid (change_set handle (insert_member cap) s)
    insert_member-IsValid handle cap set issued there free = record {
      fresh = v.fresh;
      caps = v.caps;
      names = v.names;
      fresh_sets =
          λ k b. ground (arith, find-modify k handle (insert_member cap) s.capsets, v.fresh_sets k);
      sets = λ k x e.
          let (y, before, same) = find-modify_inv k handle (insert_member cap) s.capsets e in
          ground (arith, v.sets k y);
      members = λ k x c e p q.
          let (y, before, same) = find-modify_inv k handle (insert_member cap) s.capsets p in
          ground (arith, find-add c cap cap set.caps free, v.members k y c e before);
    }

    pub kcapset_new-IsValid : HasRoom s → IsValid (kcapset_new true true s).0
    unfolding kcapset_new
    kcapset_new-IsValid room = record {
      fresh = v.fresh;
      caps = v.caps;
      names = v.names;
      fresh_sets =
          λ k b. ground (arith, find-add k s.next_capset_handle new s.capsets free, v.fresh_sets k);
      sets =
          λ k x e. ground (arith, find-add k s.next_capset_handle new s.capsets free, v.sets k x);
      members = λ k x c e p q. ground (
        arith,
        find-add k s.next_capset_handle new s.capsets free,
        find-empty {V = ℕ} c,
        v.members k x c e,
      );
    }
      where
        new : CapSet
        new = record { capset_handle = s.next_capset_handle; caps = empty ℕ }

        free : find s.next_capset_handle s.capsets ≡ none
        free = v.fresh_sets s.next_capset_handle (omega arith)

    pub drop_set-IsValid : (handle : ℕ) → IsValid (record s { capsets = del handle s.capsets })
    drop_set-IsValid handle = record {
      fresh = v.fresh;
      caps = v.caps;
      names = v.names;
      fresh_sets = λ k b. ground (arith, find-del k handle s.capsets, v.fresh_sets k);
      sets = λ k x e. ground (arith, find-del k handle s.capsets, v.sets k x);
      members = λ k x c e p q. ground (arith, find-del k handle s.capsets, v.members k x c e);
    }

  empty_tables-IsValid : IsValid empty_tables
  unfolding empty_tables
  empty_tables-IsValid = record {
    fresh = λ k b. find-empty k;
    caps = λ k c e. absurd (ground (arith, find-empty {V = Cap} k));
    names = λ k n e. absurd (ground (arith, find-empty {V = CapNameEntry} k));
    fresh_sets = λ k b. find-empty k;
    sets = λ k x e. absurd (ground (arith, find-empty {V = CapSet} k));
    members = λ k x c e p q. absurd (ground (arith, find-empty {V = CapSet} k));
  }

  -- The tables as kinit_caps leaves them.
  pub kinit_caps-IsValid : (mem : Bool) → IsValid (kinit_caps mem).0
  unfolding kinit_caps empty_tables
  kinit_caps-IsValid true = kcapset_new-IsValid empty_tables-IsValid (omega arith)
  kinit_caps-IsValid false = empty_tables-IsValid
