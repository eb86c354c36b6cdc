-- ===== src/Caps/Moves/NameOps.antt =====
-- kcap_set_name as primitive changes.
use sharkix.Common.{
  ℕ, ◌≤◌, ◌≡◌, refl, ◌==◌, ltb, not, ◌&&◌, ◌||◌, if◌then◌else◌, Bool, true, false, Option, none,
  some, is_some, arith, inl, inr, Bool-cases, List,
}
use sharkix.Table.{UtHash}
use sharkix.Table.Laws.{find, del, find-del}
use sharkix.Caps.State.{CapNameEntry, Caps}
use sharkix.Caps.Names.{kcap_name_max, kcap_set_name, replace_name, name_entry, store_name}
use sharkix.Caps.Moves.{Moves, unname, name, here, next, one}

module _ ⦃h : UtHash⦄ where
  -- The names after kcap_set_name has taken the old one away.
  abbrev cleared : ℕ → Caps → Caps
  cleared k s = record s { names = if is_some (find k s.names) then del k s.names else s.names }

  cleared-Moves : (k : ℕ) (s : Caps) → Moves s (cleared k s)
  cleared-Moves k s = elim (Bool-cases (is_some (find k s.names))) [
    | inl old ↦ rw old (one (unname k))
    | inr free ↦ rw free here
  ]

  cleared_free : (k : ℕ) (s : Caps) → find k (cleared k s).names ≡ none
  cleared_free k s = ground (arith, find-del k k s.names)

  replace_name-Moves :
      (k : ℕ) (entry : Option CapNameEntry) (s : Caps)
      → ((n : CapNameEntry) → entry ≡ some n → (n.handle ≡ k) × (n.len ≤ kcap_name_max))
      → Moves s (replace_name k entry s).0
  unfolding replace_name
  replace_name-Moves k none s ok = elim (Bool-cases (is_some (find k s.caps))) [
    | inr gone ↦ rw gone here
    | inl live ↦ rw live (cleared-Moves k s)
  ]
  replace_name-Moves k (some n) s ok = elim (Bool-cases (is_some (find k s.caps))) [
    | inr gone ↦ rw gone here
    | inl live ↦
        rw live
          (next (cleared-Moves k s) (name k n (ok n refl).0 (ok n refl).1 live (cleared_free k s)))
  ]

  store_name-Moves :
      (mem : Bool) (k : ℕ) (bytes : Option (List ℕ)) (len : ℕ) (s : Caps)
      → len ≤ kcap_name_max
      → Moves s (store_name mem k bytes len s).0
  unfolding store_name
  store_name-Moves mem k none len s short = here
  store_name-Moves false k (some b) len s short = here
  store_name-Moves true k (some b) len s short =
      replace_name-Moves k (some (name_entry k b len)) s (λ n e. entry_fits n e)
    where
      entry_fits :
          (n : CapNameEntry)
          → some (name_entry k b len) ≡ some n
          → (n.handle ≡ k) × (n.len ≤ kcap_name_max)
      entry_fits n e = unfold name_entry in ground arith

  pub kcap_set_name-Moves :
      (mem : Bool) (k : ℕ) (bytes : Option (List ℕ)) (len : ℕ) (s : Caps)
      → Moves s (kcap_set_name mem k bytes len s).0
  unfolding kcap_set_name
  kcap_set_name-Moves mem k bytes len s =
      elim (Bool-cases (ltb kcap_name_max len || (not (len == 0) && not (is_some bytes)))) [
        | inl refused ↦ rw refused here
        | inr fits ↦ rw fits (elim (Bool-cases (len == 0)) [
          | inl none_given ↦ rw none_given (replace_name-Moves k none s (λ n e. absurd (cc)))
          | inr given ↦ rw given (store_name-Moves mem k bytes len s (ground arith))
        ])
      ]
