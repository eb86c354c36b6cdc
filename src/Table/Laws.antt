-- ===== src/Table/Laws.antt =====
-- What one lookup sees after each table operation, and the kernel's words for them.
use mathlib.Core.Option
use sharkix.Common.{
  arith, assoc, without, adjust, ◌++◌, ◌∷◌, [], ◌∙◌, Option-cases, inl, inr, ℕ, ◌≡◌, ◌==◌,
  if◌then◌else◌, Option, none, some, List, assoc-append, assoc-without, assoc-adjust,
}
use sharkix.Table.{UtHash}

module _ ⦃h : UtHash⦄ where
  abbrev pub Table : Type 0 → Type 0
  Table = h.Table

  abbrev pub empty : (V : Type 0) → Table V
  empty = h.empty

  module _ {V : Type 0} where
    abbrev pub find : ℕ → Table V → Option V
    find = h.find

    abbrev pub add : ℕ → V → Table V → Table V
    add = h.add

    abbrev pub del : ℕ → Table V → Table V
    del = h.del

    abbrev pub modify : ℕ → (V → V) → Table V → Table V
    modify = h.modify

    abbrev pub entries : Table V → List (ℕ × V)
    entries = h.entries

    pub find-entries : (k : ℕ) (t : Table V) → find k t ≡ assoc k (entries t)
    find-entries = h.find-entries

    pub entries-del : (k : ℕ) (t : Table V) → entries (del k t) ≡ without k (entries t)
    entries-del = h.entries-del

    pub entries-modify :
        (k : ℕ) (f : V → V) (t : Table V) → entries (modify k f t) ≡ adjust k f (entries t)
    entries-modify = h.entries-modify

    pub entries-empty : entries (empty V) ≡ []
    entries-empty = h.entries-empty V

    pub find-empty : (k : ℕ) → find k (empty V) ≡ none
    find-empty k = rw (h.find-entries k (h.empty V), h.entries-empty V)

    pub entries-add :
        (k : ℕ) (v : V) (t : Table V)
        → assoc k (entries t) ≡ none
        → entries (add k v t) ≡ entries t ++ (k, v) ∷ []
    entries-add k v t e = h.entries-add k v t (h.find-entries k t ∙ e)

    pub find-add :
        (j k : ℕ) (v : V) (t : Table V)
        → find k t ≡ none
        → find j (add k v t) ≡ (if k == j then some v else find j t)
    find-add j k v t e =
        rw (h.find-entries j (h.add k v t), h.entries-add k v t e, h.find-entries j t)
          (assoc-append j k v (h.entries t) (rw (h.find-entries k t) at e))

    pub find-del : (j k : ℕ) (t : Table V) → find j (del k t) ≡ (if k == j then none else find j t)
    find-del j k t =
        rw (h.find-entries j (h.del k t), h.entries-del k t, h.find-entries j t)
          (assoc-without j k (h.entries t))

    pub find-modify :
        (j k : ℕ) (f : V → V) (t : Table V)
        → find j (modify k f t) ≡ (if k == j then Option.map f (find j t) else find j t)
    find-modify j k f t =
        rw (h.find-entries j (h.modify k f t), h.entries-modify k f t, h.find-entries j t)
          (assoc-adjust j k f (h.entries t))

    -- What a lookup finds after a write through a pointer comes from what it found before.
    pub find-modify_inv :
        (j k : ℕ) (f : V → V) (t : Table V) {x : V}
        → find j (modify k f t) ≡ some x
        → (v : V) × (find j t ≡ some v) × (x ≡ (if k == j then f v else v))
    find-modify_inv j k f t e = elim (Option-cases (find j t)) [
      | inl absent ↦ absurd (ground (arith, find-modify j k f t))
      | inr (v, here) ↦ (v, here, ground (arith, find-modify j k f t))
    ]
