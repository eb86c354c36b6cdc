-- ===== src/Kvmo/Lookups.antt =====
-- The removal of a mapping from a list and the change of its rights, and what the list is then found to hold.
use sharkix.Common.{
  ℕ, ◌≡◌, ◌⊎◌, inl, inr, refl, ◌==◌, if◌then◌else◌, true, Bool-cases, none, some, List, [], ◌∷◌,
  arith, sym, subst, ◌∙◌, assoc, without, adjust,
}
use sharkix.Kvmo.{VmoEntry}
use sharkix.Kvmo.Sets.{containing}
use sharkix.Kvmo.Mapped.{
  Apart, AllApart, Proper, Mapped, covers, containing-cons, apart-containing, AllApart-without,
}

pub without-Mapped : (k : ℕ) (l : List (ℕ × VmoEntry)) → Mapped l → Mapped (without k l)
without-Mapped k [] m = tt
without-Mapped k ((j, e) ∷ l) m = elim (Bool-cases (j == k)) [
  | inl same ↦ rw same (without-Mapped k l m.3)
  | inr other ↦ rw other (m.0, m.1, AllApart-without e k l m.2, without-Mapped k l m.3)
]

-- Nothing else of the list starts where a mapping that is apart from it starts.
apart-absent :
    (k : ℕ) (e : VmoEntry) (l : List (ℕ × VmoEntry))
    → Mapped l
    → Proper e
    → AllApart e l
    → k ≡ e.virtual_address
    → assoc k l ≡ none
apart-absent k e [] m p h s = refl
apart-absent k e ((j, f) ∷ l) m p h s =
    ground (arith, m.0, m.1, h.0, p, apart-absent k e l m.3 p h.1 s)

pub free-start :
    (new : VmoEntry) (l : List (ℕ × VmoEntry))
    → Mapped l
    → Proper new
    → AllApart new l
    → assoc new.virtual_address l ≡ none
free-start new l m p h = apart-absent new.virtual_address new l m p h refl

pub absent-without : (k : ℕ) (l : List (ℕ × VmoEntry)) → assoc k l ≡ none → without k l ≡ l
absent-without k [] h = refl
absent-without k ((j, f) ∷ l) h = ground (arith, absent-without k l)

-- The key of a mapping is its start.
pub assoc-start :
    (k : ℕ) (l : List (ℕ × VmoEntry)) (e : VmoEntry)
    → Mapped l
    → assoc k l ≡ some e
    → (e.virtual_address ≡ k) × Proper e
assoc-start k [] e m h = absurd (cc)
assoc-start k ((j, f) ∷ l) e m h = ground (arith, m.0, m.1, assoc-start k l e m.3)

assoc-Apart :
    (k : ℕ) (l : List (ℕ × VmoEntry)) (e f : VmoEntry)
    → AllApart f l
    → assoc k l ≡ some e
    → Apart f e
assoc-Apart k [] e f m h = absurd (cc)
assoc-Apart k ((j, g) ∷ l) e f m h = ground (arith, m.0, assoc-Apart k l e f m.1)

-- HASH_DEL of a mapping takes exactly its addresses out.
pub containing-without :
    (a k : ℕ) (l : List (ℕ × VmoEntry)) (e : VmoEntry)
    → Mapped l
    → assoc k l ≡ some e
    → containing a (without k l) ≡ (if covers e a then none else containing a l)
containing-without a k [] e m h = absurd (cc)
containing-without a k ((j, f) ∷ l) e m h = elim (Bool-cases (j == k)) [
  | inl same ↦
      let it : f ≡ e = ground (arith, same) in
      let key : k ≡ f.virtual_address = ground (arith, same, m.0) in
      let rest : without k l ≡ l = absent-without k l (apart-absent k f l m.3 m.1 m.2 key) in
      rw (same, rest, containing-cons a j f l m.1) (ground (arith, apart-containing a f l m.3 m.2))
  | inr other ↦
      let here : assoc k l ≡ some e = ground (arith, other) in
      rw (other, containing-cons a j f l m.1, containing-cons a j f (without k l) m.1)
        (ground (arith, containing-without a k l e m.3 here, assoc-Apart k l e f m.2 here))
]

-- The rights of one mapping are replaced in place.
abbrev pub give : ℕ → VmoEntry → VmoEntry
give rights entry = record entry { rights = rights }

AllApart-adjust :
    (e : VmoEntry) (k rights : ℕ) (l : List (ℕ × VmoEntry))
    → AllApart e l
    → AllApart e (adjust k (give rights) l)
AllApart-adjust e k r [] h = tt
AllApart-adjust e k r ((j, f) ∷ l) h = elim (Bool-cases (j == k)) [
  | inl same ↦ rw same (h.0, AllApart-adjust e k r l h.1)
  | inr other ↦ rw other (h.0, AllApart-adjust e k r l h.1)
]

pub adjust-Mapped :
    (k rights : ℕ) (l : List (ℕ × VmoEntry)) → Mapped l → Mapped (adjust k (give rights) l)
adjust-Mapped k r [] m = tt
adjust-Mapped k r ((j, e) ∷ l) m = elim (Bool-cases (j == k)) [
  | inl same ↦ rw same (m.0, m.1, AllApart-adjust e k r l m.2, adjust-Mapped k r l m.3)
  | inr other ↦ rw other (m.0, m.1, AllApart-adjust e k r l m.2, adjust-Mapped k r l m.3)
]

absent-adjust :
    (k rights : ℕ) (l : List (ℕ × VmoEntry)) → assoc k l ≡ none → adjust k (give rights) l ≡ l
absent-adjust k r [] h = refl
absent-adjust k r ((j, f) ∷ l) h = ground (arith, absent-adjust k r l)

pub containing-adjust :
    (a k rights : ℕ) (l : List (ℕ × VmoEntry)) (e : VmoEntry)
    → Mapped l
    → assoc k l ≡ some e
    → containing a (adjust k (give rights) l)
      ≡ (if covers e a then some (give rights e) else containing a l)
containing-adjust a k r [] e m h = absurd (cc)
containing-adjust a k r ((j, f) ∷ l) e m h = elim (Bool-cases (j == k)) [
  | inl same ↦
      let it : f ≡ e = ground (arith, same) in
      let key : k ≡ f.virtual_address = ground (arith, same, m.0) in
      let rest : adjust k (give r) l ≡ l =
        absent-adjust k r l (apart-absent k f l m.3 m.1 m.2 key) in
      rw (same, rest, containing-cons a j f l m.1, containing-cons a j (give r f) l m.1)
        (ground (arith, it))
  | inr other ↦
      let here : assoc k l ≡ some e = ground (arith, other) in
      rw (other, containing-cons a j f l m.1, containing-cons a j f (adjust k (give r) l) m.1)
        (ground (arith, containing-adjust a k r l e m.3 here, assoc-Apart k l e f m.2 here))
]

-- What is found stands in the list under its own start, and covers the address.
pub containing_sound :
    (a : ℕ) (l : List (ℕ × VmoEntry)) (e : VmoEntry)
    → Mapped l
    → containing a l ≡ some e
    → (covers e a ≡ true) × (assoc e.virtual_address l ≡ some e)
unfolding containing
containing_sound a [] e m h = absurd (cc)
containing_sound a ((j, f) ∷ l) e m h =
    let split : (if covers f a then some f else containing a l) ≡ some e =
      sym (containing-cons a j f l m.1) ∙ h in
    elim (Bool-cases (covers f a)) [
      | inl here ↦ ground (arith, split, here, m.0)
      | inr there ↦
          let tail : containing a l ≡ some e = ground (arith, split, there) in
          let below = containing_sound a l e m.3 tail in
          let apart = assoc-Apart e.virtual_address l e f m.2 below.1 in
          let proper = assoc-start e.virtual_address l e m.3 below.1 in
          (below.0, ground (arith, below.1, apart, proper, m.0, m.1))
    ]

-- Every mapping is found at each of its addresses.
pub containing_complete :
    (a k : ℕ) (l : List (ℕ × VmoEntry)) (e : VmoEntry)
    → Mapped l
    → assoc k l ≡ some e
    → covers e a ≡ true
    → containing a l ≡ some e
containing_complete a k [] e m h c = absurd (cc)
containing_complete a k ((j, f) ∷ l) e m h c = elim (Bool-cases (j == k)) [
  | inl same ↦ rw (containing-cons a j f l m.1) (ground (arith, same))
  | inr other ↦
      let here : assoc k l ≡ some e = ground (arith, other) in
      rw (containing-cons a j f l m.1)
        (ground (arith, assoc-Apart k l e f m.2 here, containing_complete a k l e m.3 here c))
]

-- Two mappings of a list are one, or apart.
pub assoc-pair :
    (i j : ℕ) (l : List (ℕ × VmoEntry)) (e f : VmoEntry)
    → Mapped l
    → assoc i l ≡ some e
    → assoc j l ≡ some f
    → (e ≡ f) ⊎ Apart e f
assoc-pair i j [] e f m p q = absurd (cc)
assoc-pair i j ((k, g) ∷ l) e f m p q = elim (Bool-cases (k == i)) [
  | inl here ↦ elim (Bool-cases (k == j)) [
    | inl too ↦ inl (ground (arith, here, too))
    | inr there ↦
        let it : g ≡ e = ground (arith, here) in
        let below : assoc j l ≡ some f = ground (arith, there) in
        inr (subst (λ x. Apart x f) it (assoc-Apart j l f g m.2 below))
  ]
  | inr later ↦
      let first : assoc i l ≡ some e = ground (arith, later) in
      elim (Bool-cases (k == j)) [
        | inl here ↦
            let it : g ≡ f = ground (arith, here) in
            inr (subst (λ x. Apart e x) it (ground (arith, assoc-Apart i l e g m.2 first)))
        | inr there ↦
            let below : assoc j l ≡ some f = ground (arith, there) in
            assoc-pair i j l e f m.3 first below
      ]
]
