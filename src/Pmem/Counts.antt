-- ===== src/Pmem/Counts.antt =====
-- How often a record of kpmem.c is a parent, and what changes of the records do to that.
use sharkix.Common.{
  count, ℕ, suc, ◌+◌, ◌<◌, ◌≤◌, ◌≡◌, inl, inr, refl, ◌==◌, ==_iff, Bool-cases, none, some, [], ◌∷◌,
  length, assoc, without, adjust, assoc-without, assoc-adjust, length-without, ltb, arith, ap,
}
use sharkix.Pmem.Objects.{Pmem, Heap}

-- The references that the children of a record hold.
abbrev pub refs : ℕ → Heap → ℕ
refs p [] = 0
refs p ((k, r) ∷ l) = count p r.parents + refs p l

-- No two records are at one place.
abbrev pub Unique : Heap → Type 0
Unique [] = Unit {0}
Unique ((k, r) ∷ l) = (assoc k l ≡ none) × Unique l

pub refs-adjust :
    (p q : ℕ) (f : Pmem → Pmem) (l : Heap)
    → ((r : Pmem) → (f r).parents ≡ r.parents)
    → refs p (adjust q f l) ≡ refs p l
refs-adjust p q f [] same = refl
refs-adjust p q f ((k, r) ∷ l) same = elim (Bool-cases (k == q)) [
  | inl here ↦ rw (here, same r, refs-adjust p q f l same) refl
  | inr other ↦ rw (other, refs-adjust p q f l same) refl
]

pub without-absent : (q : ℕ) (l : Heap) → assoc q l ≡ none → without q l ≡ l
without-absent q [] h = refl
without-absent q ((k, x) ∷ l) h = ground (arith, without-absent q l)

pub refs-without :
    (p q : ℕ) (r : Pmem) (l : Heap)
    → Unique l
    → assoc q l ≡ some r
    → refs p (without q l) + count p r.parents ≡ refs p l
refs-without p q r [] u at = absurd (ground (arith, at))
refs-without p q r ((k, x) ∷ l) u at = elim (Bool-cases (k == q)) [
  | inl here ↦
      let it : x ≡ r = ground (arith, at, here) in
      let gone : assoc q l ≡ none = ground (arith, u, here, ==_iff k q) in
      let same : without q l ≡ l = without-absent q l gone in
      rw (here, same) (omega (arith, ap (λ v. count p v.parents) it))
  | inr other ↦
      let rest : refs p (without q l) + count p r.parents ≡ refs p l =
        refs-without p q r l u.1 (ground (arith, at, other)) in
      rw other (omega (arith, rest))
]

pub without-Unique : (q : ℕ) (l : Heap) → Unique l → Unique (without q l)
without-Unique q [] u = tt
without-Unique q ((k, x) ∷ l) u = elim (Bool-cases (k == q)) [
  | inl here ↦ rw here (without-Unique q l u.1)
  | inr other ↦ rw other (ground (arith, assoc-without k q l, u), without-Unique q l u.1)
]

pub adjust-Unique : (q : ℕ) (f : Pmem → Pmem) (l : Heap) → Unique l → Unique (adjust q f l)
adjust-Unique q f [] u = tt
adjust-Unique q f ((k, x) ∷ l) u =
    (ground (arith, assoc-adjust k q f l, u), adjust-Unique q f l u.1)

pub length-adjust : (q : ℕ) (f : Pmem → Pmem) (l : Heap) → length (adjust q f l) ≡ length l
length-adjust q f [] = refl
length-adjust q f ((k, x) ∷ l) = ap suc (length-adjust q f l)

pub length-without_found :
    (q : ℕ) (r : Pmem) (l : Heap) → assoc q l ≡ some r → length (without q l) < length l
length-without_found q r [] at = absurd (ground (arith, at))
length-without_found q r ((k, x) ∷ l) at =
    ground (arith, length-without_found q r l, length-without q l)

-- A parent of a record has that reference.
pub refs_parent :
    (p c : ℕ) (r : Pmem) (l : Heap) → assoc c l ≡ some r → count p r.parents ≤ refs p l
refs_parent p c r [] at = absurd (ground (arith, at))
refs_parent p c r ((k, x) ∷ l) at = ground (arith, refs_parent p c r l)

-- Whoever is referred to has a child.
pub refs_child :
    (p : ℕ) (l : Heap)
    → Unique l
    → 0 < refs p l
    → (c : ℕ) × (r : Pmem) × (assoc c l ≡ some r) × (0 < count p r.parents)
refs_child p [] u pos = absurd (omega arith)
refs_child p ((k, x) ∷ l) u pos = elim (Bool-cases (ltb 0 (count p x.parents))) [
  | inl here ↦ (k, x, ground arith, ground (arith, here))
  | inr other ↦
      let (c, r, at, is) = refs_child p l u.1 (ground (arith, pos, other)) in
      (c, r, ground (arith, at, u, ==_iff k c), is)
]
