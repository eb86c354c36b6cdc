-- ===== src/Pmem/Drain.antt =====
-- kpmem.c: the counts while kpmem_destroy gives references back.
use sharkix.Common.{
  count, ℕ, ◌+◌, ◌^◌, ◌<◌, ◌≡◌, ◌⊎◌, inl, inr, refl, ◌==◌, ==_iff, ==_refl, if◌then◌else◌, true,
  false, Bool-cases, Option-cases, none, some, List, ◌∷◌, assoc, adjust, assoc-adjust, arith, ◌&&◌,
  subst,
}
use sharkix.Pmem.Objects.{Pmem, Heap, decrease}
use sharkix.Pmem.Counts.{refs, Unique, refs-adjust, adjust-Unique}

-- `pending` are the records without references that are still to be freed, and `owed` the references of
-- the freed ones that are still to be given back.
pub record Mid (heap : Heap) (pending owed : List ℕ) : Type 0 where
  pub unique : Unique heap
  pub counted :
      (p : ℕ) (r : Pmem)
      → assoc p heap ≡ some r
      → r.refcount ≡ (if r.registered then 1 else 0) + refs p heap + count p owed
  pub small : (p : ℕ) (r : Pmem) → assoc p heap ≡ some r → r.refcount < 2 ^ 64
  pub waiting :
      (p : ℕ) (r : Pmem)
      → assoc p heap ≡ some r
      → count p pending ≡ (if r.refcount == 0 then 1 else 0)
  pub listed : (p : ℕ) → assoc p heap ≡ none → count p pending ≡ 0
  pub linked : (p : ℕ) → assoc p heap ≡ none → refs p heap + count p owed ≡ 0

pub Mid-owed :
    {heap : Heap} {pending owed owed' : List ℕ}
    → ((p : ℕ) → count p owed ≡ count p owed')
    → Mid heap pending owed
    → Mid heap pending owed'
Mid-owed same m = record {
  unique = m.unique;
  counted = λ p r at. omega (arith, m.counted p r at, same p);
  small = m.small;
  waiting = m.waiting;
  listed = m.listed;
  linked = λ p at. omega (arith, m.linked p at, same p);
}

-- Whoever is owed for is there, and has a count.
pub Mid-owner :
    {heap : Heap} {pending owed : List ℕ} (q : ℕ)
    → Mid heap pending (q ∷ owed)
    → (r : Pmem) × (assoc q heap ≡ some r) × (0 < r.refcount)
Mid-owner {heap = heap} q m = elim (Option-cases (assoc q heap)) [
  | inl absent ↦ absurd (ground (arith, m.linked q absent, ==_refl q))
  | inr (r, at) ↦ (r, at, ground (arith, m.counted q r at, ==_refl q))
]

-- What stands at a place after a change of one record.
pub changed_cases :
    (p q : ℕ) (f : Pmem → Pmem) (l : Heap) (r x : Pmem)
    → assoc q l ≡ some r
    → assoc p (adjust q f l) ≡ some x
    → (((q == p) ≡ true) × (assoc p l ≡ some r) × (x ≡ f r))
      ⊎ (((q == p) ≡ false) × (assoc p l ≡ some x))
changed_cases p q f l r x at e = elim (Bool-cases (q == p)) [
  | inl here ↦
      let there : assoc p l ≡ some r = subst (λ k. assoc k l ≡ some r) ((==_iff q p).0 here) at in
      inl (here, there, ground (arith, assoc-adjust p q f l, there))
  | inr other ↦ inr (other, ground (arith, assoc-adjust p q f l))
]

pub unchanged :
    (p q : ℕ) (f : Pmem → Pmem) (l : Heap) → assoc p (adjust q f l) ≡ none → assoc p l ≡ none
unchanged p q f l e = ground (arith, assoc-adjust p q f l)

-- The record joins `pending` with its last reference.
abbrev pub pushed : ℕ → Pmem → List ℕ → List ℕ
pushed q r pending = if r.refcount == 1 then q ∷ pending else pending

count-pushed :
    (p q : ℕ) (r : Pmem) (pending : List ℕ)
    → count p (pushed q r pending)
      ≡ (if (r.refcount == 1) && (q == p) then 1 else 0) + count p pending
count-pushed p q r pending = elim (Bool-cases (r.refcount == 1)) [
  | inl last ↦ rw last refl
  | inr more ↦ rw more (omega arith)
]

pub release-Mid :
    {heap : Heap} {pending owed : List ℕ} (q : ℕ) (r : Pmem)
    → assoc q heap ≡ some r
    → 0 < r.refcount
    → Mid heap pending (q ∷ owed)
    → Mid (adjust q decrease heap) (pushed q r pending) owed
release-Mid {heap = heap} {pending = pending} {owed = owed} q r at pos m =
    let same : (p : ℕ) → refs p (adjust q decrease heap) ≡ refs p heap =
      λ p. refs-adjust p q decrease heap (λ z. refl) in
    record {
      unique = adjust-Unique q decrease heap m.unique;
      counted = λ p x e. elim (changed_cases p q decrease heap r x at e) [
        | inl (here, was, is) ↦ ground (arith, m.counted p r was, m.small p r was, same p)
        | inr (other, was) ↦ ground (arith, m.counted p x was, same p)
      ];
      small = λ p x e. elim (changed_cases p q decrease heap r x at e) [
        | inl (here, was, is) ↦ ground (arith, m.small p r was)
        | inr (other, was) ↦ m.small p x was
      ];
      waiting = λ p x e. elim (changed_cases p q decrease heap r x at e) [
        | inl (here, was, is) ↦
            ground (arith, m.waiting p r was, m.small p r was, count-pushed p q r pending)
        | inr (other, was) ↦ ground (arith, m.waiting p x was, count-pushed p q r pending)
      ];
      listed = λ p e. elim (Bool-cases (q == p)) [
        | inl here ↦ absurd (ground (arith, assoc-adjust p q decrease heap, (==_iff q p).0 here))
        | inr other ↦
            ground (arith, m.listed p (unchanged p q decrease heap e), count-pushed p q r pending)
      ];
      linked = λ p e. ground (arith, m.linked p (unchanged p q decrease heap e), same p);
    }
