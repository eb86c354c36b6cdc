-- ===== src/Pmem/Ends.antt =====
-- kpmem.c: where the records are when the loops of kpmem_destroy end.
use mathlib.Core.Option
use sharkix.Common.{
  count, ℕ, zero, suc, ◌+◌, ◌<◌, ◌≡◌, ◌⊎◌, inl, inr, refl, ◌==◌, ==_iff, ==_refl, Bool, false,
  Bool-cases, Option-cases, Option, none, some, List, [], ◌∷◌, ◌++◌, length, assoc, without, adjust,
  assoc-without, arith, ap, ◌∙◌, sym, subst,
}
use sharkix.Memory.{ok}
use sharkix.Pmem.{Range}
use sharkix.Pmem.Objects.{Pmem, Heap, decrease, kpmem_release_locked, release_parents, drain}
use sharkix.Pmem.Counts.{
  refs, Unique, refs-without, without-Unique, length-adjust, length-without_found,
}
use sharkix.Pmem.Drain.{Mid, Mid-owner, release-Mid, pushed}

-- All of a record but the count.
abbrev pub body : Pmem → Range × Bool × List ℕ × Bool
body r = (r.range, r.owns_pages, r.parents, r.registered)

abbrev pub body_at : ℕ → Heap → Option (Range × Bool × List ℕ × Bool)
body_at p l = Option.map body (assoc p l)

pub body_at-adjust :
    (p q : ℕ) (f : Pmem → Pmem) (l : Heap)
    → ((r : Pmem) → body (f r) ≡ body r)
    → body_at p (adjust q f l) ≡ body_at p l
body_at-adjust p q f [] same = refl
body_at-adjust p q f ((k, r) ∷ l) same = elim (Bool-cases (k == p)) [
  | inl here ↦ elim (Bool-cases (k == q)) [
    | inl changed ↦ rw (here, changed) (ap some (same r))
    | inr other ↦ rw (here, other) refl
  ]
  | inr other ↦ rw other (body_at-adjust p q f l same)
]

pub kpmem_release_locked_lem :
    (q : ℕ) (r : Pmem) (heap : Heap) (pending : List ℕ)
    → assoc q heap ≡ some r
    → 0 < r.refcount
    → kpmem_release_locked q heap pending ≡ some (adjust q decrease heap, pushed q r pending)
unfolding kpmem_release_locked
kpmem_release_locked_lem q r heap pending at pos =
    let some_refs : (r.refcount == 0) ≡ false = ground arith in
    simp (kpmem_release_locked, at, some_refs)

-- The loop over the parents of a freed record ends without a panic, and no record is lost.
pub release_parents_lem :
    (ps : List ℕ) (heap : Heap) (pending : List ℕ)
    → Mid heap pending ps
    → (heap' : Heap) × (pending' : List ℕ) × (release_parents ps heap pending
        ≡ some (heap', pending'))
      × Mid heap' pending' []
      × ((p : ℕ) → body_at p heap' ≡ body_at p heap)
      × (length heap' ≡ length heap)
unfolding release_parents
release_parents_lem [] heap pending m = (heap, pending, refl, m, λ p. refl, refl)
release_parents_lem (q ∷ ps) heap pending m =
    let (r, at, pos) = Mid-owner q m in
    let (heap', pending', e, m', same, size) =
      release_parents_lem ps (adjust q decrease heap) (pushed q r pending)
        (release-Mid q r at pos m) in
    (
      heap',
      pending',
      simp (release_parents, kpmem_release_locked_lem q r heap pending at pos, e),
      m',
      λ p. same p ∙ body_at-adjust p q decrease heap (λ x. refl),
      size ∙ length-adjust q decrease heap,
    )

-- The first of `pending` has no reference left, and none of it is a parent of anything.
popped_lem :
    {heap : Heap} {pending : List ℕ} (p : ℕ)
    → Mid heap (p ∷ pending) []
    → (r : Pmem) × (assoc p heap ≡ some r)
      × (r.registered ≡ false)
      × Mid (without p heap) pending r.parents
popped_lem {heap = heap} {pending = pending} p m = elim (Option-cases (assoc p heap)) [
  | inl absent ↦ absurd (ground (arith, m.listed p absent, ==_refl p))
  | inr (r, at) ↦
      let none_left : r.refcount ≡ 0 = ground (arith, m.waiting p r at, ==_refl p) in
      let unreferred : refs p heap ≡ 0 = omega (arith, m.counted p r at, none_left) in
      let fewer : (q : ℕ) → refs q (without p heap) + count q r.parents ≡ refs q heap =
        λ q. refs-without q p r heap m.unique at in
      (
        r,
        at,
        ground (arith, m.counted p r at, none_left),
        record {
          unique = without-Unique p heap m.unique;
          counted = λ q x e. ground (arith, m.counted q x, assoc-without q p heap, fewer q);
          small = λ q x e. ground (arith, m.small q x, assoc-without q p heap);
          waiting = λ q x e. ground (arith, m.waiting q x, assoc-without q p heap);
          listed = λ q e. elim (Bool-cases (p == q)) [
            | inl here ↦
                let it : p ≡ q = (==_iff p q).0 here in
                ground (arith, m.waiting p r at, ==_refl p, none_left, ap (λ k. count k pending) it)
            | inr other ↦ ground (arith, m.listed q, assoc-without q p heap)
          ];
          linked = λ q e. elim (Bool-cases (p == q)) [
            | inl here ↦
                let it : p ≡ q = (==_iff p q).0 here in
                ground (arith, unreferred, fewer q, ap (λ k. refs k heap) it)
            | inr other ↦ ground (arith, m.linked q, assoc-without q p heap, fewer q)
          ];
        },
      )
]

-- `dead` and `after` hold the records of `before`, each once, and the dead ones are not registered.
pub record Split (before after dead : Heap) : Type 0 where
  pub once : Unique dead
  pub apart : (p : ℕ) → (assoc p dead ≡ none) ⊎ (assoc p after ≡ none)
  pub same : (p : ℕ) → body_at p (dead ++ after) ≡ body_at p before
  pub unregistered : (p : ℕ) (r : Pmem) → assoc p dead ≡ some r → r.registered ≡ false

pub Split-refl : (l : Heap) → Split l l []
Split-refl l = record {
  once = tt;
  apart = λ p. inl refl;
  same = λ p. refl;
  unregistered = λ p r e. absurd (ground (arith, e));
}

abbrev pub either_body :
    Option Pmem → Option (Range × Bool × List ℕ × Bool) → Option (Range × Bool × List ℕ × Bool)
either_body none b = b
either_body (some r) b = some (body r)

pub body_at-append :
    (p : ℕ) (xs ys : Heap) → body_at p (xs ++ ys) ≡ either_body (assoc p xs) (body_at p ys)
body_at-append p [] ys = refl
body_at-append p ((k, r) ∷ xs) ys = elim (Bool-cases (k == p)) [
  | inl here ↦ rw here refl
  | inr other ↦ rw other (body_at-append p xs ys)
]

pub absent_body : (p : ℕ) (l : Heap) → body_at p l ≡ none → assoc p l ≡ none
absent_body p l e = elim (Option-cases (assoc p l)) [
  | inl absent ↦ absent
  | inr (r, at) ↦ absurd (ground (arith, sym e ∙ ap (Option.map body) at))
]

Split-step :
    {before after after' dead : Heap} (p : ℕ) (r : Pmem)
    → assoc p after ≡ some r
    → r.registered ≡ false
    → ((q : ℕ) → body_at q after' ≡ body_at q (without p after))
    → Split before after dead
    → Split before after' ((p, r) ∷ dead)
Split-step {before = before} {after = after} {after' = after'} {dead = dead} p r at off same s =
    record {
      once = (ground (arith, s.apart p, at), s.once);
      apart = λ q. elim (Bool-cases (p == q)) [
        | inl here ↦ inr (
            absent_body q after'
              (same q ∙ ap (Option.map body) (assoc-without q p after) ∙ rw here refl))
        | inr other ↦ elim (s.apart q) [
          | inl absent ↦ inl (rw other absent)
          | inr absent ↦ inr (
              absent_body q after'
                (same q ∙ ap (Option.map body) (assoc-without q p after) ∙ rw (other, absent) refl))
        ]
      ];
      same = λ q. elim (Bool-cases (p == q)) [
        | inl here ↦
            let at_q : assoc q after ≡ some r =
              subst (λ k. assoc k after ≡ some r) ((==_iff p q).0 here) at in
            let absent : assoc q dead ≡ none = ground (arith, s.apart q, at_q) in
            rw here (sym (body_at-append q dead after ∙ rw (absent, at_q) refl) ∙ s.same q)
        | inr other ↦
            let here : body_at q after' ≡ body_at q after =
              same q ∙ ap (Option.map body) (assoc-without q p after) ∙ rw other refl in
            rw other (
              body_at-append q dead after'
              ∙ ap (either_body (assoc q dead)) here
              ∙ sym (body_at-append q dead after)
              ∙ s.same q)
      ];
      unregistered = λ q x e. ground (arith, s.unregistered q x);
    }

-- The drain loop ends when the fuel exceeds the number of records, without a panic, and then no record
-- is without references.
pub drain_lem :
    (fuel : ℕ) (before heap : Heap) (pending : List ℕ) (dead : Heap)
    → length heap < fuel
    → Mid heap pending []
    → Split before heap dead
    → (heap' : Heap) × (dead' : Heap) × (drain fuel heap pending dead ≡ (heap', dead', ok))
      × Mid heap' [] []
      × Split before heap' dead'
unfolding drain
drain_lem zero before heap pending dead enough m s = absurd (omega arith)
drain_lem (suc fuel) before heap [] dead enough m s = (heap, dead, refl, m, s)
drain_lem (suc fuel) before heap (p ∷ pending) dead enough m s =
    let (r, at, off, m1) = popped_lem p m in
    let (heap1, pending1, e1, m2, same, size) =
      release_parents_lem r.parents (without p heap) pending m1 in
    let shorter = length-without_found p r heap at in
    let (heap2, dead2, e2, m3, s3) =
      drain_lem fuel before heap1 pending1 ((p, r) ∷ dead) (omega arith) m2
        (Split-step p r at off same s) in
    (heap2, dead2, simp (drain, at, e1, e2), m3, s3)
