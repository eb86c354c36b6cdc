-- ===== src/Pmem/Destroy.antt =====
-- kpmem.c: kpmem_destroy ends, and what it leaves.
use sharkix.Common.{
  count, ℕ, suc, ◌<◌, ◌≡◌, ◌↔◌, ◌⊎◌, inl, inr, refl, ◌==◌, ==_iff, ==_refl, true, false, Bool-cases,
  Option-cases, none, some, [], ◌∷◌, length, assoc, adjust, assoc-adjust, arith, ap, ◌∙◌, sym,
  subst,
}
use sharkix.Memory.{ok, failed}
use sharkix.Pmem.Objects.{Pmem, Heap, Pmems, decrease, Destroyed, kpmem_find_locked, kpmem_destroy}
use sharkix.Pmem.Counts.{refs, refs-adjust, adjust-Unique}
use sharkix.Pmem.Drain.{Mid, release-Mid, pushed, changed_cases, unchanged}
use sharkix.Pmem.Ends.{
  body_at, body_at-adjust, Split, Split-refl, drain_lem, kpmem_release_locked_lem,
}
use sharkix.Pmem.Valid.{IsValid, kpmem_find_locked-some}
use sharkix.Pmem.Lifetime.{Live, left_iff, left_before}

-- The records after HASH_DEL.
abbrev pub unlist : Pmem → Pmem
unlist r = record r { registered = false }

abbrev pub unlisted : ℕ → Pmems → Heap
unlisted handle s = adjust handle unlist s.heap

unlist-Mid :
    {heap : Heap} (q : ℕ) (r : Pmem)
    → assoc q heap ≡ some r
    → r.registered ≡ true
    → Mid heap [] []
    → Mid (adjust q unlist heap) [] (q ∷ [])
unlist-Mid {heap = heap} q r at on m =
    let same : (p : ℕ) → refs p (adjust q unlist heap) ≡ refs p heap =
      λ p. refs-adjust p q unlist heap (λ z. refl) in
    record {
      unique = adjust-Unique q unlist heap m.unique;
      counted = λ p x e. elim (changed_cases p q unlist heap r x at e) [
        | inl (here, was, is) ↦ ground (arith, m.counted p r was, same p, on)
        | inr (other, was) ↦ ground (arith, m.counted p x was, same p)
      ];
      small = λ p x e. elim (changed_cases p q unlist heap r x at e) [
        | inl (here, was, is) ↦ ground (arith, is, m.small p r was)
        | inr (other, was) ↦ m.small p x was
      ];
      waiting = λ p x e. elim (changed_cases p q unlist heap r x at e) [
        | inl (here, was, is) ↦ ground (arith, is, m.waiting p r was)
        | inr (other, was) ↦ m.waiting p x was
      ];
      listed = λ p e. refl;
      linked = λ p e. elim (Bool-cases (q == p)) [
        | inl here ↦ absurd (ground (arith, assoc-adjust p q unlist heap, (==_iff q p).0 here))
        | inr other ↦ ground (arith, m.linked p (unchanged p q unlist heap e), same p)
      ];
    }

-- The same records before as far as their bodies go.
Split-before :
    {before before' after dead : Heap}
    → ((p : ℕ) → body_at p before ≡ body_at p before')
    → Split before after dead
    → Split before' after dead
Split-before same s = record {
  once = s.once;
  apart = s.apart;
  same = λ p. s.same p ∙ same p;
  unregistered = s.unregistered;
}

-- What is left keeps the counter and the order of the handles.
left-IsValid :
    {s : Pmems} {left dead : Heap} (handle : ℕ) (r : Pmem)
    → assoc handle s.heap ≡ some r
    → IsValid s
    → Mid left [] []
    → Split (unlisted handle s) left dead
    → IsValid (record s { heap = left })
left-IsValid {s = s} {left = left} handle r at v m split =
    let stood : (k : ℕ) (x : Pmem)
        → assoc k left ≡ some x
        → (y : Pmem) × (assoc k s.heap ≡ some y) × (y.parents ≡ x.parents) =
      λ k x e.
        let (y, was, same) = left_before k x split e in
        elim (changed_cases k handle unlist s.heap r y at was) [
          | inl (here, is, it) ↦ (r, is, sym (ap (λ z. z.parents) it) ∙ ap (λ b. b.2) same)
          | inr (other, is) ↦ (y, is, ap (λ b. b.2) same)
        ] in
    record {
      mid = m;
      counter = v.counter;
      free = λ k b. elim (Option-cases (assoc k left)) [
        | inl absent ↦ absent
        | inr (x, e) ↦ let (y, was, same) = stood k x e in absurd (ground (arith, v.free k b, was))
      ];
      older = λ k x e q c.
          let (y, was, same) = stood k x e in
          v.older k y was q (subst (λ ps. 0 < count q ps) (sym same) c);
    }

-- The outcomes of kpmem_destroy.
abbrev pub Destroys : ℕ → Pmems → Destroyed → Type 0
Destroys handle s d =
    ((kpmem_find_locked handle s ≡ none) × (d ≡ record { pmems = s; outcome = failed; dead = [] }))
    ⊎ ((r : Pmem) × (kpmem_find_locked handle s ≡ some r)
        × (d.outcome ≡ ok)
        × IsValid d.pmems
        × (d.pmems.next_pmem_handle ≡ s.next_pmem_handle)
        × Split (unlisted handle s) d.pmems.heap d.dead)

-- kpmem_destroy between any calls: an unknown handle fails and changes nothing; else the call ends
-- without a panic, the counts are exact again and none is 0, the counter is as it was, the dead records
-- are not registered and each was taken once, and the dead and the remaining records are together those
-- of before without the registration of the handle, the same but for their counts.
pub kpmem_destroy_lem :
    (handle : ℕ) (s : Pmems) → IsValid s → Destroys handle s (kpmem_destroy handle s)
unfolding kpmem_destroy
kpmem_destroy_lem handle s v = elim (Option-cases (kpmem_find_locked handle s)) [
  | inl absent ↦ inl (absent, simp (kpmem_destroy, absent))
  | inr (r, here) ↦
      let (at, on) = kpmem_find_locked-some handle s r here in
      let l = unlisted handle s in
      let at_l : assoc handle l ≡ some (unlist r) =
        ground (arith, assoc-adjust handle handle unlist s.heap, at, ==_refl handle) in
      let m = unlist-Mid handle r at on v.mid in
      let pos : 0 < r.refcount = ground (arith, v.mid.counted handle r at, on) in
      let first = kpmem_release_locked_lem handle (unlist r) l [] at_l pos in
      let l1 = adjust handle decrease l in
      let m1 = release-Mid handle (unlist r) at_l pos m in
      let (left, dead, e, m2, s2) =
        drain_lem (suc (length l1)) l1 l1 (pushed handle (unlist r) []) [] (omega arith) m1
          (Split-refl l1) in
      let split : Split l left dead =
        Split-before (λ p. body_at-adjust p handle decrease l (λ x. refl)) s2 in
      let out : kpmem_destroy handle s
          ≡ record { pmems = record s { heap = left }; outcome = ok; dead = dead } =
        simp (kpmem_destroy, here, first, e) in
      inr (
        r,
        here,
        ap (λ d. d.outcome) out,
        subst (λ d. IsValid d.pmems) (sym out) (left-IsValid handle r at v m2 split),
        ap (λ d. d.pmems.next_pmem_handle) out,
        subst (λ d. Split l d.pmems.heap d.dead) (sym out) split,
      )
]

-- After kpmem_destroy has found its record between any calls, a record is in memory exactly when, in the
-- records of before without the registration of the handle, it or one that descends from it is
-- registered.
pub kpmem_destroy-kept_iff :
    (handle : ℕ) (s : Pmems) (r : Pmem) (p : ℕ)
    → IsValid s
    → kpmem_find_locked handle s ≡ some r
    → ((x : Pmem) × (assoc p (kpmem_destroy handle s).pmems.heap ≡ some x))
      ↔ Live (unlisted handle s) p
kpmem_destroy-kept_iff handle s r p v here = elim (kpmem_destroy_lem handle s v) [
  | inl (absent, e) ↦ absurd (ground (arith, absent, here))
  | inr (x, at, end, v', counter, split) ↦ left_iff p v' split
]
