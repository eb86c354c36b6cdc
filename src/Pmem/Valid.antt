-- ===== src/Pmem/Valid.antt =====
-- kpmem.c: what holds of the records between two calls, and while a new record takes its references.
use sharkix.Common.{
  count, ℕ, ◌+◌, ◌-◌, ◌%◌, ◌^◌, ◌<◌, ◌≤◌, ◌≡◌, ◌≢◌, ◌⊎◌, inl, inr, refl, ◌==◌, ==_iff,
  if◌then◌else◌, Bool, true, Bool-cases, Option-cases, none, some, List, [], ◌∷◌, assoc, adjust,
  assoc-adjust, arith, ap, ◌∙◌, subst,
}
use sharkix.Pmem.{Range}
use sharkix.Pmem.Objects.{
  Pmem, Heap, Pmems, increase, change, fresh, kpmem_find_locked, kpmem_insert_locked, kpmem_init,
  pmem_invalid_handle,
}
use sharkix.Pmem.Counts.{refs, refs-adjust, adjust-Unique}
use sharkix.Pmem.Drain.{Mid, changed_cases, unchanged}

-- The references in `owed` are taken, and no record in memory holds them.
pub record Holds (owed : List ℕ) (s : Pmems) : Type 0 where
  pub mid : Mid s.heap [] owed
  pub counter : s.next_pmem_handle < 2 ^ 64
  pub free : (k : ℕ) → s.next_pmem_handle ≤ k → assoc k s.heap ≡ none
  pub older : (k : ℕ) (r : Pmem) → assoc k s.heap ≡ some r → (q : ℕ) → 0 < count q r.parents → q < k

-- Each record counts its registration and its children, and is there while the count is not 0; the
-- parents of a record are in memory and older than it.
abbrev pub IsValid : Pmems → Type 0
IsValid s = Holds [] s

pub kpmem_init-IsValid : IsValid kpmem_init
unfolding kpmem_init
kpmem_init-IsValid = record {
  mid = record {
    unique = tt;
    counted = λ p r e. absurd (ground (arith, e));
    small = λ p r e. absurd (ground (arith, e));
    waiting = λ p r e. absurd (ground (arith, e));
    listed = λ p e. refl;
    linked = λ p e. refl;
  };
  counter = omega arith;
  free = λ k b. refl;
  older = λ k r e q c. absurd (ground (arith, e));
}

-- A record of the table.
pub kpmem_find_locked-some :
    (handle : ℕ) (s : Pmems) (r : Pmem)
    → kpmem_find_locked handle s ≡ some r
    → (assoc handle s.heap ≡ some r) × (r.registered ≡ true)
kpmem_find_locked-some handle s r e = elim (Option-cases (assoc handle s.heap)) [
  | inl absent ↦ absurd (ground (arith, rw absent at e))
  | inr (x, at) ↦ elim (Bool-cases x.registered) [
    | inl on ↦
        let it : x ≡ r = ground (arith, simp (at, on) at e) in
        (ground (arith, at, it), ground (arith, on, ap (λ v. v.registered) it))
    | inr off ↦ absurd (ground (arith, simp (at, off) at e))
  ]
]

increase-Mid :
    {heap : Heap} {owed : List ℕ} (q : ℕ) (r : Pmem)
    → assoc q heap ≡ some r
    → r.refcount ≢ 2 ^ 64 - 1
    → Mid heap [] owed
    → Mid (adjust q increase heap) [] (q ∷ owed)
increase-Mid {heap = heap} {owed = owed} q r at room m =
    let same : (p : ℕ) → refs p (adjust q increase heap) ≡ refs p heap =
      λ p. refs-adjust p q increase heap (λ z. refl) in
    record {
      unique = adjust-Unique q increase heap m.unique;
      counted = λ p x e. elim (changed_cases p q increase heap r x at e) [
        | inl (here, was, is) ↦ ground (arith, m.counted p r was, m.small p r was, same p, room)
        | inr (other, was) ↦ ground (arith, m.counted p x was, same p)
      ];
      small = λ p x e. elim (changed_cases p q increase heap r x at e) [
        | inl (here, was, is) ↦ ground (arith, is)
        | inr (other, was) ↦ m.small p x was
      ];
      waiting = λ p x e. elim (changed_cases p q increase heap r x at e) [
        | inl (here, was, is) ↦ ground (arith, m.small p r was, room)
        | inr (other, was) ↦ m.waiting p x was
      ];
      listed = λ p e. refl;
      linked = λ p e. elim (Bool-cases (q == p)) [
        | inl here ↦ absurd (ground (arith, assoc-adjust p q increase heap, (==_iff q p).0 here))
        | inr other ↦ ground (arith, m.linked p (unchanged p q increase heap e), same p)
      ];
    }

-- A change of one record that leaves its parents.
change-Holds :
    {owed owed' : List ℕ} {s : Pmems} (q : ℕ) (r : Pmem) (f : Pmem → Pmem)
    → assoc q s.heap ≡ some r
    → (f r).parents ≡ r.parents
    → Mid (adjust q f s.heap) [] owed'
    → Holds owed s
    → Holds owed' (change q f s)
change-Holds {s = s} q r f at same m h = record {
  mid = m;
  counter = h.counter;
  free = λ k b. ground (arith, assoc-adjust k q f s.heap, h.free k b);
  older = λ k x e. elim (changed_cases k q f s.heap r x at e) [
    | inl (here, was, is) ↦
        λ p c. h.older k r was p (subst (λ ps. 0 < count p ps) (ap (λ v. v.parents) is ∙ same) c)
    | inr (other, was) ↦ h.older k x was
  ];
}

pub retain-Holds :
    {owed : List ℕ} {s : Pmems} (q : ℕ) (r : Pmem)
    → assoc q s.heap ≡ some r
    → r.refcount ≢ 2 ^ 64 - 1
    → Holds owed s
    → Holds (q ∷ owed) (change q increase s)
retain-Holds q r at room h = change-Holds q r increase at refl (increase-Mid q r at room h.mid) h

abbrev pub stored : Range → Bool → List ℕ → Pmem
stored range owns parents = record (fresh range owns parents) { registered = true }

insert-Mid :
    {heap : Heap} {owed : List ℕ} (n : ℕ) (range : Range) (owns : Bool) (parents : List ℕ)
    → ((p : ℕ) → count p owed ≡ count p parents)
    → assoc n heap ≡ none
    → Mid heap [] owed
    → Mid ((n, stored range owns parents) ∷ heap) [] []
insert-Mid {heap = heap} {owed = owed} n range owns parents same absent m = record {
  unique = (absent, m.unique);
  counted = λ p r e. elim (Bool-cases (n == p)) [
    | inl here ↦
        let it : n ≡ p = (==_iff n p).0 here in
        let gone : assoc p heap ≡ none = subst (λ k. assoc k heap ≡ none) it absent in
        ground (arith, here, e, m.linked p gone, same p)
    | inr other ↦ ground (arith, other, e, m.counted p r, same p)
  ];
  small = λ p r e. ground (arith, m.small p r);
  waiting = λ p r e. ground (arith, m.waiting p r);
  listed = λ p e. refl;
  linked = λ p e. ground (arith, m.linked p, same p);
}

-- A new record takes the references that are owed, or the handles are spent.
pub kpmem_insert_locked_lem :
    {owed : List ℕ} {s : Pmems} (range : Range) (owns : Bool) (parents : List ℕ)
    → ((p : ℕ) → count p owed ≡ count p parents)
    → Holds owed s
    → ((s.next_pmem_handle ≡ pmem_invalid_handle)
        × (kpmem_insert_locked (fresh range owns parents) s ≡ none))
      ⊎ ((s.next_pmem_handle ≢ pmem_invalid_handle)
          × (t : Pmems) × (kpmem_insert_locked (fresh range owns parents) s
              ≡ some (t, s.next_pmem_handle))
          × IsValid t
          × ((k : ℕ)
              → assoc k t.heap ≡ (
                  if s.next_pmem_handle == k
                  then some (stored range owns parents)
                  else assoc k s.heap)))
unfolding kpmem_insert_locked
kpmem_insert_locked_lem {owed = owed} {s = s} range owns parents same h =
    let n = s.next_pmem_handle in
    elim (Bool-cases (n == pmem_invalid_handle)) [
      | inl spent ↦ inl ((==_iff n pmem_invalid_handle).0 spent, simp spent)
      | inr more ↦
          let x = stored range owns parents in
          let next : (n + 1) % 2 ^ 64 ≡ n + 1 = ground (arith, h.counter, more) in
          let absent : assoc n s.heap ≡ none = h.free n (omega arith) in
          let t : Pmems = record { heap = (n, x) ∷ s.heap; next_pmem_handle = n + 1 } in
          inr (
            λ e. ground (arith, more, ==_iff n pmem_invalid_handle, e),
            t,
            simp (more, next),
            record {
              mid = insert-Mid n range owns parents same absent h.mid;
              counter = ground (arith, h.counter, more);
              free = λ k b. ground (arith, h.free k);
              older = λ k r e q c. elim (Bool-cases (n == k)) [
                | inl here ↦
                    let it : x ≡ r = ground (arith, here, e) in
                    ground (
                      arith,
                      h.mid.linked q,
                      h.free q,
                      same q,
                      here,
                      ==_iff n k,
                      ap (λ v. count q v.parents) it,
                    )
                | inr other ↦ h.older k r (ground (arith, other, e)) q c
              ];
            },
            λ k. refl,
          )
    ]
