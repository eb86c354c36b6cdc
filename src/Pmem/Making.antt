-- ===== src/Pmem/Making.antt =====
-- kpmem.c: what the calls that make a new object leave.
use mathlib.Core.Option
use sharkix.Common.{
  count, ℕ, ◌+◌, ◌-◌, ◌%◌, ◌^◌, ◌<◌, ◌≡◌, ◌≢◌, ◌⊎◌, inl, inr, refl, ◌==◌, ==_iff, if◌then◌else◌,
  Bool, true, false, Bool-cases, none, some, List, [], ◌∷◌, assoc, adjust, assoc-adjust, arith, ap,
  ap₂, ◌∙◌, sym, subst,
}
use sharkix.Pmem.{Range}
use sharkix.Pmem.Objects.{
  Pmem, Heap, Pmems, Made, refuse, published, decrease, increase, change, fresh,
  kpmem_insert_locked, pmem_invalid_handle,
}
use sharkix.Pmem.Counts.{Unique}
use sharkix.Pmem.Ends.{body, body_at, body_at-adjust}
use sharkix.Pmem.Valid.{Holds, IsValid, retain-Holds, kpmem_insert_locked_lem}

adjust_absent : (q : ℕ) (f : Pmem → Pmem) (l : Heap) → assoc q l ≡ none → adjust q f l ≡ l
adjust_absent q f [] h = refl
adjust_absent q f ((k, x) ∷ l) h =
    let other : (k == q) ≡ false = ground (arith, h) in
    rw other (ap (λ t. (k, x) ∷ t) (adjust_absent q f l (simp other at h)))

-- What was taken and given back leaves the records as they were.
increase_undone :
    (q : ℕ) (l : Heap)
    → Unique l
    → ((r : Pmem) → assoc q l ≡ some r → r.refcount < 2 ^ 64)
    → adjust q decrease (adjust q increase l) ≡ l
increase_undone q [] u small = refl
increase_undone q ((k, x) ∷ l) u small = elim (Bool-cases (k == q)) [
  | inl here ↦
      let gone : assoc q l ≡ none = subst (λ j. assoc j l ≡ none) ((==_iff k q).0 here) u.0 in
      let fits : x.refcount < 2 ^ 64 = small x (rw here refl) in
      let rest : adjust q decrease (adjust q increase l) ≡ adjust q increase l =
        adjust_absent q decrease (adjust q increase l)
          (ground (arith, assoc-adjust q q increase l, gone)) in
      let back : ((x.refcount + 1) % 2 ^ 64 + 2 ^ 64 - 1) % 2 ^ 64 ≡ x.refcount =
        omega (arith, fits) in
      rw here (
        ap₂ (λ n t. (k, record x { refcount = n }) ∷ t) back
          (rest ∙ adjust_absent q increase l gone))
  | inr other ↦
      rw other (ap (λ t. (k, x) ∷ t) (increase_undone q l u.1 (λ r e. small r (rw other e))))
]

pub adjust-adjust_other :
    (p q : ℕ) (f g : Pmem → Pmem) (l : Heap)
    → (p == q) ≡ false
    → adjust p f (adjust q g l) ≡ adjust q g (adjust p f l)
adjust-adjust_other p q f g [] ne = refl
adjust-adjust_other p q f g ((k, x) ∷ l) ne = elim (Bool-cases (k == p)) [
  | inl at_p ↦
      let off_q : (k == q) ≡ false = ground (arith, ne, at_p) in
      rw (at_p, off_q) (ap (λ t. (k, f x) ∷ t) (adjust-adjust_other p q f g l ne))
  | inr off_p ↦
      rw off_p (ap (λ t. (k, (if k == q then g x else x)) ∷ t) (adjust-adjust_other p q f g l ne))
]

-- A new record under the next handle; of the others, only counts may have changed.
pub record Grown (s t : Pmems) (range : Range) (owns : Bool) (parents : List ℕ) : Type 0 where
  pub valid : IsValid t
  pub records :
      (k : ℕ)
      → body_at k t.heap
        ≡ (if s.next_pmem_handle == k then some (range, owns, parents, true) else body_at k s.heap)

-- Refused without any change when the handles are spent, else a new record, whose handle is written.
abbrev pub Publishes : Pmems → Range → Bool → List ℕ → Made → Type 0
Publishes s range owns parents r =
    ((s.next_pmem_handle ≡ pmem_invalid_handle) × (r ≡ refuse s))
    ⊎ ((s.next_pmem_handle ≢ pmem_invalid_handle)
        × (r.1 ≡ true)
        × (r.2 ≡ some s.next_pmem_handle)
        × Grown s r.0 range owns parents)

pub published_lem :
    {owed : List ℕ} {s s1 : Pmems} (range : Range) (owns : Bool) (parents : List ℕ) (undone : Pmems)
    → Holds owed s1
    → ((p : ℕ) → count p owed ≡ count p parents)
    → s1.next_pmem_handle ≡ s.next_pmem_handle
    → ((k : ℕ) → body_at k s1.heap ≡ body_at k s.heap)
    → undone ≡ s
    → Publishes s range owns parents
        (published undone (kpmem_insert_locked (fresh range owns parents) s1))
unfolding published
published_lem {s = s} {s1 = s1} range owns parents undone h same next others back =
    elim (kpmem_insert_locked_lem range owns parents same h) [
      | inl (spent, e) ↦ inl (sym next ∙ spent, rw (e, back) refl)
      | inr (more, t, e, v, at) ↦ inr (
        λ e. more (next ∙ e),
        rw e refl,
        rw (e, next) refl,
        rw e (record {
          valid = v;
          records = λ k. elim (Bool-cases (s.next_pmem_handle == k)) [
            | inl here ↦ ap (Option.map body) (at k) ∙ rw (next, here) refl
            | inr other ↦ ap (Option.map body) (at k) ∙ rw (next, other) (others k)
          ];
        }),
      )
    ]

-- What the records are while a call holds a reference of each parent, and what giving them back leaves.
pub retained_lem :
    {owed : List ℕ} {s : Pmems} (q : ℕ) (r : Pmem)
    → assoc q s.heap ≡ some r
    → r.refcount ≢ 2 ^ 64 - 1
    → Holds owed s
    → Holds (q ∷ owed) (change q increase s)
      × ((k : ℕ) → body_at k (change q increase s).heap ≡ body_at k s.heap)
      × (change q decrease (change q increase s) ≡ s)
retained_lem {s = s} q r at room h = (
  retain-Holds q r at room h,
  λ k. body_at-adjust k q increase s.heap (λ x. refl),
  ap (λ l. record s { heap = l }) (increase_undone q s.heap h.mid.unique (h.mid.small q)),
)
