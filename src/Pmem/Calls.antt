-- ===== src/Pmem/Calls.antt =====
-- kpmem.c: kpmem_merge on every branch.
use sharkix.Common.{
  ℕ, ◌-◌, ◌^◌, ◌≡◌, ◌≢◌, ◌⊎◌, inl, inr, refl, ◌==◌, ==_iff, if◌then◌else◌, Bool, true, false,
  Bool-cases, Option-cases, none, some, List, [], ◌∷◌, assoc, assoc-adjust, arith, ap, ◌∙◌, ◌||◌,
}
use sharkix.Pmem.{Range, merge_range}
use sharkix.Pmem.Objects.{
  Pmem, Pmems, Made, refuse, published, decrease, increase, change, fresh, for_parents,
  kpmem_find_locked, kpmem_insert_locked, kpmem_merge,
}
use sharkix.Pmem.Valid.{IsValid, kpmem_find_locked-some}
use sharkix.Pmem.Making.{Publishes, published_lem, retained_lem, adjust-adjust_other}

abbrev pub parents_of : (a b : ℕ) → List ℕ
parents_of a b = if b == a then a ∷ [] else a ∷ b ∷ []

-- The outcomes of kpmem_merge.
abbrev pub Merged : (out mem : Bool) (a b : ℕ) → Pmems → Made → Type 0
Merged out mem a b s r =
    ((out ≡ false) × (r ≡ (s, false, none)))
    ⊎ (((mem ≡ false) ⊎ (kpmem_find_locked a s ≡ none) ⊎ (kpmem_find_locked b s ≡ none))
        × (r ≡ refuse s))
    ⊎ ((x : Pmem) × (y : Pmem) × (kpmem_find_locked a s ≡ some x)
        × (kpmem_find_locked b s ≡ some y)
        × ((merge_range x.range y.range ≡ none)
            ⊎ (x.refcount ≡ 2 ^ 64 - 1)
            ⊎ (y.refcount ≡ 2 ^ 64 - 1))
        × (r ≡ refuse s))
    ⊎ ((x : Pmem) × (y : Pmem) × (range : Range) × (out ≡ true)
        × (mem ≡ true)
        × (kpmem_find_locked a s ≡ some x)
        × (kpmem_find_locked b s ≡ some y)
        × (merge_range x.range y.range ≡ some range)
        × Publishes s range false (parents_of a b) r)

retain_other :
    (a b : ℕ) (y : Pmem) (s : Pmems)
    → (a == b) ≡ false
    → assoc b s.heap ≡ some y
    → assoc b (change a increase s).heap ≡ some y
retain_other a b y s ne at = ground (arith, assoc-adjust b a increase s.heap, at, ne)

merge_published :
    (a b : ℕ) (x y : Pmem) (range : Range) (s : Pmems)
    → kpmem_find_locked a s ≡ some x
    → kpmem_find_locked b s ≡ some y
    → x.refcount ≢ 2 ^ 64 - 1
    → y.refcount ≢ 2 ^ 64 - 1
    → IsValid s
    → Publishes s range false (parents_of a b) (
        published
          (for_parents decrease (parents_of a b) (for_parents increase (parents_of a b) s))
          (kpmem_insert_locked
            (fresh range false (parents_of a b))
            (for_parents increase (parents_of a b) s)))
unfolding for_parents
merge_published a b x y range s at_a at_b room_a room_b v =
    let (here_a, on_a) = kpmem_find_locked-some a s x at_a in
    let (here_b, on_b) = kpmem_find_locked-some b s y at_b in
    let (h, others, back) = retained_lem a x here_a room_a v in
    elim (Bool-cases (b == a)) [
      | inl same ↦ rw same (
          published_lem range false (a ∷ []) (change a decrease (change a increase s)) h (λ p. refl)
            refl others back)
      | inr differ ↦
          let s1 = change a increase s in
          let ne : (a == b) ≡ false = ground (arith, differ) in
          let (h2, others2, back2) = retained_lem b y (retain_other a b y s ne here_b) room_b h in
          let (h3, others3, back3) = retained_lem b y here_b room_b v in
          let undone : change b decrease (change a decrease (change b increase s1)) ≡ s =
            ap (λ l. change b decrease (record s { heap = l }))
              (adjust-adjust_other a b decrease increase s1.heap ne)
            ∙ ap (λ t. change b decrease (change b increase t)) back
            ∙ back3 in
          rw differ (
            published_lem range false (a ∷ b ∷ [])
              (change b decrease (change a decrease (change b increase s1))) h2 (λ p. ground arith)
              refl (λ k. others2 k ∙ others k) undone)
    ]

-- kpmem_merge between any calls: a NULL result pointer changes nothing; without memory or a source, when
-- the ranges leave a gap or wrap, when a count is 2^64 - 1, or when the handles are spent, it writes
-- PMEM_INVALID_HANDLE and changes nothing, the references that it took being given back; else it
-- publishes the joined range with both sources as parents, or the one when they are the same, under
-- the next handle, every other record stays but for its count, and all counts are exact again.
pub kpmem_merge_lem :
    (out mem : Bool) (a b : ℕ) (s : Pmems)
    → IsValid s
    → Merged out mem a b s (kpmem_merge out mem a b s)
unfolding kpmem_merge
kpmem_merge_lem false mem a b s v = inl (refl, refl)
kpmem_merge_lem true false a b s v = inr (inl (inl refl, refl))
kpmem_merge_lem true true a b s v = elim (Option-cases (kpmem_find_locked a s)) [
  | inl absent ↦ inr (inl (inr (inl absent), rw absent refl))
  | inr (x, at_a) ↦ elim (Option-cases (kpmem_find_locked b s)) [
    | inl absent ↦ inr (inl (inr (inr absent), rw (at_a, absent) refl))
    | inr (y, at_b) ↦ elim (Option-cases (merge_range x.range y.range)) [
      | inl bad ↦ inr (inr (inl (x, y, at_a, at_b, inl bad, rw (at_a, at_b, bad) refl)))
      | inr (range, good) ↦
          elim (Bool-cases (x.refcount == 2 ^ 64 - 1 || y.refcount == 2 ^ 64 - 1)) [
            | inl full ↦ inr (
                inr (
                  inl (
                    x,
                    y,
                    at_a,
                    at_b,
                    inr (
                        ground (
                          arith,
                          full,
                          ==_iff x.refcount (2 ^ 64 - 1),
                          ==_iff y.refcount (2 ^ 64 - 1),
                        )),
                    simp (at_a, at_b, good, full),
                  )))
            | inr room ↦ inr (
                inr (
                  inr (
                    x,
                    y,
                    range,
                    refl,
                    refl,
                    at_a,
                    at_b,
                    good,
                    rw (at_a, at_b, good, room)
                        (merge_published a b x y range s at_a at_b
                          (λ e. ground (arith, room, ==_iff x.refcount (2 ^ 64 - 1), e))
                          (λ e. ground (arith, room, ==_iff y.refcount (2 ^ 64 - 1), e)) v),
                  )))
          ]
    ]
  ]
]
