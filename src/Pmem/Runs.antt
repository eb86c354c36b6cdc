-- ===== src/Pmem/Runs.antt =====
-- kpmem.c: the calls of the object interface in any order.
use sharkix.Common.{
  ℕ, ◌≡◌, inl, inr, Bool, false, Option, some, List, [], ◌∷◌, sym, subst, ◌↔◌, assoc,
}
use sharkix.Pmem.Objects.{
  Pmem, Pmems, Made, kpmem_init, kpmem_create, kpmem_alloc_owned_pages, kpmem_derive, kpmem_merge,
  kpmem_destroy,
}
use sharkix.Pmem.{Range}
use sharkix.Pmem.Valid.{IsValid, kpmem_init-IsValid}
use sharkix.Pmem.Making.{Publishes}
use sharkix.Pmem.Owned.{kpmem_create_internal_lem, kpmem_alloc_owned_pages_lem}
use sharkix.Pmem.Deriving.{kpmem_derive_cases}
use sharkix.Pmem.Calls.{kpmem_merge_lem}
use sharkix.Pmem.Destroy.{kpmem_destroy_lem}
use sharkix.Pmem.Lifetime.{Live, kept_iff}

-- The calls that change the objects.
pub data Call : Type 0 where
  create : (out mem : Bool) (base len : ℕ) → Call
  alloc : (out actual_len mem : Bool) (pages : Option ℕ) (requested_len : ℕ) → Call
  derive : (out mem : Bool) (source new_base new_len : ℕ) → Call
  merge : (out mem : Bool) (a b : ℕ) → Call
  destroy : (handle : ℕ) → Call

unfoldable pub step : Pmems → Call → Pmems
step s (Call.create out mem base len) = (kpmem_create out mem base len s).0
step s (Call.alloc out actual_len mem pages requested_len) =
    (kpmem_alloc_owned_pages out actual_len mem pages requested_len s).0.0
step s (Call.derive out mem source new_base new_len) =
    (kpmem_derive out mem source new_base new_len s).0
step s (Call.merge out mem a b) = (kpmem_merge out mem a b s).0
step s (Call.destroy handle) = (kpmem_destroy handle s).pmems

unfoldable pub run : Pmems → List Call → Pmems
run s [] = s
run s (c ∷ cs) = run (step s c) cs

Publishes-IsValid :
    {s : Pmems} {range : Range} {owns : Bool} {parents : List ℕ} {r : Made}
    → IsValid s
    → Publishes s range owns parents r
    → IsValid r.0
Publishes-IsValid v (inl (spent, e)) = subst (λ r. IsValid r.0) (sym e) v
Publishes-IsValid v (inr (more, done, written, g)) = g.valid

step-IsValid : (s : Pmems) (c : Call) → IsValid s → IsValid (step s c)
unfolding step kpmem_create
step-IsValid s (Call.create out mem base len) v =
    elim (kpmem_create_internal_lem out mem base len false s v) [
      | inl (bad, e) ↦ subst (λ r. IsValid r.0) (sym e) v
      | inr (inl (bad, e)) ↦ subst (λ r. IsValid r.0) (sym e) v
      | inr (inr (is, whole, p)) ↦ Publishes-IsValid v p
    ]
step-IsValid s (Call.alloc out actual_len mem pages len) v =
    elim (kpmem_alloc_owned_pages_lem out actual_len mem pages len s v) [
      | inl (bad, e) ↦ subst (λ r. IsValid r.0.0) (sym e) v
      | inr (inl (bad, e)) ↦ subst (λ r. IsValid r.0.0) (sym e) v
      | inr (inr (base, got, admitted, inl (e, zero_len, back))) ↦
          subst (λ r. IsValid r.0) (sym e) v
      | inr (inr (base, got, admitted, inr (p, done, size, back))) ↦ Publishes-IsValid v p
    ]
step-IsValid s (Call.derive out mem source base len) v =
    elim (kpmem_derive_cases out mem source base len s v) [
      | inl (bad, e) ↦ subst (λ r. IsValid r.0) (sym e) v
      | inr (inl (bad, e)) ↦ subst (λ r. IsValid r.0) (sym e) v
      | inr (inr (inl (src, at, (bad, e)))) ↦ subst (λ r. IsValid r.0) (sym e) v
      | inr (inr (inr (src, range, is, room, at, fits, p))) ↦ Publishes-IsValid v p
    ]
step-IsValid s (Call.merge out mem a b) v = elim (kpmem_merge_lem out mem a b s v) [
  | inl (bad, e) ↦ subst (λ r. IsValid r.0) (sym e) v
  | inr (inl (bad, e)) ↦ subst (λ r. IsValid r.0) (sym e) v
  | inr (inr (inl (x, y, at_a, at_b, bad, e))) ↦ subst (λ r. IsValid r.0) (sym e) v
  | inr (inr (inr (x, y, range, is, room, at_a, at_b, fits, p))) ↦ Publishes-IsValid v p
]
step-IsValid s (Call.destroy handle) v = elim (kpmem_destroy_lem handle s v) [
  | inl (absent, e) ↦ subst (λ d. IsValid d.pmems) (sym e) v
  | inr (r, at, end, v', counter, split) ↦ v'
]

runs-IsValid : (s : Pmems) (cs : List Call) → IsValid s → IsValid (run s cs)
unfolding run
runs-IsValid s [] v = v
runs-IsValid s (c ∷ cs) v = runs-IsValid (step s c) cs (step-IsValid s c v)

-- After kpmem_init and any calls of the object interface, whatever their arguments and the answers of
-- the allocators: no place holds two records; the count of each record is not 0 and fits 64 bits, and is
-- the number of the records' references to it and one more while it is registered; every parent of a
-- record is in memory and has a smaller handle; and the next handle and all behind it are free.
pub run-kpmem_init-IsValid : (cs : List Call) → IsValid (run kpmem_init cs)
run-kpmem_init-IsValid cs = runs-IsValid kpmem_init cs kpmem_init-IsValid

-- After kpmem_init and any calls of the object interface, a record is in memory exactly while it or a
-- record that descends from it is registered: none is freed too early, and none leaks.
pub run-kept_iff :
    (cs : List Call) (p : ℕ)
    → ((r : Pmem) × (assoc p (run kpmem_init cs).heap ≡ some r)) ↔ Live (run kpmem_init cs).heap p
run-kept_iff cs p = kept_iff p (run kpmem_init cs) (run-kpmem_init-IsValid cs)
