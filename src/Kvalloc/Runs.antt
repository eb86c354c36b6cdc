-- ===== src/Kvalloc/Runs.antt =====
-- kvalloc.c: the calls in any order.
use sharkix.Common.{ℕ, inl, inr, Bool, List, [], ◌∷◌, sym, subst}
use sharkix.Kvalloc.{Regions, kvalloc, kvfree, kvalloc_init}
use sharkix.Kvalloc.Freed.{IsValid, kvalloc_lem, kvfree_lem}

pub data Call : Type 0 where
  alloc : (out mem : Bool) (size : ℕ) → Call
  free : (address : ℕ) → Call

unfoldable pub step : Regions → Call → Regions
step s (alloc out mem size) = (kvalloc out mem size s).0
step s (free address) = (kvfree address s).0

unfoldable pub run : Regions → List Call → Regions
run s [] = s
run s (c ∷ cs) = run (step s c) cs

step-IsValid : (s : Regions) (c : Call) → IsValid s → IsValid (step s c)
unfolding step
step-IsValid s (alloc out mem size) v = elim (kvalloc_lem out mem size s v) [
  | inl (bad, e) ↦ subst (λ r. IsValid r.0) (sym e) v
  | inr (a, regions, e, behind, whole, inside, sorted, back, cover, apart, first, accepted) ↦
      subst (λ r. IsValid r.0) (sym e) sorted
]
step-IsValid s (free address) v = elim (kvfree_lem address s v) [
  | inl (bad, e) ↦ subst (λ r. IsValid r.0) (sym e) v
  | inr (len, regions, at, e, sorted, cover) ↦ subst (λ r. IsValid r.0) (sym e) sorted
]

runs-IsValid : (s : Regions) (cs : List Call) → IsValid s → IsValid (run s cs)
unfolding run
runs-IsValid s [] v = v
runs-IsValid s (c ∷ cs) v = runs-IsValid (step s c) cs (step-IsValid s c v)

-- After kvalloc_init and any calls of kvalloc and kvfree, the regions are whole pages of the arena in the
-- order of their addresses, and no two overlap.
pub run-kvalloc_init-IsValid : (cs : List Call) → IsValid (run kvalloc_init cs)
unfolding kvalloc_init
run-kvalloc_init-IsValid cs = runs-IsValid kvalloc_init cs tt
