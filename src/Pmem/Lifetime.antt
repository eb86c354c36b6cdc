-- ===== src/Pmem/Lifetime.antt =====
-- kpmem.c: which records stay in memory.
use mathlib.Core.Option
use sharkix.Common.{
  count, ℕ, zero, suc, ◌-◌, ◌<◌, ◌≡◌, ◌↔◌, ◌⊎◌, inl, inr, refl, Bool, true, Bool-cases,
  Option-cases, none, some, List, assoc, arith, ap, ◌∙◌, sym, subst,
}
use sharkix.Pmem.{Range}
use sharkix.Pmem.Objects.{Pmem, Heap, Pmems}
use sharkix.Pmem.Counts.{refs, refs_parent, refs_child}
use sharkix.Pmem.Ends.{body, body_at, body_at-append, either_body, Split, Split-refl}
use sharkix.Pmem.Valid.{IsValid}

-- The record or one that descends from it is registered.
pub data Live (heap : Heap) : ℕ → Type 0 where
  listed : {p : ℕ} {r : Pmem} → assoc p heap ≡ some r → r.registered ≡ true → Live heap p
  parent :
      {p c : ℕ} {r : Pmem}
      → Live heap c
      → assoc c heap ≡ some r
      → 0 < count p r.parents
      → Live heap p

body-some :
    (p : ℕ) (l : Heap) (b : Range × Bool × List ℕ × Bool)
    → body_at p l ≡ some b
    → (r : Pmem) × (assoc p l ≡ some r) × (body r ≡ b)
body-some p l b e = elim (Option-cases (assoc p l)) [
  | inl absent ↦ absurd (ground (arith, sym e ∙ ap (Option.map body) absent))
  | inr (r, at) ↦
      let same : some (body r) ≡ some b = sym (ap (Option.map body) at) ∙ e in (r, at, cc)
]

-- A record that is left was there before, but for its count.
pub left_before :
    {before after dead : Heap} (p : ℕ) (r : Pmem)
    → Split before after dead
    → assoc p after ≡ some r
    → (x : Pmem) × (assoc p before ≡ some x) × (body x ≡ body r)
left_before {before = before} {after = after} {dead = dead} p r s at =
    let absent : assoc p dead ≡ none = ground (arith, s.apart p, at) in
    let same : body_at p before ≡ some (body r) =
      sym (s.same p) ∙ body_at-append p dead after ∙ rw (absent, at) refl in
    body-some p before (body r) same

-- A record that was there is left or dead.
pub before_ends :
    {before after dead : Heap} (p : ℕ) (r : Pmem)
    → Split before after dead
    → assoc p before ≡ some r
    → ((x : Pmem) × (assoc p after ≡ some x) × (body x ≡ body r))
      ⊎ ((x : Pmem) × (assoc p dead ≡ some x) × (body x ≡ body r))
before_ends {before = before} {after = after} {dead = dead} p r s at =
    let whole : either_body (assoc p dead) (body_at p after) ≡ some (body r) =
      sym (body_at-append p dead after) ∙ s.same p ∙ ap (Option.map body) at in
    elim (Option-cases (assoc p dead)) [
      | inl absent ↦ inl (body-some p after (body r) (rw absent at whole))
      | inr (x, here) ↦
          let same : some (body x) ≡ some (body r) = rw here at whole in inr (x, here, cc)
    ]

Live-left :
    {before dead : Heap} {t : Pmems} {p : ℕ}
    → IsValid t
    → Split before t.heap dead
    → Live before p
    → (r : Pmem) × (assoc p t.heap ≡ some r)
Live-left {p = p} v s (listed {r = r} at on) = elim (before_ends p r s at) [
  | inl (x, here, same) ↦ (x, here)
  | inr (x, here, same) ↦ absurd (ground (arith, s.unregistered p x here, on, ap (λ b. b.3) same))
]
Live-left {t = t} {p = p} v s (parent {c = c} {r = r} l at is) =
    let (x, here) = Live-left v s l in
    let (y, was, same) = left_before c x s here in
    let it : r ≡ y = ground (arith, at, was) in
    let parents : r.parents ≡ x.parents = ap (λ z. z.parents) it ∙ ap (λ b. b.2) same in
    let referred : 0 < refs p t.heap =
      ground (arith, refs_parent p c x t.heap here, ap (count p) parents, is) in
    elim (Option-cases (assoc p t.heap)) [
      | inl absent ↦ absurd (ground (arith, v.mid.linked p absent, referred))
      | inr found ↦ found
    ]

left-Live :
    (fuel : ℕ) {before dead : Heap} {t : Pmems} (p : ℕ) (r : Pmem)
    → t.next_pmem_handle - p < fuel
    → IsValid t
    → Split before t.heap dead
    → assoc p t.heap ≡ some r
    → Live before p
left-Live zero p r enough v s at = absurd (omega arith)
left-Live (suc fuel) {t = t} p r enough v s at =
    let (x, was, same) = left_before p r s at in
    elim (Bool-cases r.registered) [
      | inl on ↦ listed was (ap (λ b. b.3) same ∙ on)
      | inr off ↦
          let referred : 0 < refs p t.heap =
            ground (arith, v.mid.counted p r at, v.mid.waiting p r at, off) in
          let (c, y, there, is) = refs_child p t.heap v.mid.unique referred in
          let (z, stood, equal) = left_before c y s there in
          let below : c < t.next_pmem_handle = ground (arith, v.free c, there) in
          parent (left-Live fuel c y (omega (arith, below, v.older c y there p is)) v s there) stood
            (subst (λ ps. 0 < count p ps) (sym (ap (λ b. b.2) equal)) is)
    ]

-- What is left of the records is what a registered one needs.
pub left_iff :
    {before dead : Heap} {t : Pmems} (p : ℕ)
    → IsValid t
    → Split before t.heap dead
    → ((r : Pmem) × (assoc p t.heap ≡ some r)) ↔ Live before p
left_iff {t = t} p v s =
    (λ x. left-Live (suc (t.next_pmem_handle - p)) p x.0 (omega arith) v s x.1, Live-left v s)

-- A record is in memory exactly while it is registered or one that descends from it is.
pub kept_iff :
    (p : ℕ) (s : Pmems) → IsValid s → ((r : Pmem) × (assoc p s.heap ≡ some r)) ↔ Live s.heap p
kept_iff p s v = left_iff p v (Split-refl s.heap)
