-- ===== src/Memory/Flat.antt =====
-- The concrete page tables of the examples: a function from page numbers to pages.
use mathlib.Core.Option
use sharkix.Common.{
  ℕ, ◌/◌, ◌≡◌, ◌==◌, ==_iff, not, ◌&&◌, if◌then◌else◌, Bool, true, false, Option, none, some,
  is_some, Bool-cases, arith, refl, sym, ap, ◌∙◌, inl, inr,
}
use sharkix.Memory.{Answer, accepts, refuses, halts, Page, frame, protection, mapping_allowed}
use sharkix.Memory.Pages.{PageTables, same_page}

pub record FlatSpace : Type 0 where
  pub vmoset : ℕ
  pub kernel : Bool
  pub pages : ℕ → Option Page
  pub held : ℕ → Bool

abbrev pub put : (va : ℕ) → Option Page → FlatSpace → FlatSpace
put va p s = record s { pages = λ n. if n == va / 4096 then p else s.pages n }

-- The page of an address.
abbrev pub at : FlatSpace → ℕ → Option Page
at s a = s.pages (a / 4096)

-- A step that is taken under a test.
abbrev pub when : Bool → FlatSpace → Option FlatSpace
when b s = if b then some s else none

pub when-some : (b : Bool) (s t : FlatSpace) → when b s ≡ some t → s ≡ t
when-some true s t e = ground (arith, e)
when-some false s t e = absurd (ground (arith, e))

pub whole : (s : FlatSpace) (a b : ℕ) → same_page a b ≡ true → at s b ≡ at s a
whole s a b same = ap s.pages ((==_iff (b / 4096) (a / 4096)).0 same)

abbrev pub restrict : ℕ → Page → Page
restrict flags p = record p { flags = protection flags }

-- A mapping under a test, which halts when the page is not held.
abbrev pub answer : (free allowed : Bool) → FlatSpace → Answer FlatSpace
answer free allowed s = if allowed then if free then halts else accepts s else refuses

pub answer-accepts :
    (free allowed : Bool) (s t : FlatSpace) → answer free allowed s ≡ accepts t → s ≡ t
answer-accepts true true s t e = absurd (ground (arith, e))
answer-accepts false true s t e = ground (arith, e)
answer-accepts true false s t e = absurd (ground (arith, e))
answer-accepts false false s t e = absurd (ground (arith, e))

pub answer-halts :
    (free allowed : Bool) (s : FlatSpace) → answer free allowed s ≡ halts → free ≡ true
answer-halts true allowed s e = refl
answer-halts false true s e = absurd (ground (arith, e))
answer-halts false false s e = absurd (ground (arith, e))

pub not_held : (b : Bool) → not b ≡ true → b ≡ false
not_held b e = ground (arith, e)

abbrev pub flat_map : FlatSpace → (va pa flags : ℕ) → Answer FlatSpace
flat_map s va pa flags =
    answer (not (s.held pa)) (mapping_allowed s.kernel va && not (is_some (at s va)))
      (put va (some (record { physical = frame pa; flags = protection flags })) s)

abbrev pub flat_unmap : FlatSpace → (va : ℕ) → Option FlatSpace
flat_unmap s va = when (mapping_allowed s.kernel va && is_some (at s va)) (put va none s)

abbrev pub flat_protect : FlatSpace → (va flags : ℕ) → Option FlatSpace
flat_protect s va flags =
    when (mapping_allowed s.kernel va && is_some (at s va))
      (put va (Option.map (restrict flags) (at s va)) s)

pub protect_at :
    (s : FlatSpace) (va flags a : ℕ)
    → at (put va (Option.map (restrict flags) (at s va)) s) a
      ≡ (if same_page va a then Option.map (restrict flags) (at s a) else at s a)
protect_at s va flags a = elim (Bool-cases (same_page va a)) [
  | inl same ↦ rw same (ap (Option.map (restrict flags)) (sym (whole s va a same)))
  | inr other ↦ rw other refl
]

abbrev pub flat : PageTables
flat = record {
  Space = FlatSpace;
  vmoset = λ (s : FlatSpace). s.vmoset;
  kernel = λ (s : FlatSpace). s.kernel;
  page = at;
  held = λ (s : FlatSpace). s.held;
  map_page_internal = flat_map;
  unmap_page_internal = flat_unmap;
  protect_page_internal = flat_protect;
  page_whole = whole;
  map_one = λ s t va pa flags a e.
      ap (λ u. at u a)
        (sym (
          answer-accepts (not (s.held pa)) (mapping_allowed s.kernel va && not (is_some (at s va)))
            (put va (some (record { physical = frame pa; flags = protection flags })) s) t e));
  map_one_same = λ s t va pa flags e.
      let it =
        answer-accepts (not (s.held pa)) (mapping_allowed s.kernel va && not (is_some (at s va)))
          (put va (some (record { physical = frame pa; flags = protection flags })) s) t e in
      (ap (λ (u : FlatSpace). u.vmoset) (sym it), ap (λ (u : FlatSpace). u.kernel) (sym it));
  map_halts = λ s va pa flags e.
      let free =
        answer-halts (not (s.held pa)) (mapping_allowed s.kernel va && not (is_some (at s va)))
          (put va (some (record { physical = frame pa; flags = protection flags })) s) e in
      not_held (s.held pa) free;
  unmap_one = λ s t va a e.
      ap (λ u. at u a)
        (sym (when-some (mapping_allowed s.kernel va && is_some (at s va)) (put va none s) t e));
  unmap_one_same = λ s t va e.
      let it = when-some (mapping_allowed s.kernel va && is_some (at s va)) (put va none s) t e in
      (ap (λ (u : FlatSpace). u.vmoset) (sym it), ap (λ (u : FlatSpace). u.kernel) (sym it));
  unmap_one_mapped = λ s va p allowed there. (put va none s, rw (allowed, there) refl);
  protect_one = λ s t va flags a e.
      ap (λ u. at u a)
        (sym (
          when-some (mapping_allowed s.kernel va && is_some (at s va))
            (put va (Option.map (restrict flags) (at s va)) s) t e))
      ∙ protect_at s va flags a;
  protect_one_same = λ s t va flags e.
      let it =
        when-some (mapping_allowed s.kernel va && is_some (at s va))
          (put va (Option.map (restrict flags) (at s va)) s) t e in
      (ap (λ (u : FlatSpace). u.vmoset) (sym it), ap (λ (u : FlatSpace). u.kernel) (sym it));
  protect_one_mapped = λ s va flags p allowed there.
      (put va (Option.map (restrict flags) (at s va)) s, rw (allowed, there) refl);
}
