-- ===== src/Caps/Moves/Authority.antt =====
-- No primitive change adds a right on an object that no capability carried before.
use sharkix.Common.{
  ℕ, ◌≡◌, refl, ◌==◌, if◌then◌else◌, true, some, arith, ◌⊎◌, inl, inr, Bool-cases, bit_or, bit,
  bit_mono, bit-bit_or, bit-le,
}
use sharkix.Table.{UtHash}
use sharkix.Table.Laws.{find, find-add, find-del}
use sharkix.Caps.State.{Cap, Caps}
use sharkix.Caps.Global.{publish, kcap_destroy}
use sharkix.Caps.Sets.{kcapset_new}
use sharkix.Caps.Valid.{IsValid}
use sharkix.Caps.Moves.Keep.{Moves-IsValid}
use sharkix.Caps.Moves.{
  Move, Moves, burn, shrink, join, destroy, unname, name, open_set, close_set, enter, leave, here,
  next,
}

module _ ⦃h : UtHash⦄ where
  -- Some capability carries right `i` on an object.
  pub record Held (s : Caps) (type obj i : ℕ) : Type 0 where
    pub at : ℕ
    pub cap : Cap
    pub live : find at s.caps ≡ some cap
    pub of_type : cap.type ≡ type
    pub of_object : cap.obj_handle ≡ obj
    pub carries : bit cap.rights i ≡ 1

  -- Publishing a capability adds only the rights that it carries.
  pub publish-Held :
      {s : Caps} {type obj i : ℕ} (t o r : ℕ)
      → IsValid s
      → Held (publish t o r s).0 type obj i
      → Held s type obj i ⊎ ((t ≡ type) × (o ≡ obj) × (bit r i ≡ 1))
  unfolding publish
  publish-Held {s} {type} {obj} {i} t o r v held =
      elim (Bool-cases (s.next_cap_handle == held.at)) [
        | inl new ↦ inr (ground (arith, law))
        | inr old ↦ inl (record {
          at = held.at;
          cap = held.cap;
          live = ground (arith, law, held.live);
          of_type = held.of_type;
          of_object = held.of_object;
          carries = held.carries;
        })
      ]
    where
      law : find held.at (publish t o r s).0.caps ≡ (
          if s.next_cap_handle == held.at
          then some
              (record { cap_handle = s.next_cap_handle; type = t; obj_handle = o; rights = r })
          else find held.at s.caps)
      law = find-add held.at s.next_cap_handle _ s.caps (v.fresh s.next_cap_handle (omega arith))

  same_caps :
      {s : Caps} (t : Caps) {type obj i : ℕ}
      → t.caps ≡ s.caps
      → Held t type obj i
      → Held s type obj i
  same_caps t e held = record {
    at = held.at;
    cap = held.cap;
    live = rw (← e) held.live;
    of_type = held.of_type;
    of_object = held.of_object;
    carries = held.carries;
  }

  kcap_destroy-Held :
      (s : Caps) (k : ℕ) {type obj i : ℕ} → Held (kcap_destroy k s).0 type obj i → Held s type obj i
  unfolding kcap_destroy
  kcap_destroy-Held s k held = record {
    at = held.at;
    cap = held.cap;
    live = ground (arith, find-del held.at k s.caps, held.live);
    of_type = held.of_type;
    of_object = held.of_object;
    carries = held.carries;
  }

  same_after_new : (s : Caps) → (kcapset_new true true s).0.caps ≡ s.caps
  unfolding kcapset_new
  same_after_new s = refl

  Move-Held :
      {s t : Caps} {type obj i : ℕ} → IsValid s → Move s t → Held t type obj i → Held s type obj i
  Move-Held v (burn room) held = same_caps _ refl held
  Move-Held {s} {type} {obj} {i} v (shrink k rights src room e sub) held =
      elim (publish-Held src.type src.obj_handle rights v held) [
        | inl old ↦ old
        | inr (t, o, r) ↦ record {
          at = k;
          cap = src;
          live = e;
          of_type = t;
          of_object = o;
          carries = omega (arith, bit_mono rights src.rights i sub, bit-le src.rights i);
        }
      ]
  Move-Held {s} {type} {obj} {i} v (join j k a b room e f object ty) held =
      elim (publish-Held a.type a.obj_handle (bit_or a.rights b.rights) v held) [
        | inl old ↦ old
        | inr (t, o, r) ↦ elim (Bool-cases (bit a.rights i == 1)) [
          | inl from_a ↦ record {
            at = j;
            cap = a;
            live = e;
            of_type = t;
            of_object = o;
            carries = ground arith;
          }
          | inr from_b ↦ record {
            at = k;
            cap = b;
            live = f;
            of_type = ground arith;
            of_object = ground arith;
            carries =
                ground
                  (arith, bit-bit_or a.rights b.rights i, bit-le a.rights i, bit-le b.rights i);
          }
        ]
      ]
  Move-Held v (destroy k) held = kcap_destroy-Held _ k held
  Move-Held v (unname k) held = same_caps _ refl held
  Move-Held v (name k n same short live free) held = same_caps _ refl held
  Move-Held v (open_set room) held = same_caps _ (same_after_new _) held
  Move-Held v (close_set k) held = same_caps _ refl held
  Move-Held v (enter k c set issued there free) held = same_caps _ refl held
  Move-Held v (leave k c) held = same_caps _ refl held

  pub Moves-Held :
      {s t : Caps} {type obj i : ℕ} → IsValid s → Moves s t → Held t type obj i → Held s type obj i
  Moves-Held v here held = held
  Moves-Held v (next m last) held = Moves-Held v m (Move-Held (Moves-IsValid v m) last held)
