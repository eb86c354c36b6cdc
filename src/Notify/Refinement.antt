-- ===== src/Notify/Refinement.antt =====
-- Valid tables of knotify.c, and what a change of one object does to the map of pending bits.
use mathlib.Core.Option
use sharkix.Common.{
  ℕ, ◌^◌, ◌<◌, ◌≡◌, ◌≢◌, inl, inr, ◌==◌, ==_iff, if◌then◌else◌, Bool-cases, Option, none, some,
  arith, refl, sym, subst, ap, ◌∙◌, bit_or, bit_ext, bit-bit_or, bit-zero,
}
use sharkix.Table.{UtHash}
use sharkix.Table.Laws.{find}
use sharkix.Notify.{Notify, Notifies, notify_invalid_handle, knotify_signal_ref}
use sharkix.Notify.Calls.{IsValid, view, pending_of, view-find}
use sharkix.Notify.Borrow.{borrow, Becomes, borrow_lem}

module _ ⦃h : UtHash⦄ where
  -- After a change of one object, which keeps its handle and the one reference, the state is valid, and the
  -- bits of that object are what it says.
  becomes-IsValid :
      (handle : ℕ) (n : Notify) (s t : Notifies)
      → IsValid s
      → (x : Notify) × (find handle s.global_notify_table ≡ some x)
      → n.handle ≡ handle
      → n.references ≡ 1
      → Becomes handle n s t
      → IsValid t
  becomes-IsValid handle n s t v (x, there) own one b = record {
    counter = subst (λ c. c < 2 ^ 64) (sym b.0) v.counter;
    fresh = λ k past. ground (arith, b.1 k, b.0, v.fresh k, there, ==_iff handle k);
    objects = λ k m found. elim (Bool-cases (handle == k)) [
      | inl same ↦
          let it : n ≡ m = ground (arith, b.1 k, same, found) in
          (
            ground (arith, own, same, ap (λ (z : Notify). z.handle) it, ==_iff handle k),
            sym (ap (λ (z : Notify). z.references) it) ∙ one,
          )
      | inr other ↦ v.objects k m (ground (arith, b.1 k, other, found))
    ];
  }

  abbrev pub Refines : (f : ℕ → Option ℕ) (t : Notifies) → Type 0
  Refines f t = IsValid t × ((k : ℕ) → view t k ≡ f k)

  becomes-Refines :
      (handle : ℕ) (n : Notify) (s t : Notifies)
      → IsValid s
      → (x : Notify) × (find handle s.global_notify_table ≡ some x)
      → n.handle ≡ handle
      → n.references ≡ 1
      → Becomes handle n s t
      → Refines (λ k. if handle == k then some n.pending else view s k) t
  becomes-Refines handle n s t v there own one b =
      let valid = becomes-IsValid handle n s t v there own one b in
      (
        valid,
        λ k. view-find t k valid ∙ elim (Bool-cases (handle == k)) [
          | inl same ↦
              let now : find k t.global_notify_table ≡ some n = ground (arith, b.1 k, same) in
              ap pending_of now ∙ rw same refl
          | inr other ↦
              let now : find k t.global_notify_table ≡ find k s.global_notify_table =
                ground (arith, b.1 k, other) in
              ap pending_of now ∙ rw other (sym (view-find s k v))
        ],
      )

  -- A handle that is not there has no bits, and its map stays.
  pub unchanged :
      (f : ℕ → Option ℕ) (s t : Notifies)
      → IsValid s
      → t ≡ s
      → ((k : ℕ) → view s k ≡ f k)
      → Refines f t
  unchanged f s t v same is_f = subst (Refines f) (sym same) (v, is_f)

  or_zero : (p : ℕ) → bit_or p 0 ≡ p
  or_zero p = bit_ext (bit_or p 0) p λ i. omega (arith, bit-bit_or p 0 i, bit-zero i)

  pub signal_ref_lem :
      (bits : ℕ) (n : Notify)
      → let m = knotify_signal_ref bits n in
        (m.handle ≡ n.handle) × (m.references ≡ n.references) × (m.pending ≡ bit_or n.pending bits)
  unfolding knotify_signal_ref
  signal_ref_lem bits n = elim (Bool-cases (bits == 0)) [
    | inl zero_bits ↦
        let nothing : bits ≡ 0 = (==_iff bits 0).0 zero_bits in
        (
          rw zero_bits refl,
          rw zero_bits refl,
          rw zero_bits (sym (or_zero n.pending) ∙ ap (bit_or n.pending) (sym nothing)),
        )
    | inr some_bits ↦ (rw some_bits refl, rw some_bits refl, rw some_bits refl)
  ]

  pub good_handle :
      (handle : ℕ) (s : Notifies) (n : Notify)
      → IsValid s
      → find handle s.global_notify_table ≡ some n
      → handle ≢ notify_invalid_handle
  good_handle handle s n v there bad =
      absurd (ground (arith, v.fresh handle, bad, there, v.counter))

  -- What a map that is changed at an absent handle keeps.
  pub absent_map :
      (handle k : ℕ) (g : Option ℕ → Option ℕ) (s : Notifies)
      → IsValid s
      → find handle s.global_notify_table ≡ none
      → g none ≡ none
      → view s k ≡ (if handle == k then g (view s k) else view s k)
  absent_map handle k g s v absent strict = elim (Bool-cases (handle == k)) [
    | inl same ↦
        let at : find k s.global_notify_table ≡ none =
          ground (arith, same, absent, ==_iff handle k) in
        let was : view s k ≡ none = view-find s k v ∙ ap pending_of at in
        rw (same, was) (sym strict)
    | inr other ↦ rw other refl
  ]

  -- A call on an object that is there, with what it does to the bits.
  pub borrow-Refines :
      (handle : ℕ) (f : Notify → Notify) (g : ℕ → ℕ) (s : Notifies) (n : Notify)
      → IsValid s
      → find handle s.global_notify_table ≡ some n
      → ((m : Notify)
          → ((f m).handle ≡ m.handle)
            × ((f m).references ≡ m.references)
            × ((f m).pending ≡ g m.pending))
      → Refines (λ k. if handle == k then Option.map g (view s k) else view s k) (borrow handle f s)
  borrow-Refines handle f g s n v there does =
      let two = record n { references = 2 } in
      let (own, one) = v.objects handle n there in
      let good = good_handle handle s n v there in
      let becomes = borrow_lem handle f s n good there one (does two).1 in
      let (valid, bits) =
        becomes-Refines handle (record (f two) { references = 1 }) s (borrow handle f s) v
          (n, there) ((does two).0 ∙ own) refl becomes in
      (
        valid,
        λ k. bits k ∙ elim (Bool-cases (handle == k)) [
          | inl same ↦
              let at : find k s.global_notify_table ≡ some n =
                ground (arith, same, there, ==_iff handle k) in
              let was : view s k ≡ some n.pending = view-find s k v ∙ ap pending_of at in
              rw (same, was) (ap some (does two).2)
          | inr other ↦ rw other refl
        ],
      )
