-- ===== src/Notify/Steps.antt =====
-- Each call of knotify.c does what its specification says.
use mathlib.Core.Option
use sharkix.Common.{
  ℕ, ◌+◌, ◌%◌, ◌^◌, ◌<◌, ◌≡◌, ◌≢◌, inl, inr, ◌==◌, ==_iff, not, if◌then◌else◌, Bool, true, false,
  Bool-cases, Option-cases, none, some, arith, refl, sym, subst, ap, ◌∙◌, bit_and, bit_or, bit_not,
  ◌||◌,
}
use sharkix.Table.{UtHash}
use sharkix.Table.Laws.{find, add, del, find-empty, find-add, find-del}
use sharkix.Notify.{
  Notify, Notifies, notify_invalid_handle, clear_pending, knotify_signal_ref, knotify_init,
  knotify_create, knotify_destroy, knotify_signal, knotify_ack,
}
use sharkix.Notify.Calls.{
  Call, create, destroy, signal, ack, spec, step, IsValid, view, pending_of, view-find,
}
use sharkix.Notify.Borrow.{signal_lem, ack_lem, absent_calls}
use sharkix.Notify.Refinement.{
  Refines, unchanged, signal_ref_lem, good_handle, absent_map, borrow-Refines,
}

module _ ⦃h : UtHash⦄ where
  removed : (handle : ℕ) → Notifies → Notifies
  removed handle s = record s { global_notify_table = del handle s.global_notify_table }

  removed-Refines :
      (handle : ℕ) (s : Notifies)
      → IsValid s
      → Refines (λ k. if handle == k then none else view s k) (removed handle s)
  unfolding removed
  removed-Refines handle s v =
      let law = λ (k : ℕ). find-del k handle s.global_notify_table in
      let valid : IsValid (removed handle s) = record {
        counter = v.counter;
        fresh = λ k past. ground (arith, law k, v.fresh k);
        objects = λ k n found. v.objects k n (ground (arith, law k, found));
      } in
      (
        valid,
        λ k. view-find (removed handle s) k valid ∙ elim (Bool-cases (handle == k)) [
          | inl same ↦
              let now : find k (del handle s.global_notify_table) ≡ none =
                ground (arith, law k, same) in
              ap pending_of now ∙ rw same refl
          | inr other ↦
              let now : find k (del handle s.global_notify_table) ≡ find k s.global_notify_table =
                ground (arith, law k, other) in
              ap pending_of now ∙ rw other (sym (view-find s k v))
        ],
      )

  destroy_lem :
      (handle : ℕ) (s : Notifies) (n : Notify)
      → handle ≢ notify_invalid_handle
      → find handle s.global_notify_table ≡ some n
      → (knotify_destroy handle s).0 ≡ removed handle s
  unfolding knotify_destroy removed
  destroy_lem handle s n good there =
      let valid : handle == notify_invalid_handle ≡ false =
        ground (arith, good, ==_iff handle notify_invalid_handle) in
      rw (valid, there) refl

  created : Notifies → Notifies
  created s = record s {
    next_notify_handle = (s.next_notify_handle + 1) % 2 ^ 64;
    global_notify_table =
        add s.next_notify_handle
          (record { handle = s.next_notify_handle; references = 1; pending = 0; posts = 0 })
          s.global_notify_table;
  }

  created-Refines :
      (s : Notifies)
      → IsValid s
      → s.next_notify_handle ≢ notify_invalid_handle
      → Refines (λ k. if s.next_notify_handle == k then some 0 else view s k) (created s)
  unfolding created
  created-Refines s v room =
      let n = s.next_notify_handle in
      let new : Notify = record { handle = n; references = 1; pending = 0; posts = 0 } in
      let law = λ (k : ℕ). find-add k n new s.global_notify_table (v.fresh n (omega arith)) in
      let small : n + 1 < 2 ^ 64 = ground (arith, room, v.counter) in
      let valid : IsValid (created s) = record {
        counter = omega (arith, small);
        fresh = λ k past. ground (arith, law k, v.fresh k, small, ==_iff n k);
        objects = λ k x found. elim (Bool-cases (n == k)) [
          | inl same ↦
              let it : new ≡ x = ground (arith, law k, same, found) in
              (
                sym (ap (λ (z : Notify). z.handle) it) ∙ (==_iff n k).0 same,
                sym (ap (λ (z : Notify). z.references) it),
              )
          | inr other ↦ v.objects k x (ground (arith, law k, other, found))
        ];
      } in
      (
        valid,
        λ k. view-find (created s) k valid ∙ elim (Bool-cases (n == k)) [
          | inl same ↦
              let now : find k (add n new s.global_notify_table) ≡ some new =
                ground (arith, law k, same) in
              ap pending_of now ∙ rw same refl
          | inr other ↦
              let now : find k (add n new s.global_notify_table) ≡ find k s.global_notify_table =
                ground (arith, law k, other) in
              ap pending_of now ∙ rw other (sym (view-find s k v))
        ],
      )

  create_refused :
      (out mem : Bool) (s : Notifies)
      → (not out || not mem || s.next_notify_handle == notify_invalid_handle) ≡ true
      → (knotify_create out mem s).0 ≡ s
  unfolding knotify_create
  create_refused false mem s why = refl
  create_refused true false s why = refl
  create_refused true true s why =
      let full : s.next_notify_handle == notify_invalid_handle ≡ true = why in rw full refl

  create_done :
      (out mem : Bool) (s : Notifies)
      → (not out || not mem || s.next_notify_handle == notify_invalid_handle) ≡ false
      → (knotify_create out mem s).0 ≡ created s
  unfolding knotify_create created
  create_done true true s why =
      let room : s.next_notify_handle == notify_invalid_handle ≡ false = why in rw room refl
  create_done true false s why = absurd (ground (arith, why))
  create_done false mem s why = absurd (ground (arith, why))

  -- Between calls, the notifications stand for a map from the live handles to their pending bits: every
  -- knotify_create, knotify_destroy, knotify_signal and knotify_ack on a valid table leaves a valid table,
  -- and does to the map that knotify_poll shows exactly what the specification says.
  pub step-Refines :
      (s : Notifies) (c : Call)
      → IsValid s
      → Refines (spec c s.next_notify_handle (view s)) (step s c)
  unfolding spec step
  step-Refines s (create out mem) v =
      elim (Bool-cases (not out || not mem || s.next_notify_handle == notify_invalid_handle)) [
        | inl why ↦ rw why (
            unchanged (view s) s (knotify_create out mem s).0 v (create_refused out mem s why)
              (λ k. refl))
        | inr why ↦
            let full : s.next_notify_handle ≢ notify_invalid_handle = λ bad.
              absurd
                (ground (arith, why, bad, ==_iff s.next_notify_handle notify_invalid_handle)) in
            rw why (
              subst (Refines (λ k. if s.next_notify_handle == k then some 0 else view s k))
                (sym (create_done out mem s why)) (created-Refines s v full))
      ]
  step-Refines s (destroy handle) v = elim (Option-cases (find handle s.global_notify_table)) [
    | inl absent ↦
        unchanged (spec (destroy handle) s.next_notify_handle (view s)) s
          (knotify_destroy handle s).0 v (absent_calls handle 0 s absent).2
          (λ k. absent_map handle k (λ o. none) s v absent refl)
    | inr (n, there) ↦
        subst (Refines (spec (destroy handle) s.next_notify_handle (view s)))
          (sym (destroy_lem handle s n (good_handle handle s n v there) there))
          (removed-Refines handle s v)
  ]
  step-Refines s (signal handle bits) v = elim (Option-cases (find handle s.global_notify_table)) [
    | inl absent ↦
        unchanged (spec (signal handle bits) s.next_notify_handle (view s)) s
          (knotify_signal handle bits s).0 v (absent_calls handle bits s absent).0
          (λ k. absent_map handle k (Option.map (λ p. bit_or p bits)) s v absent refl)
    | inr (n, there) ↦
        subst (Refines (spec (signal handle bits) s.next_notify_handle (view s)))
          (sym (signal_lem handle bits s n (good_handle handle s n v there) there))
          (borrow-Refines handle (knotify_signal_ref bits) (λ p. bit_or p bits) s n v there
            (signal_ref_lem bits))
  ]
  step-Refines s (ack handle bits) v = elim (Option-cases (find handle s.global_notify_table)) [
    | inl absent ↦
        unchanged (spec (ack handle bits) s.next_notify_handle (view s)) s
          (knotify_ack handle bits s).0 v (absent_calls handle bits s absent).1
          (λ k. absent_map handle k (Option.map (λ p. bit_and p (bit_not bits))) s v absent refl)
    | inr (n, there) ↦
        subst (Refines (spec (ack handle bits) s.next_notify_handle (view s)))
          (sym (ack_lem handle bits s n (good_handle handle s n v there) there))
          (borrow-Refines handle (clear_pending bits) (λ p. bit_and p (bit_not bits)) s n v there
            (λ m. (refl, refl, refl)))
  ]

  pub knotify_init-IsValid : IsValid knotify_init
  unfolding knotify_init
  knotify_init-IsValid = record {
    counter = omega arith;
    fresh = λ k past. find-empty k;
    objects = λ k n found. absurd (ground (arith, find-empty {V = Notify} k, found));
  }
