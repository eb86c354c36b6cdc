-- ===== src/Notify/Borrow.antt =====
-- knotify.c: what a call does that takes its reference of an object, changes it and gives it back.
use sharkix.Common.{
  ℕ, ◌+◌, ◌%◌, ◌^◌, ◌≡◌, ◌≢◌, inl, inr, ◌==◌, ==_iff, if◌then◌else◌, Bool, true, false, Bool-cases,
  Option, none, some, arith, refl, sym, subst, ap, ◌∙◌,
}
use sharkix.Table.{UtHash}
use sharkix.Table.Laws.{find, find-modify}
use sharkix.Notify.{
  Notify, Notifies, notify_invalid_handle, clear_pending, change, release, knotify_signal_ref,
  knotify_acquire, knotify_release, knotify_destroy, knotify_signal, knotify_ack,
}
use sharkix.Notify.Calls.{held, acquire_lem, missing_lem}

module _ ⦃h : UtHash⦄ where
  -- A call that takes its reference, changes an object and gives the reference back.
  abbrev pub borrow : ℕ → (Notify → Notify) → Notifies → Notifies
  borrow handle f s = knotify_release handle (change handle f (knotify_acquire handle s).0)

  -- One object has a new value, and nothing else has changed.
  abbrev pub Becomes : (handle : ℕ) → Notify → (s t : Notifies) → Type 0
  Becomes handle n s t =
      (t.next_notify_handle ≡ s.next_notify_handle)
      × ((k : ℕ)
          → find k t.global_notify_table
            ≡ (if handle == k then some n else find k s.global_notify_table))

  pub change_lem :
      (handle : ℕ) (f : Notify → Notify) (s : Notifies) (n : Notify)
      → find handle s.global_notify_table ≡ some n
      → Becomes handle (f n) s (change handle f s)
  change_lem handle f s n there = (
    refl,
    λ k. find-modify k handle f s.global_notify_table ∙ (elim (Bool-cases (handle == k)) [
      | inl same ↦
          let at : find k s.global_notify_table ≡ some n =
            ground (arith, same, there, ==_iff handle k) in
          rw (same, at) refl
      | inr other ↦ rw other refl
    ]),
  )

  pub becomes_then :
      (handle : ℕ) (m n : Notify) (s t u : Notifies)
      → Becomes handle m s t
      → Becomes handle n t u
      → Becomes handle n s u
  becomes_then handle m n s t u a b = (b.0 ∙ a.0, λ k. ground (arith, a.1 k, b.1 k))

  pub release_lem :
      (handle : ℕ) (s : Notifies) (n : Notify)
      → find handle s.global_notify_table ≡ some n
      → n.references ≡ 2
      → knotify_release handle s ≡ change handle (λ m. record m { references = 1 }) s
  unfolding knotify_release release
  release_lem handle s n there two =
      let left : release n.references ≡ some (1, false) = rw two refl in
      simp (knotify_release, there, left)

  -- What the object is after the call: as `f` made it, with one reference.
  pub borrow_lem :
      (handle : ℕ) (f : Notify → Notify) (s : Notifies) (n : Notify)
      → handle ≢ notify_invalid_handle
      → find handle s.global_notify_table ≡ some n
      → n.references ≡ 1
      → (f (record n { references = 2 })).references ≡ 2
      → Becomes handle
          (record (f (record n { references = 2 })) { references = 1 })
          s
          (borrow handle f s)
  unfolding knotify_acquire
  borrow_lem handle f s n good there one keeps =
      let held : Notify = record n { references = 2 } in
      let counted : (n.references + 1) % 2 ^ 64 ≡ 2 = omega (arith, one) in
      let valid : handle == notify_invalid_handle ≡ false =
        ground (arith, good, ==_iff handle notify_invalid_handle) in
      let s1 = change handle (λ m. held) s in
      let acquired : (knotify_acquire handle s).0 ≡ s1 =
        simp (knotify_acquire, valid, there, counted) in
      let first = change_lem handle (λ m. held) s n there in
      let at1 : find handle s1.global_notify_table ≡ some held =
        ground (arith, first.1 handle, ==_iff handle handle) in
      let s2 = change handle f s1 in
      let second = change_lem handle f s1 held at1 in
      let at2 : find handle s2.global_notify_table ≡ some (f held) =
        ground (arith, second.1 handle, ==_iff handle handle) in
      let released : knotify_release handle s2
          ≡ change handle (λ m. record m { references = 1 }) s2 =
        release_lem handle s2 (f held) at2 keeps in
      let third = change_lem handle (λ m. record m { references = 1 }) s2 (f held) at2 in
      let all =
        becomes_then handle (f held) (record (f held) { references = 1 }) s s2 _
          (becomes_then handle held (f held) s s1 s2 first second) third in
      subst (Becomes handle (record (f held) { references = 1 }) s)
        (sym (ap (λ t. knotify_release handle (change handle f t)) acquired ∙ released)) all

  pub signal_lem :
      (handle bits : ℕ) (s : Notifies) (n : Notify)
      → handle ≢ notify_invalid_handle
      → find handle s.global_notify_table ≡ some n
      → (knotify_signal handle bits s).0 ≡ borrow handle (knotify_signal_ref bits) s
  unfolding knotify_signal
  signal_lem handle bits s n good there =
      let valid : handle == notify_invalid_handle ≡ false =
        ground (arith, good, ==_iff handle notify_invalid_handle) in
      let taken = acquire_lem handle s n valid there in
      let out : knotify_signal handle bits s ≡ (
        knotify_release handle
            (change handle (knotify_signal_ref bits) (change handle (λ m. held n) s)),
        true,
      ) =
        simp (knotify_signal, valid, taken) in
      ap (λ (r : Notifies × Bool). r.0) out
      ∙ sym (
          ap
            (λ (r : Notifies × Option Notify).
              knotify_release handle (change handle (knotify_signal_ref bits) r.0))
            taken)

  pub ack_lem :
      (handle bits : ℕ) (s : Notifies) (n : Notify)
      → handle ≢ notify_invalid_handle
      → find handle s.global_notify_table ≡ some n
      → (knotify_ack handle bits s).0 ≡ borrow handle (clear_pending bits) s
  unfolding knotify_ack
  ack_lem handle bits s n good there =
      let valid : handle == notify_invalid_handle ≡ false =
        ground (arith, good, ==_iff handle notify_invalid_handle) in
      let taken = acquire_lem handle s n valid there in
      let out : knotify_ack handle bits s ≡ (
        knotify_release handle (change handle (clear_pending bits) (change handle (λ m. held n) s)),
        true,
      ) =
        simp (knotify_ack, valid, taken) in
      ap (λ (r : Notifies × Bool). r.0) out
      ∙ sym (
          ap
            (λ (r : Notifies × Option Notify).
              knotify_release handle (change handle (clear_pending bits) r.0))
            taken)

  -- Calls for a handle that is not there do nothing.
  pub absent_calls :
      (handle bits : ℕ) (s : Notifies)
      → find handle s.global_notify_table ≡ none
      → ((knotify_signal handle bits s).0 ≡ s)
        × ((knotify_ack handle bits s).0 ≡ s)
        × ((knotify_destroy handle s).0 ≡ s)
  unfolding knotify_signal knotify_ack knotify_destroy
  absent_calls handle bits s absent =
      let taken = missing_lem handle s absent in
      elim (Bool-cases (handle == notify_invalid_handle)) [
        | inl bad ↦ (rw bad refl, rw bad refl, rw bad refl)
        | inr good ↦
            let signalled : knotify_signal handle bits s ≡ (s, false) =
              simp (knotify_signal, good, taken) in
            let acked : knotify_ack handle bits s ≡ (s, false) = simp (knotify_ack, good, taken) in
            (
              ap (λ (r : Notifies × Bool). r.0) signalled,
              ap (λ (r : Notifies × Bool). r.0) acked,
              rw (good, absent) refl,
            )
      ]
