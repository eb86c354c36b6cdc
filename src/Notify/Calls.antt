-- ===== src/Notify/Calls.antt =====
-- The calls of knotify.c and their specification: a map from handles to the pending bits.
use mathlib.Core.Option
use sharkix.Common.{
  ℕ, ◌+◌, ◌%◌, ◌^◌, ◌<◌, ◌≤◌, ◌≡◌, inl, inr, ◌==◌, ==_iff, not, if◌then◌else◌, Bool, true, false,
  Bool-cases, Option-cases, Option, none, some, arith, sym, ap, ◌∙◌, bit_and, bit_or, bit_not, ◌||◌,
}
use sharkix.Table.{UtHash}
use sharkix.Table.Laws.{find}
use sharkix.Notify.{
  Notify, Notifies, notify_invalid_handle, change, knotify_acquire, knotify_release, knotify_create,
  knotify_destroy, knotify_signal, knotify_poll, knotify_ack,
}

pub data Call : Type 0 where
  create : (out mem : Bool) → Call
  destroy : (handle : ℕ) → Call
  signal : (handle bits : ℕ) → Call
  ack : (handle bits : ℕ) → Call

-- What a map from handles to pending bits becomes by a call.
unfoldable pub spec : Call → (next : ℕ) → (ℕ → Option ℕ) → ℕ → Option ℕ
spec (create out mem) next v k =
    if not out || not mem || next == notify_invalid_handle
    then v k
    else if next == k
    then some 0
    else v k
spec (destroy handle) next v k = if handle == k then none else v k
spec (signal handle bits) next v k =
    if handle == k then Option.map (λ p. bit_or p bits) (v k) else v k
spec (ack handle bits) next v k =
    if handle == k then Option.map (λ p. bit_and p (bit_not bits)) (v k) else v k

module _ ⦃h : UtHash⦄ where
  unfoldable pub step : Notifies → Call → Notifies
  step s (create out mem) = (knotify_create out mem s).0
  step s (destroy handle) = (knotify_destroy handle s).0
  step s (signal handle bits) = (knotify_signal handle bits s).0
  step s (ack handle bits) = (knotify_ack handle bits s).0

  -- The next handle fits and is free with all behind it; between two calls each object stands under its
  -- own handle and has the reference of the table only.
  pub record IsValid (s : Notifies) : Type 0 where
    pub counter : s.next_notify_handle < 2 ^ 64
    pub fresh : (k : ℕ) → s.next_notify_handle ≤ k → find k s.global_notify_table ≡ none
    pub objects :
        (k : ℕ) (n : Notify)
        → find k s.global_notify_table ≡ some n
        → (n.handle ≡ k) × (n.references ≡ 1)

  -- The pending bits of a handle, as knotify_poll gives them.
  abbrev pub view : Notifies → ℕ → Option ℕ
  view s k = (knotify_poll true k s).1

  abbrev pub pending_of : Option Notify → Option ℕ
  pending_of n = Option.map (λ (m : Notify). m.pending) n

  abbrev pub held : Notify → Notify
  held n = record n { references = (n.references + 1) % 2 ^ 64 }

  pub acquire_lem :
      (handle : ℕ) (s : Notifies) (n : Notify)
      → (handle == notify_invalid_handle) ≡ false
      → find handle s.global_notify_table ≡ some n
      → knotify_acquire handle s ≡ (change handle (λ m. held n) s, some (held n))
  unfolding knotify_acquire
  acquire_lem handle s n valid there = simp (knotify_acquire, valid, there)

  pub missing_lem :
      (handle : ℕ) (s : Notifies)
      → find handle s.global_notify_table ≡ none
      → knotify_acquire handle s ≡ (s, none)
  unfolding knotify_acquire
  missing_lem handle s absent = elim (Bool-cases (handle == notify_invalid_handle)) [
    | inl bad ↦ simp (knotify_acquire, bad)
    | inr good ↦ simp (knotify_acquire, good, absent)
  ]

  pub view-find :
      (s : Notifies) (k : ℕ) → IsValid s → view s k ≡ pending_of (find k s.global_notify_table)
  unfolding knotify_poll
  view-find s k v = elim (Bool-cases (k == notify_invalid_handle)) [
    | inl bad ↦
        let absent : find k s.global_notify_table ≡ none =
          v.fresh k (ground (arith, bad, ==_iff k notify_invalid_handle, v.counter)) in
        let out : knotify_poll true k s ≡ (s, none) = simp (knotify_poll, bad) in
        ap (λ (r : Notifies × Option ℕ). r.1) out ∙ sym (ap pending_of absent)
    | inr good ↦ elim (Option-cases (find k s.global_notify_table)) [
      | inl absent ↦
          let taken : knotify_acquire k s ≡ (s, none) = missing_lem k s absent in
          let out : knotify_poll true k s ≡ (s, none) = simp (knotify_poll, good, taken) in
          ap (λ (r : Notifies × Option ℕ). r.1) out ∙ sym (ap pending_of absent)
      | inr (n, there) ↦
          let taken = acquire_lem k s n good there in
          let out : knotify_poll true k s
              ≡ (knotify_release k (change k (λ m. held n) s), some n.pending) =
            simp (knotify_poll, good, taken) in
          ap (λ (r : Notifies × Option ℕ). r.1) out ∙ sym (ap pending_of there)
    ]
  ]
