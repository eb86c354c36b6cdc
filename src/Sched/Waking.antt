-- ===== src/Sched/Waking.antt =====
-- scheduler.c: threads that are woken.
use sharkix.Common.{
  count, ℕ, ◌+◌, ◌-◌, ◌≡◌, ◌⊎◌, inl, inr, refl, ◌==◌, ==_iff, if◌then◌else◌, true, false,
  Bool-cases, some, List, [], ◌∷◌, arith, sym, subst, ap, not, ◌||◌, ◌≢◌,
}
use sharkix.Sched.{
  running, Thread, Sched, value, runnable, blocked, set_state, in_state, is_this, remove,
  ready_push_locked, remove_from_sleep_list_locked,
}
use sharkix.Sched.Calls.{scheduler_wake, answered}
use sharkix.Sched.Coherent.{Coherent}
use sharkix.Sched.Queues.{write-write}
use sharkix.Sched.Events.{readied, Readied}

count-remove_ne : (p q : ℕ) (l : List ℕ) → (p == q) ≡ false → count q (remove p l) ≡ count q l
count-remove_ne p q [] ne = refl
count-remove_ne p q (x ∷ l) ne = elim (Bool-cases (x == p)) [
  | inl here ↦
      let off : (x == q) ≡ false = subst (λ k. (k == q) ≡ false) (sym ((==_iff x p).0 here)) ne in
      rw (here, off) (omega arith)
  | inr other ↦ rw other (ap (λ n. (if x == q then 1 else 0) + n) (count-remove_ne p q l ne))
]

count-remove : (p : ℕ) (l : List ℕ) → count p (remove p l) ≡ count p l - 1
count-remove p [] = refl
count-remove p (x ∷ l) = elim (Bool-cases (x == p)) [
  | inl here ↦ rw here (omega arith)
  | inr other ↦ ground (arith, other, count-remove p l)
]

abbrev leave : Thread → Thread
leave t = record t { in_sleep_queue = false }

-- scheduler_wake on any coherent state does not halt: it refuses and changes nothing unless the thread is
-- BLOCKED and not the idle thread, and then it takes the thread out of the sleep list, if it is there,
-- and puts it at the tail of the ready queue.
pub scheduler_wake_lem :
    {i : ℕ} (p : ℕ) (s : Sched)
    → Coherent i s
    → ((((p == i) || not (in_state p blocked s)) ≡ true)
        × (scheduler_wake (some p) s ≡ some (s, false)))
      ⊎ (((p == i) ≡ false)
          × (in_state p blocked s ≡ true)
          × Readied i p s (scheduler_wake (some p) s))
unfolding scheduler_wake remove_from_sleep_list_locked
scheduler_wake_lem {i = i} p s h =
    let f = h.all p in
    let same : is_this p s.idle_thread ≡ (p == i) = ap (is_this p) h.idle in
    elim (Bool-cases ((p == i) || not (in_state p blocked s))) [
      | inl bad ↦ inl (bad, rw (same, bad) refl)
      | inr good ↦
          let busy : (p == i) ≡ false = ground (arith, good) in
          let is : value (s.threads p).state ≡ value blocked = ground (arith, good) in
          let test : in_state p blocked s ≡ true = ground (arith, is) in
          let was : value (s.threads p).state ≢ value runnable =
            λ w. absurd (omega (arith, w, is)) in
          let ran : value (s.threads p).state ≢ value running =
            λ w. absurd (omega (arith, w, is)) in
          elim (Bool-cases (s.threads p).in_sleep_queue) [
            | inr awake ↦ inr (
              busy,
              test,
              rw (same, good, awake)
                  (readied p (set_state runnable) s.sleeping_threads s h busy was ran refl
                    (λ q e. refl) (ground (arith, f.sleep_flag, awake)) refl awake),
            )
            | inl asleep ↦
                let listed : (count p s.sleeping_threads == 0) ≡ false =
                  ground (arith, f.sleep_flag, asleep) in
                let left : Sched = record s { sleeping_threads = remove p s.sleeping_threads } in
                inr (
                  busy,
                  test,
                  rw (same, good, asleep, listed)
                      (subst (λ t. Readied i p s (answered (ready_push_locked p t)))
                        (sym (write-write p leave (set_state runnable) left))
                        (readied p (λ t. set_state runnable (leave t)) (remove p s.sleeping_threads)
                          s h busy was ran refl (λ q e. count-remove_ne p q s.sleeping_threads e)
                          (ground (arith, f.sleep_flag, asleep, count-remove p s.sleeping_threads))
                          refl refl)),
                )
          ]
    ]
