-- ===== src/Sched/Queues.antt =====
-- scheduler.c: what the queue operations do to the invariant.
use sharkix.Common.{
  count, count-append, ℕ, ◌≡◌, ◌≢◌, inl, inr, refl, ◌==◌, ==_iff, ==_refl, if◌then◌else◌, true,
  false, Bool-cases, Option, some, List, [], ◌∷◌, ◌++◌, arith, ap, ◌∙◌, sym, subst,
}
use sharkix.Sched.{Thread, Sched, value, runnable, write, ready_push_locked}
use sharkix.Sched.Coherent.{Fits, AllFit, moved}

write_cases :
    (p q : ℕ) (f g : Thread → Thread) (t : Thread)
    → (if p == q then g (if p == q then f t else t) else (if p == q then f t else t))
      ≡ (if p == q then g (f t) else t)
write_cases p q f g t = elim (Bool-cases (p == q)) [
  | inl here ↦ rw here refl
  | inr other ↦ rw other refl
]

-- Two writes to one thread are one.
pub write-write :
    (p : ℕ) (f g : Thread → Thread) (s : Sched) → write p g (write p f s) ≡ write p (λ t. g (f t)) s
write-write p f g s = λ j. record s { threads = λ q. write_cases p q f g (s.threads q) j }

-- The thread is written and appended to the ready queue.
abbrev pub enqueued : ℕ → (Thread → Thread) → Sched → Sched
enqueued p g s = record (write p (λ t. record (g t) { in_ready_queue = true }) s) {
  ready_queue = s.ready_queue ++ p ∷ [];
}

pub ready_push_locked-write :
    (p : ℕ) (g : Thread → Thread) (s : Sched)
    → (g (s.threads p)).in_ready_queue ≡ false
    → ready_push_locked p (write p g s) ≡ some (enqueued p g s)
unfolding ready_push_locked
ready_push_locked-write p g s out =
    let same : (write p g s).threads p ≡ g (s.threads p) = rw (==_refl p) refl in
    let off : ((write p g s).threads p).in_ready_queue ≡ false =
      ap (λ t. t.in_ready_queue) same ∙ out in
    let joined = write-write p g (λ t. record t { in_ready_queue = true }) s in
    let pushed : Sched → Sched = λ u. record u { ready_queue = s.ready_queue ++ p ∷ [] } in
    rw off (ap (λ u. some (pushed u)) joined)

-- A thread that is put in the ready queue: it was not runnable, is not the idle thread, and is awake.
pub enqueue :
    {i : ℕ} (active active' : Option ℕ) (sleeping sleeping' : List ℕ) (p : ℕ) (g : Thread → Thread)
    (s : Sched)
    → AllFit i (record {
      active = active;
      ready = s.ready_queue;
      sleeping = sleeping;
      threads = s.threads;
    })
    → (p == i) ≡ false
    → value (s.threads p).state ≢ value runnable
    → ((q : ℕ) → (p == q) ≡ false → count q sleeping' ≡ count q sleeping)
    → ((q : ℕ) → (p == q) ≡ false → active ≡ some q → active' ≡ some q)
    → ((q : ℕ) → (p == q) ≡ false → active' ≡ some q → active ≡ some q)
    → active' ≢ some p
    → count p sleeping' ≡ 0
    → value (g (s.threads p)).state ≡ value runnable
    → (g (s.threads p)).in_sleep_queue ≡ false
    → AllFit i (record {
      active = active';
      ready = s.ready_queue ++ p ∷ [];
      sleeping = sleeping';
      threads = (enqueued p g s).threads;
    })
enqueue {i = i} active active' sleeping sleeping' p g s a busy was sl to from off out now awake =
    let fresh : count p s.ready_queue ≡ 0 = ground (arith, (a p).ready_flag, (a p).queued, was) in
    let there : (enqueued p g s).threads p ≡ record (g (s.threads p)) { in_ready_queue = true } =
      rw (==_refl p) refl in
    moved
      (record { active = active; ready = s.ready_queue; sleeping = sleeping; threads = s.threads })
      (record {
        active = active';
        ready = s.ready_queue ++ p ∷ [];
        sleeping = sleeping';
        threads = (enqueued p g s).threads;
      })
      p a (λ q e. rw e refl) (λ q e. rw (count-append q s.ready_queue (p ∷ []), e) (omega arith)) sl
      to from
      (subst (Fits i active' (count p (s.ready_queue ++ p ∷ [])) (count p sleeping') p) (sym there)
        (record {
          ready_flag = rw (count-append p s.ready_queue (p ∷ []), ==_refl p) (omega (arith, fresh));
          sleep_flag = ground (arith, awake, out);
          queued = λ w. now;
          asleep = λ w. absurd (ground (arith, w, awake));
          found = λ w. inl refl;
          idle_out = λ e. absurd (ground (arith, busy, ==_iff p i, e));
          idle_state = λ e. inl now;
          alone = λ w. absurd (ground (arith, w, now));
          runs = λ w. absurd (off w);
        }))
