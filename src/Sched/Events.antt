-- ===== src/Sched/Events.antt =====
-- scheduler.c: each entry point keeps the invariant and does not halt.
use sharkix.Common.{
  count, ◌≢◌, ℕ, ◌+◌, ◌%◌, ◌^◌, ◌≡◌, ◌⊎◌, inl, inr, refl, ◌==◌, if◌then◌else◌, Bool, true, false,
  Bool-cases, Option-cases, Option, none, some, List, [], ◌∷◌, ◌++◌, arith, ap, not, ◌||◌, subst,
}
use sharkix.Sched.{
  write, ready_push_locked, set_state, Thread, Sched, value, ready, runnable, running, set_state,
  in_state, is_this, switch_from_current_locked, scheduler_on_yield, scheduler_on_tick,
  wake_expired_sleepers_locked,
}
use sharkix.Sched.Calls.{answered, scheduler_make_runnable}
use sharkix.Sched.Coherent.{AllFit, Coherent, view}
use sharkix.Sched.Queues.{enqueued, enqueue, ready_push_locked-write}
use sharkix.Sched.Sleepers.{still, due, wake_from_lem}
use sharkix.Sched.Switching.{requeued, Active, put_back_lem}
use sharkix.Sched.Dispatch.{Dispatched, dispatch_lem}

-- The outcome of a switch, or of what ends with one.
abbrev pub Switches : (i : ℕ) (queue sleeping : List ℕ) → Option (Sched × ℕ) → Type 0
Switches i queue sleeping r =
    (u : Sched) × (context : ℕ) × (r ≡ some (u, context)) × Dispatched i queue sleeping u context

pub switch_from_current_locked_lem :
    {i : ℕ} (context : ℕ) (active : Option ℕ) (s : Sched)
    → s.idle_thread ≡ some i
    → Active active s
    → AllFit i (record (view s) { active = active })
    → Switches i
        (s.ready_queue ++ requeued s)
        s.sleeping_threads
        (switch_from_current_locked context s)
unfolding switch_from_current_locked
switch_from_current_locked_lem context active s idle act a =
    let (threads, e, a1) = put_back_lem context active s idle act a in
    let t : Sched = record s { threads = threads; ready_queue = s.ready_queue ++ requeued s } in
    let (u, resumed, e2, d) = dispatch_lem t idle a1 in
    (u, resumed, simp (switch_from_current_locked, e, e2), d)

-- The current thread goes back to the queue, but not the idle thread.
abbrev pub given_up : (i : ℕ) → Option ℕ → List ℕ
given_up i none = []
given_up i (some c) = if c == i then [] else c ∷ []

requeued-Coherent : {i : ℕ} (s : Sched) → Coherent i s → requeued s ≡ given_up i s.current_thread
requeued-Coherent {i = i} s h = elim (Option-cases s.current_thread) [
  | inl nobody ↦ rw nobody refl
  | inr (c, cur) ↦
      let on : in_state c running s ≡ true = ground (arith, (h.all c).runs cur) in
      let same : is_this c s.idle_thread ≡ (c == i) = ap (is_this c) h.idle in
      rw (cur, on, same) refl
]

-- scheduler_on_yield on any coherent state does not halt and keeps it coherent: the current thread goes
-- to the tail of the ready queue unless it is the idle thread, and the head of the queue then runs, the
-- idle thread only when the queue is empty; the context that is returned and the kernel stack are those
-- of the thread that runs.
pub scheduler_on_yield_lem :
    {i : ℕ} (context : ℕ) (s : Sched)
    → Coherent i s
    → Switches i
        (s.ready_queue ++ given_up i s.current_thread)
        s.sleeping_threads
        (scheduler_on_yield context s)
unfolding scheduler_on_yield
scheduler_on_yield_lem {i = i} context s h =
    subst
      (λ l.
        Switches i (s.ready_queue ++ l) s.sleeping_threads (switch_from_current_locked context s))
      (requeued-Coherent s h)
      (switch_from_current_locked_lem context s.current_thread s h.idle (inl refl) h.all)

-- The tick of each thread.
abbrev pub wakes_at : Sched → ℕ → ℕ
wakes_at s q = (s.threads q).wake_tick

abbrev pub next_tick : Sched → ℕ
next_tick s = (s.current_tick + 1) % 2 ^ 64

wake_expired_lem :
    {i : ℕ} (s : Sched)
    → Coherent i s
    → (threads : ℕ → Thread) × (wake_expired_sleepers_locked s
        ≡ some (record s {
          threads = threads;
          ready_queue = s.ready_queue ++ due s.current_tick (wakes_at s) s.sleeping_threads;
          sleeping_threads = still s.current_tick (wakes_at s) s.sleeping_threads;
        }))
      × Coherent i (record s {
        threads = threads;
        ready_queue = s.ready_queue ++ due s.current_tick (wakes_at s) s.sleeping_threads;
        sleeping_threads = still s.current_tick (wakes_at s) s.sleeping_threads;
      })
unfolding wake_expired_sleepers_locked
wake_expired_lem s h =
    let (threads, e, a) =
      wake_from_lem s.current_thread (wakes_at s) [] s.sleeping_threads s h.all (λ q. refl) in
    (threads, simp (wake_expired_sleepers_locked, e), record { idle = h.idle; all = a })

-- scheduler_on_tick on any coherent state does not halt and keeps it coherent: the sleepers whose tick
-- has come leave the sleep list and go to the tail of the ready queue in the order of the list, the
-- interrupted thread goes behind them unless it is the idle thread, and the head of the queue then runs,
-- the idle thread only when the queue is empty.
pub scheduler_on_tick_lem :
    {i : ℕ} (context : ℕ) (s : Sched)
    → Coherent i s
    → Switches i
        ((s.ready_queue ++ due (next_tick s) (wakes_at s) s.sleeping_threads)
          ++ given_up i s.current_thread)
        (still (next_tick s) (wakes_at s) s.sleeping_threads)
        (scheduler_on_tick context s)
unfolding scheduler_on_tick scheduler_on_yield
scheduler_on_tick_lem context s h =
    let s1 : Sched = record s {
      current_tick = next_tick s;
      ticks_so_far = (s.ticks_so_far + 1) % 2 ^ 64;
    } in
    let (threads, e, h2) = wake_expired_lem s1 (record { idle = h.idle; all = h.all }) in
    let t : Sched = record s1 {
      threads = threads;
      ready_queue = s.ready_queue ++ due (next_tick s) (wakes_at s) s.sleeping_threads;
      sleeping_threads = still (next_tick s) (wakes_at s) s.sleeping_threads;
    } in
    let (u, resumed, e2, d) = scheduler_on_yield_lem context t h2 in
    (u, resumed, simp (scheduler_on_tick, e) e2, d)

-- Woken or started threads go to the tail of the ready queue; all else stays.
abbrev pub Readied : (i p : ℕ) → Sched → Option (Sched × Bool) → Type 0
Readied i p s r =
    (t : Sched) × (r ≡ some (t, true))
    × Coherent i t
    × (t.ready_queue ≡ s.ready_queue ++ p ∷ [])
    × (t.current_thread ≡ s.current_thread)

-- A thread that is started or woken: `sleeping` is the sleep list without it.
pub readied :
    {i : ℕ} (p : ℕ) (g : Thread → Thread) (sleeping : List ℕ) (s : Sched)
    → Coherent i s
    → (p == i) ≡ false
    → value (s.threads p).state ≢ value runnable
    → value (s.threads p).state ≢ value running
    → (g (s.threads p)).in_ready_queue ≡ (s.threads p).in_ready_queue
    → ((q : ℕ) → (p == q) ≡ false → count q sleeping ≡ count q s.sleeping_threads)
    → count p sleeping ≡ 0
    → value (g (s.threads p)).state ≡ value runnable
    → (g (s.threads p)).in_sleep_queue ≡ false
    → Readied i p s
        (answered (ready_push_locked p (write p g (record s { sleeping_threads = sleeping }))))
readied p g sleeping s h busy was ran same others out now awake =
    let f = h.all p in
    let left : Sched = record s { sleeping_threads = sleeping } in
    let unqueued : (g (s.threads p)).in_ready_queue ≡ false = ground (arith, f.queued, was, same) in
    (
      enqueued p g left,
      ap answered (ready_push_locked-write p g left unqueued),
      record {
        idle = h.idle;
        all =
            enqueue s.current_thread s.current_thread s.sleeping_threads sleeping p g s h.all busy
              was others (λ q e w. w) (λ q e w. w) (λ w. ran (f.runs w)) out now awake;
      },
      refl,
      refl,
    )

-- scheduler_make_runnable on any coherent state does not halt: it refuses and changes nothing unless the
-- thread is READY and not the idle thread, and then it puts the thread at the tail of the ready queue.
pub scheduler_make_runnable_lem :
    {i : ℕ} (p : ℕ) (s : Sched)
    → Coherent i s
    → ((((p == i) || not (in_state p ready s)) ≡ true)
        × (scheduler_make_runnable (some p) s ≡ some (s, false)))
      ⊎ (((p == i) ≡ false)
          × (in_state p ready s ≡ true)
          × Readied i p s (scheduler_make_runnable (some p) s))
unfolding scheduler_make_runnable
scheduler_make_runnable_lem {i = i} p s h =
    let f = h.all p in
    let same : is_this p s.idle_thread ≡ (p == i) = ap (is_this p) h.idle in
    elim (Bool-cases ((p == i) || not (in_state p ready s))) [
      | inl bad ↦ inl (bad, rw (same, bad) refl)
      | inr good ↦
          let busy : (p == i) ≡ false = ground (arith, good) in
          let is : value (s.threads p).state ≡ value ready = ground (arith, good) in
          let test : in_state p ready s ≡ true = ground (arith, is) in
          let awake : (s.threads p).in_sleep_queue ≡ false = ground (arith, f.asleep, is) in
          inr (
            busy,
            test,
            rw (same, good)
                (readied p (set_state runnable) s.sleeping_threads s h busy
                  (λ w. absurd (omega (arith, w, is))) (λ w. absurd (omega (arith, w, is))) refl
                  (λ q e. refl) (ground (arith, f.sleep_flag, awake)) refl awake),
          )
    ]
