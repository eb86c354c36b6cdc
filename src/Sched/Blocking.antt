-- ===== src/Sched/Blocking.antt =====
-- scheduler.c: threads that sleep, block or end.
use mathlib.Core.List.{append-nil}
use sharkix.Common.{
  count, ℕ, ◌+◌, ◌%◌, ◌^◌, ◌<◌, ◌≡◌, ◌⊎◌, inl, inr, refl, ◌==◌, ==_iff, ==_refl, if◌then◌else◌,
  Bool, true, false, Bool-cases, Option, none, some, List, [], ◌∷◌, ◌++◌, arith, ap, ◌∙◌, subst,
}
use sharkix.Sched.{
  Thread, Sched, value, running, blocked, terminating, write, set_state, in_state, is_this,
  scheduler_on_yield,
}
use sharkix.Sched.Calls.{
  scheduler_sleep_current, scheduler_block_current, yield_from, sleep_thread, block_thread,
  exit_thread, thread_exit_current,
}
use sharkix.Sched.Coherent.{Fits, AllFit, Coherent, view, moved}
use sharkix.Sched.Switching.{outside, requeued}
use sharkix.Sched.Dispatch.{Dispatched}
use sharkix.Sched.Events.{switch_from_current_locked_lem}

-- What a thread that gives itself up leaves.
abbrev pub Yields : (i : ℕ) (queue sleeping : List ℕ) → Option (Sched × Bool) → Type 0
Yields i queue sleeping r =
    (u : Sched) × (context : ℕ) × (r ≡ some (u, true)) × Dispatched i queue sleeping u context

yield_from_lem :
    {i : ℕ} (context : ℕ) (s : Sched) (c : ℕ)
    → s.idle_thread ≡ some i
    → s.current_thread ≡ some c
    → in_state c running s ≡ false
    → AllFit i (record (view s) { active = none })
    → Yields i s.ready_queue s.sleeping_threads (yield_from context s)
unfolding yield_from scheduler_on_yield
yield_from_lem {i = i} context s c idle cur off a =
    let stays : requeued s ≡ [] = rw (cur, off) refl in
    let (u, resumed, e, d) = switch_from_current_locked_lem context none s idle (inr refl) a in
    let same : s.ready_queue ++ requeued s ≡ s.ready_queue =
      ap (λ l. s.ready_queue ++ l) stays ∙ append-nil s.ready_queue in
    (
      u,
      resumed,
      simp (yield_from, scheduler_on_yield, e),
      subst (λ l. Dispatched i l s.sleeping_threads u resumed) same d,
    )

current_block :
    (context c : ℕ) (s : Sched)
    → s.current_thread ≡ some c
    → scheduler_block_current context s ≡ block_thread context c s
unfolding scheduler_block_current
current_block context c s cur = simp (scheduler_block_current, cur)

current_sleep :
    (context ticks c : ℕ) (s : Sched)
    → s.current_thread ≡ some c
    → scheduler_sleep_current context ticks s ≡ sleep_thread context ticks c s
unfolding scheduler_sleep_current
current_sleep context ticks c s cur = simp (scheduler_sleep_current, cur)

-- The current thread after it is blocked or has ended.
gone :
    {i : ℕ} (c : ℕ) (t u : Thread) (in_ready in_sleep after : ℕ)
    → Fits i (some c) in_ready in_sleep c t
    → value t.state ≡ value running
    → (c == i) ≡ false
    → (value u.state ≡ value blocked)
      ⊎ ((value u.state ≡ value terminating) × (u.in_sleep_queue ≡ false))
    → u.in_ready_queue ≡ t.in_ready_queue
    → after ≡ (if u.in_sleep_queue then 1 else 0)
    → Fits i none in_ready after c u
gone {i = i} c t u in_ready in_sleep after f ran busy is same counted =
    let out : t.in_ready_queue ≡ false = ground (arith, f.queued, ran) in
    record {
      ready_flag = rw same f.ready_flag;
      sleep_flag = counted;
      queued = λ w. absurd (ground (arith, w, same, out));
      asleep = λ w. ground (arith, is, w);
      found = λ w. absurd (ground (arith, w, is));
      idle_out = λ w. absurd (ground (arith, busy, ==_iff c i, w));
      idle_state = λ w. absurd (ground (arith, busy, ==_iff c i, w));
      alone = λ w. absurd (ground (arith, w, is));
      runs = λ w. absurd (ground (arith, w));
    }

-- scheduler_block_current on any coherent state whose current thread is not the idle thread does not
-- halt: the thread is in no queue, and the head of the ready queue runs, or the idle thread when it is
-- empty.
pub scheduler_block_current_lem :
    {i : ℕ} (context c : ℕ) (s : Sched)
    → Coherent i s
    → s.current_thread ≡ some c
    → (c == i) ≡ false
    → Yields i s.ready_queue s.sleeping_threads (scheduler_block_current context s)
unfolding scheduler_block_current block_thread
scheduler_block_current_lem {i = i} context c s h cur busy =
    let f = h.all c in
    let ran : value (s.threads c).state ≡ value running = f.runs cur in
    let on : in_state c running s ≡ true = ground (arith, ran) in
    let same : is_this c s.idle_thread ≡ false = ap (is_this c) h.idle ∙ busy in
    let running_one : Fits i (some c) (count c s.ready_queue) (count c s.sleeping_threads) c
        (s.threads c) =
      subst (λ x. Fits i x (count c s.ready_queue) (count c s.sleeping_threads) c (s.threads c)) cur
        f in
    let (u, resumed, e, d) =
      yield_from_lem context (write c (set_state blocked) s) c h.idle cur (rw (==_refl c) refl) (
        outside s.current_thread none c (set_state blocked) s h.all
          (λ q e w. absurd (ground (arith, cur, w, e, ==_refl c)))
          (λ q e w. absurd (ground (arith, w)))
          (gone c (s.threads c) (set_state blocked (s.threads c)) (count c s.ready_queue)
            (count c s.sleeping_threads) (count c s.sleeping_threads) running_one ran busy
            (inl refl) refl f.sleep_flag)) in
    (u, resumed, current_block context c s cur ∙ rw (same, on) e, d)

-- scheduler_sleep_current for some ticks on any coherent state whose current thread is not the idle
-- thread does not halt: the thread is in the sleep list, first, and the head of the ready queue runs, or
-- the idle thread when it is empty.
pub scheduler_sleep_current_lem :
    {i : ℕ} (context ticks c : ℕ) (s : Sched)
    → Coherent i s
    → s.current_thread ≡ some c
    → (c == i) ≡ false
    → 0 < ticks
    → Yields i s.ready_queue (c ∷ s.sleeping_threads) (scheduler_sleep_current context ticks s)
unfolding scheduler_sleep_current sleep_thread
scheduler_sleep_current_lem {i = i} context ticks c s h cur busy some_ticks =
    let f = h.all c in
    let ran : value (s.threads c).state ≡ value running = f.runs cur in
    let on : in_state c running s ≡ true = ground (arith, ran) in
    let same : is_this c s.idle_thread ≡ false = ap (is_this c) h.idle ∙ busy in
    let awake : (s.threads c).in_sleep_queue ≡ false = ground (arith, f.asleep, ran) in
    let running_one : Fits i (some c) (count c s.ready_queue) (count c s.sleeping_threads) c
        (s.threads c) =
      subst (λ x. Fits i x (count c s.ready_queue) (count c s.sleeping_threads) c (s.threads c)) cur
        f in
    let put : Thread → Thread = λ t. record t {
      state = blocked;
      wake_tick = (s.current_tick + ticks) % 2 ^ 64;
      in_sleep_queue = true;
    } in
    let s1 : Sched = record (write c put s) { sleeping_threads = c ∷ s.sleeping_threads } in
    let there : (write c put s).threads c ≡ put (s.threads c) = rw (==_refl c) refl in
    let fits : Fits i none (count c s.ready_queue) (1 + count c s.sleeping_threads) c
        (put (s.threads c)) =
      gone c (s.threads c) (put (s.threads c)) (count c s.ready_queue) (count c s.sleeping_threads)
        (1 + count c s.sleeping_threads) running_one ran busy (inl refl) refl
        (ground (arith, f.sleep_flag, awake)) in
    let (u, resumed, e, d) = yield_from_lem context s1 c h.idle cur (rw (==_refl c) refl) (
      moved (view s) (record (view s1) { active = none }) c h.all (λ q e. rw e refl) (λ q e. refl)
        (λ q e. rw e (omega arith)) (λ q e w. absurd (ground (arith, cur, w, e, ==_refl c)))
        (λ q e w. absurd (ground (arith, w))) (rw (==_refl c) fits)) in
    let some_time : (ticks == 0) ≡ false = ground (arith, some_ticks) in
    (u, resumed, current_sleep context ticks c s cur ∙ rw (same, some_time, on) e, d)

current_exit :
    (context c : ℕ) (s : Sched)
    → s.current_thread ≡ some c
    → thread_exit_current context s ≡ exit_thread context c s
unfolding thread_exit_current
current_exit context c s cur = simp (thread_exit_current, cur)

-- thread_exit_current on any coherent state whose current thread is not the idle thread does not halt:
-- the thread is in no queue, and the head of the ready queue runs, or the idle thread when it is empty.
pub thread_exit_current_lem :
    {i : ℕ} (context c : ℕ) (s : Sched)
    → Coherent i s
    → s.current_thread ≡ some c
    → (c == i) ≡ false
    → Yields i s.ready_queue s.sleeping_threads (thread_exit_current context s)
unfolding exit_thread
thread_exit_current_lem {i = i} context c s h cur busy =
    let f = h.all c in
    let ran : value (s.threads c).state ≡ value running = f.runs cur in
    let on : in_state c running s ≡ true = ground (arith, ran) in
    let awake : (s.threads c).in_sleep_queue ≡ false = ground (arith, f.asleep, ran) in
    let running_one : Fits i (some c) (count c s.ready_queue) (count c s.sleeping_threads) c
        (s.threads c) =
      subst (λ x. Fits i x (count c s.ready_queue) (count c s.sleeping_threads) c (s.threads c)) cur
        f in
    let s1 : Sched = record (write c (set_state terminating) s) {
      dead_threads = c ∷ s.dead_threads;
    } in
    let (u, resumed, e, d) = yield_from_lem context s1 c h.idle cur (rw (==_refl c) refl) (
      outside s.current_thread none c (set_state terminating) s h.all
        (λ q e w. absurd (ground (arith, cur, w, e, ==_refl c)))
        (λ q e w. absurd (ground (arith, w)))
        (gone c (s.threads c) (set_state terminating (s.threads c)) (count c s.ready_queue)
          (count c s.sleeping_threads) (count c s.sleeping_threads) running_one ran busy
          (inr (refl, awake)) refl f.sleep_flag)) in
    (u, resumed, current_exit context c s cur ∙ rw on e, d)

-- No ticks: nothing happens.
pub scheduler_sleep_current_none :
    (context c : ℕ) (s : Sched)
    → s.current_thread ≡ some c
    → scheduler_sleep_current context 0 s ≡ some (s, false)
unfolding sleep_thread
scheduler_sleep_current_none context c s cur =
    current_sleep context 0 c s cur ∙ elim (Bool-cases (is_this c s.idle_thread)) [
      | inl idle ↦ rw idle refl
      | inr other ↦ rw other refl
    ]
