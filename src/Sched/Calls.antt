-- ===== src/Sched/Calls.antt =====
-- src/kernel/core/scheduler.c: the calls of threads, with thread_exit_current of thread.c.
use sharkix.Common.{
  ℕ, ◌+◌, ◌%◌, ◌^◌, ◌==◌, not, ◌||◌, if◌then◌else◌, Bool, true, false, Option, none, some, ◌∷◌,
}
use sharkix.Sched.{
  Sched, write, set_state, in_state, is_this, ready_push_locked, remove_from_sleep_list_locked,
  scheduler_on_yield, ready, runnable, running, blocked, terminating,
}

abbrev pub answered : Option Sched → Option (Sched × Bool)
answered none = none
answered (some t) = some (t, true)

-- The state and whether it returns 0.
unfoldable pub scheduler_make_runnable : Option ℕ → Sched → Option (Sched × Bool)
scheduler_make_runnable none s = some (s, false)
scheduler_make_runnable (some p) s =
    if is_this p s.idle_thread || not (in_state p ready s)
    then some (s, false)
    else answered (ready_push_locked p (write p (set_state runnable) s))

unfoldable pub scheduler_wake : Option ℕ → Sched → Option (Sched × Bool)
scheduler_wake none s = some (s, false)
scheduler_wake (some p) s =
    if is_this p s.idle_thread || not (in_state p blocked s)
    then some (s, false)
    else let s1 = if (s.threads p).in_sleep_queue then remove_from_sleep_list_locked p s else s in
      answered (ready_push_locked p (write p (set_state runnable) s1))

-- What scheduler_sleep_current and scheduler_block_current leave when the next thread runs; the second
-- part is `false` where they return -1 at once.
unfoldable pub yield_from : (saved_context : ℕ) → Sched → Option (Sched × Bool)
yield_from saved_context s = elim (scheduler_on_yield saved_context s) [
  | none ↦ none
  | some (t, context) ↦ some (t, true)
]

-- scheduler_sleep_current and scheduler_block_current, for the current thread.
unfoldable pub sleep_thread : (saved_context ticks current : ℕ) → Sched → Option (Sched × Bool)
sleep_thread saved_context ticks c s =
    if is_this c s.idle_thread || ticks == 0
    then some (s, false)
    else if not (in_state c running s)
    then some (s, false)
    else yield_from saved_context
        (record (write c
          (λ t. record t {
            state = blocked;
            wake_tick = (s.current_tick + ticks) % 2 ^ 64;
            in_sleep_queue = true;
          })
          s) { sleeping_threads = c ∷ s.sleeping_threads })

unfoldable pub scheduler_sleep_current : (saved_context ticks : ℕ) → Sched → Option (Sched × Bool)
scheduler_sleep_current saved_context ticks s = elim s.current_thread [
  | none ↦ some (s, false)
  | some c ↦ sleep_thread saved_context ticks c s
]

unfoldable pub block_thread : (saved_context current : ℕ) → Sched → Option (Sched × Bool)
block_thread saved_context c s =
    if is_this c s.idle_thread
    then some (s, false)
    else if not (in_state c running s)
    then some (s, false)
    else yield_from saved_context (write c (set_state blocked) s)

unfoldable pub scheduler_block_current : (saved_context : ℕ) → Sched → Option (Sched × Bool)
scheduler_block_current saved_context s = elim s.current_thread [
  | none ↦ some (s, false)
  | some c ↦ block_thread saved_context c s
]

-- thread_exit_current for the current thread, until the next thread runs; it never runs again. With
-- scheduler_exit_current.
unfoldable pub exit_thread : (saved_context current : ℕ) → Sched → Option (Sched × Bool)
exit_thread saved_context c s =
    if not (in_state c running s)
    then none
    else yield_from saved_context
        (record (write c (set_state terminating) s) { dead_threads = c ∷ s.dead_threads })

unfoldable pub thread_exit_current : (saved_context : ℕ) → Sched → Option (Sched × Bool)
thread_exit_current saved_context s = elim s.current_thread [
  | none ↦ none
  | some c ↦ exit_thread saved_context c s
]
