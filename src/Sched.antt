-- ===== src/Sched.antt =====
-- src/kernel/core/scheduler.c with the states of thread.h: one processor, and threads that go by their
-- addresses. The two lists linked by `scheduler_next` are lists of addresses. `none` is arch_halt, and a
-- call of arch_scheduler_yield is one of scheduler_on_yield with the context that the entry code saved.
pub mod Calls
pub mod Coherent
pub mod Queues
pub mod Sleepers
pub mod Switching
pub mod Dispatch
pub mod Events
pub mod Waking
pub mod Blocking
pub mod Runs
pub mod Served
pub mod Deadlines
pub mod Tests
use sharkix.Common.{
  count, ℕ, ◌+◌, ◌-◌, ◌%◌, ◌^◌, ◌==◌, ltb, not, ◌||◌, if◌then◌else◌, Bool, true, false, Option,
  none, some, List, [], ◌∷◌, ◌++◌,
}

-- thread_state_t
pub data ThreadState : Type 0 where
  invalid : ThreadState
  new : ThreadState
  ready : ThreadState
  runnable : ThreadState
  running : ThreadState
  blocked : ThreadState
  terminating : ThreadState
  dead : ThreadState

-- The number that C gives to the constant.
abbrev pub value : ThreadState → ℕ
value invalid = 0
value new = 1
value ready = 2
value runnable = 3
value running = 4
value blocked = 5
value terminating = 6
value dead = 7

abbrev pub is_state : ThreadState → ThreadState → Bool
is_state a b = value a == value b

-- The fields of thread_t that the scheduler and the reaper use.
pub record Thread : Type 0 where
  pub id : ℕ
  pub state : ThreadState
  pub address_space : ℕ
  pub kernel_stack_top : ℕ
  pub saved_context : ℕ
  pub wake_tick : ℕ
  pub in_ready_queue : Bool
  pub in_sleep_queue : Bool

-- The static variables of scheduler.c and thread.c, cpu0, and the address space that is active.
pub record Sched : Type 0 where
  pub threads : ℕ → Thread
  pub ready_queue : List ℕ
  pub sleeping_threads : List ℕ
  pub idle_thread : Option ℕ
  pub current_tick : ℕ
  pub ticks_so_far : ℕ
  pub scheduler_started : Bool
  pub current_thread : Option ℕ
  pub kernel_stack_top : ℕ
  pub active_space : ℕ
  pub next_thread_id : ℕ
  pub thread_registry : List ℕ
  pub dead_threads : List ℕ
  pub final_dead_threads : List ℕ
  pub reaped_threads : ℕ

-- A write through the pointer to a thread.
abbrev pub write : ℕ → (Thread → Thread) → Sched → Sched
write p f s = record s { threads = λ q. if p == q then f (s.threads q) else s.threads q }

abbrev pub set_state : ThreadState → Thread → Thread
set_state state t = record t { state = state }

abbrev pub in_state : ℕ → ThreadState → Sched → Bool
in_state p state s = is_state (s.threads p).state state

abbrev pub is_this : ℕ → Option ℕ → Bool
is_this p none = false
is_this p (some i) = p == i

abbrev pub remove : ℕ → List ℕ → List ℕ
remove p [] = []
remove p (q ∷ qs) = if q == p then qs else q ∷ remove p qs

unfoldable pub ready_push_locked : ℕ → Sched → Option Sched
ready_push_locked p s =
    if (s.threads p).in_ready_queue
    then none
    else some (record (write p (λ t. record t { in_ready_queue = true }) s) {
      ready_queue = s.ready_queue ++ p ∷ [];
    })

-- ready_pop_locked, for the queue as it is.
unfoldable pub pop_from : List ℕ → Sched → Option ℕ × Sched
pop_from [] s = (none, s)
pop_from (p ∷ ps) s =
    (some p, record (write p (λ t. record t { in_ready_queue = false }) s) { ready_queue = ps })

unfoldable pub ready_pop_locked : Sched → Option ℕ × Sched
ready_pop_locked s = pop_from s.ready_queue s

unfoldable pub or_idle : Option ℕ × Sched → Option ℕ × Sched
or_idle (none, t) = (t.idle_thread, t)
or_idle (some p, t) = (some p, t)

unfoldable pub scheduler_choose_next_locked : Sched → Option ℕ × Sched
scheduler_choose_next_locked s = or_idle (ready_pop_locked s)

unfoldable pub remove_from_sleep_list_locked : ℕ → Sched → Sched
remove_from_sleep_list_locked p s =
    if count p s.sleeping_threads == 0
    then s
    else record (write p (λ t. record t { in_sleep_queue = false }) s) {
      sleeping_threads = remove p s.sleeping_threads;
    }

-- `(int64_t)(current_tick - wake_tick) < 0`
abbrev pub before_tick : (current_tick wake_tick : ℕ) → Bool
before_tick current_tick wake_tick =
    not (ltb ((current_tick + 2 ^ 64 - wake_tick) % 2 ^ 64) (2 ^ 63))

-- One sleeper that has expired.
unfoldable pub wake_one : ℕ → Sched → Option Sched
wake_one p s =
    if in_state p blocked s
    then ready_push_locked p
        (write p (λ t. record t { state = runnable; in_sleep_queue = false }) s)
    else none

-- The loop from a link on: the sleepers that stay, and the state.
unfoldable pub wake_from : List ℕ → Sched → Option (List ℕ × Sched)
wake_from [] s = some ([], s)
wake_from (p ∷ ps) s =
    if before_tick s.current_tick (s.threads p).wake_tick
    then elim (wake_from ps s) [ none ↦ none | some (kept, t) ↦ some (p ∷ kept, t) ]
    else elim (wake_one p s) [ none ↦ none | some t ↦ wake_from ps t ]

unfoldable pub wake_expired_sleepers_locked : Sched → Option Sched
wake_expired_sleepers_locked s = elim (wake_from s.sleeping_threads s) [
  | none ↦ none
  | some (kept, t) ↦ some (record t { sleeping_threads = kept })
]

-- The address space of the current thread, 0 for NULL.
abbrev pub previous_space : Sched → ℕ
previous_space s = elim s.current_thread [ none ↦ 0 | some c ↦ (s.threads c).address_space ]

-- cpu0 and the processor for a thread; the space becomes active only when it is another one.
unfoldable pub prepared : ℕ → Sched → Sched
prepared p s = record s {
  current_thread = some p;
  kernel_stack_top = (s.threads p).kernel_stack_top;
  active_space =
      if (s.threads p).address_space == previous_space s
      then s.active_space
      else (s.threads p).address_space;
}

unfoldable pub thread_prepare_current : ℕ → Sched → Option Sched
thread_prepare_current p s = if not (in_state p running s) then none else some (prepared p s)

-- The first half of switch_from_current_locked, for the current thread.
unfoldable pub put_back_thread : (saved_context current : ℕ) → Sched → Option Sched
put_back_thread saved_context c s =
    let s1 = write c (λ t. record t { saved_context = saved_context }) s in
    if not (in_state c running s1)
    then some s1
    else let s2 = write c (set_state runnable) s1 in
      if is_this c s2.idle_thread then some s2 else ready_push_locked c s2

unfoldable pub put_back : (saved_context : ℕ) → Sched → Option Sched
put_back saved_context s = elim s.current_thread [
  | none ↦ some s
  | some c ↦ put_back_thread saved_context c s
]

-- The second half, also in scheduler_start: the chosen thread runs.
unfoldable pub dispatch_chosen : Option ℕ × Sched → Option (Sched × ℕ)
dispatch_chosen (none, t) = none
dispatch_chosen (some next, t) =
    if not (in_state next runnable t)
    then none
    else elim (thread_prepare_current next (write next (set_state running) t)) [
      | none ↦ none
      | some u ↦ some (u, (u.threads next).saved_context)
    ]

unfoldable pub dispatch : Sched → Option (Sched × ℕ)
dispatch s = dispatch_chosen (scheduler_choose_next_locked s)

unfoldable pub switch_from_current_locked : (saved_context : ℕ) → Sched → Option (Sched × ℕ)
switch_from_current_locked saved_context s = elim (put_back saved_context s) [
  | none ↦ none
  | some t ↦ dispatch t
]

unfoldable pub scheduler_on_yield : (saved_context : ℕ) → Sched → Option (Sched × ℕ)
scheduler_on_yield saved_context s = switch_from_current_locked saved_context s

unfoldable pub scheduler_on_tick : (saved_context : ℕ) → Sched → Option (Sched × ℕ)
scheduler_on_tick saved_context s =
    elim (wake_expired_sleepers_locked (record s {
      current_tick = (s.current_tick + 1) % 2 ^ 64;
      ticks_so_far = (s.ticks_so_far + 1) % 2 ^ 64;
    })) [ none ↦ none | some t ↦ switch_from_current_locked saved_context t ]

unfoldable pub scheduler_start : Sched → Option (Sched × ℕ)
scheduler_start s = elim s.idle_thread [
  | none ↦ none
  | some i ↦ if s.scheduler_started then none else dispatch (record s { scheduler_started = true })
]
