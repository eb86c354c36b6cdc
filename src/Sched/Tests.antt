-- ===== src/Sched/Tests.antt =====
-- A concrete state of the scheduler.
use sharkix.Common.{
  ℕ, ◌+◌, ◌-◌, ◌%◌, ◌^◌, ◌≡◌, ◌⊎◌, refl, ◌==◌, ◌||◌, not, ltb, Bool, true, false, some,
  if◌then◌else◌, [], ◌∷◌, arith, count,
}
use sharkix.Sched.{
  ThreadState, ready, runnable, running, blocked, Thread, Sched, in_state, before_tick,
  scheduler_on_yield, scheduler_on_tick,
}
use sharkix.Sched.Calls.{scheduler_wake, scheduler_sleep_current}
use sharkix.Sched.Coherent.{Fits, Coherent}
use sharkix.Sched.Events.{Switches, Readied, scheduler_on_yield_lem, scheduler_on_tick_lem}
use sharkix.Sched.Waking.{scheduler_wake_lem}
use sharkix.Sched.Blocking.{Yields, scheduler_sleep_current_lem}
use sharkix.Sched.Runs.{tick, sleep, wake, run, gets_processor}
use sharkix.Sched.Served.{run-Coherent, thread_served}
use sharkix.Sched.Deadlines.{before_tick_lem}

abbrev thread_in : ThreadState → (in_ready in_sleep : Bool) → Thread
thread_in state in_ready in_sleep = record {
  id = 7;
  state = state;
  address_space = 1;
  kernel_stack_top = 8192;
  saved_context = 8000;
  wake_tick = 5;
  in_ready_queue = in_ready;
  in_sleep_queue = in_sleep;
}

-- The idle thread 0, the running thread 1, the thread 2 that waits, the thread 3 that sleeps.
abbrev thread_at : ℕ → Thread
thread_at p =
    if p == 0
    then thread_in runnable false false
    else if p == 1
    then thread_in running false false
    else if p == 2
    then thread_in runnable true false
    else if p == 3
    then thread_in blocked false true
    else thread_in ready false false

abbrev four_threads : Sched
four_threads = record {
  threads = thread_at;
  ready_queue = 2 ∷ [];
  sleeping_threads = 3 ∷ [];
  idle_thread = some 0;
  current_tick = 4;
  ticks_so_far = 4;
  scheduler_started = true;
  current_thread = some 1;
  kernel_stack_top = 8192;
  active_space = 1;
  next_thread_id = 8;
  thread_registry = [];
  dead_threads = [];
  final_dead_threads = [];
  reaped_threads = 0;
}

four_threads-fit : (p : ℕ) → Fits 0 (some 1) (count p (2 ∷ [])) (count p (3 ∷ [])) p (thread_at p)
four_threads-fit p = record {
  ready_flag = ground arith;
  sleep_flag = ground arith;
  queued = λ w. ground (arith, w);
  asleep = λ w. ground (arith, w);
  found = λ w. ground (arith, w);
  idle_out = λ w. ground (arith, w);
  idle_state = λ w. ground (arith, w);
  alone = λ w. ground (arith, w);
  runs = λ w. ground (arith, w);
}

four_threads-Coherent : Coherent 0 four_threads
four_threads-Coherent = record { idle = refl; all = four_threads-fit }

scheduler_on_yield_lem_example :
    Switches 0 (2 ∷ 1 ∷ []) (3 ∷ []) (scheduler_on_yield 7000 four_threads)
scheduler_on_yield_lem_example = scheduler_on_yield_lem 7000 four_threads four_threads-Coherent

scheduler_on_tick_lem_example : Switches 0 (2 ∷ 3 ∷ 1 ∷ []) [] (scheduler_on_tick 7000 four_threads)
scheduler_on_tick_lem_example = scheduler_on_tick_lem 7000 four_threads four_threads-Coherent

scheduler_sleep_current_lem_example :
    Yields 0 (2 ∷ []) (1 ∷ 3 ∷ []) (scheduler_sleep_current 7000 10 four_threads)
scheduler_sleep_current_lem_example =
    scheduler_sleep_current_lem 7000 10 1 four_threads four_threads-Coherent refl refl (omega arith)

scheduler_wake_lem_example :
    ((((3 == 0) || not (in_state 3 blocked four_threads)) ≡ true)
      × (scheduler_wake (some 3) four_threads ≡ some (four_threads, false)))
    ⊎ (((3 == 0) ≡ false)
        × (in_state 3 blocked four_threads ≡ true)
        × Readied 0 3 four_threads (scheduler_wake (some 3) four_threads))
scheduler_wake_lem_example = scheduler_wake_lem 3 four_threads four_threads-Coherent

run-Coherent_example :
    (t : Sched) × (run (tick 7000 ∷ sleep 6000 2 ∷ wake 3 ∷ []) four_threads ≡ some t)
    × Coherent 0 t
run-Coherent_example =
    run-Coherent (tick 7000 ∷ sleep 6000 2 ∷ wake 3 ∷ []) four_threads four_threads-Coherent

thread_served_example : gets_processor 2 (wake 3 ∷ tick 7000 ∷ []) four_threads ≡ true
thread_served_example =
    thread_served 2 (wake 3 ∷ tick 7000 ∷ []) four_threads four_threads-Coherent (omega arith)
      (omega arith)

before_tick_lem_example :
    before_tick ((2 ^ 64 - 1 + 3) % 2 ^ 64) ((2 ^ 64 - 1 + 10) % 2 ^ 64) ≡ ltb 3 10
before_tick_lem_example =
    before_tick_lem (2 ^ 64 - 1) 10 3 (omega arith) (omega arith) (omega arith)
