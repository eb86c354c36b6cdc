-- ===== src/Sched/Runs.antt =====
-- scheduler.c: the entry points in any order, from a coherent state.
use sharkix.Common.{
  ℕ, zero, suc, ◌≡◌, ◌⊎◌, inl, inr, refl, ◌==◌, Bool, true, false, Bool-cases, Option-cases, Option,
  none, some, if◌then◌else◌, List, [], ◌∷◌, ◌++◌, arith, ap, ◌∙◌, sym, subst,
}
use mathlib.Core.List.{append-nil, append_assoc}
use sharkix.Sched.{Sched, is_this, scheduler_on_yield, scheduler_on_tick}
use sharkix.Sched.Calls.{
  scheduler_make_runnable, scheduler_wake, scheduler_sleep_current, scheduler_block_current,
  thread_exit_current,
}
use sharkix.Sched.Coherent.{Coherent}
use sharkix.Sched.Sleepers.{due, still}
use sharkix.Sched.Switching.{next_of, rest_of}
use sharkix.Sched.Events.{
  given_up, next_tick, wakes_at, Switches, Readied, scheduler_on_yield_lem, scheduler_on_tick_lem,
  scheduler_make_runnable_lem,
}
use sharkix.Sched.Waking.{scheduler_wake_lem}
use sharkix.Sched.Blocking.{
  Yields, scheduler_block_current_lem, scheduler_sleep_current_lem, thread_exit_current_lem,
  scheduler_sleep_current_none,
}

-- What happens on the processor; a context is the one that the entry code saves.
pub data Event : Type 0 where
  tick : (saved_context : ℕ) → Event
  yield : (saved_context : ℕ) → Event
  sleep : (saved_context ticks : ℕ) → Event
  block : (saved_context : ℕ) → Event
  exit : (saved_context : ℕ) → Event
  start : (thread : ℕ) → Event
  wake : (thread : ℕ) → Event

abbrev pub state_of {ℓ} : {A : Type ℓ} → Option (Sched × A) → Option Sched
state_of none = none
state_of (some (s, a)) = some s

-- A call of the current thread; the idle thread only waits for interrupts and makes none.
abbrev pub if_thread : Option ℕ → Sched → Option Sched → Option Sched
if_thread none s r = some s
if_thread (some c) s r = if is_this c s.idle_thread then some s else r

unfoldable pub step : Event → Sched → Option Sched
step (tick context) s = state_of (scheduler_on_tick context s)
step (yield context) s = state_of (scheduler_on_yield context s)
step (sleep context ticks) s =
    if_thread s.current_thread s (state_of (scheduler_sleep_current context ticks s))
step (block context) s = if_thread s.current_thread s (state_of (scheduler_block_current context s))
step (exit context) s = if_thread s.current_thread s (state_of (thread_exit_current context s))
step (start p) s = state_of (scheduler_make_runnable (some p) s)
step (wake p) s = state_of (scheduler_wake (some p) s)

unfoldable pub run : List Event → Sched → Option Sched
run [] s = some s
run (e ∷ es) s = elim (step e s) [ none ↦ none | some t ↦ run es t ]

-- The thread runs at the start or after one of the events.
unfoldable pub gets_processor : ℕ → List Event → Sched → Bool
gets_processor p [] s = is_this p s.current_thread
gets_processor p (e ∷ es) s =
    if is_this p s.current_thread
    then true
    else elim (step e s) [ none ↦ false | some t ↦ gets_processor p es t ]

abbrev pub switches : Event → ℕ
switches (tick context) = 1
switches (yield context) = 1
switches e = 0

-- How a step changes the queue: nothing but threads at the tail, or a switch to the head.
abbrev pub Moves : (i : ℕ) → Event → (s t : Sched) → Type 0
Moves i e s t =
    (more : List ℕ) × (((switches e ≡ 0)
        × (t.ready_queue ≡ s.ready_queue ++ more)
        × (t.current_thread ≡ s.current_thread))
      ⊎ ((t.current_thread ≡ some (next_of i (s.ready_queue ++ more)))
          × (t.ready_queue ≡ rest_of (s.ready_queue ++ more))))

abbrev pub Steps : (i : ℕ) → Event → Sched → Option Sched → Type 0
Steps i e s r = (t : Sched) × (r ≡ some t) × Coherent i t × Moves i e s t

stays : {i : ℕ} (e : Event) (s : Sched) → Coherent i s → switches e ≡ 0 → Steps i e s (some s)
stays e s h quiet = (s, refl, h, ([], inl (quiet, sym (append-nil s.ready_queue), refl)))

after_yield :
    {i : ℕ} (e : Event) (s : Sched) (sleeping : List ℕ) (r : Option (Sched × Bool))
    → Yields i s.ready_queue sleeping r
    → Steps i e s (state_of r)
after_yield {i = i} e s sleeping r (u, context, is, d) =
    let same = append-nil s.ready_queue in
    (
      u,
      ap state_of is,
      d.coherent,
      (
        [],
        inr (d.current ∙ ap (λ l. some (next_of i l)) (sym same), d.rest ∙ ap rest_of (sym same)),
      ),
    )

-- A call of the current thread that cannot fail.
called :
    {i : ℕ} (e : Event) (s : Sched) (r : Option Sched)
    → Coherent i s
    → switches e ≡ 0
    → ((c : ℕ) → s.current_thread ≡ some c → (c == i) ≡ false → Steps i e s r)
    → Steps i e s (if_thread s.current_thread s r)
called {i = i} e s r h quiet steps = elim (Option-cases s.current_thread) [
  | inl nobody ↦ subst (λ o. Steps i e s (if_thread o s r)) (sym nobody) (stays e s h quiet)
  | inr (c, cur) ↦
      let same : is_this c s.idle_thread ≡ (c == i) = ap (is_this c) h.idle in
      let it : Steps i e s (if_thread (some c) s r) = elim (Bool-cases (c == i)) [
        | inl idle ↦ rw (same ∙ idle) (stays e s h quiet)
        | inr other ↦ rw (same ∙ other) (steps c cur other)
      ] in
      subst (λ o. Steps i e s (if_thread o s r)) (sym cur) it
]

after_switch :
    {i : ℕ} (e : Event) (more sleeping : List ℕ) (s : Sched) (r : Option (Sched × ℕ))
    → Switches i (s.ready_queue ++ more) sleeping r
    → Steps i e s (state_of r)
after_switch e more sleeping s r (u, context, is, d) =
    (u, ap state_of is, d.coherent, (more, inr (d.current, d.rest)))

after-Readied :
    {i : ℕ} (e : Event) (p : ℕ) (s : Sched) (r : Option (Sched × Bool))
    → switches e ≡ 0
    → Readied i p s r
    → Steps i e s (state_of r)
after-Readied e p s r quiet (t, is, h, queue, cur) =
    (t, ap state_of is, h, (p ∷ [], inl (quiet, queue, cur)))

after_refused :
    {i : ℕ} (e : Event) (s : Sched) (r : Option (Sched × Bool))
    → Coherent i s
    → switches e ≡ 0
    → r ≡ some (s, false)
    → Steps i e s (state_of r)
after_refused {i = i} e s r h quiet is =
    subst (λ x. Steps i e s (state_of x)) (sym is) (stays e s h quiet)

pub step_lem : {i : ℕ} (e : Event) (s : Sched) → Coherent i s → Steps i e s (step e s)
unfolding step
step_lem {i = i} (tick context) s h =
    let woken = due (next_tick s) (wakes_at s) s.sleeping_threads in
    let kept = still (next_tick s) (wakes_at s) s.sleeping_threads in
    after_switch (tick context) (woken ++ given_up i s.current_thread) kept s
      (scheduler_on_tick context s)
      (subst (λ l. Switches i l kept (scheduler_on_tick context s))
        (append_assoc s.ready_queue woken (given_up i s.current_thread))
        (scheduler_on_tick_lem context s h))
step_lem (yield context) s h =
    after_switch (yield context) _ _ s (scheduler_on_yield context s)
      (scheduler_on_yield_lem context s h)
step_lem (sleep context zero) s h =
    called (sleep context 0) s (state_of (scheduler_sleep_current context 0 s)) h refl
      (λ c cur busy.
        after_refused (sleep context 0) s (scheduler_sleep_current context 0 s) h refl
          (scheduler_sleep_current_none context c s cur))
step_lem (sleep context (suc ticks)) s h =
    called (sleep context (suc ticks)) s (state_of (scheduler_sleep_current context (suc ticks) s))
      h refl
      (λ c cur busy.
        after_yield (sleep context (suc ticks)) s _ (scheduler_sleep_current context (suc ticks) s)
          (scheduler_sleep_current_lem context (suc ticks) c s h cur busy (omega arith)))
step_lem (block context) s h =
    called (block context) s (state_of (scheduler_block_current context s)) h refl (λ c cur busy.
      after_yield (block context) s _ (scheduler_block_current context s)
        (scheduler_block_current_lem context c s h cur busy))
step_lem (exit context) s h =
    called (exit context) s (state_of (thread_exit_current context s)) h refl (λ c cur busy.
      after_yield (exit context) s _ (thread_exit_current context s)
        (thread_exit_current_lem context c s h cur busy))
step_lem (start p) s h = elim (scheduler_make_runnable_lem p s h) [
  | inl (bad, is) ↦ after_refused (start p) s (scheduler_make_runnable (some p) s) h refl is
  | inr (busy, test, r) ↦ after-Readied (start p) p s (scheduler_make_runnable (some p) s) refl r
]
step_lem (wake p) s h = elim (scheduler_wake_lem p s h) [
  | inl (bad, is) ↦ after_refused (wake p) s (scheduler_wake (some p) s) h refl is
  | inr (busy, test, r) ↦ after-Readied (wake p) p s (scheduler_wake (some p) s) refl r
]
