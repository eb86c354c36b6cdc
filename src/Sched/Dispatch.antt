-- ===== src/Sched/Dispatch.antt =====
-- scheduler.c: the next thread runs, and the scheduler never halts.
use sharkix.Common.{
  count, ℕ, ◌+◌, ◌≡◌, inl, inr, refl, ==_refl, true, false, Option, none, some, List, [], ◌∷◌,
  arith, ap, ◌∙◌, List-cases,
}
use sharkix.Sched.{
  Thread, Sched, value, runnable, running, write, set_state, in_state, ready_pop_locked,
  scheduler_choose_next_locked, pop_from, or_idle, thread_prepare_current, dispatch_chosen,
  prepared, dispatch,
}
use sharkix.Sched.Coherent.{Fits, AllFit, Coherent, view, moved}
use sharkix.Sched.Switching.{outside, next_of, rest_of}

dispatch_chosen_lem :
    (p : ℕ) (t : Sched)
    → in_state p runnable t ≡ true
    → dispatch_chosen (some p, t)
      ≡ some (
        prepared p (write p (set_state running) t),
        ((prepared p (write p (set_state running) t)).threads p).saved_context,
      )
unfolding dispatch_chosen thread_prepare_current
dispatch_chosen_lem p t is = rw (is, ==_refl p) refl

-- What the invariant says of the thread that starts to run.
started :
    {i : ℕ} (p : ℕ) (t u : Thread) (before after in_sleep : ℕ)
    → Fits i none before in_sleep p t
    → value t.state ≡ value runnable
    → value u.state ≡ value running
    → u.in_ready_queue ≡ false
    → u.in_sleep_queue ≡ t.in_sleep_queue
    → after ≡ 0
    → Fits i (some p) after in_sleep p u
started p t u before after in_sleep f is runs_now out same gone = record {
  ready_flag = ground (arith, out, gone);
  sleep_flag = rw same f.sleep_flag;
  queued = λ w. absurd (ground (arith, w, out));
  asleep = λ w. absurd (ground (arith, f.asleep, w, same, is));
  found = λ w. absurd (omega (arith, w, runs_now));
  idle_out = λ w. out;
  idle_state = λ w. inr runs_now;
  alone = λ w. refl;
  runs = λ w. runs_now;
}

-- What a switch leaves: the first of `queue` runs on its own stack and from the context that was saved
-- for it, or the idle thread does when the queue is empty.
pub record Dispatched (i : ℕ) (queue sleeping : List ℕ) (u : Sched) (context : ℕ) : Type 0 where
  pub coherent : Coherent i u
  pub current : u.current_thread ≡ some (next_of i queue)
  pub rest : u.ready_queue ≡ rest_of queue
  pub sleepers : u.sleeping_threads ≡ sleeping
  pub stack : u.kernel_stack_top ≡ (u.threads (next_of i queue)).kernel_stack_top
  pub resumes : context ≡ (u.threads (next_of i queue)).saved_context

abbrev pub Dispatches : (i : ℕ) → Sched → Type 0
Dispatches i s =
    (u : Sched) × (context : ℕ) × (dispatch s ≡ some (u, context))
    × Dispatched i s.ready_queue s.sleeping_threads u context

-- From the chosen thread on.
dispatch_from :
    {i : ℕ} (p : ℕ) (s t : Sched)
    → scheduler_choose_next_locked s ≡ (some p, t)
    → in_state p runnable t ≡ true
    → Dispatched i s.ready_queue s.sleeping_threads
        (prepared p (write p (set_state running) t))
        ((prepared p (write p (set_state running) t)).threads p).saved_context
    → Dispatches i s
unfolding dispatch
dispatch_from p s t chosen test d = (
  prepared p (write p (set_state running) t),
  ((prepared p (write p (set_state running) t)).threads p).saved_context,
  ap dispatch_chosen chosen ∙ dispatch_chosen_lem p t test,
  d,
)

choose_idle :
    {i : ℕ} (s : Sched)
    → s.idle_thread ≡ some i
    → s.ready_queue ≡ []
    → scheduler_choose_next_locked s ≡ (some i, s)
unfolding scheduler_choose_next_locked ready_pop_locked pop_from or_idle
choose_idle s idle none_ready =
    let pair : Option ℕ → Option ℕ × Sched = λ o. (o, s) in
    ap (λ l. or_idle (pop_from l s)) none_ready ∙ ap pair idle

popped : ℕ → List ℕ → Sched → Sched
popped p ps s = record (write p (λ t. record t { in_ready_queue = false }) s) { ready_queue = ps }

choose_first :
    (p : ℕ) (ps : List ℕ) (s : Sched)
    → s.ready_queue ≡ p ∷ ps
    → scheduler_choose_next_locked s ≡ (some p, popped p ps s)
unfolding scheduler_choose_next_locked ready_pop_locked pop_from or_idle popped
choose_first p ps s some_ready = ap (λ l. or_idle (pop_from l s)) some_ready

dispatch_idle :
    {i : ℕ} (s : Sched)
    → s.idle_thread ≡ some i
    → s.ready_queue ≡ []
    → AllFit i (record (view s) { active = none })
    → Dispatches i s
unfolding prepared
dispatch_idle {i = i} s idle none_ready a =
    let f = a i in
    let is : value (s.threads i).state ≡ value runnable =
      ground (arith, f.idle_state refl, f.alone) in
    let test : in_state i runnable s ≡ true = ground (arith, is) in
    let out : (s.threads i).in_ready_queue ≡ false = f.idle_out refl in
    dispatch_from i s s (choose_idle s idle none_ready) test (record {
      coherent = record {
        idle = idle;
        all =
            outside none (some i) i (set_state running) s a (λ q e w. absurd (ground (arith, w)))
              (λ q e w. absurd (ground (arith, w, e, ==_refl i)))
              (started i (s.threads i) (set_state running (s.threads i)) (count i s.ready_queue)
                (count i s.ready_queue) (count i s.sleeping_threads) f is refl out refl
                (ground (arith, f.ready_flag, out)));
      };
      current = rw none_ready refl;
      rest = none_ready ∙ rw none_ready refl;
      sleepers = refl;
      stack = rw (none_ready, ==_refl i) refl;
      resumes = rw (none_ready, ==_refl i) refl;
    })

dispatch_first :
    {i : ℕ} (p : ℕ) (ps : List ℕ) (s : Sched)
    → s.idle_thread ≡ some i
    → s.ready_queue ≡ p ∷ ps
    → AllFit i (record (view s) { active = none })
    → Dispatches i s
unfolding prepared popped
dispatch_first {i = i} p ps s idle some_ready a =
    let f = a p in
    let many : count p s.ready_queue ≡ 1 + count p ps = rw (some_ready, ==_refl p) refl in
    let on : (s.threads p).in_ready_queue ≡ true = ground (arith, f.ready_flag, many) in
    let is : value (s.threads p).state ≡ value runnable = f.queued on in
    let test : in_state p runnable (popped p ps s) ≡ true = rw (==_refl p) (ground (arith, is)) in
    dispatch_from p s (popped p ps s) (choose_first p ps s some_ready) test (record {
      coherent = record {
        idle = idle;
        all =
            moved (record (view s) { active = none })
              (view (prepared p (write p (set_state running) (popped p ps s)))) p a
              (λ q e. rw e refl) (λ q e. rw (some_ready, e) (omega arith)) (λ q e. refl)
              (λ q e w. absurd (ground (arith, w)))
              (λ q e w. absurd (ground (arith, w, e, ==_refl p)))
              (started p (s.threads p) ((write p (set_state running) (popped p ps s)).threads p)
                (count p s.ready_queue) (count p ps) (count p s.sleeping_threads) f is
                (rw (==_refl p) refl) (rw (==_refl p) refl) (rw (==_refl p) refl)
                (ground (arith, f.ready_flag, many, on)));
      };
      current = rw some_ready refl;
      rest = rw some_ready refl;
      sleepers = refl;
      stack = rw (some_ready, ==_refl p) refl;
      resumes = rw (some_ready, ==_refl p) refl;
    })

-- In a state where no thread runs and all else is coherent.
pub dispatch_lem :
    {i : ℕ} (s : Sched)
    → s.idle_thread ≡ some i
    → AllFit i (record (view s) { active = none })
    → Dispatches i s
dispatch_lem s idle a = elim (List-cases s.ready_queue) [
  | inl none_ready ↦ dispatch_idle s idle none_ready a
  | inr (p, ps, some_ready) ↦ dispatch_first p ps s idle some_ready a
]
