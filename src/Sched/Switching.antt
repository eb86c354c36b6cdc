-- ===== src/Sched/Switching.antt =====
-- scheduler.c: switch_from_current_locked keeps the invariant and never halts.
use mathlib.Core.List.{append-nil}
use sharkix.Common.{
  count, ℕ, ◌≡◌, ◌⊎◌, inl, inr, refl, ◌==◌, ==_iff, ==_refl, if◌then◌else◌, true, false, Bool-cases,
  Option-cases, Option, none, some, List, [], ◌∷◌, ◌++◌, arith, ap, ◌∙◌, sym, subst,
}
use sharkix.Sched.{
  Thread, Sched, value, runnable, running, write, set_state, in_state, is_this, ready_push_locked,
  put_back, put_back_thread,
}
use sharkix.Sched.Coherent.{Fits, AllFit, view, moved}
use sharkix.Sched.Queues.{write-write, enqueued, enqueue, ready_push_locked-write}

-- A change of no field that the invariant reads.
abbrev pub save : ℕ → Thread → Thread
save context t = record t { saved_context = context }

-- The thread that goes back to the ready queue.
abbrev pub requeued : Sched → List ℕ
requeued s = elim s.current_thread [
  | none ↦ []
  | some c ↦ if in_state c running s then (if is_this c s.idle_thread then [] else c ∷ []) else []
]

-- The thread that runs next, and the queue without it.
abbrev pub next_of : ℕ → List ℕ → ℕ
next_of i [] = i
next_of i (p ∷ ps) = p

abbrev pub rest_of : List ℕ → List ℕ
rest_of [] = []
rest_of (p ∷ ps) = ps

-- A written thread that stands in neither queue.
pub outside :
    {i : ℕ} (active active' : Option ℕ) (p : ℕ) (f : Thread → Thread) (s : Sched)
    → AllFit i (record (view s) { active = active })
    → ((q : ℕ) → (p == q) ≡ false → active ≡ some q → active' ≡ some q)
    → ((q : ℕ) → (p == q) ≡ false → active' ≡ some q → active ≡ some q)
    → Fits i active' (count p s.ready_queue) (count p s.sleeping_threads) p (f (s.threads p))
    → AllFit i (record (view s) { active = active'; threads = (write p f s).threads })
outside {i = i} active active' p f s a to from fits =
    let there : (write p f s).threads p ≡ f (s.threads p) = rw (==_refl p) refl in
    moved (record (view s) { active = active })
      (record (view s) { active = active'; threads = (write p f s).threads }) p a (λ q e. rw e refl)
      (λ q e. refl) (λ q e. refl) to from
      (subst (Fits i active' (count p s.ready_queue) (count p s.sleeping_threads) p) (sym there)
        fits)

-- The current thread runs, or no thread does.
abbrev pub Active : Option ℕ → Sched → Type 0
Active active s = (active ≡ s.current_thread) ⊎ (active ≡ none)

abbrev pub PutBack : (i context : ℕ) → Sched → Type 0
PutBack i context s =
    (threads : ℕ → Thread) × (put_back context s
      ≡ some (record s { threads = threads; ready_queue = s.ready_queue ++ requeued s }))
    × AllFit i (record {
      active = none;
      ready = s.ready_queue ++ requeued s;
      sleeping = s.sleeping_threads;
      threads = threads;
    })

-- The parts of the outcome for a queue that is known.
put_back_found :
    {i : ℕ} (context : ℕ) (s : Sched) (threads : ℕ → Thread) (back : List ℕ)
    → requeued s ≡ back
    → put_back context s
      ≡ some (record s { threads = threads; ready_queue = s.ready_queue ++ back })
    → AllFit i (record {
      active = none;
      ready = s.ready_queue ++ back;
      sleeping = s.sleeping_threads;
      threads = threads;
    })
    → PutBack i context s
put_back_found {i = i} context s threads back e p a = (
  threads,
  p ∙ ap (λ l. some (record s { threads = threads; ready_queue = s.ready_queue ++ l })) (sym e),
  subst
      (λ l. AllFit i (record {
        active = none;
        ready = s.ready_queue ++ l;
        sleeping = s.sleeping_threads;
        threads = threads;
      }))
      (sym e) a,
)

put_back_alone :
    {i : ℕ} (context : ℕ) (s : Sched) (threads : ℕ → Thread)
    → requeued s ≡ []
    → put_back context s ≡ some (record s { threads = threads })
    → AllFit i (record (view s) { active = none; threads = threads })
    → PutBack i context s
put_back_alone {i = i} context s threads e p a =
    let same : s.ready_queue ++ [] ≡ s.ready_queue = append-nil s.ready_queue in
    put_back_found context s threads [] e
      (p ∙ ap (λ l. some (record s { threads = threads; ready_queue = l })) (sym same))
      (subst
        (λ l.
          AllFit i
            (record { active = none; ready = l; sleeping = s.sleeping_threads; threads = threads }))
        (sym same) a)

put_back_found_thread :
    (context c : ℕ) (s : Sched)
    → s.current_thread ≡ some c
    → put_back context s ≡ put_back_thread context c s
unfolding put_back
put_back_found_thread context c s cur = simp (put_back, cur)

-- The current thread does not run: it has blocked or ended.
off_processor :
    {i : ℕ} (context : ℕ) (active : Option ℕ) (c : ℕ) (s : Sched)
    → s.current_thread ≡ some c
    → Active active s
    → AllFit i (record (view s) { active = active })
    → in_state c running s ≡ false
    → PutBack i context s
unfolding put_back_thread
off_processor {i = i} context active c s cur act a off =
    let f = a c in
    let rest : active ≡ none = ground (arith, act, cur, f.runs, off) in
    put_back_alone context s (write c (save context) s).threads (rw (cur, off) refl)
      (put_back_found_thread context c s cur ∙ rw (==_refl c, off) refl)
      (outside active none c (save context) s a (λ q e w. absurd (ground (arith, rest, w)))
        (λ q e w. absurd (ground (arith, w)))
        (record {
          ready_flag = f.ready_flag;
          sleep_flag = f.sleep_flag;
          queued = f.queued;
          asleep = f.asleep;
          found = f.found;
          idle_out = f.idle_out;
          idle_state = f.idle_state;
          alone = λ w. absurd (ground (arith, w, off));
          runs = λ w. absurd (ground (arith, w));
        }))

-- The current thread keeps its context and becomes RUNNABLE.
abbrev resting : ℕ → Thread → Thread
resting context t = set_state runnable (save context t)

idle_gives_up :
    {i : ℕ} (context : ℕ) (active : Option ℕ) (c : ℕ) (s : Sched)
    → s.idle_thread ≡ some i
    → s.current_thread ≡ some c
    → AllFit i (record (view s) { active = active })
    → in_state c running s ≡ true
    → (c == i) ≡ true
    → PutBack i context s
unfolding put_back_thread
idle_gives_up {i = i} context active c s idle cur a on same =
    let f = a c in
    let ran : value (s.threads c).state ≡ value running = ground (arith, on) in
    let was : active ≡ some c = f.alone ran in
    let awake : (s.threads c).in_sleep_queue ≡ false = ground (arith, f.asleep, ran) in
    let is : is_this c s.idle_thread ≡ true = ap (is_this c) idle ∙ same in
    put_back_alone context s (write c (resting context) s).threads (rw (cur, on, idle, same) refl)
      (put_back_found_thread context c s cur
        ∙ rw (==_refl c, on, is) (ap some (write-write c (save context) (set_state runnable) s)))
      (outside active none c (resting context) s a
        (λ q e w. absurd (ground (arith, was, w, e, ==_refl c)))
        (λ q e w. absurd (ground (arith, w)))
        (record {
          ready_flag = f.ready_flag;
          sleep_flag = f.sleep_flag;
          queued = λ w. refl;
          asleep = λ w. absurd (ground (arith, w, awake));
          found = λ w. inr ((==_iff c i).0 same);
          idle_out = f.idle_out;
          idle_state = λ w. inl refl;
          alone = λ w. absurd (omega (arith, w));
          runs = λ w. absurd (ground (arith, w));
        }))

thread_gives_up :
    {i : ℕ} (context : ℕ) (active : Option ℕ) (c : ℕ) (s : Sched)
    → s.idle_thread ≡ some i
    → s.current_thread ≡ some c
    → AllFit i (record (view s) { active = active })
    → in_state c running s ≡ true
    → (c == i) ≡ false
    → PutBack i context s
unfolding put_back_thread
thread_gives_up {i = i} context active c s idle cur a on other =
    let f = a c in
    let ran : value (s.threads c).state ≡ value running = ground (arith, on) in
    let was : active ≡ some c = f.alone ran in
    let out : (s.threads c).in_ready_queue ≡ false = ground (arith, f.queued, ran) in
    let awake : (s.threads c).in_sleep_queue ≡ false = ground (arith, f.asleep, ran) in
    let isnt : is_this c s.idle_thread ≡ false = ap (is_this c) idle ∙ other in
    put_back_found context s (enqueued c (resting context) s).threads (c ∷ [])
      (rw (cur, on, idle, other) refl)
      (put_back_found_thread context c s cur
        ∙ rw (==_refl c, on, isnt)
            (ap (ready_push_locked c) (write-write c (save context) (set_state runnable) s)
              ∙ ready_push_locked-write c (resting context) s out))
      (enqueue active none s.sleeping_threads s.sleeping_threads c (resting context) s a other
        (λ w. absurd (omega (arith, w, ran))) (λ q e. refl)
        (λ q e w. absurd (ground (arith, was, w, e, ==_refl c)))
        (λ q e w. absurd (ground (arith, w))) (λ w. absurd (ground (arith, w)))
        (ground (arith, f.sleep_flag, awake)) refl awake)

pub put_back_lem :
    {i : ℕ} (context : ℕ) (active : Option ℕ) (s : Sched)
    → s.idle_thread ≡ some i
    → Active active s
    → AllFit i (record (view s) { active = active })
    → PutBack i context s
unfolding put_back
put_back_lem {i = i} context active s idle act a = elim (Option-cases s.current_thread) [
  | inl nobody ↦
      let rest : active ≡ none = ground (arith, act, nobody) in
      put_back_alone context s s.threads (rw nobody refl) (rw nobody refl)
        (subst (λ x. AllFit i (record (view s) { active = x })) rest a)
  | inr (c, cur) ↦ elim (Bool-cases (in_state c running s)) [
    | inr off ↦ off_processor context active c s cur act a off
    | inl on ↦ elim (Bool-cases (c == i)) [
      | inl same ↦ idle_gives_up context active c s idle cur a on same
      | inr other ↦ thread_gives_up context active c s idle cur a on other
    ]
  ]
]
