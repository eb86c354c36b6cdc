-- ===== src/Sched/Served.antt =====
-- scheduler.c: the scheduler never halts, and every runnable thread gets the processor.
use sharkix.Common.{
  count, ℕ, suc, ◌+◌, ◌<◌, ◌≡◌, ◌⊎◌, inl, inr, refl, ◌==◌, ==_iff, ==_refl, true, Bool-cases, some,
  if◌then◌else◌, List, [], ◌∷◌, ◌++◌, arith, ap, ◌∙◌, sym, subst,
}
use sharkix.Sched.{Sched, is_this}
use sharkix.Sched.Coherent.{Coherent}
use sharkix.Sched.Switching.{next_of, rest_of}
use sharkix.Sched.Runs.{
  Event, tick, yield, sleep, block, exit, start, wake, run, gets_processor, switches, step_lem,
}

-- From any coherent state and for any events, none of the calls halts, and the state is coherent again:
-- each thread stands in the ready queue at most once, and exactly if it is RUNNABLE and not the idle
-- thread; in the sleep list at most once and only if it is BLOCKED; in never both; and a thread is
-- RUNNING exactly if it is the current one.
pub run-Coherent :
    {i : ℕ} (es : List Event) (s : Sched)
    → Coherent i s
    → (t : Sched) × (run es s ≡ some t) × Coherent i t
unfolding run
run-Coherent [] s h = (s, refl, h)
run-Coherent (e ∷ es) s h =
    let (t, is, h1, m) = step_lem e s h in
    let (u, is2, h2) = run-Coherent es t h1 in (u, simp (run, is) is2, h2)

-- How many stand before it.
abbrev pub position : ℕ → List ℕ → ℕ
position p [] = 0
position p (q ∷ qs) = if q == p then 0 else suc (position p qs)

abbrev pub switches_in : List Event → ℕ
switches_in [] = 0
switches_in (e ∷ es) = switches e + switches_in es

position-append :
    (p : ℕ) (l more : List ℕ)
    → 0 < count p l
    → (position p (l ++ more) ≡ position p l) × (0 < count p (l ++ more))
position-append p [] more h = absurd (omega (arith, h))
position-append p (x ∷ l) more h = elim (Bool-cases (x == p)) [
  | inl here ↦ rw here (refl, omega arith)
  | inr other ↦
      let (same, there) = position-append p l more (ground (arith, h, other)) in
      rw other (ap suc same, omega (arith, there))
]

-- A switch takes the thread to the processor, or one place on.
position-switch :
    (i p : ℕ) (l : List ℕ)
    → 0 < count p l
    → (next_of i l ≡ p)
      ⊎ ((suc (position p (rest_of l)) ≡ position p l) × (0 < count p (rest_of l)))
position-switch i p [] h = absurd (omega (arith, h))
position-switch i p (x ∷ l) h = elim (Bool-cases (x == p)) [
  | inl here ↦ inl ((==_iff x p).0 here)
  | inr other ↦ inr (rw other (refl, ground (arith, h, other)))
]

switches_le : (e : Event) → switches e < 2
switches_le (tick context) = omega arith
switches_le (yield context) = omega arith
switches_le (sleep context ticks) = omega arith
switches_le (block context) = omega arith
switches_le (exit context) = omega arith
switches_le (start p) = omega arith
switches_le (wake p) = omega arith

now_running :
    (p : ℕ) (es : List Event) (s : Sched)
    → is_this p s.current_thread ≡ true
    → gets_processor p es s ≡ true
unfolding gets_processor
now_running p [] s is = is
now_running p (e ∷ es) s is = rw is refl

-- From any coherent state, a thread in the ready queue gets the processor during any events with more
-- ticks and yields among them than threads stand before it.
pub thread_served :
    {i : ℕ} (p : ℕ) (es : List Event) (s : Sched)
    → Coherent i s
    → 0 < count p s.ready_queue
    → position p s.ready_queue < switches_in es
    → gets_processor p es s ≡ true
unfolding gets_processor
thread_served p [] s h there enough = absurd (omega (arith, enough))
thread_served {i = i} p (e ∷ es) s h there enough = elim (Bool-cases (is_this p s.current_thread)) [
  | inl now ↦ now_running p (e ∷ es) s now
  | inr waits ↦
      let (t, is, h1, m) = step_lem e s h in
      let (more, moves) = m in
      let (same, still_there) = position-append p s.ready_queue more there in
      rw (waits, is)
        (elim moves [
          | inl (quiet, queue, cur) ↦
              thread_served p es t h1 (subst (λ l. 0 < count p l) (sym queue) still_there) (
                subst (λ l. position p l < switches_in es) (sym queue)
                  (omega (arith, same, enough, quiet)))
          | inr (cur, queue) ↦ elim (position-switch i p (s.ready_queue ++ more) still_there) [
            | inl first ↦
                now_running p es t (ap (is_this p) cur ∙ ap (λ k. p == k) first ∙ ==_refl p)
            | inr (nearer, there2) ↦
                thread_served p es t h1 (subst (λ l. 0 < count p l) (sym queue) there2) (
                  subst (λ l. position p l < switches_in es) (sym queue)
                    (omega (arith, same, enough, nearer, switches_le e)))
          ]
        ])
]
