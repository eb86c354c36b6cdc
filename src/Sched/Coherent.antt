-- ===== src/Sched/Coherent.antt =====
-- The invariant of the scheduler's queues and states.
use sharkix.Common.{
  count, ℕ, ◌≡◌, ◌⊎◌, inl, inr, ◌==◌, ==_iff, if◌then◌else◌, true, false, Bool-cases, Option, some,
  List, subst,
}
use sharkix.Sched.{Thread, Sched, value, runnable, running, blocked}

-- One thread: `active` is the running thread if there is one, `in_ready` and `in_sleep` are how often it
-- stands in the two lists.
pub record Fits (i : ℕ) (active : Option ℕ) (in_ready in_sleep p : ℕ) (t : Thread) : Type 0 where
  pub ready_flag : in_ready ≡ (if t.in_ready_queue then 1 else 0)
  pub sleep_flag : in_sleep ≡ (if t.in_sleep_queue then 1 else 0)
  pub queued : t.in_ready_queue ≡ true → value t.state ≡ value runnable
  pub asleep : t.in_sleep_queue ≡ true → value t.state ≡ value blocked
  pub found : value t.state ≡ value runnable → (t.in_ready_queue ≡ true) ⊎ (p ≡ i)
  pub idle_out : p ≡ i → t.in_ready_queue ≡ false
  pub idle_state : p ≡ i → (value t.state ≡ value runnable) ⊎ (value t.state ≡ value running)
  pub alone : value t.state ≡ value running → active ≡ some p
  pub runs : active ≡ some p → value t.state ≡ value running

-- What the invariant reads, also in the middle of an operation.
pub record View : Type 0 where
  pub active : Option ℕ
  pub ready : List ℕ
  pub sleeping : List ℕ
  pub threads : ℕ → Thread

abbrev pub AllFit : ℕ → View → Type 0
AllFit i v = (p : ℕ) → Fits i v.active (count p v.ready) (count p v.sleeping) p (v.threads p)

abbrev pub view : Sched → View
view s = record {
  active = s.current_thread;
  ready = s.ready_queue;
  sleeping = s.sleeping_threads;
  threads = s.threads;
}

-- The two queues hold the threads that their flags and states say, the idle thread is in none, and the
-- current thread is the only one that runs.
pub record Coherent (i : ℕ) (s : Sched) : Type 0 where
  pub idle : s.idle_thread ≡ some i
  pub all : AllFit i (view s)

-- A change of one thread.
pub moved :
    {i : ℕ} (v v' : View) (p : ℕ)
    → AllFit i v
    → ((q : ℕ) → (p == q) ≡ false → v'.threads q ≡ v.threads q)
    → ((q : ℕ) → (p == q) ≡ false → count q v'.ready ≡ count q v.ready)
    → ((q : ℕ) → (p == q) ≡ false → count q v'.sleeping ≡ count q v.sleeping)
    → ((q : ℕ) → (p == q) ≡ false → v.active ≡ some q → v'.active ≡ some q)
    → ((q : ℕ) → (p == q) ≡ false → v'.active ≡ some q → v.active ≡ some q)
    → Fits i v'.active (count p v'.ready) (count p v'.sleeping) p (v'.threads p)
    → AllFit i v'
moved {i = i} v v' p a t r sl to from fits q = elim (Bool-cases (p == q)) [
  | inl here ↦
      subst (λ k. Fits i v'.active (count k v'.ready) (count k v'.sleeping) k (v'.threads k))
        ((==_iff p q).0 here) fits
  | inr other ↦
      let f = a q in
      let e : v'.threads q ≡ v.threads q = t q other in
      rw (e, r q other, sl q other)
        (record {
          ready_flag = f.ready_flag;
          sleep_flag = f.sleep_flag;
          queued = f.queued;
          asleep = f.asleep;
          found = f.found;
          idle_out = f.idle_out;
          idle_state = f.idle_state;
          alone = λ w. to q other (f.alone w);
          runs = λ w. f.runs (from q other w);
        })
]
