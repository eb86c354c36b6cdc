-- ===== src/Sched/Sleepers.antt =====
-- scheduler.c: the sleepers that wake at a tick.
use sharkix.Common.{
  count, count-append, ℕ, ◌+◌, ◌≡◌, inl, inr, refl, ◌==◌, ==_iff, ==_refl, if◌then◌else◌, true,
  false, Bool-cases, Option, some, List, [], ◌∷◌, ◌++◌, arith, ap, ◌∙◌, sym, subst,
}
use mathlib.Core.List.{append-nil, append_assoc}
use sharkix.Sched.{
  Thread, Sched, value, runnable, blocked, in_state, wake_one, wake_from, before_tick,
}
use sharkix.Sched.Coherent.{Fits, View, AllFit}
use sharkix.Sched.Queues.{enqueued, ready_push_locked-write, enqueue}

-- Lists that hold each thread as often are as good.
AllFit-same :
    {i : ℕ} (v : View) (sleeping : List ℕ)
    → ((q : ℕ) → count q sleeping ≡ count q v.sleeping)
    → AllFit i v
    → AllFit i (record v { sleeping = sleeping })
AllFit-same {i = i} v sleeping same a q =
    subst (λ n. Fits i v.active (count q v.ready) n q (v.threads q)) (sym (same q)) (a q)

-- The sleepers that stay, and those that wake, in the order of the list.
abbrev pub still : (tick : ℕ) → (ℕ → ℕ) → List ℕ → List ℕ
still tick wake [] = []
still tick wake (p ∷ ps) =
    if before_tick tick (wake p) then p ∷ still tick wake ps else still tick wake ps

abbrev pub due : (tick : ℕ) → (ℕ → ℕ) → List ℕ → List ℕ
due tick wake [] = []
due tick wake (p ∷ ps) =
    if before_tick tick (wake p) then due tick wake ps else p ∷ due tick wake ps

abbrev pub wake : Thread → Thread
wake t = record t { state = runnable; in_sleep_queue = false }

wake_one_lem :
    {i : ℕ} (active : Option ℕ) (kept ps : List ℕ) (p : ℕ) (s : Sched)
    → AllFit i (record {
      active = active;
      ready = s.ready_queue;
      sleeping = kept ++ p ∷ ps;
      threads = s.threads;
    })
    → (wake_one p s ≡ some (enqueued p wake s))
      × AllFit i (record {
        active = active;
        ready = s.ready_queue ++ p ∷ [];
        sleeping = kept ++ ps;
        threads = (enqueued p wake s).threads;
      })
unfolding wake_one
wake_one_lem {i = i} active kept ps p s a =
    let f = a p in
    let many : count p (kept ++ p ∷ ps) ≡ count p kept + (1 + count p ps) =
      rw (count-append p kept (p ∷ ps), ==_refl p) refl in
    let asleep : (s.threads p).in_sleep_queue ≡ true = ground (arith, f.sleep_flag, many) in
    let is : value (s.threads p).state ≡ value blocked = f.asleep asleep in
    let out : (s.threads p).in_ready_queue ≡ false = ground (arith, f.queued, is) in
    let test : in_state p blocked s ≡ true = ground (arith, is) in
    (
      rw test (ready_push_locked-write p wake s out),
      enqueue active active (kept ++ p ∷ ps) (kept ++ ps) p wake s a
          (ground (arith, f.idle_state, is, ==_iff p i)) (λ e. ground (arith, is, e))
          (λ q e. rw (count-append q kept (p ∷ ps), count-append q kept ps, e) (omega arith))
          (λ q e w. w) (λ q e w. w) (λ e. ground (arith, f.runs, e, is))
          (ground (arith, f.sleep_flag, many, count-append p kept ps)) refl refl,
    )

wake_tick-enqueued :
    (p q : ℕ) (s : Sched) → ((enqueued p wake s).threads q).wake_tick ≡ (s.threads q).wake_tick
wake_tick-enqueued p q s = elim (Bool-cases (p == q)) [
  | inl here ↦ rw here refl
  | inr other ↦ rw other refl
]

-- The loop wakes exactly the sleepers whose tick has come, in the order of the list, and never halts.
pub wake_from_lem :
    {i : ℕ} (active : Option ℕ) (at : ℕ → ℕ) (kept ps : List ℕ) (s : Sched)
    → AllFit i (record {
      active = active;
      ready = s.ready_queue;
      sleeping = kept ++ ps;
      threads = s.threads;
    })
    → ((q : ℕ) → (s.threads q).wake_tick ≡ at q)
    → (threads : ℕ → Thread) × (wake_from ps s
        ≡ some (
          still s.current_tick at ps,
          record s { threads = threads; ready_queue = s.ready_queue ++ due s.current_tick at ps },
        ))
      × AllFit i (record {
        active = active;
        ready = s.ready_queue ++ due s.current_tick at ps;
        sleeping = kept ++ still s.current_tick at ps;
        threads = threads;
      })
unfolding wake_from
wake_from_lem {i = i} active at kept [] s a same =
    let none_due = append-nil s.ready_queue in (s.threads, rw none_due refl, rw none_due a)
wake_from_lem {i = i} active at kept (p ∷ ps) s a same =
    elim (Bool-cases (before_tick s.current_tick (at p))) [
      | inl early ↦
          let a1 =
            subst
              (λ l. AllFit i (record {
                active = active;
                ready = s.ready_queue;
                sleeping = l;
                threads = s.threads;
              }))
              (sym (append_assoc kept (p ∷ []) ps)) a in
          let (threads, e, a2) = wake_from_lem active at (kept ++ p ∷ []) ps s a1 same in
          (
            threads,
            rw (same p, early, e) refl,
            rw early (
                subst
                  (λ l. AllFit i (record {
                    active = active;
                    ready = s.ready_queue ++ due s.current_tick at ps;
                    sleeping = l;
                    threads = threads;
                  }))
                  (append_assoc kept (p ∷ []) (still s.current_tick at ps)) a2),
          )
      | inr late ↦
          let (e1, a1) = wake_one_lem active kept ps p s a in
          let kept_tick : (q : ℕ) → ((enqueued p wake s).threads q).wake_tick ≡ at q =
            λ q. wake_tick-enqueued p q s ∙ same q in
          let (threads, e, a2) = wake_from_lem active at kept ps (enqueued p wake s) a1 kept_tick in
          let joined : (s.ready_queue ++ p ∷ []) ++ due s.current_tick at ps
              ≡ s.ready_queue ++ (p ∷ due s.current_tick at ps) =
            append_assoc s.ready_queue (p ∷ []) (due s.current_tick at ps) in
          let finish : List ℕ → Option (List ℕ × Sched) = λ l.
            some (still s.current_tick at ps, record s { threads = threads; ready_queue = l }) in
          (
            threads,
            rw (same p, late, e1) (e ∙ ap finish joined),
            rw late (
                subst
                  (λ l. AllFit i (record {
                    active = active;
                    ready = l;
                    sleeping = kept ++ still s.current_tick at ps;
                    threads = threads;
                  }))
                  joined a2),
          )
    ]
