-- ===== src/Ipc/Tests.antt =====
-- Concrete runs of kipc.c.
use sharkix.Common.{
  ==_iff, ◌==◌, ◌%◌, ℕ, zero, suc, ◌+◌, ◌≤◌, ◌<◌, ◌≡◌, ◌≢◌, ◌⊎◌, true, false, length, arith, refl,
  List, [], ◌∷◌, ◌++◌, set,
}
use sharkix.Ipc.Endpoint.{
  Endpoint, Message, kipc_queue_push, kipc_queue_pop, enqueue_round, kipc_enqueue_nonblocking,
  receive_round, wake_receiver, shut_down, inc,
}
use sharkix.Ipc.Queue.{contents, IsRing}
use sharkix.Ipc.Threads.{
  Pc, System, Step, Reach, Move, created, kipc_create_endpoint, after_send, after_receive, accepted,
  taken,
}
use sharkix.Ipc.Lifetime
use sharkix.Ipc.Lifetime.{Held, kipc_release, unregister, freed_once}
use sharkix.Ipc.Threads.Count.{count, send_waits, send_runs, receive_waits, receive_runs}
use sharkix.Ipc.Threads.Progress.{Reach-fifo, sender_served, receiver_served, closed_all_woken}

abbrev hello : Message
hello = record { type = 0; sender_tid = 7; words = 1 ∷ 2 ∷ 3 ∷ 4 ∷ 5 ∷ [] }

-- Thread 1 waits to receive; thread 0 sends.
abbrev asked : System
asked = record (created 2) {
  endpoint = (receive_round kipc_create_endpoint).endpoint;
  threads = Pc.idle ∷ Pc.receive_asleep ∷ [];
}

asked-Reach : Reach 2 asked
unfolding kipc_create_endpoint receive_round kipc_queue_pop after_receive taken
asked-Reach =
    Reach.later (Reach.later Reach.start (Step.move 1 (omega arith) Move.call_receive))
      (Step.move 1 (omega arith) Move.receive_locked)

abbrev answered : System
answered = record asked {
  endpoint = (kipc_enqueue_nonblocking asked.endpoint hello).endpoint;
  sent = hello ∷ [];
}

answered-Reach : Reach 2 answered
unfolding kipc_create_endpoint receive_round kipc_queue_pop kipc_enqueue_nonblocking kipc_queue_push
    accepted
answered-Reach = Reach.later asked-Reach (Step.move 0 (omega arith) (Move.send_nonblocking hello))

Reach-fifo_example :
    (answered.sent ≡ answered.received ++ contents answered.endpoint)
    × (length (contents answered.endpoint) ≤ 64)
Reach-fifo_example = Reach-fifo (omega arith) answered-Reach

receiver_served_example :
    (answered.endpoint.receiver_sem ≢ 0)
    ⊎ (answered.owed_receivers ≢ 0)
    ⊎ (0 < count receive_runs answered.threads)
    ⊎ ((answered.endpoint.is_shutting_down ≡ false) × (answered.endpoint.queue_count ≡ 0))
receiver_served_example = receiver_served (omega arith) answered-Reach 1 (omega arith) refl

-- The endpoint is destroyed under the waiting receiver.
abbrev destroyed : System
destroyed = record asked { endpoint = shut_down asked.endpoint; owed_receivers = 1 }

destroyed-Reach : Reach 2 destroyed
unfolding kipc_create_endpoint receive_round kipc_queue_pop shut_down
destroyed-Reach = Reach.later asked-Reach (Step.destroy refl)

closed_all_woken_example :
    (count send_waits destroyed.threads ≡ destroyed.endpoint.sender_sem + destroyed.owed_senders)
    × (count receive_waits destroyed.threads
        ≡ destroyed.endpoint.receiver_sem + destroyed.owed_receivers)
unfolding shut_down
closed_all_woken_example = closed_all_woken (omega arith) destroyed-Reach refl

-- Thread 0 puts in messages without waiting, then one more with kipc_send.
abbrev fill : ℕ → Endpoint
fill zero = kipc_create_endpoint
fill (suc k) = (kipc_enqueue_nonblocking (fill k) hello).endpoint

abbrev fill_sent : ℕ → List Message
fill_sent zero = []
fill_sent (suc k) = fill_sent k ++ accepted hello (kipc_enqueue_nonblocking (fill k) hello).outcome

abbrev filled : ℕ → System
filled k = record {
  endpoint = fill k;
  threads = Pc.idle ∷ [];
  owed_senders = 0;
  owed_receivers = 0;
  sent = fill_sent k;
  received = [];
}

filled-Reach : (k : ℕ) → Reach 1 (filled k)
filled-Reach zero = Reach.start
filled-Reach (suc k) =
    Reach.later (filled-Reach k) (Step.move 0 (omega arith) (Move.send_nonblocking hello))

enqueue_room :
    (ep : Endpoint)
    → ep.is_shutting_down ≡ false
    → ep.queue_count == 64 ≡ false
    → ep.waiting_receivers ≡ 0
    → (kipc_enqueue_nonblocking ep hello).endpoint ≡ record ep {
      queue = set ep.queue ep.queue_tail hello;
      queue_tail = inc ep.queue_tail % 64;
      queue_count = inc ep.queue_count;
    }
unfolding kipc_enqueue_nonblocking kipc_queue_push wake_receiver
enqueue_room ep up room nobody = simp (up, room, nobody)

fill-open :
    (k : ℕ)
    → k ≤ 64
    → ((fill k).queue_count ≡ k)
      × ((fill k).is_shutting_down ≡ false)
      × ((fill k).waiting_receivers ≡ 0)
unfolding kipc_create_endpoint
fill-open zero h = (refl, refl, refl)
fill-open (suc k) h =
    let before = fill-open k (omega arith) in
    let room : (fill k).queue_count == 64 ≡ false =
      ground (arith, ==_iff (fill k).queue_count 64, before) in
    rw (enqueue_room (fill k) before.1 room before.2) (omega (arith, before.0), before.1, before.2)

abbrev blocked : ℕ → System
blocked k = record (filled k) {
  endpoint = (enqueue_round (fill k) hello).endpoint;
  threads = after_send hello (enqueue_round (fill k) hello).outcome ∷ [];
  sent = (fill_sent k ++ []) ++ accepted hello (enqueue_round (fill k) hello).outcome;
}

blocked-Reach : (k : ℕ) → Reach 1 (blocked k)
blocked-Reach k =
    Reach.later (Reach.later (filled-Reach k) (Step.move 0 (omega arith) (Move.call_send hello)))
      (Step.move 0 (omega arith) (Move.send_locked hello))

full-waits :
    (k : ℕ)
    → k ≡ 64
    → after_send hello (enqueue_round (fill k) hello).outcome ≡ Pc.send_asleep hello
unfolding enqueue_round kipc_queue_push after_send
full-waits k full =
    let before = fill-open k (omega arith) in
    let bare : (fill k).queue_count == 64 ≡ true =
      ground (arith, ==_iff (fill k).queue_count 64, before) in
    simp (before.1, bare)

sender_served_example :
    ((blocked 64).endpoint.sender_sem ≢ 0)
    ⊎ ((blocked 64).owed_senders ≢ 0)
    ⊎ (0 < count send_runs (blocked 64).threads)
    ⊎ (((blocked 64).endpoint.is_shutting_down ≡ false) × ((blocked 64).endpoint.queue_count ≡ 64))
sender_served_example =
    sender_served (omega arith) (blocked-Reach 64) 0 hello (omega arith) (full-waits 64 refl)

empty-IsRing : IsRing kipc_create_endpoint
unfolding kipc_create_endpoint
empty-IsRing = record {
  slots = refl;
  head_in = omega arith;
  count_in = omega arith;
  tail_at = refl;
}

-- An endpoint that is destroyed and left by the destroyer.
abbrev ended : Held
ended = record {
  lifetime = record { registered = false; references = 0; is_shutting_down = true; freed = 1 };
  holders = 0;
}

ended-Reach : Lifetime.Reach 5 ended
unfolding unregister kipc_release
ended-Reach =
    Lifetime.Reach.later
      (Lifetime.Reach.later Lifetime.Reach.start (Lifetime.Step.destroy refl) (omega arith))
      (Lifetime.Step.release (omega arith)) (omega arith)

freed_once_example :
    ((ended.lifetime.registered ≡ false) × (ended.holders ≡ 0) × (ended.lifetime.freed ≡ 1))
    ⊎ (((ended.lifetime.registered ≡ true) ⊎ (ended.holders ≢ 0)) × (ended.lifetime.freed ≡ 0))
freed_once_example = freed_once {n = 5} (omega arith) (omega arith) ended-Reach
