-- ===== src/Ipc/Threads/Rounds.antt =====
-- The four locked passes, by what they find in the queue.
use sharkix.Common.{
  ◌+◌, ◌-◌, ◌<◌, ◌≡◌, ◌⊎◌, inl, inr, true, false, none, some, [], ◌∷◌, ◌++◌, Bool-cases, arith,
}
use sharkix.Ipc.Endpoint.{
  Endpoint, Message, Outcome, Pass, Receipt, enqueue_round, kipc_enqueue_nonblocking, receive_round,
  receive_nonblocking, wake_receiver, wake_sender, inc,
}
use sharkix.Ipc.Queue.{
  IsRing, contents, kipc_queue_push-Pushes, kipc_queue_pop-Pops, length-contents,
}

abbrev pub refused : Endpoint → Outcome → Pass
refused ep o = record { endpoint = ep; outcome = o; signalled = [] }

abbrev pub fails : Endpoint → Outcome → Receipt
fails ep o = record { endpoint = ep; outcome = o; message = none }

-- A pass that sends `m`: closed, or appended with one receiver woken, or `full` on a full queue.
abbrev pub Sends : Endpoint → Message → Pass → Pass → Type 0
Sends ep m r full =
    ((ep.is_shutting_down ≡ true) × (r ≡ refused ep Outcome.closed))
    ⊎ ((ep.is_shutting_down ≡ false) × (ep.queue_count ≡ 64) × (r ≡ full))
    ⊎ ((ep' : Endpoint) × (ep.is_shutting_down ≡ false)
        × (ep.queue_count < 64)
        × (contents ep' ≡ contents ep ++ m ∷ [])
        × IsRing ep'
        × (ep' ≡ record ep {
          queue = ep'.queue;
          queue_tail = ep'.queue_tail;
          queue_count = ep.queue_count + 1;
        })
        × (r ≡ record {
          endpoint = wake_receiver ep';
          outcome = Outcome.finished;
          signalled = ep'.notify_bindings;
        }))

-- A pass that receives: closed, or `bare` on an empty queue, or the oldest message with one sender
-- woken.
abbrev pub Receives : Endpoint → Receipt → Receipt → Type 0
Receives ep r bare =
    ((ep.is_shutting_down ≡ true) × (r ≡ fails ep Outcome.closed))
    ⊎ ((ep.is_shutting_down ≡ false) × (contents ep ≡ []) × (r ≡ bare))
    ⊎ ((m : Message) × (ep' : Endpoint) × (ep.is_shutting_down ≡ false)
        × (contents ep ≡ m ∷ contents ep')
        × IsRing ep'
        × (ep' ≡ record ep { queue_head = ep'.queue_head; queue_count = ep.queue_count - 1 })
        × (r ≡ record { endpoint = wake_sender ep'; outcome = Outcome.finished; message = some m }))

-- A round of kipc_enqueue_blocking registers a waiter exactly on a full queue.
pub enqueue_round-Sends :
    (ep : Endpoint) (m : Message)
    → IsRing ep
    → Sends ep m
        (enqueue_round ep m)
        (refused (record ep { waiting_senders = inc ep.waiting_senders }) Outcome.must_wait)
unfolding enqueue_round
enqueue_round-Sends ep m v = elim (Bool-cases ep.is_shutting_down) [
  | inl shut ↦ inl (shut, simp shut)
  | inr up ↦ elim (kipc_queue_push-Pushes ep m v) [
    | inl (full, e) ↦ inr (inl (up, omega (arith, full, length-contents ep), simp (up, e)))
    | inr (ep', e, room, c, ring, same) ↦
        inr (inr (ep', up, omega (arith, room, length-contents ep), c, ring, same, simp (up, e)))
  ]
]

-- kipc_enqueue_nonblocking is cancelled exactly on a full queue.
pub kipc_enqueue_nonblocking-Sends :
    (ep : Endpoint) (m : Message)
    → IsRing ep
    → Sends ep m (kipc_enqueue_nonblocking ep m) (refused ep Outcome.cancelled)
unfolding kipc_enqueue_nonblocking
kipc_enqueue_nonblocking-Sends ep m v = elim (Bool-cases ep.is_shutting_down) [
  | inl shut ↦ inl (shut, simp shut)
  | inr up ↦ elim (kipc_queue_push-Pushes ep m v) [
    | inl (full, e) ↦ inr (inl (up, omega (arith, full, length-contents ep), simp (up, e)))
    | inr (ep', e, room, c, ring, same) ↦
        inr (inr (ep', up, omega (arith, room, length-contents ep), c, ring, same, simp (up, e)))
  ]
]

-- A round of kipc_recv registers a waiter exactly on an empty queue.
pub receive_round-Receives :
    (ep : Endpoint)
    → IsRing ep
    → Receives ep
        (receive_round ep)
        (fails (record ep { waiting_receivers = inc ep.waiting_receivers }) Outcome.must_wait)
unfolding receive_round
receive_round-Receives ep v = elim (Bool-cases ep.is_shutting_down) [
  | inl shut ↦ inl (shut, simp shut)
  | inr up ↦ elim (kipc_queue_pop-Pops ep v) [
    | inl (bare, e) ↦ inr (inl (up, bare, simp (up, e)))
    | inr (m, ep', e, c, ring, same) ↦ inr (inr (m, ep', up, c, ring, same, simp (up, e)))
  ]
]

-- kipc_recv_nb is cancelled exactly on an empty queue.
pub receive_nonblocking-Receives :
    (ep : Endpoint) → IsRing ep → Receives ep (receive_nonblocking ep) (fails ep Outcome.cancelled)
unfolding receive_nonblocking
receive_nonblocking-Receives ep v = elim (Bool-cases ep.is_shutting_down) [
  | inl shut ↦ inl (shut, simp shut)
  | inr up ↦ elim (kipc_queue_pop-Pops ep v) [
    | inl (bare, e) ↦ inr (inl (up, bare, simp (up, e)))
    | inr (m, ep', e, c, ring, same) ↦ inr (inr (m, ep', up, c, ring, same, simp (up, e)))
  ]
]
