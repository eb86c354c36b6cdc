-- ===== src/Ipc/Endpoint.antt =====
-- kipc.c: the ring of an endpoint, and what each operation does while it holds the endpoint's lock.
use sharkix.Common.{
  ℕ, ◌+◌, ◌-◌, ◌%◌, ◌^◌, ◌==◌, if◌then◌else◌, Bool, true, Option, none, some, List, [], ◌∷◌, get_or,
  set,
}

-- IPC_QUEUE_CAPACITY
abbrev pub ipc_queue_capacity : ℕ
ipc_queue_capacity = 64

-- ipc_message_t; `words` has five words, which are only copied.
pub record Message : Type 0 where
  pub type : ℕ
  pub sender_tid : ℕ
  pub words : List ℕ

-- A slot as memset leaves it.
abbrev pub blank : Message
blank = record { type = 0; sender_tid = 0; words = 0 ∷ 0 ∷ 0 ∷ 0 ∷ 0 ∷ [] }

-- ipc_notify_binding: which notification, by its address, and which bits.
pub record NotifyBinding : Type 0 where
  pub notify : ℕ
  pub bits : ℕ

-- The part of ipc_endpoint_t that its lock protects, with the counts of its two semaphores.
pub record Endpoint : Type 0 where
  pub queue : List Message
  pub queue_head : ℕ
  pub queue_tail : ℕ
  pub queue_count : ℕ
  pub sender_sem : ℕ
  pub receiver_sem : ℕ
  pub is_shutting_down : Bool
  pub waiting_senders : ℕ
  pub waiting_receivers : ℕ
  pub notify_bindings : List NotifyBinding

-- `n++` on size_t, and ksem_post on a semaphore's count.
abbrev pub inc : ℕ → ℕ
inc n = (n + 1) % 2 ^ 64

-- kipc_queue_push; `none` is false.
unfoldable pub kipc_queue_push : Endpoint → Message → Option Endpoint
kipc_queue_push ep m =
    if ep.queue_count == ipc_queue_capacity
    then none
    else some (record ep {
      queue = set ep.queue ep.queue_tail m;
      queue_tail = inc ep.queue_tail % ipc_queue_capacity;
      queue_count = inc ep.queue_count;
    })

-- kipc_queue_pop; `none` is false. A read out of the array cannot occur in a valid ring.
unfoldable pub kipc_queue_pop : Endpoint → Option (Message × Endpoint)
kipc_queue_pop ep =
    if ep.queue_count == 0
    then none
    else some (
      get_or ep.queue ep.queue_head blank,
      record ep {
        queue_head = inc ep.queue_head % ipc_queue_capacity;
        queue_count = ep.queue_count - 1;
      },
    )

-- How one pass of an operation ends: IPC_ERR_ENDPOINT_CLOSED, IPC_OK, IPC_ERR_CANCELLED, or at
-- ksem_wait.
pub data Outcome : Type 0 where
  closed finished cancelled must_wait : Outcome

-- After a push: one waiting receiver is given its wakeup.
unfoldable pub wake_receiver : Endpoint → Endpoint
wake_receiver ep = if ep.waiting_receivers == 0 then ep else record ep {
  waiting_receivers = ep.waiting_receivers - 1;
  receiver_sem = inc ep.receiver_sem;
}

-- After a pop: one waiting sender is given its wakeup.
unfoldable pub wake_sender : Endpoint → Endpoint
wake_sender ep =
    if ep.waiting_senders == 0
    then ep
    else record ep { waiting_senders = ep.waiting_senders - 1; sender_sem = inc ep.sender_sem }

-- What a pass leaves: the endpoint, how it ended, and the bindings that
-- kipc_signal_notify_bindings_locked signalled.
pub record Pass : Type 0 where
  pub endpoint : Endpoint
  pub outcome : Outcome
  pub signalled : List NotifyBinding

-- One round of the loop of kipc_enqueue_blocking.
unfoldable pub enqueue_round : Endpoint → Message → Pass
enqueue_round ep m =
    if ep.is_shutting_down
    then record { endpoint = ep; outcome = closed; signalled = [] }
    else elim (kipc_queue_push ep m) [
      | some pushed ↦ record {
        endpoint = wake_receiver pushed;
        outcome = finished;
        signalled = pushed.notify_bindings;
      }
      | none ↦ record {
        endpoint = record ep { waiting_senders = inc ep.waiting_senders };
        outcome = must_wait;
        signalled = [];
      }
    ]

unfoldable pub kipc_enqueue_nonblocking : Endpoint → Message → Pass
kipc_enqueue_nonblocking ep m =
    if ep.is_shutting_down
    then record { endpoint = ep; outcome = closed; signalled = [] }
    else elim (kipc_queue_push ep m) [
      | none ↦ record { endpoint = ep; outcome = cancelled; signalled = [] }
      | some pushed ↦ record {
        endpoint = wake_receiver pushed;
        outcome = finished;
        signalled = pushed.notify_bindings;
      }
    ]

-- What a receiving pass leaves, with the message that it took.
pub record Receipt : Type 0 where
  pub endpoint : Endpoint
  pub outcome : Outcome
  pub message : Option Message

-- One round of the loop of kipc_recv.
unfoldable pub receive_round : Endpoint → Receipt
receive_round ep =
    if ep.is_shutting_down
    then record { endpoint = ep; outcome = closed; message = none }
    else elim (kipc_queue_pop ep) [
      | some (m, popped) ↦ record {
        endpoint = wake_sender popped;
        outcome = finished;
        message = some m;
      }
      | none ↦ record {
        endpoint = record ep { waiting_receivers = inc ep.waiting_receivers };
        outcome = must_wait;
        message = none;
      }
    ]

-- The locked part of kipc_recv_nb.
unfoldable pub receive_nonblocking : Endpoint → Receipt
receive_nonblocking ep =
    if ep.is_shutting_down
    then record { endpoint = ep; outcome = closed; message = none }
    else elim (kipc_queue_pop ep) [
      | none ↦ record { endpoint = ep; outcome = cancelled; message = none }
      | some (m, popped) ↦ record {
        endpoint = wake_sender popped;
        outcome = finished;
        message = some m;
      }
    ]

-- The locked part of kipc_destroy: closed, its bindings detached, its waiters taken over.
unfoldable pub shut_down : Endpoint → Endpoint
shut_down ep = record ep {
  is_shutting_down = true;
  notify_bindings = [];
  waiting_senders = 0;
  waiting_receivers = 0;
}

-- ksem_post and the successful end of ksem_wait, on each semaphore.
unfoldable pub post_sender : Endpoint → Endpoint
post_sender ep = record ep { sender_sem = inc ep.sender_sem }

unfoldable pub post_receiver : Endpoint → Endpoint
post_receiver ep = record ep { receiver_sem = inc ep.receiver_sem }

unfoldable pub take_sender : Endpoint → Endpoint
take_sender ep = record ep { sender_sem = ep.sender_sem - 1 }

unfoldable pub take_receiver : Endpoint → Endpoint
take_receiver ep = record ep { receiver_sem = ep.receiver_sem - 1 }
