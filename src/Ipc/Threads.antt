-- ===== src/Ipc/Threads.antt =====
-- kipc.c: threads that send and receive on one endpoint, interleaved in any order, and its destroyer.
pub mod Count
pub mod Sound
pub mod Rounds
pub mod Moves
pub mod Invariant
pub mod Order
pub mod States
pub mod Progress
use sharkix.Common.{
  ℕ, suc, ◌-◌, ◌≡◌, ◌≢◌, ◌<◌, length, false, some, none, Option, List, [], ◌∷◌, ◌++◌, get_or, set,
  replicate,
}
use sharkix.Ipc.Endpoint.{
  Endpoint, Message, Outcome, Pass, Receipt, enqueue_round, kipc_enqueue_nonblocking, receive_round,
  receive_nonblocking, shut_down, post_sender, post_receiver, take_sender, take_receiver, blank,
}

-- Where a thread stands: outside, before kmutex_lock of kipc_enqueue_blocking, in its ksem_wait, and
-- the same for kipc_recv.
pub data Pc : Type 0 where
  idle : Pc
  sending : (message : Message) → Pc
  send_asleep : (message : Message) → Pc
  receiving : Pc
  receive_asleep : Pc

-- After a round: back at the caller, or at the wait.
unfoldable pub after_send : Message → Outcome → Pc
after_send m Outcome.closed = Pc.idle
after_send m Outcome.finished = Pc.idle
after_send m Outcome.cancelled = Pc.idle
after_send m Outcome.must_wait = Pc.send_asleep m

unfoldable pub after_receive : Outcome → Pc
after_receive Outcome.closed = Pc.idle
after_receive Outcome.finished = Pc.idle
after_receive Outcome.cancelled = Pc.idle
after_receive Outcome.must_wait = Pc.receive_asleep

-- The message, when the operation answered IPC_OK.
unfoldable pub accepted : Message → Outcome → List Message
accepted m Outcome.closed = []
accepted m Outcome.finished = m ∷ []
accepted m Outcome.cancelled = []
accepted m Outcome.must_wait = []

unfoldable pub taken : Option Message → List Message
taken none = []
taken (some m) = m ∷ []

-- One step of one thread: what it does to the endpoint and to where it stands, and the messages
-- that it put in and took out.
pub data Move (ep : Endpoint) : Pc → Endpoint → Pc → List Message → List Message → Type 0 where
  call_send : (m : Message) → Move ep Pc.idle ep (Pc.sending m) [] []
  send_locked :
      (m : Message)
      → Move ep
          (Pc.sending m)
          (enqueue_round ep m).endpoint
          (after_send m (enqueue_round ep m).outcome)
          (accepted m (enqueue_round ep m).outcome)
          []
  send_woken :
      (m : Message)
      → ep.sender_sem ≢ 0
      → Move ep (Pc.send_asleep m) (take_sender ep) (Pc.sending m) [] []
  send_nonblocking :
      (m : Message)
      → Move ep Pc.idle
          (kipc_enqueue_nonblocking ep m).endpoint
          Pc.idle
          (accepted m (kipc_enqueue_nonblocking ep m).outcome)
          []
  call_receive : Move ep Pc.idle ep Pc.receiving [] []
  receive_locked :
      Move ep Pc.receiving
        (receive_round ep).endpoint
        (after_receive (receive_round ep).outcome)
        []
        (taken (receive_round ep).message)
  receive_woken :
      ep.receiver_sem ≢ 0 → Move ep Pc.receive_asleep (take_receiver ep) Pc.receiving [] []
  receive_without_wait :
      Move ep Pc.idle
        (receive_nonblocking ep).endpoint
        Pc.idle
        []
        (taken (receive_nonblocking ep).message)

-- The endpoint, its threads, the wakeups that a running kipc_destroy has yet to post (its
-- `wake_senders` and `wake_receivers`), and all messages put in and taken out so far.
pub record System : Type 0 where
  pub endpoint : Endpoint
  pub threads : List Pc
  pub owed_senders : ℕ
  pub owed_receivers : ℕ
  pub sent : List Message
  pub received : List Message

-- kipc_destroy shuts down, then posts for the senders, then for the receivers.
pub data Step (s : System) : System → Type 0 where
  move :
      (i : ℕ) {ep : Endpoint} {pc : Pc} {put got : List Message}
      → i < length s.threads
      → Move s.endpoint (get_or s.threads i Pc.idle) ep pc put got
      → Step s (record s {
        endpoint = ep;
        threads = set s.threads i pc;
        sent = s.sent ++ put;
        received = s.received ++ got;
      })
  destroy :
      s.endpoint.is_shutting_down ≡ false
      → Step s (record s {
        endpoint = shut_down s.endpoint;
        owed_senders = s.endpoint.waiting_senders;
        owed_receivers = s.endpoint.waiting_receivers;
      })
  destroy_post_sender :
      s.owed_senders ≢ 0
      → Step s (record s { endpoint = post_sender s.endpoint; owed_senders = s.owed_senders - 1 })
  destroy_post_receiver :
      s.owed_senders ≡ 0
      → s.owed_receivers ≢ 0
      → Step s
          (record s { endpoint = post_receiver s.endpoint; owed_receivers = s.owed_receivers - 1 })

-- kipc_create's endpoint.
unfoldable pub kipc_create_endpoint : Endpoint
kipc_create_endpoint = record {
  queue = replicate 64 blank;
  queue_head = 0;
  queue_tail = 0;
  queue_count = 0;
  sender_sem = 0;
  receiver_sem = 0;
  is_shutting_down = false;
  waiting_senders = 0;
  waiting_receivers = 0;
  notify_bindings = [];
}

abbrev pub created : ℕ → System
created n = record {
  endpoint = kipc_create_endpoint;
  threads = replicate n Pc.idle;
  owed_senders = 0;
  owed_receivers = 0;
  sent = [];
  received = [];
}

-- The states that `n` threads can reach.
pub data Reach (n : ℕ) : System → Type 0 where
  start : Reach n (created n)
  later : {s t : System} → Reach n s → Step s t → Reach n t
