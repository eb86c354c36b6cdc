-- ===== src/Ipc/Threads/Progress.antt =====
-- What threads that share an endpoint can rely on.
use sharkix.Common.{
  ℕ, ◌+◌, ◌^◌, ◌≤◌, ◌<◌, ◌≡◌, ◌≢◌, ◌⊎◌, true, false, length, arith, subst, get_or, ◌++◌,
}
use sharkix.Ipc.Endpoint.{Message}
use sharkix.Ipc.Queue.{contents, length-contents}
use sharkix.Ipc.Threads.{Pc, System, Reach}
use sharkix.Ipc.Threads.Count.{count, count-get, send_waits, send_runs, receive_waits, receive_runs}
use sharkix.Ipc.Threads.Sound.{tally}
use sharkix.Ipc.Threads.States.{Reach-IsSound}

module _ {n : ℕ} {s : System} (few : n < 2 ^ 64) (reach : Reach n s) where
  -- In every state that fewer than 2^64 threads reach by sending, receiving, waiting and destroying
  -- in any order, the messages accepted so far are the messages delivered so far followed by those in
  -- the queue, in the same order, and the queue holds at most 64.
  pub Reach-fifo :
      (s.sent ≡ s.received ++ contents s.endpoint) × (length (contents s.endpoint) ≤ 64)
  Reach-fifo =
      let v = Reach-IsSound few reach in
      (v.order, omega (arith, length-contents s.endpoint, v.sound.ring.count_in))

  -- In every state that fewer than 2^64 threads reach by sending, receiving, waiting and
  -- destroying in any order, when a thread is at ksem_wait in kipc_enqueue_blocking, then the
  -- senders' semaphore has a post, or a destroyer still owes one, or another thread is running a
  -- blocking send, or the endpoint is open and its queue is full: a wakeup is never lost.
  pub sender_served :
      (i : ℕ) (m : Message)
      → i < length s.threads
      → get_or s.threads i Pc.idle ≡ Pc.send_asleep m
      → (s.endpoint.sender_sem ≢ 0)
        ⊎ (s.owed_senders ≢ 0)
        ⊎ (0 < count send_runs s.threads)
        ⊎ ((s.endpoint.is_shutting_down ≡ false) × (s.endpoint.queue_count ≡ 64))
  unfolding tally send_waits
  sender_served i m b at =
      let v = (Reach-IsSound few reach).sound in
      let one : 1 ≤ count send_waits s.threads =
        subst (λ p. send_waits p ≤ count send_waits s.threads) at
          (count-get send_waits s.threads i b) in
      ground (arith, v.senders, v.send_served, v.closed, v.ring.count_in, one)

  -- In every state that fewer than 2^64 threads reach by sending, receiving, waiting and
  -- destroying in any order, when a thread is at ksem_wait in kipc_recv, then the receivers'
  -- semaphore has a post, or a destroyer still owes one, or another thread is running a blocking
  -- receive, or the endpoint is open and its queue is empty.
  pub receiver_served :
      (i : ℕ)
      → i < length s.threads
      → get_or s.threads i Pc.idle ≡ Pc.receive_asleep
      → (s.endpoint.receiver_sem ≢ 0)
        ⊎ (s.owed_receivers ≢ 0)
        ⊎ (0 < count receive_runs s.threads)
        ⊎ ((s.endpoint.is_shutting_down ≡ false) × (s.endpoint.queue_count ≡ 0))
  unfolding tally receive_waits
  receiver_served i b at =
      let v = (Reach-IsSound few reach).sound in
      let one : 1 ≤ count receive_waits s.threads =
        subst (λ p. receive_waits p ≤ count receive_waits s.threads) at
          (count-get receive_waits s.threads i b) in
      ground (arith, v.receivers, v.receive_served, v.closed, one)

  -- In every state that fewer than 2^64 threads reach by sending, receiving, waiting and
  -- destroying in any order with the endpoint shutting down, there are as many posts, on each
  -- semaphore or still owed by the destroyer, as threads waiting for it.
  pub closed_all_woken :
      s.endpoint.is_shutting_down ≡ true
      → (count send_waits s.threads ≡ s.endpoint.sender_sem + s.owed_senders)
        × (count receive_waits s.threads ≡ s.endpoint.receiver_sem + s.owed_receivers)
  unfolding tally
  closed_all_woken shut =
      let v = (Reach-IsSound few reach).sound in
      ground (arith, v.senders, v.receivers, v.closed, shut)

  -- In every state that fewer than 2^64 threads reach by sending, receiving, waiting and
  -- destroying in any order with no thread running a blocking call, no post and none owed, not
  -- both a sender and a receiver wait.
  pub not_both_wait :
      count send_runs s.threads ≡ 0
      → count receive_runs s.threads ≡ 0
      → s.endpoint.sender_sem ≡ 0
      → s.endpoint.receiver_sem ≡ 0
      → s.owed_senders ≡ 0
      → s.owed_receivers ≡ 0
      → (count send_waits s.threads ≡ 0) ⊎ (count receive_waits s.threads ≡ 0)
  unfolding tally
  not_both_wait a b c d e f =
      let v = (Reach-IsSound few reach).sound in
      ground (arith, v.senders, v.receivers, v.send_served, v.receive_served)
