-- ===== src/Ipc/Threads/Sound.antt =====
-- What holds between an endpoint and the numbers of threads around it.
use sharkix.Common.{ℕ, ◌+◌, ◌≤◌, ◌<◌, ◌^◌, ◌≡◌, ◌⊎◌, false, true, List, ◌++◌}
use sharkix.Ipc.Endpoint.{Endpoint}
use sharkix.Ipc.Queue.{IsRing, contents}
use sharkix.Ipc.Threads.{System, Pc}
use sharkix.Ipc.Threads.Count.{count, send_waits, send_runs, receive_waits, receive_runs}

-- How many threads wait to send, run in a send, wait to receive, run in a receive.
pub record Tally : Type 0 where
  pub send_wait : ℕ
  pub send_run : ℕ
  pub receive_wait : ℕ
  pub receive_run : ℕ

unfoldable pub tally : List Pc → Tally
tally ps = record {
  send_wait = count send_waits ps;
  send_run = count send_runs ps;
  receive_wait = count receive_waits ps;
  receive_run = count receive_runs ps;
}

-- Every waiting thread is registered, or has a post, or is owed one; a registered one sees a queue that
-- cannot serve it beyond what the posts and running threads will do.
pub record Sound (ep : Endpoint) (t : Tally) (owed_senders owed_receivers : ℕ) : Type 0 where
  pub ring : IsRing ep
  pub senders : t.send_wait ≡ ep.waiting_senders + ep.sender_sem + owed_senders
  pub receivers : t.receive_wait ≡ ep.waiting_receivers + ep.receiver_sem + owed_receivers
  pub send_served : (ep.waiting_senders ≡ 0) ⊎ (64 ≤ ep.queue_count + ep.sender_sem + t.send_run)
  pub receive_served :
      (ep.waiting_receivers ≡ 0) ⊎ (ep.queue_count ≤ ep.receiver_sem + t.receive_run)
  pub closed :
      (ep.is_shutting_down ≡ false) ⊎ ((ep.waiting_senders ≡ 0) × (ep.waiting_receivers ≡ 0))
  pub unowed : (ep.is_shutting_down ≡ true) ⊎ ((owed_senders ≡ 0) × (owed_receivers ≡ 0))
  pub few : (t.send_wait < 2 ^ 64) × (t.receive_wait < 2 ^ 64)

pub record IsSound (s : System) : Type 0 where
  pub sound : Sound s.endpoint (tally s.threads) s.owed_senders s.owed_receivers
  pub order : s.sent ≡ s.received ++ contents s.endpoint
