-- ===== src/Ipc/Threads/Moves.antt =====
-- What one pass or one wakeup does to the numbers around an endpoint.
use sharkix.Common.{
  ℕ, ◌+◌, ◌-◌, ◌^◌, ◌≤◌, ◌<◌, ◌≡◌, ◌≢◌, inl, inr, true, false, List, length, arith, refl, ◌==◌,
  Bool-cases, ==_iff, get_or, set,
}
use sharkix.Ipc.Endpoint.{
  Endpoint, Message, wake_receiver, wake_sender, inc, take_sender, take_receiver, post_sender,
  post_receiver, shut_down,
}
use sharkix.Ipc.Queue.{IsRing, same-IsRing}
use sharkix.Ipc.Threads.{Pc}
use sharkix.Ipc.Threads.Count.{count-set, send_waits, send_runs, receive_waits, receive_runs}
use sharkix.Ipc.Threads.Sound.{Sound, Tally, tally}

-- One thread goes from `p` to `q`.
pub record Shift (t : Tally) (p q : Pc) (t' : Tally) : Type 0 where
  pub send_wait : t'.send_wait + send_waits p ≡ t.send_wait + send_waits q
  pub send_run : t'.send_run + send_runs p ≡ t.send_run + send_runs q
  pub receive_wait : t'.receive_wait + receive_waits p ≡ t.receive_wait + receive_waits q
  pub receive_run : t'.receive_run + receive_runs p ≡ t.receive_run + receive_runs q

pub tally-Shift :
    (ps : List Pc) (i : ℕ) (p : Pc)
    → i < length ps
    → Shift (tally ps) (get_or ps i Pc.idle) p (tally (set ps i p))
unfolding tally
tally-Shift ps i p h = record {
  send_wait = count-set send_waits ps i p h;
  send_run = count-set send_runs ps i p h;
  receive_wait = count-set receive_waits ps i p h;
  receive_run = count-set receive_runs ps i p h;
}

-- The numbers fit in size_t.
abbrev pub Few : Tally → Type 0
Few t = (t.send_wait < 2 ^ 64) × (t.receive_wait < 2 ^ 64)

module _ {ep : Endpoint} {t t' : Tally} {o r : ℕ} where
  -- A thread that starts or abandons a call with nothing done.
  pub idle-Sound :
      Sound ep t o r
      → t'.send_wait ≡ t.send_wait
      → t.send_run ≤ t'.send_run
      → t'.receive_wait ≡ t.receive_wait
      → t.receive_run ≤ t'.receive_run
      → Sound ep t' o r
  idle-Sound h a b c d = record {
    ring = h.ring;
    senders = omega (arith, h.senders);
    receivers = omega (arith, h.receivers);
    send_served = ground (arith, h.send_served);
    receive_served = ground (arith, h.receive_served);
    closed = h.closed;
    unowed = h.unowed;
    few = omega (arith, h.few);
  }

  -- A call that finds the endpoint closed returns.
  pub closed-Sound :
      Sound ep t o r
      → ep.is_shutting_down ≡ true
      → t'.send_wait ≡ t.send_wait
      → t'.receive_wait ≡ t.receive_wait
      → Sound ep t' o r
  closed-Sound h shut a c = record {
    ring = h.ring;
    senders = omega (arith, h.senders);
    receivers = omega (arith, h.receivers);
    send_served = ground (arith, h.closed);
    receive_served = ground (arith, h.closed);
    closed = h.closed;
    unowed = h.unowed;
    few = omega (arith, h.few);
  }

  -- A sender that found the queue full is registered.
  pub send_wait-Sound :
      Sound ep t o r
      → ep.is_shutting_down ≡ false
      → ep.queue_count ≡ 64
      → t'.send_wait ≡ t.send_wait + 1
      → t'.receive_wait ≡ t.receive_wait
      → t.receive_run ≤ t'.receive_run
      → Few t'
      → Sound (record ep { waiting_senders = inc ep.waiting_senders }) t' o r
  send_wait-Sound h up full a c d few = record {
    ring = same-IsRing h.ring;
    senders = omega (arith, h.senders, few);
    receivers = omega (arith, h.receivers);
    send_served = inr (omega arith);
    receive_served = ground (arith, h.receive_served);
    closed = inl up;
    unowed = h.unowed;
    few = few;
  }

  -- A receiver that found the queue empty is registered.
  pub receive_wait-Sound :
      Sound ep t o r
      → ep.is_shutting_down ≡ false
      → ep.queue_count ≡ 0
      → t'.send_wait ≡ t.send_wait
      → t.send_run ≤ t'.send_run
      → t'.receive_wait ≡ t.receive_wait + 1
      → Few t'
      → Sound (record ep { waiting_receivers = inc ep.waiting_receivers }) t' o r
  receive_wait-Sound h up bare a b c few = record {
    ring = same-IsRing h.ring;
    senders = omega (arith, h.senders);
    receivers = omega (arith, h.receivers, few);
    send_served = ground (arith, h.send_served);
    receive_served = inr (omega arith);
    closed = inl up;
    unowed = h.unowed;
    few = few;
  }

  -- A sender passes ksem_wait.
  pub send_woken-Sound :
      Sound ep t o r
      → ep.sender_sem ≢ 0
      → t'.send_wait + 1 ≡ t.send_wait
      → t'.send_run ≡ t.send_run + 1
      → t'.receive_wait ≡ t.receive_wait
      → t'.receive_run ≡ t.receive_run
      → Sound (take_sender ep) t' o r
  unfolding take_sender
  send_woken-Sound h post a b c d = record {
    ring = same-IsRing h.ring;
    senders = omega (arith, h.senders);
    receivers = omega (arith, h.receivers);
    send_served = ground (arith, h.send_served);
    receive_served = ground (arith, h.receive_served);
    closed = h.closed;
    unowed = h.unowed;
    few = omega (arith, h.few);
  }

  -- A receiver passes ksem_wait.
  pub receive_woken-Sound :
      Sound ep t o r
      → ep.receiver_sem ≢ 0
      → t'.send_wait ≡ t.send_wait
      → t'.send_run ≡ t.send_run
      → t'.receive_wait + 1 ≡ t.receive_wait
      → t'.receive_run ≡ t.receive_run + 1
      → Sound (take_receiver ep) t' o r
  unfolding take_receiver
  receive_woken-Sound h post a b c d = record {
    ring = same-IsRing h.ring;
    senders = omega (arith, h.senders);
    receivers = omega (arith, h.receivers);
    send_served = ground (arith, h.send_served);
    receive_served = ground (arith, h.receive_served);
    closed = h.closed;
    unowed = h.unowed;
    few = omega (arith, h.few);
  }

  -- One message more, and one registered receiver less.
  pub pushed-Sound :
      {q : List Message} {tail : ℕ}
      → Sound ep t o r
      → ep.is_shutting_down ≡ false
      → IsRing (record ep { queue = q; queue_tail = tail; queue_count = ep.queue_count + 1 })
      → t'.send_wait ≡ t.send_wait
      → t.send_run ≤ t'.send_run + 1
      → t'.receive_wait ≡ t.receive_wait
      → t'.receive_run ≡ t.receive_run
      → Sound
          (wake_receiver
            (record ep { queue = q; queue_tail = tail; queue_count = ep.queue_count + 1 }))
          t'
          o
          r
  unfolding wake_receiver
  pushed-Sound h up ring a b c d = elim (Bool-cases (ep.waiting_receivers == 0)) [
    | inl nobody ↦ rw nobody (record {
      ring = ring;
      senders = omega (arith, h.senders);
      receivers = omega (arith, h.receivers);
      send_served = ground (arith, h.send_served);
      receive_served = inl ((==_iff ep.waiting_receivers 0).0 nobody);
      closed = inl up;
      unowed = h.unowed;
      few = omega (arith, h.few);
    })
    | inr somebody ↦
        let one : 0 < ep.waiting_receivers = ground (arith, ==_iff ep.waiting_receivers 0) in
        rw somebody (record {
          ring = same-IsRing ring;
          senders = omega (arith, h.senders);
          receivers = omega (arith, h.receivers, h.few);
          send_served = ground (arith, h.send_served);
          receive_served = ground (arith, h.receive_served, h.receivers, h.few);
          closed = inl up;
          unowed = h.unowed;
          few = omega (arith, h.few);
        })
  ]

  -- One message less, and one registered sender less.
  pub popped-Sound :
      {head : ℕ}
      → Sound ep t o r
      → ep.is_shutting_down ≡ false
      → ep.queue_count ≢ 0
      → IsRing (record ep { queue_head = head; queue_count = ep.queue_count - 1 })
      → t'.send_wait ≡ t.send_wait
      → t'.send_run ≡ t.send_run
      → t'.receive_wait ≡ t.receive_wait
      → t.receive_run ≤ t'.receive_run + 1
      → Sound
          (wake_sender (record ep { queue_head = head; queue_count = ep.queue_count - 1 }))
          t'
          o
          r
  unfolding wake_sender
  popped-Sound h up more ring a b c d = elim (Bool-cases (ep.waiting_senders == 0)) [
    | inl nobody ↦ rw nobody (record {
      ring = ring;
      senders = omega (arith, h.senders);
      receivers = omega (arith, h.receivers);
      send_served = inl ((==_iff ep.waiting_senders 0).0 nobody);
      receive_served = ground (arith, h.receive_served);
      closed = inl up;
      unowed = h.unowed;
      few = omega (arith, h.few);
    })
    | inr somebody ↦
        let one : 0 < ep.waiting_senders = ground (arith, ==_iff ep.waiting_senders 0) in
        rw somebody (record {
          ring = same-IsRing ring;
          senders = omega (arith, h.senders, h.few);
          receivers = omega (arith, h.receivers);
          send_served = ground (arith, h.send_served, h.senders, h.few);
          receive_served = ground (arith, h.receive_served);
          closed = inl up;
          unowed = h.unowed;
          few = omega (arith, h.few);
        })
  ]

-- kipc_destroy takes over every waiter; nothing was owed, as no other destroyer can be at work.
module _ {ep : Endpoint} {t : Tally} {o r : ℕ} where
  pub shut_down-Sound :
      Sound ep t o r
      → o ≡ 0
      → r ≡ 0
      → Sound (shut_down ep) t ep.waiting_senders ep.waiting_receivers
  unfolding shut_down
  shut_down-Sound h no_o no_r = record {
    ring = same-IsRing h.ring;
    senders = omega (arith, h.senders);
    receivers = omega (arith, h.receivers);
    send_served = inl refl;
    receive_served = inl refl;
    closed = inr (refl, refl);
    unowed = inl refl;
    few = h.few;
  }

  pub post_sender-Sound : Sound ep t o r → o ≢ 0 → Sound (post_sender ep) t (o - 1) r
  unfolding post_sender
  post_sender-Sound h some_o = record {
    ring = same-IsRing h.ring;
    senders = omega (arith, h.senders, h.few);
    receivers = omega (arith, h.receivers);
    send_served = ground (arith, h.send_served, h.senders, h.few);
    receive_served = h.receive_served;
    closed = h.closed;
    unowed = ground (arith, h.unowed);
    few = h.few;
  }

  pub post_receiver-Sound : Sound ep t o r → r ≢ 0 → Sound (post_receiver ep) t o (r - 1)
  unfolding post_receiver
  post_receiver-Sound h some_r = record {
    ring = same-IsRing h.ring;
    senders = omega (arith, h.senders);
    receivers = omega (arith, h.receivers, h.few);
    send_served = h.send_served;
    receive_served = ground (arith, h.receive_served, h.receivers, h.few);
    closed = h.closed;
    unowed = ground (arith, h.unowed);
    few = h.few;
  }
