-- ===== src/Ipc/Threads/States.antt =====
-- Every state that sending, receiving and destroying threads reach is sound.
use sharkix.Common.{
  ℕ, ◌^◌, ◌≤◌, ◌<◌, ◌≡◌, inl, inr, List, ◌++◌, length, arith, sym, ap, ◌∙◌, refl, set, length-set,
  replicate, zero, suc,
}
use mathlib.Core.List.{append_assoc}
use sharkix.Ipc.Endpoint.{Message, shut_down, post_sender, post_receiver}
use sharkix.Ipc.Queue.{contents, contents-empty}
use sharkix.Ipc.Threads.{Pc, System, Step, Reach, created, kipc_create_endpoint}
use sharkix.Ipc.Threads.Count.{count-length, count-replicate, send_waits, receive_waits}
use sharkix.Ipc.Threads.Sound.{IsSound, tally}
use sharkix.Ipc.Threads.Moves.{
  tally-Shift, Few, shut_down-Sound, post_sender-Sound, post_receiver-Sound,
}
use sharkix.Ipc.Threads.Invariant.{Move-Sound}
use sharkix.Ipc.Threads.Order.{Move-Keeps}

length-replicate : (n : ℕ) (p : Pc) → length (replicate n p) ≡ n
length-replicate zero p = refl
length-replicate (suc n) p = ap suc (length-replicate n p)

send_waits-one : (p : Pc) → send_waits p ≤ 1
unfolding send_waits
send_waits-one Pc.idle = omega arith
send_waits-one (Pc.sending m) = omega arith
send_waits-one (Pc.send_asleep m) = omega arith
send_waits-one Pc.receiving = omega arith
send_waits-one Pc.receive_asleep = omega arith

receive_waits-one : (p : Pc) → receive_waits p ≤ 1
unfolding receive_waits
receive_waits-one Pc.idle = omega arith
receive_waits-one (Pc.sending m) = omega arith
receive_waits-one (Pc.send_asleep m) = omega arith
receive_waits-one Pc.receiving = omega arith
receive_waits-one Pc.receive_asleep = omega arith

tally-Few : (ps : List Pc) → length ps < 2 ^ 64 → Few (tally ps)
unfolding tally
tally-Few ps h = (
  omega (arith, count-length send_waits send_waits-one ps),
  omega (arith, count-length receive_waits receive_waits-one ps),
)

-- Messages that were in order stay in order.
reordered :
    (sent received put got c c' : List Message)
    → sent ≡ received ++ c
    → c ++ put ≡ got ++ c'
    → sent ++ put ≡ (received ++ got) ++ c'
reordered sent received put got c c' h k =
    ap (λ l. l ++ put) h
    ∙ append_assoc received c put
    ∙ ap (λ l. received ++ l) k
    ∙ sym (append_assoc received got c')

Step-threads : {s t : System} → Step s t → length t.threads ≡ length s.threads
Step-threads {s = s} (Step.move i {pc = pc} b m) = length-set s.threads i pc
Step-threads (Step.destroy up) = refl
Step-threads (Step.destroy_post_sender some) = refl
Step-threads (Step.destroy_post_receiver none_left some) = refl

Step-IsSound : {s t : System} → IsSound s → length s.threads < 2 ^ 64 → Step s t → IsSound t
unfolding contents shut_down post_sender post_receiver
Step-IsSound {s = s} h few (Step.move i {ep = ep} {pc = pc} {put = put} {got = got} b m) = record {
  sound =
      Move-Sound h.sound (tally-Few (set s.threads i pc) (omega (arith, length-set s.threads i pc)))
        (tally-Shift s.threads i pc b) m;
  order =
      reordered s.sent s.received put got (contents s.endpoint) (contents ep) h.order
        (Move-Keeps h.sound.ring m);
}
Step-IsSound h few (Step.destroy up) = record {
  sound = shut_down-Sound h.sound (ground (arith, h.sound.unowed)) (ground (arith, h.sound.unowed));
  order = h.order;
}
Step-IsSound h few (Step.destroy_post_sender some) = record {
  sound = post_sender-Sound h.sound some;
  order = h.order;
}
Step-IsSound h few (Step.destroy_post_receiver none_left some) = record {
  sound = post_receiver-Sound h.sound some;
  order = h.order;
}

created-IsSound : (n : ℕ) → n < 2 ^ 64 → IsSound (created n)
unfolding kipc_create_endpoint contents tally send_waits receive_waits
created-IsSound n few = record {
  sound = record {
    ring = record { slots = refl; head_in = omega arith; count_in = omega arith; tail_at = refl };
    senders = count-replicate send_waits refl n;
    receivers = count-replicate receive_waits refl n;
    send_served = inl refl;
    receive_served = inl refl;
    closed = inl refl;
    unowed = inr (refl, refl);
    few = tally-Few (replicate n Pc.idle) (omega (arith, length-replicate n Pc.idle));
  };
  order = sym (contents-empty kipc_create_endpoint refl);
}

pub Reach-threads : {n : ℕ} {s : System} → Reach n s → length s.threads ≡ n
Reach-threads {n = n} Reach.start = length-replicate n Pc.idle
Reach-threads (Reach.later before step) = Step-threads step ∙ Reach-threads before

pub Reach-IsSound : {n : ℕ} {s : System} → n < 2 ^ 64 → Reach n s → IsSound s
Reach-IsSound {n = n} few Reach.start = created-IsSound n few
Reach-IsSound few (Reach.later before step) =
    Step-IsSound (Reach-IsSound few before) (omega (arith, Reach-threads before)) step
