-- ===== src/Ipc/Threads/Order.antt =====
-- Every step of a thread keeps the messages in order.
use sharkix.Common.{◌≡◌, inl, inr, List, [], ◌∷◌, ◌++◌, sym, ap, ◌∙◌}
use mathlib.Core.List.{append-nil}
use sharkix.Ipc.Endpoint.{
  Endpoint, Message, enqueue_round, kipc_enqueue_nonblocking, receive_round, receive_nonblocking,
  take_sender, take_receiver,
}
use sharkix.Ipc.Queue.{IsRing, contents, contents-wake_receiver, contents-wake_sender}
use sharkix.Ipc.Threads.{Pc, Move, accepted, taken}
use sharkix.Ipc.Threads.Rounds.{
  enqueue_round-Sends, kipc_enqueue_nonblocking-Sends, receive_round-Receives,
  receive_nonblocking-Receives,
}

-- What was put in is behind, what was taken out was in front.
abbrev pub Keeps : Endpoint → Endpoint → List Message → List Message → Type 0
Keeps ep ep' put got = contents ep ++ put ≡ got ++ contents ep'

refused-Keeps : (ep : Endpoint) → Keeps ep ep [] []
refused-Keeps ep = append-nil (contents ep)

send_locked-Keeps :
    (ep : Endpoint) (m : Message)
    → IsRing ep
    → Keeps ep (enqueue_round ep m).endpoint (accepted m (enqueue_round ep m).outcome) []
unfolding accepted contents
send_locked-Keeps ep m v = elim (enqueue_round-Sends ep m v) [
  | inl (shut, e) ↦ rw e (refused-Keeps ep)
  | inr (inl (up, full, e)) ↦ rw e (refused-Keeps ep)
  | inr (inr (ep', up, room, c, ring, same, e)) ↦ rw e (sym c ∙ sym (contents-wake_receiver ep'))
]

send_nonblocking-Keeps :
    (ep : Endpoint) (m : Message)
    → IsRing ep
    → Keeps ep
        (kipc_enqueue_nonblocking ep m).endpoint
        (accepted m (kipc_enqueue_nonblocking ep m).outcome)
        []
unfolding accepted
send_nonblocking-Keeps ep m v = elim (kipc_enqueue_nonblocking-Sends ep m v) [
  | inl (shut, e) ↦ rw e (refused-Keeps ep)
  | inr (inl (up, full, e)) ↦ rw e (refused-Keeps ep)
  | inr (inr (ep', up, room, c, ring, same, e)) ↦ rw e (sym c ∙ sym (contents-wake_receiver ep'))
]

receive_locked-Keeps :
    (ep : Endpoint)
    → IsRing ep
    → Keeps ep (receive_round ep).endpoint [] (taken (receive_round ep).message)
unfolding taken contents
receive_locked-Keeps ep v = elim (receive_round-Receives ep v) [
  | inl (shut, e) ↦ rw e (refused-Keeps ep)
  | inr (inl (up, bare, e)) ↦ rw e (refused-Keeps ep)
  | inr (inr (m, ep', up, c, ring, same, e)) ↦
      rw e (refused-Keeps ep ∙ c ∙ ap (λ l. m ∷ l) (sym (contents-wake_sender ep')))
]

receive_nonblocking-Keeps :
    (ep : Endpoint)
    → IsRing ep
    → Keeps ep (receive_nonblocking ep).endpoint [] (taken (receive_nonblocking ep).message)
unfolding taken
receive_nonblocking-Keeps ep v = elim (receive_nonblocking-Receives ep v) [
  | inl (shut, e) ↦ rw e (refused-Keeps ep)
  | inr (inl (up, bare, e)) ↦ rw e (refused-Keeps ep)
  | inr (inr (m, ep', up, c, ring, same, e)) ↦
      rw e (refused-Keeps ep ∙ c ∙ ap (λ l. m ∷ l) (sym (contents-wake_sender ep')))
]

-- Any step of one thread.
pub Move-Keeps :
    {ep ep' : Endpoint} {p q : Pc} {put got : List Message}
    → IsRing ep
    → Move ep p ep' q put got
    → Keeps ep ep' put got
unfolding contents take_sender take_receiver
Move-Keeps {ep = ep} v (Move.call_send m) = refused-Keeps ep
Move-Keeps {ep = ep} v (Move.send_locked m) = send_locked-Keeps ep m v
Move-Keeps {ep = ep} v (Move.send_woken m post) = refused-Keeps ep
Move-Keeps {ep = ep} v (Move.send_nonblocking m) = send_nonblocking-Keeps ep m v
Move-Keeps {ep = ep} v Move.call_receive = refused-Keeps ep
Move-Keeps {ep = ep} v Move.receive_locked = receive_locked-Keeps ep v
Move-Keeps {ep = ep} v (Move.receive_woken post) = refused-Keeps ep
Move-Keeps {ep = ep} v Move.receive_without_wait = receive_nonblocking-Keeps ep v
