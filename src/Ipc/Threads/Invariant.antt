-- ===== src/Ipc/Threads/Invariant.antt =====
-- Every step of a thread keeps the numbers around an endpoint sound.
use sharkix.Common.{ℕ, inl, inr, List, length, arith, sym, subst, ap, ◌∙◌, refl}
use sharkix.Ipc.Endpoint.{
  Endpoint, Message, enqueue_round, kipc_enqueue_nonblocking, receive_round, receive_nonblocking,
  wake_sender, wake_receiver,
}
use sharkix.Ipc.Queue.{IsRing, length-contents}
use sharkix.Ipc.Threads.{Pc, Move, after_send, after_receive}
use sharkix.Ipc.Threads.Count.{send_waits, send_runs, receive_waits, receive_runs}
use sharkix.Ipc.Threads.Sound.{Sound, Tally}
use sharkix.Ipc.Threads.Rounds.{
  enqueue_round-Sends, kipc_enqueue_nonblocking-Sends, receive_round-Receives,
  receive_nonblocking-Receives,
}
use sharkix.Ipc.Threads.Moves.{
  Shift, Few, idle-Sound, closed-Sound, send_wait-Sound, receive_wait-Sound, send_woken-Sound,
  receive_woken-Sound, pushed-Sound, popped-Sound,
}

module _ {ep : Endpoint} {t t' : Tally} {o r : ℕ} where
  -- A round of kipc_enqueue_blocking.
  send_locked-Sound :
      (m : Message)
      → Sound ep t o r
      → Few t'
      → Shift t (Pc.sending m) (after_send m (enqueue_round ep m).outcome) t'
      → Sound (enqueue_round ep m).endpoint t' o r
  unfolding after_send send_waits send_runs receive_waits receive_runs
  send_locked-Sound m h few = elim (enqueue_round-Sends ep m h.ring) [
    | inl (shut, e) ↦
        subst (λ p. Shift t (Pc.sending m) (after_send m p.outcome) t' → Sound p.endpoint t' o r)
          (sym e)
          (λ s. closed-Sound h shut (omega (arith, s.send_wait)) (omega (arith, s.receive_wait)))
    | inr (inl (up, full, e)) ↦
        subst (λ p. Shift t (Pc.sending m) (after_send m p.outcome) t' → Sound p.endpoint t' o r)
          (sym e)
          (λ s.
            send_wait-Sound h up full (omega (arith, s.send_wait)) (omega (arith, s.receive_wait))
              (omega (arith, s.receive_run)) few)
    | inr (inr (ep', up, room, c, ring, same, e)) ↦
        subst (λ p. Shift t (Pc.sending m) (after_send m p.outcome) t' → Sound p.endpoint t' o r)
          (sym e)
          (λ s.
            subst (λ x. Sound (wake_receiver x) t' o r) (sym same)
              (pushed-Sound h up (subst IsRing same ring) (omega (arith, s.send_wait))
                (omega (arith, s.send_run)) (omega (arith, s.receive_wait))
                (omega (arith, s.receive_run))))
  ]

  -- A round of kipc_recv.
  receive_locked-Sound :
      Sound ep t o r
      → Few t'
      → Shift t Pc.receiving (after_receive (receive_round ep).outcome) t'
      → Sound (receive_round ep).endpoint t' o r
  unfolding after_receive send_waits send_runs receive_waits receive_runs
  receive_locked-Sound h few = elim (receive_round-Receives ep h.ring) [
    | inl (shut, e) ↦
        subst (λ p. Shift t Pc.receiving (after_receive p.outcome) t' → Sound p.endpoint t' o r)
          (sym e)
          (λ s. closed-Sound h shut (omega (arith, s.send_wait)) (omega (arith, s.receive_wait)))
    | inr (inl (up, bare, e)) ↦
        subst (λ p. Shift t Pc.receiving (after_receive p.outcome) t' → Sound p.endpoint t' o r)
          (sym e)
          (λ s.
            receive_wait-Sound h up (sym (length-contents ep) ∙ ap length bare)
              (omega (arith, s.send_wait)) (omega (arith, s.send_run))
              (omega (arith, s.receive_wait)) few)
    | inr (inr (m, ep', up, c, ring, same, e)) ↦
        subst (λ p. Shift t Pc.receiving (after_receive p.outcome) t' → Sound p.endpoint t' o r)
          (sym e)
          (λ s.
            subst (λ x. Sound (wake_sender x) t' o r) (sym same)
              (popped-Sound h up (omega (arith, length-contents ep, ap length c))
                (subst IsRing same ring) (omega (arith, s.send_wait)) (omega (arith, s.send_run))
                (omega (arith, s.receive_wait)) (omega (arith, s.receive_run))))
  ]

-- The calls that do not wait leave no thread behind.
module _ {ep : Endpoint} {t : Tally} {o r : ℕ} where
  send_nonblocking-Sound :
      (m : Message) → Sound ep t o r → Sound (kipc_enqueue_nonblocking ep m).endpoint t o r
  send_nonblocking-Sound m h = elim (kipc_enqueue_nonblocking-Sends ep m h.ring) [
    | inl (shut, e) ↦ subst (λ p. Sound p.endpoint t o r) (sym e) h
    | inr (inl (up, full, e)) ↦ subst (λ p. Sound p.endpoint t o r) (sym e) h
    | inr (inr (ep', up, room, c, ring, same, e)) ↦
        subst (λ p. Sound p.endpoint t o r) (sym e)
          (subst (λ x. Sound (wake_receiver x) t o r) (sym same)
            (pushed-Sound h up (subst IsRing same ring) refl (omega arith) refl refl))
  ]

  receive_nonblocking-Sound : Sound ep t o r → Sound (receive_nonblocking ep).endpoint t o r
  receive_nonblocking-Sound h = elim (receive_nonblocking-Receives ep h.ring) [
    | inl (shut, e) ↦ subst (λ p. Sound p.endpoint t o r) (sym e) h
    | inr (inl (up, bare, e)) ↦ subst (λ p. Sound p.endpoint t o r) (sym e) h
    | inr (inr (m, ep', up, c, ring, same, e)) ↦
        subst (λ p. Sound p.endpoint t o r) (sym e)
          (subst (λ x. Sound (wake_sender x) t o r) (sym same)
            (popped-Sound h up (omega (arith, length-contents ep, ap length c))
              (subst IsRing same ring) refl refl refl (omega arith)))
  ]

-- Any step of one thread.
pub Move-Sound :
    {ep ep' : Endpoint} {t t' : Tally} {o r : ℕ} {p q : Pc} {put got : List Message}
    → Sound ep t o r
    → Few t'
    → Shift t p q t'
    → Move ep p ep' q put got
    → Sound ep' t' o r
unfolding send_waits send_runs receive_waits receive_runs
Move-Sound h few s (Move.call_send m) =
    idle-Sound h (omega (arith, s.send_wait)) (omega (arith, s.send_run))
      (omega (arith, s.receive_wait)) (omega (arith, s.receive_run))
Move-Sound h few s (Move.send_locked m) = send_locked-Sound m h few s
Move-Sound h few s (Move.send_woken m post) =
    send_woken-Sound h post (omega (arith, s.send_wait)) (omega (arith, s.send_run))
      (omega (arith, s.receive_wait)) (omega (arith, s.receive_run))
Move-Sound h few s (Move.send_nonblocking m) =
    idle-Sound (send_nonblocking-Sound m h) (omega (arith, s.send_wait)) (omega (arith, s.send_run))
      (omega (arith, s.receive_wait)) (omega (arith, s.receive_run))
Move-Sound h few s Move.call_receive =
    idle-Sound h (omega (arith, s.send_wait)) (omega (arith, s.send_run))
      (omega (arith, s.receive_wait)) (omega (arith, s.receive_run))
Move-Sound h few s Move.receive_locked = receive_locked-Sound h few s
Move-Sound h few s (Move.receive_woken post) =
    receive_woken-Sound h post (omega (arith, s.send_wait)) (omega (arith, s.send_run))
      (omega (arith, s.receive_wait)) (omega (arith, s.receive_run))
Move-Sound h few s Move.receive_without_wait =
    idle-Sound (receive_nonblocking-Sound h) (omega (arith, s.send_wait))
      (omega (arith, s.send_run)) (omega (arith, s.receive_wait)) (omega (arith, s.receive_run))
