-- ===== src/Notify/Tests.antt =====
-- Concrete notifications of knotify.c.
use sharkix.Common.{◌+◌, ◌<◌, ◌≡◌, ◌⊎◌, refl, true, false, some, arith}
use sharkix.Table.Assoc.{assoc_table}
use sharkix.Notify.{
  Notify, Notifies, set_pending, knotify_init, knotify_create, knotify_signal, knotify_signal_ref,
  knotify_poll, knotify_ack, knotify_acquire, knotify_release, release,
}
use sharkix.Notify.Calls.{create, signal, ack, step, spec, IsValid, view}
use sharkix.Notify.Refinement.{Refines}
use sharkix.Notify.Steps.{step-Refines, knotify_init-IsValid}
use sharkix.Notify.Waiting.{
  Scene, idle, sleeping, ready, enters, sleeps, signals, Reach, Settles, here, then_step,
  waiter_served,
}

abbrev one : Notifies
one = step (step knotify_init (create true true)) (signal 1 6)

-- A signal of two bits, and one of them acknowledged.
signalled : view (step one (ack 1 4)) 1 ≡ some 2
unfolding step knotify_init knotify_create knotify_signal knotify_signal_ref knotify_poll
    knotify_ack knotify_acquire knotify_release release
signalled = refl

one-IsValid : IsValid one
one-IsValid =
    let first = step-Refines knotify_init (create true true) knotify_init-IsValid in
    (step-Refines (step knotify_init (create true true)) (signal 1 6) first.0).0

step-Refines_example :
    Refines (spec (ack 1 4) one.next_notify_handle (view one)) (step one (ack 1 4))
step-Refines_example = step-Refines one (ack 1 4) one-IsValid

abbrev quiet : Notify
quiet = record { handle = 1; references = 2; pending = 0; posts = 0 }

abbrev start : Scene
start = record { notify = quiet; waiter = idle; owed = 0 }

-- The waiter sleeps, and a signaller has set its bit and owes the post.
caught : Reach start (record { notify = set_pending 4 quiet; waiter = sleeping 4; owed = 1 })
caught =
    then_step
      (then_step (then_step here (enters quiet 0 4 (λ e. absurd (omega (arith, e)))))
        (sleeps quiet 0 4 refl))
      (signals (record { notify = quiet; waiter = sleeping 4; owed = 0 }) 4
        (λ e. absurd (omega (arith, e))) (omega arith))

waiter_served_example :
    (ready 4 (set_pending 4 quiet) ≡ false)
    ⊎ ((0 < 0 + 1)
        × ((d : Scene) × Settles
              (record { notify = set_pending 4 quiet; waiter = sleeping 4; owed = 1 })
              d
            × (d.waiter ≡ idle)))
waiter_served_example = waiter_served start (set_pending 4 quiet) 1 4 refl (omega arith) caught
