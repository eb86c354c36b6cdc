-- ===== src/Ipc/Threads/Count.antt =====
-- How many threads stand at a given place.
use sharkix.Common.{
  ℕ, zero, suc, ◌+◌, ◌≤◌, ◌<◌, ◌≡◌, refl, List, [], ◌∷◌, length, get_or, set, replicate, arith,
}
use sharkix.Ipc.Threads.{Pc}

unfoldable pub count : (Pc → ℕ) → List Pc → ℕ
count f [] = 0
count f (p ∷ ps) = f p + count f ps

pub count-set :
    (f : Pc → ℕ) (ps : List Pc) (i : ℕ) (p : Pc)
    → i < length ps
    → count f (set ps i p) + f (get_or ps i Pc.idle) ≡ count f ps + f p
unfolding count
count-set f [] i p h = absurd (omega arith)
count-set f (q ∷ ps) zero p h = omega arith
count-set f (q ∷ ps) (suc i) p h = omega (arith, count-set f ps i p (omega arith))

pub count-length : (f : Pc → ℕ) → ((p : Pc) → f p ≤ 1) → (ps : List Pc) → count f ps ≤ length ps
unfolding count
count-length f h [] = omega arith
count-length f h (p ∷ ps) = omega (arith, h p, count-length f h ps)

pub count-get :
    (f : Pc → ℕ) (ps : List Pc) (i : ℕ) → i < length ps → f (get_or ps i Pc.idle) ≤ count f ps
unfolding count
count-get f [] i h = absurd (omega arith)
count-get f (q ∷ ps) zero h = omega arith
count-get f (q ∷ ps) (suc i) h = omega (arith, count-get f ps i (omega arith))

pub count-replicate : (f : Pc → ℕ) → f Pc.idle ≡ 0 → (n : ℕ) → count f (replicate n Pc.idle) ≡ 0
unfolding count
count-replicate f h zero = refl
count-replicate f h (suc n) = omega (arith, h, count-replicate f h n)

-- 1 at ksem_wait on the senders' semaphore, and so on.
unfoldable pub send_waits : Pc → ℕ
send_waits Pc.idle = 0
send_waits (Pc.sending m) = 0
send_waits (Pc.send_asleep m) = 1
send_waits Pc.receiving = 0
send_waits Pc.receive_asleep = 0

unfoldable pub send_runs : Pc → ℕ
send_runs Pc.idle = 0
send_runs (Pc.sending m) = 1
send_runs (Pc.send_asleep m) = 0
send_runs Pc.receiving = 0
send_runs Pc.receive_asleep = 0

unfoldable pub receive_waits : Pc → ℕ
receive_waits Pc.idle = 0
receive_waits (Pc.sending m) = 0
receive_waits (Pc.send_asleep m) = 0
receive_waits Pc.receiving = 0
receive_waits Pc.receive_asleep = 1

unfoldable pub receive_runs : Pc → ℕ
receive_runs Pc.idle = 0
receive_runs (Pc.sending m) = 0
receive_runs (Pc.send_asleep m) = 0
receive_runs Pc.receiving = 1
receive_runs Pc.receive_asleep = 0
