-- ===== src/Sched/Deadlines.antt =====
-- scheduler.c: the comparison of ticks.
use sharkix.Common.{ℕ, ◌+◌, ◌%◌, ◌^◌, ◌<◌, ◌≤◌, ◌≡◌, ltb, arith}
use sharkix.Sched.{before_tick}

-- A thread that goes to sleep at tick t for n ticks, n at most 2^63, is before its tick k ticks later
-- exactly when k is less than n, for every k below 2^63, and also where the counter wraps.
pub before_tick_lem :
    (t n k : ℕ)
    → t < 2 ^ 64
    → n ≤ 2 ^ 63
    → k < 2 ^ 63
    → before_tick ((t + k) % 2 ^ 64) ((t + n) % 2 ^ 64) ≡ ltb k n
before_tick_lem t n k ht hn hk = ground arith
