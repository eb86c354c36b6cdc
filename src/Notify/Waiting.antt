-- ===== src/Notify/Waiting.antt =====
-- knotify.c: one thread in knotify_wait, and threads that signal and acknowledge. The parts under the
-- lock of the object are single steps, and the post of knotify_signal_ref is a step of its own.
use sharkix.Common.{
  ℕ, suc, ◌+◌, ◌-◌, ◌^◌, ◌<◌, ◌≡◌, ◌≢◌, ◌⊎◌, inl, inr, ◌==◌, ==_iff, not, Bool, true, false, arith,
  refl, sym, subst, bit_and, bit_not, bit_ext, bit-bit_and, bit_and-mask_sub, Bool-cases, zero,
}
use sharkix.Notify.{Notify, post, set_pending, clear_pending}

-- The points of knotify_wait between its locked parts.
pub data Waiter : Type 0 where
  idle : Waiter
  checking : (bits : ℕ) → Waiter
  sleeping : (bits : ℕ) → Waiter

-- The object, the waiter, and how many signallers have set their bits and have not posted.
pub record Scene : Type 0 where
  pub notify : Notify
  pub waiter : Waiter
  pub owed : ℕ

-- `notify->pending & bits`
abbrev pub ready : ℕ → Notify → Bool
ready bits n = not (bit_and n.pending bits == 0)

-- A post does not wrap the count.
abbrev pub HasRoom : Scene → Type 0
HasRoom c = c.notify.posts + c.owed + 1 < 2 ^ 64

pub data Step : Scene → Scene → Type 0 where
  enters :
      (n : Notify) (owed bits : ℕ)
      → bits ≢ 0
      → Step
          (record { notify = n; waiter = idle; owed = owed })
          (record { notify = n; waiter = checking bits; owed = owed })
  returns :
      (n : Notify) (owed bits : ℕ)
      → ready bits n ≡ true
      → Step
          (record { notify = n; waiter = checking bits; owed = owed })
          (record { notify = n; waiter = idle; owed = owed })
  sleeps :
      (n : Notify) (owed bits : ℕ)
      → ready bits n ≡ false
      → Step
          (record { notify = n; waiter = checking bits; owed = owed })
          (record { notify = n; waiter = sleeping bits; owed = owed })
  wakes :
      (n : Notify) (owed bits : ℕ)
      → n.posts ≢ 0
      → Step
          (record { notify = n; waiter = sleeping bits; owed = owed })
          (record {
            notify = record n { posts = n.posts - 1 };
            waiter = checking bits;
            owed = owed;
          })
  signals :
      (c : Scene) (bits : ℕ)
      → bits ≢ 0
      → HasRoom c
      → Step c (record c { notify = set_pending bits c.notify; owed = suc c.owed })
  posts :
      (n : Notify) (w : Waiter) (owed : ℕ)
      → Step
          (record { notify = n; waiter = w; owed = suc owed })
          (record { notify = post n; waiter = w; owed = owed })
  acknowledges : (c : Scene) (bits : ℕ) → Step c (record c { notify = clear_pending bits c.notify })

pub data Reach (start : Scene) : Scene → Type 0 where
  here : Reach start start
  then_step : {c d : Scene} → Reach start c → Step c d → Reach start d

-- The steps that the waiter takes in the call, and the posts that are owed: no signal, no
-- acknowledgement and no new call.
abbrev pub due : {c d : Scene} → Step c d → Bool
due (enters n owed bits some_bits) = false
due (returns n owed bits r) = true
due (sleeps n owed bits r) = true
due (wakes n owed bits there) = true
due (signals c bits some_bits room) = false
due (posts n w owed) = true
due (acknowledges c bits) = false

-- What follows by such steps alone.
pub data Settles (start : Scene) : Scene → Type 0 where
  at_start : Settles start start
  then_due : {c d : Scene} → Settles start c → (s : Step c d) → due s ≡ true → Settles start d

-- A waiter that sleeps has none of its bits pending, or a post is there or owed.
abbrev Sound : Waiter → Notify → (owed : ℕ) → Type 0
Sound idle n owed = Unit {0}
Sound (checking bits) n owed = Unit {0}
Sound (sleeping bits) n owed = (ready bits n ≡ false) ⊎ (0 < n.posts + owed)

abbrev Served : Scene → Type 0
Served c = (c.notify.posts + c.owed < 2 ^ 64) × Sound c.waiter c.notify c.owed

clear_ready :
    (bits gone : ℕ) (n : Notify) → ready bits n ≡ false → ready bits (clear_pending gone n) ≡ false
clear_ready bits gone n none_there =
    let was : bit_and n.pending bits ≡ 0 =
      ground (arith, none_there, ==_iff (bit_and n.pending bits) 0) in
    let kept = bit_and n.pending (bit_not gone) in
    let within : bit_and kept n.pending ≡ kept =
      bit_ext (bit_and kept n.pending) kept
        λ i. omega (arith, bit-bit_and kept n.pending i, bit-bit_and n.pending (bit_not gone) i) in
    let clear = bit_and-mask_sub kept n.pending bits within was in
    ground (arith, clear, ==_iff (bit_and kept bits) 0)

posted_Sound : (w : Waiter) (n : Notify) (owed : ℕ) → 0 < n.posts + owed → Sound w n owed
posted_Sound idle n owed p = tt
posted_Sound (checking bits) n owed p = tt
posted_Sound (sleeping bits) n owed p = inr p

cleared_Sound :
    (w : Waiter) (n : Notify) (owed gone : ℕ) → Sound w n owed → Sound w (clear_pending gone n) owed
cleared_Sound idle n owed gone s = tt
cleared_Sound (checking bits) n owed gone s = tt
cleared_Sound (sleeping bits) n owed gone (inl none_there) =
    inl (clear_ready bits gone n none_there)
cleared_Sound (sleeping bits) n owed gone (inr p) = inr p

Step-Served : (c d : Scene) → Step c d → Served c → Served d
Step-Served _ _ (enters n owed bits some_bits) s = (s.0, tt)
Step-Served _ _ (returns n owed bits r) s = (s.0, tt)
Step-Served _ _ (sleeps n owed bits r) s = (s.0, inl r)
Step-Served _ _ (wakes n owed bits there) s = (omega (arith, s.0), tt)
Step-Served _ _ (signals c bits some_bits room) s = (
  omega (arith, room),
  posted_Sound c.waiter (set_pending bits c.notify) (suc c.owed) (omega arith),
)
Step-Served _ _ (posts n w owed) s =
    (omega (arith, s.0), posted_Sound w (post n) owed (omega (arith, s.0)))
Step-Served _ _ (acknowledges c bits) s = (s.0, cleared_Sound c.waiter c.notify c.owed bits s.1)

Reach-Served : (c d : Scene) → Reach c d → Served c → Served d
Reach-Served c _ here s = s
Reach-Served c d (then_step {c = e} r t) s = Step-Served e d t (Reach-Served c e r s)

-- A waiter that has a post and a pending bit takes the one and returns for the other.
wakes_up :
    (n : Notify) (owed bits : ℕ)
    → n.posts ≢ 0
    → ready bits n ≡ true
    → (d : Scene) × Settles (record { notify = n; waiter = sleeping bits; owed = owed }) d
      × (d.waiter ≡ idle)
wakes_up n owed bits there r =
    let less = record n { posts = n.posts - 1 } in
    (
      record { notify = less; waiter = idle; owed = owed },
      then_due (then_due at_start (wakes n owed bits there) refl) (returns less owed bits r) refl,
      refl,
    )

then_more : {c d e : Scene} (s : Step c d) → due s ≡ true → Settles d e → Settles c e
then_more s own at_start = then_due at_start s own
then_more s own (then_due r t also) = then_due (then_more s own r) t also

-- From a post that is owed on, what follows the post.
post_first :
    {e : Scene} (n : Notify) (w : Waiter) (owed k : ℕ)
    → owed ≡ suc k
    → Settles (record { notify = post n; waiter = w; owed = k }) e
    → Settles (record { notify = n; waiter = w; owed = owed }) e
post_first {e} n w owed k is_suc r =
    subst (λ m. Settles (record { notify = n; waiter = w; owed = m }) e) (sym is_suc)
      (then_more (posts n w k) refl r)

positive : (m : ℕ) → 0 < m → (k : ℕ) × (m ≡ suc k)
positive zero p = absurd (omega arith)
positive (suc k) p = (k, refl)

-- With one thread at a time in knotify_wait, from any start in which no thread waits and the posts fit
-- the count, no wakeup is lost: when the thread sleeps, either none of its bits is pending, or a post is
-- there or owed by a signaller that set its bits. In the second case the steps of the waiter and
-- the owed posts lead out of the call, with no other signal, acknowledgement or call.
pub waiter_served :
    (start : Scene) (n : Notify) (owed bits : ℕ)
    → start.waiter ≡ idle
    → start.notify.posts + start.owed < 2 ^ 64
    → Reach start (record { notify = n; waiter = sleeping bits; owed = owed })
    → (ready bits n ≡ false)
      ⊎ ((0 < n.posts + owed)
          × ((d : Scene) × Settles (record { notify = n; waiter = sleeping bits; owed = owed }) d
              × (d.waiter ≡ idle)))
waiter_served start n owed bits quiet room r =
    let c : Scene = record { notify = n; waiter = sleeping bits; owed = owed } in
    let s =
      Reach-Served start c r (room, subst (λ w. Sound w start.notify start.owed) (sym quiet) tt) in
    elim (Bool-cases (ready bits n)) [
      | inr none_there ↦ inl none_there
      | inl some_there ↦
          let p : 0 < n.posts + owed = ground (arith, s.1, some_there) in
          elim (Bool-cases (n.posts == 0)) [
            | inr have ↦
                inr (p, wakes_up n owed bits (ground (arith, have, ==_iff n.posts 0)) some_there)
            | inl bare ↦
                let none_yet : n.posts ≡ 0 = (==_iff n.posts 0).0 bare in
                let (k, is_suc) = positive owed (omega (arith, p, none_yet)) in
                let (d, path, back) =
                  wakes_up (post n) k bits (omega (arith, none_yet)) some_there in
                inr (p, (d, post_first n (sleeping bits) owed k is_suc path, back))
          ]
    ]
