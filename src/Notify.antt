-- ===== src/Notify.antt =====
-- src/kernel/subsystems/knotify.c and include/sharkix/kernel/subsystems/knotify.h: notifications. `out` says that
-- the result pointer is not NULL and `mem` that kmalloc succeeds; a status is a Bool, and `true` is 0.
pub mod Calls
pub mod Borrow
pub mod Refinement
pub mod Steps
pub mod Waiting
pub mod Tests
use sharkix.Common.{
  ℕ, ◌+◌, ◌-◌, ◌%◌, ◌^◌, ◌==◌, not, ◌&&◌, ◌||◌, if◌then◌else◌, Bool, true, false, Option, none,
  some, bit_and, bit_or, bit_not,
}
use sharkix.Table.{UtHash}
use sharkix.Table.Laws.{Table, find, add, del, modify, empty}

abbrev pub notify_invalid_handle : ℕ
notify_invalid_handle = 2 ^ 64 - 1

-- notify_t; `posts` is the count of the semaphore `sem`.
pub record Notify : Type 0 where
  pub handle : ℕ
  pub references : ℕ
  pub pending : ℕ
  pub posts : ℕ

-- ksem_post
abbrev pub post : Notify → Notify
post n = record n { posts = (n.posts + 1) % 2 ^ 64 }

-- knotify_signal_ref under the lock.
abbrev pub set_pending : ℕ → Notify → Notify
set_pending bits n = record n { pending = bit_or n.pending bits }

-- knotify_ack under the lock.
abbrev pub clear_pending : ℕ → Notify → Notify
clear_pending bits n = record n { pending = bit_and n.pending (bit_not bits) }

unfoldable pub knotify_signal_ref : (bits : ℕ) → Notify → Notify
knotify_signal_ref bits n = if bits == 0 then n else post (set_pending bits n)

-- The count of references after knotify_release, and whether the memory goes; `none` is the endless loop.
unfoldable pub release : ℕ → Option (ℕ × Bool)
release references = if references == 0 then none else some (references - 1, references - 1 == 0)

module _ ⦃h : UtHash⦄ where
  -- The static variables of knotify.c.
  pub record Notifies : Type 0 where
    pub global_notify_table : Table Notify
    pub next_notify_handle : ℕ

  abbrev pub change : ℕ → (Notify → Notify) → Notifies → Notifies
  change handle f s = record s { global_notify_table = modify handle f s.global_notify_table }

  abbrev pub knotify_find_locked : ℕ → Notifies → Option Notify
  knotify_find_locked handle s = find handle s.global_notify_table

  -- The object, which the table holds, or `none` for NULL.
  unfoldable pub knotify_acquire : ℕ → Notifies → Notifies × Option Notify
  knotify_acquire handle s =
      if handle == notify_invalid_handle then (s, none) else elim (knotify_find_locked handle s) [
        | none ↦ (s, none)
        | some n ↦
            let held = record n { references = (n.references + 1) % 2 ^ 64 } in
            (change handle (λ m. held) s, some held)
      ]

  -- knotify_release of an object that the table holds, which has the table's reference left.
  unfoldable pub knotify_release : ℕ → Notifies → Notifies
  knotify_release handle s = elim (knotify_find_locked handle s) [
    | none ↦ s
    | some n ↦ elim (release n.references) [
      | none ↦ s
      | some (left, freed) ↦ change handle (λ m. record m { references = left }) s
    ]
  ]

  unfoldable pub knotify_init : Notifies
  knotify_init = record { global_notify_table = empty Notify; next_notify_handle = 1 }

  -- The status, and what is written to `*out`, if anything.
  unfoldable pub knotify_create : (out mem : Bool) → Notifies → Notifies × Bool × Option ℕ
  knotify_create out mem s =
      if not out
      then (s, false, none)
      else if not mem
      then (s, false, some notify_invalid_handle)
      else if s.next_notify_handle == notify_invalid_handle
      then (s, false, some notify_invalid_handle)
      else (
        record s {
          next_notify_handle = (s.next_notify_handle + 1) % 2 ^ 64;
          global_notify_table =
              add s.next_notify_handle
                (record { handle = s.next_notify_handle; references = 1; pending = 0; posts = 0 })
                s.global_notify_table;
        },
        true,
        some s.next_notify_handle,
      )

  -- With the status, whether the memory goes at once.
  unfoldable pub knotify_destroy : ℕ → Notifies → Notifies × Bool × Bool
  knotify_destroy handle s =
      if handle == notify_invalid_handle
      then (s, false, false)
      else elim (knotify_find_locked handle s) [
        | none ↦ (s, false, false)
        | some n ↦ (
          record s { global_notify_table = del handle s.global_notify_table },
          true,
          elim (release n.references) [ none ↦ false | some (left, freed) ↦ freed ],
        )
      ]

  unfoldable pub knotify_signal : (handle bits : ℕ) → Notifies → Notifies × Bool
  knotify_signal handle bits s =
      if handle == notify_invalid_handle
      then (s, false)
      else let (s', found) = knotify_acquire handle s in
        elim found [
          | none ↦ (s', false)
          | some n ↦ (knotify_release handle (change handle (knotify_signal_ref bits) s'), true)
        ]

  -- What is written to `*out_bits`, or `none` for -1.
  unfoldable pub knotify_poll : (out : Bool) (handle : ℕ) → Notifies → Notifies × Option ℕ
  knotify_poll out handle s =
      if handle == notify_invalid_handle || not out
      then (s, none)
      else let (s', found) = knotify_acquire handle s in
        elim found [ none ↦ (s', none) | some n ↦ (knotify_release handle s', some n.pending) ]

  unfoldable pub knotify_ack : (handle bits : ℕ) → Notifies → Notifies × Bool
  knotify_ack handle bits s =
      if handle == notify_invalid_handle
      then (s, false)
      else let (s', found) = knotify_acquire handle s in
        elim found [
          | none ↦ (s', false)
          | some n ↦ (knotify_release handle (change handle (clear_pending bits) s'), true)
        ]
