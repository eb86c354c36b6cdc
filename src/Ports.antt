-- ===== src/Ports.antt =====
-- src/kernel/subsystems/kportio.c and include/sharkix/kernel/subsystems/kportio.h: ranges of I/O ports.
-- The parameters `out`, `mem` and `value` say that the result pointer is not NULL, that kmalloc
-- succeeds, and that the value pointer is not NULL. Each function runs under the table's lock.
pub mod Valid
pub mod Access
pub mod Lifetime
pub mod Tests
use sharkix.Common.{
  ℕ, ◌+◌, ◌-◌, ◌%◌, ◌^◌, ◌==◌, ltb, if◌then◌else◌, Bool, true, false, not, ◌&&◌, ◌||◌, Option, none,
  some, List, [], ◌∷◌,
}
use sharkix.Table.{UtHash}
use sharkix.Table.Laws.{Table, empty, find, add, del}

-- portio_t
pub record PortIo : Type 0 where
  pub handle : ℕ
  pub base : ℕ
  pub length : ℕ

-- PORTIO_INVALID_HANDLE, UINT64_MAX
abbrev pub portio_invalid_handle : ℕ
portio_invalid_handle = 2 ^ 64 - 1

-- The machine's I/O ports, through the instructions in and out of 1, 2 or 4 bytes.
pub record Bus : Type 1 where
  pub Device : Type 0
  pub read : (width port : ℕ) → Device → ℕ × Device
  pub write : (width port value : ℕ) → Device → Device

module _ ⦃h : UtHash⦄ where
  -- The static variables of kportio.c.
  pub record Ports : Type 0 where
    pub next_portio_handle : ℕ
    pub global_portio_table : Table PortIo

  abbrev pub kportio_find_locked : ℕ → Ports → Option PortIo
  kportio_find_locked handle s = find handle s.global_portio_table

  -- The new handle, or `none` for -1.
  unfoldable pub kportio_insert_locked : (base length : ℕ) → Ports → Ports × Option ℕ
  kportio_insert_locked base length s =
      if s.next_portio_handle == portio_invalid_handle then (s, none) else (
        record s {
          next_portio_handle = (s.next_portio_handle + 1) % 2 ^ 64;
          global_portio_table =
              add s.next_portio_handle
                (record { handle = s.next_portio_handle; base = base; length = length })
                s.global_portio_table;
        },
        some s.next_portio_handle,
      )

  -- `length - offset` is not reached when it would wrap.
  unfoldable pub kportio_resolve_port_locked : (handle offset width : ℕ) → Ports → Option ℕ
  kportio_resolve_port_locked handle offset width s = elim (kportio_find_locked handle s) [
    | none ↦ none
    | some portio ↦
        if ltb portio.length offset || ltb (portio.length - offset) width
        then none
        else some ((portio.base + offset) % 2 ^ 32 % 2 ^ 16)
  ]

  unfoldable pub kportio_init : Ports
  kportio_init = record { next_portio_handle = 1; global_portio_table = empty PortIo }

  -- The status, and what is written to `*out`.
  unfoldable pub kportio_create :
      (out mem : Bool) (base length : ℕ) → Ports → Ports × Bool × Option ℕ
  kportio_create out mem base length s =
      if not out || length == 0 || ltb (2 ^ 16 - base) length
      then (s, false, none)
      else if not mem
      then (s, false, some portio_invalid_handle)
      else let (s', result) = kportio_insert_locked base length s in
        elim result [
          | none ↦ (s', false, some portio_invalid_handle)
          | some handle ↦ (s', true, some handle)
        ]

  -- The status, and what is written to `*out`.
  unfoldable pub kportio_get : (out : Bool) → ℕ → Ports → Bool × Option PortIo
  kportio_get out handle s =
      if not out || handle == portio_invalid_handle
      then (false, none)
      else elim (kportio_find_locked handle s) [
        | none ↦ (false, some (record { handle = portio_invalid_handle; base = 0; length = 0 }))
        | some portio ↦ (
          true,
          some (record { handle = portio.handle; base = portio.base; length = portio.length }),
        )
      ]

  unfoldable pub kportio_destroy : ℕ → Ports → Ports × Bool
  kportio_destroy handle s =
      if handle == portio_invalid_handle then (s, false) else elim (kportio_find_locked handle s) [
        | none ↦ (s, false)
        | some _ ↦ (record s { global_portio_table = del handle s.global_portio_table }, true)
      ]

  module _ (bus : Bus) where
    -- The body of kportio_inb, kportio_inw and kportio_inl: `checked` is the size that the range is
    -- tested for, and `width` that of the instruction.
    unfoldable pub port_in :
        (checked width : ℕ) (value : Bool) (handle offset : ℕ)
        → Ports
        → bus.Device
        → Option ℕ × bus.Device
    port_in checked width value handle offset s d =
        if not value
        then (none, d)
        else elim (kportio_resolve_port_locked handle offset checked s) [
          | none ↦ (none, d)
          | some port ↦ let (x, d') = bus.read width port d in (some x, d')
        ]

    -- The body of kportio_outb, kportio_outw and kportio_outl.
    unfoldable pub port_out :
        (checked width handle offset value : ℕ) → Ports → bus.Device → Bool × bus.Device
    port_out checked width handle offset value s d =
        elim (kportio_resolve_port_locked handle offset checked s) [
          | none ↦ (false, d)
          | some port ↦ (true, bus.write width port value d)
        ]

    unfoldable pub kportio_inb : Bool → ℕ → ℕ → Ports → bus.Device → Option ℕ × bus.Device
    kportio_inb = port_in 1 1

    unfoldable pub kportio_inw : Bool → ℕ → ℕ → Ports → bus.Device → Option ℕ × bus.Device
    kportio_inw = port_in 2 2

    unfoldable pub kportio_inl : Bool → ℕ → ℕ → Ports → bus.Device → Option ℕ × bus.Device
    kportio_inl = port_in 4 4

    unfoldable pub kportio_outb : ℕ → ℕ → ℕ → Ports → bus.Device → Bool × bus.Device
    kportio_outb = port_out 1 1

    unfoldable pub kportio_outw : ℕ → ℕ → ℕ → Ports → bus.Device → Bool × bus.Device
    kportio_outw = port_out 2 2

    unfoldable pub kportio_outl : ℕ → ℕ → ℕ → Ports → bus.Device → Bool × bus.Device
    kportio_outl = port_out 4 4

-- The calls that change the table. `base` is a uint16_t and `length` a uint32_t, so the arguments
-- wrap.
pub data Call : Type 0 where
  create : (out mem : Bool) (base length : ℕ) → Call
  destroy : (handle : ℕ) → Call

module _ ⦃h : UtHash⦄ where
  unfoldable pub step : Ports → Call → Ports
  step s (create out mem base length) =
      (kportio_create out mem (base % 2 ^ 16) (length % 2 ^ 32) s).0
  step s (destroy handle) = (kportio_destroy handle s).0

  unfoldable pub run : Ports → List Call → Ports
  run s [] = s
  run s (c ∷ cs) = run (step s c) cs
