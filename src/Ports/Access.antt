-- ===== src/Ports/Access.antt =====
-- Which I/O ports an access reaches.
use sharkix.Common.{
  ℕ, ◌+◌, ◌-◌, ◌%◌, ◌^◌, Bool, Option, ◌<◌, ◌≤◌, ◌≡◌, ltb, ◌||◌, true, false, Bool-cases, none,
  some, arith, inl, inr, Option-cases, ◌⊎◌, refl,
}
use sharkix.Table.{UtHash}
use sharkix.Table.Laws.{find}
use sharkix.Ports.{
  PortIo, Ports, Bus, kportio_resolve_port_locked, port_in, port_out, kportio_outb, kportio_outw,
  kportio_outl, kportio_inb, kportio_inw, kportio_inl,
}
use sharkix.Ports.Valid.{IsValid}

module _ ⦃h : UtHash⦄ where
  -- No such range, or the access leaves it.
  abbrev pub OutOfRange : (handle offset width : ℕ) → Ports → Type 0
  OutOfRange handle offset width s =
      (find handle s.global_portio_table ≡ none)
      ⊎ ((p : PortIo) × (find handle s.global_portio_table ≡ some p) × (p.length < offset + width))

  -- `port` is `offset` into the handle's range, and the access ends inside the range.
  abbrev pub Within : (handle offset width port : ℕ) → Ports → Type 0
  Within handle offset width port s =
      (p : PortIo) × (find handle s.global_portio_table ≡ some p)
      × (port ≡ p.base + offset)
      × (offset + width ≤ p.length)
      × (port + width ≤ 2 ^ 16)

  -- For a valid table and a width of at least 1, kportio_resolve_port_locked refuses exactly the
  -- accesses out of range, and else gives the port `offset` into the range, never truncated.
  pub kportio_resolve_port_locked_lem :
      (handle offset width : ℕ) (s : Ports)
      → IsValid s
      → 0 < width
      → (OutOfRange handle offset width s
          × (kportio_resolve_port_locked handle offset width s ≡ none))
        ⊎ ((port : ℕ) × Within handle offset width port s
            × (kportio_resolve_port_locked handle offset width s ≡ some port))
  unfolding kportio_resolve_port_locked
  kportio_resolve_port_locked_lem handle offset width s v some_width =
      elim (Option-cases (find handle s.global_portio_table)) [
        | inl absent ↦ inl (inl absent, simp (absent, kportio_resolve_port_locked))
        | inr (p, here) ↦
            let ok = (v.ports handle p here).1 in
            elim (Bool-cases (ltb p.length offset || ltb (p.length - offset) width)) [
              | inl bad ↦ inl (
                inr (p, here, ground (arith, bad)),
                simp (here, bad, kportio_resolve_port_locked),
              )
              | inr good ↦
                  let inside : offset + width ≤ p.length = ground (arith, good) in
                  let same : (p.base + offset) % 2 ^ 32 % 2 ^ 16 ≡ p.base + offset =
                    omega (arith, ok.inside) in
                  inr (
                    p.base + offset,
                    (p, here, refl, inside, omega (arith, ok.inside)),
                    simp (here, good, same, kportio_resolve_port_locked),
                  )
            ]
      ]

  module _ (bus : Bus) where
    -- What a write of `width` bytes did: it was out of range and touched no port, or it wrote once.
    abbrev pub Writes :
        (width handle offset value : ℕ) (s : Ports) (d : bus.Device) → Bool × bus.Device → Type 0
    Writes width handle offset value s d r =
        (OutOfRange handle offset width s × (r ≡ (false, d)))
        ⊎ ((port : ℕ) × Within handle offset width port s
            × (r ≡ (true, bus.write width port value d)))

    -- What a read of `width` bytes did.
    abbrev pub Reads :
        (width handle offset : ℕ) (s : Ports) (d : bus.Device) → Option ℕ × bus.Device → Type 0
    Reads width handle offset s d r =
        (OutOfRange handle offset width s × (r ≡ (none, d)))
        ⊎ ((port : ℕ) × Within handle offset width port s
            × (r ≡ (some (bus.read width port d).0, (bus.read width port d).1)))

    port_out_lem :
        (width handle offset value : ℕ) (s : Ports) (d : bus.Device)
        → IsValid s
        → 0 < width
        → Writes width handle offset value s d (port_out bus width width handle offset value s d)
    unfolding port_out
    port_out_lem width handle offset value s d v some_width =
        elim (kportio_resolve_port_locked_lem handle offset width s v some_width) [
          | inl (bad, e) ↦ inl (bad, simp (e, port_out))
          | inr (port, good, e) ↦ inr (port, good, simp (e, port_out))
        ]

    port_in_lem :
        (width handle offset : ℕ) (s : Ports) (d : bus.Device)
        → IsValid s
        → 0 < width
        → Reads width handle offset s d (port_in bus width width true handle offset s d)
    unfolding port_in
    port_in_lem width handle offset s d v some_width =
        elim (kportio_resolve_port_locked_lem handle offset width s v some_width) [
          | inl (bad, e) ↦ inl (bad, simp (e, port_in))
          | inr (port, good, e) ↦ inr (port, good, simp (e, port_in))
        ]

    -- On a valid table, and with value pointers for the reads, kportio_outb and kportio_inb fail exactly
    -- when 1 byte at the offset leaves the handle's range, kportio_outw and kportio_inw when 2 bytes do,
    -- and kportio_outl and kportio_inl when 4 do, and then touch no port; else they write the value once,
    -- or read once and return what was read, with the instruction of that width at `offset` into the
    -- range, and all the bytes are ports of the range.
    pub port_access_lem :
        (handle offset value : ℕ) (s : Ports) (d : bus.Device)
        → IsValid s
        → Writes 1 handle offset value s d (kportio_outb bus handle offset value s d)
          × Writes 2 handle offset value s d (kportio_outw bus handle offset value s d)
          × Writes 4 handle offset value s d (kportio_outl bus handle offset value s d)
          × Reads 1 handle offset s d (kportio_inb bus true handle offset s d)
          × Reads 2 handle offset s d (kportio_inw bus true handle offset s d)
          × Reads 4 handle offset s d (kportio_inl bus true handle offset s d)
    unfolding kportio_outb kportio_outw kportio_outl kportio_inb kportio_inw kportio_inl
    port_access_lem handle offset value s d v = (
      port_out_lem 1 handle offset value s d v (omega arith),
      port_out_lem 2 handle offset value s d v (omega arith),
      port_out_lem 4 handle offset value s d v (omega arith),
      port_in_lem 1 handle offset s d v (omega arith),
      port_in_lem 2 handle offset s d v (omega arith),
      port_in_lem 4 handle offset s d v (omega arith),
    )
