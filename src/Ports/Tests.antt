-- ===== src/Ports/Tests.antt =====
-- Concrete runs of kportio.c.
use sharkix.Common.{ℕ, ◌≡◌, true, none, List, [], ◌∷◌, refl}
use sharkix.Table.Assoc.{assoc_table}
use sharkix.Ports.{
  Ports, Bus, Call, run, step, kportio_insert_locked, kportio_init, kportio_create, kportio_destroy,
  kportio_resolve_port_locked, kportio_outb, kportio_outw, kportio_outl, kportio_inb, kportio_inw,
  kportio_inl,
}
use sharkix.Ports.Valid.{IsValid, run-kportio_init-IsValid}
use sharkix.Ports.Access.{Writes, Reads, port_access_lem}
use sharkix.Ports.Lifetime.{kportio_destroy_revokes}

-- The ports of the first serial line, 8 from 1016 on, and the last two ports of the machine.
abbrev calls : List Call
calls =
    Call.create true true 1016 8
    ∷ Call.create true true 65534 2
    ∷ Call.create true true 65534 3
    ∷ []

abbrev two_ranges : Ports
two_ranges = run kportio_init calls

two_ranges-IsValid : IsValid two_ranges
two_ranges-IsValid = run-kportio_init-IsValid calls

-- A bus that remembers the last write and reads zeros.
abbrev last_write : Bus
last_write = record { Device = ℕ; read = λ w p d. (0, d); write = λ w p v d. p }

port_access_lem_example :
    Writes last_write 1 1 6 9 two_ranges 0 (kportio_outb last_write 1 6 9 two_ranges 0)
    × Writes last_write 2 1 6 9 two_ranges 0 (kportio_outw last_write 1 6 9 two_ranges 0)
    × Writes last_write 4 1 6 9 two_ranges 0 (kportio_outl last_write 1 6 9 two_ranges 0)
    × Reads last_write 1 1 6 two_ranges 0 (kportio_inb last_write true 1 6 two_ranges 0)
    × Reads last_write 2 1 6 two_ranges 0 (kportio_inw last_write true 1 6 two_ranges 0)
    × Reads last_write 4 1 6 two_ranges 0 (kportio_inl last_write true 1 6 two_ranges 0)
port_access_lem_example = port_access_lem last_write 1 6 9 two_ranges 0 two_ranges-IsValid

kportio_destroy_revokes_example :
    kportio_resolve_port_locked 1 0 1 (run (kportio_destroy 1 two_ranges).0 calls) ≡ none
unfolding run step kportio_init kportio_create kportio_insert_locked kportio_destroy
kportio_destroy_revokes_example = kportio_destroy_revokes 1 two_ranges-IsValid refl calls 0 1
