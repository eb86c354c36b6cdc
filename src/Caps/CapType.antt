-- ===== src/Caps/CapType.antt =====
-- cap_type_t of include/sharkix/caps-types-enum.inc, with the numbers of caps.inc.
use sharkix.Common.{ℕ}

abbrev pub ipc : ℕ
ipc = 1

abbrev pub pmem : ℕ
pmem = 2

abbrev pub vmo : ℕ
vmo = 3

abbrev pub portio : ℕ
portio = 4

abbrev pub irq : ℕ
irq = 5

abbrev pub notify : ℕ
notify = 6

abbrev pub address_space : ℕ
address_space = 7

abbrev pub thread : ℕ
thread = 8

abbrev pub factory_vmo : ℕ
factory_vmo = 1001

abbrev pub factory_as : ℕ
factory_as = 1002

abbrev pub factory_thread : ℕ
factory_thread = 1003

abbrev pub factory_pmem : ℕ
factory_pmem = 1004
