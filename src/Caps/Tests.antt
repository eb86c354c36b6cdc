-- ===== src/Caps/Tests.antt =====
-- The theorems on kcaps.c at concrete tables: two capabilities for one endpoint, in two sets.
use sharkix.Common.{
  if◌then◌else◌, ℕ, ◌+◌, ◌≡◌, ◌↔◌, refl, subst, Bool, true, none, some, arith, ◌⊎◌, bit, List, [],
  ◌∷◌,
}
use sharkix.Table.Laws.{find}
use sharkix.Caps.State.{Cap, CapSet, Caps}
use sharkix.Caps.Valid.{IsValid}
use sharkix.Table.Assoc.{assoc_table}
use sharkix.Caps.CapType
use sharkix.Caps.Rights.{validate_rights, caps_inc, valid_rights}
use sharkix.Caps.Global.{publish, kcap_create, kcap_derive, Subsystems}
use sharkix.Caps.Sets.{kinit_caps, empty_tables, kcapset_addcap, kcapset_move_cap, kcapset_destroy}
use sharkix.Caps.Resolve.{kcapset_resolve_handle}
use sharkix.Caps.Calls.{Call, create, derive, set_new, set_addcap, step, run}
use sharkix.Caps.Calls.Histories.{run-kinit_caps-IsValid, run-Held, Minted}
use sharkix.Caps.Moves.Authority.{Held}
use sharkix.Caps.Lookup.{Authorizes, kcapset_resolve_handle_iff}
use sharkix.Caps.Grants.{Derived, kcap_derive_lem}
use sharkix.Caps.Membership.{Moved, kcapset_move_cap_lem}
use sharkix.Caps.Destruction.{Lists, kcapset_destroy_lem}

-- Two capabilities for endpoint 7, and a second set.
abbrev history : List Call
history =
    create true true 7 CapType.ipc 0x3c08
    ∷ create true true 7 CapType.ipc 0x401
    ∷ set_new true true
    ∷ set_addcap true 1 1
    ∷ set_addcap true 2 2
    ∷ []

abbrev full_cap : Cap
full_cap = record { cap_handle = 1; type = 1; obj_handle = 7; rights = 0x3c08 }

abbrev send_cap : Cap
send_cap = record { cap_handle = 2; type = 1; obj_handle = 7; rights = 0x401 }

abbrev first_set : CapSet
first_set = record { capset_handle = 1; caps = (1, 1) ∷ [] }

abbrev second_set : CapSet
second_set = record { capset_handle = 2; caps = (2, 2) ∷ [] }

abbrev demo : Caps
demo = record {
  next_cap_handle = 3;
  caps = (1, full_cap) ∷ (2, send_cap) ∷ [];
  names = [];
  next_capset_handle = 3;
  capsets = (1, first_set) ∷ (2, second_set) ∷ [];
}

demo_runs : run (kinit_caps true).0 history ≡ demo
unfolding run step kinit_caps empty_tables kcap_create publish validate_rights caps_inc valid_rights
    kcapset_addcap
demo_runs = refl

run-kinit_caps-IsValid_example : IsValid (run (kinit_caps true).0 history)
run-kinit_caps-IsValid_example = run-kinit_caps-IsValid true history (omega arith)

demo-IsValid : IsValid demo
demo-IsValid = subst IsValid demo_runs run-kinit_caps-IsValid_example

-- A derived capability with SEND only: the right came from the tables before.
run-Held_example : Held demo 1 7 10 ⊎ Minted (derive true true 1 0x400 ∷ []) 1 7 10
run-Held_example =
    run-Held demo (derive true true 1 0x400 ∷ []) 1 7 10 demo-IsValid (omega arith) derived
  where
    derived : Held (run demo (derive true true 1 0x400 ∷ [])) 1 7 10
    derived =
        unfold run step kcap_derive publish in
        record {
          at = 3;
          cap = record { cap_handle = 3; type = 1; obj_handle = 7; rights = 0x400 };
          live = refl;
          of_type = refl;
          of_object = refl;
          carries = unfold bit in refl;
        }

kcapset_resolve_handle_iff_example :
    (kcapset_resolve_handle true 1 1 1 0x400 demo ≡ some 7)
    ↔ ((found : Cap) × Authorizes demo 1 1 0x400 found × (found.type ≡ 1) × (found.obj_handle ≡ 7))
kcapset_resolve_handle_iff_example = kcapset_resolve_handle_iff 1 1 1 0x400 7 demo

resolves :
    (kcapset_resolve_handle true 1 1 1 0x400 demo ≡ some 7)
    × (kcapset_resolve_handle true 1 2 1 0x400 demo ≡ none)
    × (kcapset_resolve_handle true 2 2 1 0x800 demo ≡ none)
unfolding kcapset_resolve_handle
resolves = (refl, refl, refl)

kcap_derive_lem_example : Derived true true 1 0x400 demo (kcap_derive true true 1 0x400 demo)
kcap_derive_lem_example = kcap_derive_lem true true 1 0x400 demo demo-IsValid

kcapset_move_cap_lem_example : Moved 1 2 1 2 1 demo (kcapset_move_cap 1 2 1 demo)
kcapset_move_cap_lem_example = kcapset_move_cap_lem 1 2 1 2 1 demo demo-IsValid

kcapset_destroy_lem_example :
    let r = kcapset_destroy 1 demo in
    (r.1 ≡ true)
    × (r.0 ≡ (if r.1 then r.0 else demo))
    × (find 2 r.0.capsets ≡ some second_set)
    × (Lists 1 2 demo ⊎ ((find 2 r.0.caps ≡ some send_cap) × (find 2 r.0.names ≡ none)))
    × (r.0.next_cap_handle ≡ 3)
    × (r.0.next_capset_handle ≡ 3)
kcapset_destroy_lem_example = kcapset_destroy_lem 1 2 demo

-- Subsystems whose state counts the calls that reach them.
abbrev count_call : ℕ → ℕ → ℕ × Bool
count_call obj n = (n + 1, true)

abbrev counting : Subsystems ℕ
counting = record {
  kipc_destroy = count_call;
  kpmem_destroy = count_call;
  kvmo_destroy = count_call;
  kportio_destroy = count_call;
  kirq_destroy = count_call;
  kas_unregister = count_call;
}
