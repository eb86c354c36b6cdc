-- ===== src/Ipc/Lifetime.antt =====
-- kipc.c: how long the memory of an endpoint lives. The parts that hold `endpoints_lock` are single
-- steps; one endpoint is followed, from the end of kipc_create on.
use sharkix.Common.{
  ℕ, suc, ◌+◌, ◌-◌, ◌%◌, ◌^◌, ◌<◌, ◌≡◌, ◌≢◌, ◌⊎◌, inl, inr, ◌==◌, ◌&&◌, if◌then◌else◌, Bool, true,
  false, Bool-cases, Option, none, some, arith, refl, sym, subst, ◌∙◌,
}
use mathlib.Core.Option
use sharkix.Ipc.Endpoint.{inc}

-- Whether the table `endpoints` holds it, its own fields, and how often kfree got it.
pub record Lifetime : Type 0 where
  pub registered : Bool
  pub references : ℕ
  pub is_shutting_down : Bool
  pub freed : ℕ

-- `none` is NULL.
unfoldable pub kipc_acquire : Lifetime → Option Lifetime
kipc_acquire l = if l.registered then some (record l { references = inc l.references }) else none

-- kipc_release, with kipc_endpoint_free.
unfoldable pub kipc_release : Lifetime → Lifetime
kipc_release l =
    let references = (l.references + 2 ^ 64 - 1) % 2 ^ 64 in
    record l {
      references = references;
      freed = if l.is_shutting_down && references == 0 then suc l.freed else l.freed;
    }

-- kipc_destroy up to its kipc_release; `none` is IPC_ERR_NOT_FOUND.
unfoldable pub unregister : Lifetime → Option Lifetime
unregister l =
    if l.registered then some (record l { registered = false; is_shutting_down = true }) else none

-- `holders` counts the calls that have their reference and have not released it. The reference of the
-- table passes to the call of kipc_destroy.
pub record Held : Type 0 where
  pub lifetime : Lifetime
  pub holders : ℕ

pub data Step (s : Held) : Held → Type 0 where
  acquire :
      {l : Lifetime}
      → kipc_acquire s.lifetime ≡ some l
      → Step s (record { lifetime = l; holders = s.holders + 1 })
  release :
      s.holders ≢ 0
      → Step s (record { lifetime = kipc_release s.lifetime; holders = s.holders - 1 })
  destroy :
      {l : Lifetime}
      → unregister s.lifetime ≡ some l
      → Step s (record { lifetime = l; holders = s.holders + 1 })

abbrev pub registered : Held
registered = record {
  lifetime = record { registered = true; references = 1; is_shutting_down = false; freed = 0 };
  holders = 0;
}

-- The states with at most `n` calls at work at a time.
pub data Reach (n : ℕ) : Held → Type 0 where
  start : Reach n registered
  later : {s t : Held} → Reach n s → Step s t → t.holders < n → Reach n t

-- The count is right, and the memory was given back once exactly when nothing refers to it.
record Counts (s : Held) : Type 0 where
  count : s.lifetime.references ≡ s.holders + (if s.lifetime.registered then 1 else 0)
  closing : s.lifetime.is_shutting_down ≡ (if s.lifetime.registered then false else true)
  memory : s.lifetime.freed ≡ (if s.lifetime.references == 0 then 1 else 0)

start-Counts : Counts registered
start-Counts = record { count = refl; closing = refl; memory = refl }

kipc_acquire_inv :
    (l l' : Lifetime)
    → kipc_acquire l ≡ some l'
    → (l.registered ≡ true) × (l' ≡ record l { references = inc l.references })
unfolding kipc_acquire
kipc_acquire_inv l l' e = elim (Bool-cases l.registered) [
  | inl in_table ↦
      let found : kipc_acquire l ≡ some (record l { references = inc l.references }) =
        simp in_table in
      (
        in_table,
        sym (Option.some-injective (record l { references = inc l.references }) l' (sym found ∙ e)),
      )
  | inr gone ↦
      let missing : kipc_acquire l ≡ none = simp gone in
      absurd (Option.none-ne-some l' (sym missing ∙ e))
]

unregister_inv :
    (l l' : Lifetime)
    → unregister l ≡ some l'
    → (l.registered ≡ true) × (l' ≡ record l { registered = false; is_shutting_down = true })
unfolding unregister
unregister_inv l l' e = elim (Bool-cases l.registered) [
  | inl in_table ↦
      let found : unregister l ≡ some (record l { registered = false; is_shutting_down = true }) =
        simp in_table in
      (
        in_table,
        sym (
            Option.some-injective (record l { registered = false; is_shutting_down = true }) l'
              (sym found ∙ e)),
      )
  | inr gone ↦
      let missing : unregister l ≡ none = simp gone in
      absurd (Option.none-ne-some l' (sym missing ∙ e))
]

acquire-Counts :
    (s : Held)
    → Counts s
    → s.holders + 2 < 2 ^ 64
    → s.lifetime.registered ≡ true
    → Counts (record {
      lifetime = record (s.lifetime) { references = inc (s.lifetime.references) };
      holders = s.holders + 1;
    })
acquire-Counts s c few in_table = record {
  count = ground (arith, c.count, in_table);
  closing = c.closing;
  memory = ground (arith, c.memory, c.count, in_table);
}

release-Counts :
    (s : Held)
    → Counts s
    → s.holders + 2 < 2 ^ 64
    → s.holders ≢ 0
    → Counts (record { lifetime = kipc_release s.lifetime; holders = s.holders - 1 })
unfolding kipc_release
release-Counts s c few held = elim (Bool-cases s.lifetime.registered) [
  | inl in_table ↦ record {
    count = ground (arith, c.count, in_table);
    closing = c.closing;
    memory = ground (arith, c.memory, c.count, c.closing, in_table);
  }
  | inr gone ↦ record {
    count = ground (arith, c.count, gone);
    closing = c.closing;
    memory = ground (arith, c.memory, c.count, c.closing, gone);
  }
]

destroy-Counts :
    (s : Held)
    → Counts s
    → s.lifetime.registered ≡ true
    → Counts (record {
      lifetime = record (s.lifetime) { registered = false; is_shutting_down = true };
      holders = s.holders + 1;
    })
destroy-Counts s c in_table = record {
  count = ground (arith, c.count, in_table);
  closing = refl;
  memory = c.memory;
}

Step-Counts : {s t : Held} → Counts s → s.holders + 2 < 2 ^ 64 → Step s t → Counts t
Step-Counts {s = s} c few (Step.acquire {l = l} e) =
    let (in_table, same) = kipc_acquire_inv s.lifetime l e in
    subst (λ x. Counts (record { lifetime = x; holders = s.holders + 1 })) (sym same)
      (acquire-Counts s c few in_table)
Step-Counts {s = s} c few (Step.release held) = release-Counts s c few held
Step-Counts {s = s} c few (Step.destroy {l = l} e) =
    let (in_table, same) = unregister_inv s.lifetime l e in
    subst (λ x. Counts (record { lifetime = x; holders = s.holders + 1 })) (sym same)
      (destroy-Counts s c in_table)

Reach-few : {n : ℕ} {s : Held} → 0 < n → Reach n s → s.holders < n
Reach-few h Reach.start = h
Reach-few h (Reach.later before step few) = few

Reach-Counts : {n : ℕ} {s : Held} → 0 < n → n < 2 ^ 64 - 2 → Reach n s → Counts s
Reach-Counts h b Reach.start = start-Counts
Reach-Counts h b (Reach.later before step few) =
    Step-Counts (Reach-Counts h b before) (omega (arith, Reach-few h before)) step

-- With fewer than 2^64 - 2 calls at work at a time, in every state after kipc_create the endpoint's
-- memory has been freed exactly once if it is out of the table and no call holds a reference, and not at
-- all otherwise: no use after the free, no second free, and no leak.
pub freed_once :
    {n : ℕ} {s : Held}
    → 0 < n
    → n < 2 ^ 64 - 2
    → Reach n s
    → ((s.lifetime.registered ≡ false) × (s.holders ≡ 0) × (s.lifetime.freed ≡ 1))
      ⊎ (((s.lifetime.registered ≡ true) ⊎ (s.holders ≢ 0)) × (s.lifetime.freed ≡ 0))
freed_once {s = s} h b reach =
    let c = Reach-Counts h b reach in
    elim (Bool-cases s.lifetime.registered) [
      | inl in_table ↦ inr (inl in_table, ground (arith, c.count, c.memory, in_table))
      | inr gone ↦ ground (arith, c.count, c.memory, gone)
    ]
