-- ===== src/Ports/Valid.antt =====
-- The invariant of the table of port ranges.
use sharkix.Common.{
  ℕ, ◌+◌, ◌-◌, ◌%◌, ◌^◌, ◌<◌, ◌≤◌, ◌≡◌, ◌≢◌, ◌==◌, ==_iff, ltb, not, ◌||◌, Bool, true, false,
  Bool-cases, Option, none, some, arith, inl, inr, List, [], ◌∷◌, Option-cases, ◌⊎◌, refl,
}
use sharkix.Table.{UtHash}
use sharkix.Table.Laws.{find, add, find-empty, find-add, find-del}
use sharkix.Ports.{
  PortIo, Ports, kportio_init, kportio_insert_locked, kportio_create, kportio_destroy,
  portio_invalid_handle, Call, step, run,
}

-- A range lies within the 65536 ports.
pub record InRange (p : PortIo) : Type 0 where
  pub nonempty : 0 < p.length
  pub inside : p.base + p.length ≤ 2 ^ 16

module _ ⦃h : UtHash⦄ where
  -- The next handle fits and is free with all behind it; each range stands under its own handle.
  pub record IsValid (s : Ports) : Type 0 where
    pub counter : s.next_portio_handle < 2 ^ 64
    pub fresh : (k : ℕ) → s.next_portio_handle ≤ k → find k s.global_portio_table ≡ none
    pub ports :
        (k : ℕ) (p : PortIo) → find k s.global_portio_table ≡ some p → (p.handle ≡ k) × InRange p

  kportio_init-IsValid : IsValid kportio_init
  unfolding kportio_init
  kportio_init-IsValid = record {
    counter = omega arith;
    fresh = λ k b. find-empty k;
    ports = λ k p e. absurd (ground (arith, find-empty {V = PortIo} k));
  }

  -- A call of kportio_create with the state and the result that it leaves: refused at once; refused
  -- with PORTIO_INVALID_HANDLE written; or a new range under the next handle.
  abbrev pub Creates : (out mem : Bool) (base length : ℕ) → Ports → Ports × Bool × Option ℕ → Type 0
  Creates out mem base length s r =
      (((out ≡ false) ⊎ (length ≡ 0) ⊎ (2 ^ 16 < base + length)) × (r ≡ (s, false, none)))
      ⊎ (((mem ≡ false) ⊎ (s.next_portio_handle ≡ portio_invalid_handle))
          × (r ≡ (s, false, some portio_invalid_handle)))
      ⊎ ((out ≡ true)
          × (mem ≡ true)
          × (0 < length)
          × (base + length ≤ 2 ^ 16)
          × (s.next_portio_handle ≢ portio_invalid_handle)
          × (r ≡ (
            record s {
              next_portio_handle = (s.next_portio_handle + 1) % 2 ^ 64;
              global_portio_table =
                  add s.next_portio_handle
                    (record { handle = s.next_portio_handle; base = base; length = length })
                    s.global_portio_table;
            },
            true,
            some s.next_portio_handle,
          )))

  -- kportio_create with a base that fits uint16_t refuses at once exactly when the result pointer is
  -- NULL, the length is 0 or the range ends past the 65536 ports; it writes PORTIO_INVALID_HANDLE and
  -- changes nothing when memory or the handles are spent; else it publishes the range under the next
  -- handle.
  pub kportio_create_lem :
      (out mem : Bool) (base length : ℕ) (s : Ports)
      → base < 2 ^ 16
      → Creates out mem base length s (kportio_create out mem base length s)
  unfolding kportio_create kportio_insert_locked
  kportio_create_lem out mem base length s b =
      elim (Bool-cases (not out || length == 0 || ltb (2 ^ 16 - base) length)) [
        | inl bad ↦ inl (ground (arith, bad, Bool-cases out), rw bad refl)
        | inr good ↦ elim (Bool-cases mem) [
          | inr full ↦ inr (inl (inl full, rw (good, full) refl))
          | inl mem_ok ↦ elim (Bool-cases (s.next_portio_handle == portio_invalid_handle)) [
            | inl spent ↦ inr (
                inl (
                  inr ((==_iff s.next_portio_handle portio_invalid_handle).0 spent),
                  simp (good, mem_ok, spent),
                ))
            | inr more ↦ inr (
                inr (
                  ground (arith, good, Bool-cases out),
                  mem_ok,
                  ground (arith, good, Bool-cases out),
                  ground (arith, good, Bool-cases out),
                  ground (arith, more, ==_iff s.next_portio_handle portio_invalid_handle),
                  simp (good, mem_ok, more),
                ))
          ]
        ]
      ]

  kportio_create-IsValid :
      {s : Ports} (out mem : Bool) (base length : ℕ)
      → base < 2 ^ 16
      → IsValid s
      → IsValid (kportio_create out mem base length s).0
  kportio_create-IsValid {s = s} out mem base length b v =
      elim (kportio_create_lem out mem base length s b) [
        | inl (bad, e) ↦ rw e v
        | inr (inl (bad, e)) ↦ rw e v
        | inr (inr (out_ok, mem_ok, some_length, inside, more, e)) ↦
            let n = s.next_portio_handle in
            let t = s.global_portio_table in
            let new : PortIo = record { handle = n; base = base; length = length } in
            let ok : InRange new = record { nonempty = some_length; inside = inside } in
            let free : find n t ≡ none = v.fresh n (omega arith) in
            let next : (n + 1) % 2 ^ 64 ≡ n + 1 = omega (arith, v.counter, more) in
            rw (e, next)
              (record {
                counter = omega (arith, v.counter, more);
                fresh = λ k b. ground (arith, find-add k n new t free, v.fresh k);
                ports = λ k p e. ground (arith, find-add k n new t free, v.ports k p, ok);
              })
      ]

  pub kportio_destroy-IsValid : {s : Ports} (k : ℕ) → IsValid s → IsValid (kportio_destroy k s).0
  unfolding kportio_destroy
  kportio_destroy-IsValid {s = s} k v = elim (Bool-cases (k == portio_invalid_handle)) [
    | inl bad ↦ rw bad v
    | inr good ↦ elim (Option-cases (find k s.global_portio_table)) [
      | inl absent ↦ rw (good, absent) v
      | inr (p, here) ↦
          rw (good, here)
            (record {
              counter = v.counter;
              fresh = λ j b. ground (arith, find-del j k s.global_portio_table, v.fresh j);
              ports = λ j q e. ground (arith, find-del j k s.global_portio_table, v.ports j q);
            })
    ]
  ]

  pub step-IsValid : {s : Ports} → IsValid s → (c : Call) → IsValid (step s c)
  unfolding step
  step-IsValid v (Call.create out mem base length) =
      kportio_create-IsValid out mem (base % 2 ^ 16) (length % 2 ^ 32) (omega arith) v
  step-IsValid v (Call.destroy k) = kportio_destroy-IsValid k v

  pub runs-IsValid : {s : Ports} → IsValid s → (cs : List Call) → IsValid (run s cs)
  unfolding run
  runs-IsValid {s = s} v [] = v
  runs-IsValid {s = s} v (c ∷ cs) = runs-IsValid {s = step s c} (step-IsValid v c) cs

  -- After kportio_init and any calls of kportio_create and kportio_destroy, whatever their arguments, the
  -- counter has not wrapped, every handle from it on is free, and each range stands under its own
  -- handle, is not empty, and ends within the 65536 ports.
  pub run-kportio_init-IsValid : (cs : List Call) → IsValid (run kportio_init cs)
  run-kportio_init-IsValid cs = runs-IsValid kportio_init-IsValid cs
