-- ===== src/Ports/Lifetime.antt =====
-- A range from its creation to after its destruction.
use sharkix.Common.{
  ℕ, ◌+◌, ◌%◌, ◌^◌, ◌<◌, ◌≡◌, ◌==◌, Bool, true, false, Bool-cases, none, some, arith, inl, inr,
  Option-cases, refl, List, [], ◌∷◌,
}
use sharkix.Table.{UtHash}
use sharkix.Table.Laws.{find, add, find-add, find-del}
use sharkix.Ports.{
  PortIo, Ports, kportio_create, kportio_destroy, kportio_get, kportio_resolve_port_locked,
  portio_invalid_handle, Call, step, run,
}
use sharkix.Ports.Valid.{IsValid, kportio_create_lem, step-IsValid, kportio_destroy-IsValid}

module _ ⦃h : UtHash⦄ where
  -- On a valid table and with a 16-bit base, the range that kportio_create gave a handle for is what
  -- kportio_get gives back for it.
  pub kportio_get-kportio_create :
      {s : Ports} (out mem : Bool) (base length k : ℕ)
      → base < 2 ^ 16
      → IsValid s
      → (kportio_create out mem base length s).2 ≡ some k
      → (kportio_create out mem base length s).1 ≡ true
      → kportio_get true k (kportio_create out mem base length s).0
        ≡ (true, some (record { handle = k; base = base; length = length }))
  unfolding kportio_get
  kportio_get-kportio_create {s = s} out mem base length k b v made done =
      elim (kportio_create_lem out mem base length s b) [
        | inl (bad, e) ↦ absurd (cc)
        | inr (inl (bad, e)) ↦ absurd (cc)
        | inr (inr (out_ok, mem_ok, some_length, inside, more, e)) ↦
            let n = s.next_portio_handle in
            let t = s.global_portio_table in
            let new : PortIo = record { handle = n; base = base; length = length } in
            let same : k ≡ n = cc in
            let good : n == portio_invalid_handle ≡ false = ground (arith, more) in
            let free : find n t ≡ none = v.fresh n (omega arith) in
            let here : find n (add n new t) ≡ some new = ground (arith, find-add n n new t free) in
            rw (e, same, good, here) refl
      ]

  -- The handle was issued, and names nothing.
  record Gone (k : ℕ) (s : Ports) : Type 0 where
    issued : k < s.next_portio_handle
    absent : find k s.global_portio_table ≡ none

  kportio_create-Gone :
      {k : ℕ} {s : Ports} (out mem : Bool) (base length : ℕ)
      → base < 2 ^ 16
      → IsValid s
      → Gone k s
      → Gone k (kportio_create out mem base length s).0
  kportio_create-Gone {k = k} {s = s} out mem base length b v g =
      elim (kportio_create_lem out mem base length s b) [
        | inl (bad, e) ↦ rw e g
        | inr (inl (bad, e)) ↦ rw e g
        | inr (inr (out_ok, mem_ok, some_length, inside, more, e)) ↦
            let n = s.next_portio_handle in
            let new : PortIo = record { handle = n; base = base; length = length } in
            let next : (n + 1) % 2 ^ 64 ≡ n + 1 = omega (arith, v.counter, more) in
            let free : find n s.global_portio_table ≡ none = v.fresh n (omega arith) in
            rw (e, next)
              (record {
                issued = omega (arith, g.issued);
                absent =
                    ground (arith, find-add k n new s.global_portio_table free, g.absent, g.issued);
              })
      ]

  kportio_destroy-Gone : {k : ℕ} {s : Ports} (j : ℕ) → Gone k s → Gone k (kportio_destroy j s).0
  unfolding kportio_destroy
  kportio_destroy-Gone {k = k} {s = s} j g = elim (Bool-cases (j == portio_invalid_handle)) [
    | inl bad ↦ rw bad g
    | inr good ↦ elim (Option-cases (find j s.global_portio_table)) [
      | inl absent ↦ rw (good, absent) g
      | inr (p, here) ↦
          rw (good, here)
            (record {
              issued = g.issued;
              absent = ground (arith, find-del k j s.global_portio_table, g.absent);
            })
    ]
  ]

  step-Gone : {k : ℕ} {s : Ports} → IsValid s → Gone k s → (c : Call) → Gone k (step s c)
  unfolding step
  step-Gone v g (Call.create out mem base length) =
      kportio_create-Gone out mem (base % 2 ^ 16) (length % 2 ^ 32) (omega arith) v g
  step-Gone v g (Call.destroy j) = kportio_destroy-Gone j g

  run-Gone : {k : ℕ} (s : Ports) → IsValid s → Gone k s → (cs : List Call) → Gone k (run s cs)
  unfolding run
  run-Gone s v g [] = g
  run-Gone s v g (c ∷ cs) = run-Gone (step s c) (step-IsValid v c) (step-Gone v g c) cs

  destroyed-Gone :
      {s : Ports} (k : ℕ)
      → IsValid s
      → (kportio_destroy k s).1 ≡ true
      → Gone k (kportio_destroy k s).0
  unfolding kportio_destroy
  destroyed-Gone {s = s} k v = elim (Bool-cases (k == portio_invalid_handle)) [
    | inl bad ↦ rw bad (λ done. absurd (cc))
    | inr good ↦ elim (Option-cases (find k s.global_portio_table)) [
      | inl absent ↦ rw (good, absent) (λ done. absurd (cc))
      | inr (p, here) ↦
          rw (good, here)
            (λ done. record {
              issued = ground (arith, v.fresh k);
              absent = ground (arith, find-del k k s.global_portio_table);
            })
    ]
  ]

  -- Once kportio_destroy has answered 0 for a handle of a valid table, then after any further calls no
  -- access through that handle resolves to a port: it is not issued again.
  pub kportio_destroy_revokes :
      {s : Ports} (k : ℕ)
      → IsValid s
      → (kportio_destroy k s).1 ≡ true
      → (cs : List Call) (offset width : ℕ)
      → kportio_resolve_port_locked k offset width (run (kportio_destroy k s).0 cs) ≡ none
  unfolding kportio_resolve_port_locked
  kportio_destroy_revokes {s = s} k v done cs offset width =
      let gone =
        run-Gone (kportio_destroy k s).0 (kportio_destroy-IsValid k v) (destroyed-Gone k v done)
          cs in
      let absent : find k (run (kportio_destroy k s).0 cs).global_portio_table ≡ none =
        gone.absent in
      rw (kportio_resolve_port_locked, absent) refl
