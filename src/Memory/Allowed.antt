-- ===== src/Memory/Allowed.antt =====
-- The tests of memory.c on a range of addresses.
use sharkix.Common.{
  ℕ, ◌+◌, ◌-◌, ◌*◌, ◌/◌, ◌%◌, ◌^◌, ◌<◌, ◌≤◌, ◌≡◌, ◌==◌, ==_iff, not, ltb, ◌&&◌, Bool, true, false,
  Bool-cases, arith, inl, inr,
}
use sharkix.Memory.{rounded, range_allowed, page_range_length, mapping_allowed}

-- A range that the tests allow starts at a page, has a length, and ends by 2^64.
pub range_allowed_lem :
    (kernel_region : Bool) (va length : ℕ)
    → range_allowed kernel_region va length ≡ true
    → (va % 4096 ≡ 0) × (0 < length) × (va + rounded length ≤ 2 ^ 64)
unfolding range_allowed page_range_length
range_allowed_lem kernel_region va length allowed = elim (Bool-cases (not (va % 4096 == 0))) [
  | inl odd ↦ absurd (ground (arith, odd))
  | inr even ↦ elim (Bool-cases (length == 0)) [
    | inl bare ↦ absurd (ground (arith, even, bare))
    | inr long ↦ elim (Bool-cases (ltb (2 ^ 64 - 1 - 4095) length)) [
      | inl wide ↦ absurd (ground (arith, even, long, wide))
      | inr narrow ↦ elim (Bool-cases (ltb (2 ^ 64 - 1 - (rounded length - 1)) va)) [
        | inl wraps ↦ absurd (ground (arith, even, long, narrow, wraps))
        | inr fits ↦ (
          ground (arith, even, ==_iff (va % 4096) 0),
          ground (arith, long, ==_iff length 0),
          ground (arith, long, ==_iff length 0, fits),
        )
      ]
    ]
  ]
]

-- Then mapping_allowed lets every page of the range pass.
pub range_allowed-mapping_allowed :
    (kernel_region : Bool) (va length i : ℕ)
    → range_allowed kernel_region va length ≡ true
    → i < rounded length / 4096
    → mapping_allowed kernel_region (va + i * 4096) ≡ true
unfolding range_allowed page_range_length mapping_allowed
range_allowed-mapping_allowed kernel_region va length i allowed b =
    let (al, pos, top) = range_allowed_lem kernel_region va length allowed in
    let even : not (va % 4096 == 0) ≡ false = ground (arith, al) in
    let long : (length == 0) ≡ false = ground (arith, pos) in
    let narrow : ltb (2 ^ 64 - 1 - 4095) length ≡ false = ground (arith, top, al) in
    let fits : ltb (2 ^ 64 - 1 - (rounded length - 1)) va ≡ false = ground (arith, top, pos) in
    let both : (mapping_allowed kernel_region va
          && mapping_allowed kernel_region ((va + rounded length - 4096) % 2 ^ 64))
        ≡ true =
      ground (arith, allowed, even, long, narrow, fits) in
    let last : (va + rounded length - 4096) % 2 ^ 64 ≡ va + rounded length - 4096 =
      omega (arith, top, pos) in
    let even_i : not ((va + i * 4096) % 4096 == 0) ≡ false = ground (arith, al) in
    elim (Bool-cases kernel_region) [
      | inl kernel ↦ ground (arith, both, kernel, even, even_i, last)
      | inr user ↦ ground (arith, both, user, even, even_i, last)
    ]
