-- ===== src/Caps/Rights.antt =====
-- include/sharkix/caps.inc, caps-rights.inc and kcap_validate_rights of kcaps.c.
use sharkix.Caps.CapType
use sharkix.Common.{
  ℕ, ◌^◌, ◌≡◌, refl, ◌==◌, Bool, true, false, none, some, List, [], ◌∷◌, bit_and, bit_or, bit_not,
  assoc, Option-cases, bit_and-mask_sub, bit_and-mask_or, arith, inl, inr,
}

-- One pass of the macros: `seed | (1 << bit) | ...`.
unfoldable pub mask : ℕ → List ℕ → ℕ
mask seed [] = seed
mask seed (b ∷ bs) = mask (bit_or seed (2 ^ b)) bs

-- CAP_GENERIC_VALID_RIGHTS: TRANSFER, FORWARD, DERIVE, DESTROY, REMOVE, GETNAME and SETNAME.
unfoldable pub generic_valid_rights : ℕ
unfolding mask
generic_valid_rights = mask 0 (0 ∷ 1 ∷ 2 ∷ 3 ∷ 4 ∷ 5 ∷ 6 ∷ [])

abbrev pub right_destroy : ℕ
right_destroy = 2 ^ 3

-- Each capability type with the bits of its own rights.
unfoldable pub caps_inc : List (ℕ × List ℕ)
caps_inc =
    (CapType.ipc, 10 ∷ 11 ∷ 12 ∷ 13 ∷ [])
    ∷ (CapType.pmem, 10 ∷ 11 ∷ 12 ∷ 13 ∷ 14 ∷ 15 ∷ [])
    ∷ (CapType.vmo, 10 ∷ 11 ∷ 12 ∷ 13 ∷ 14 ∷ [])
    ∷ (CapType.portio, 10 ∷ 11 ∷ [])
    ∷ (CapType.irq, 10 ∷ 11 ∷ [])
    ∷ (CapType.notify, 10 ∷ 11 ∷ 12 ∷ [])
    ∷ (CapType.address_space, 10 ∷ 11 ∷ 12 ∷ [])
    ∷ (CapType.thread, 10 ∷ [])
    ∷ (CapType.factory_vmo, [])
    ∷ (CapType.factory_as, [])
    ∷ (CapType.factory_thread, [])
    ∷ (CapType.factory_pmem, 10 ∷ 11 ∷ [])
    ∷ []

-- CAP_<TYPE>_VALID_RIGHTS
unfoldable pub valid_rights : List ℕ → ℕ
unfolding mask generic_valid_rights
valid_rights bits = mask generic_valid_rights bits

-- kcap_validate_rights; `true` is 0. An unknown type is refused.
unfoldable pub validate_rights : ℕ → ℕ → Bool
validate_rights type rights = elim (assoc type caps_inc) [
  | none ↦ false
  | some bits ↦ bit_and rights (bit_not (valid_rights bits)) == 0
]

-- Rights included in valid rights are valid.
pub validate_rights-sub :
    (type a b : ℕ) → bit_and a b ≡ a → validate_rights type b ≡ true → validate_rights type a ≡ true
unfolding validate_rights
validate_rights-sub type a b h v = elim (Option-cases (assoc type caps_inc)) [
  | inl e ↦ ground arith
  | inr (bits, e) ↦ ground (arith, bit_and-mask_sub a b (bit_not (valid_rights bits)) h)
]

-- The union of valid rights is valid.
pub validate_rights-bit_or :
    (type a b : ℕ)
    → validate_rights type a ≡ true
    → validate_rights type b ≡ true
    → validate_rights type (bit_or a b) ≡ true
unfolding validate_rights
validate_rights-bit_or type a b h k = elim (Option-cases (assoc type caps_inc)) [
  | inl e ↦ ground arith
  | inr (bits, e) ↦ ground (arith, bit_and-mask_or a b (bit_not (valid_rights bits)))
]

validates :
    (validate_rights CapType.ipc 0x3c08 ≡ true)
    × (validate_rights CapType.ipc 0x80 ≡ false)
    × (validate_rights 99 0 ≡ false)
unfolding validate_rights caps_inc valid_rights
validates = (refl, refl, refl)
