-- ===== src/Table.antt =====
-- include/uthash.h, a vendored library, as the interface that the kernel relies on.
-- A table holds structures under a 64-bit key and is walked in the order of insertion.
pub mod Assoc
pub mod Laws
use sharkix.Common.{
  ℕ, ◌≡◌, ◌==◌, if◌then◌else◌, Option, none, some, List, [], ◌∷◌, ◌++◌, adjust, assoc, without,
}
use mathlib.Core.Option

pub record UtHash : Type 1 where
  pub Table : Type 0 → Type 0
  -- a NULL head
  pub empty : (V : Type 0) → Table V
  -- HASH_FIND_BYHASHVALUE
  pub find : {V : Type 0} → ℕ → Table V → Option V
  -- HASH_ADD_BYHASHVALUE
  pub add : {V : Type 0} → ℕ → V → Table V → Table V
  -- HASH_DEL
  pub del : {V : Type 0} → ℕ → Table V → Table V
  -- a write through the pointer that HASH_FIND returned: the table holds the structure itself
  pub modify : {V : Type 0} → ℕ → (V → V) → Table V → Table V
  -- the order of HASH_ITER and of hh.next
  pub entries : {V : Type 0} → Table V → List (ℕ × V)
  pub entries-empty : (V : Type 0) → entries (empty V) ≡ []
  pub entries-del : {V : Type 0} (k : ℕ) (t : Table V) → entries (del k t) ≡ without k (entries t)
  pub entries-modify :
      {V : Type 0} (k : ℕ) (f : V → V) (t : Table V)
      → entries (modify k f t) ≡ adjust k f (entries t)
  -- Only an absent key may be added.
  pub entries-add :
      {V : Type 0} (k : ℕ) (v : V) (t : Table V)
      → find k t ≡ none
      → entries (add k v t) ≡ entries t ++ (k, v) ∷ []
  pub find-entries : {V : Type 0} (k : ℕ) (t : Table V) → find k t ≡ assoc k (entries t)
