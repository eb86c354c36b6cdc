-- ===== src/Table/Assoc.antt =====
-- The concrete table of the examples: a keyed list in the order of insertion.
use sharkix.Common.{ℕ, refl, List, [], ◌∷◌, ◌++◌, adjust, assoc, without}
use sharkix.Table.{UtHash}

instance abbrev pub assoc_table : UtHash
assoc_table = record {
  Table = λ V. List (ℕ × V);
  empty = λ V. [];
  find = λ k t. assoc k t;
  add = λ k v t. t ++ (k, v) ∷ [];
  del = λ k t. without k t;
  modify = λ k f t. adjust k f t;
  entries = λ t. t;
  entries-empty = λ V. refl;
  entries-del = λ k t. refl;
  entries-modify = λ k f t. refl;
  entries-add = λ k v t h. refl;
  find-entries = λ k t. refl;
}
