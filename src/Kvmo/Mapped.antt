-- ===== src/Kvmo/Mapped.antt =====
-- Lists of mappings that do not overlap, and the map from addresses to mappings that they stand for.
use sharkix.Common.{
  ℕ, ◌+◌, ◌-◌, ◌%◌, ◌^◌, ◌<◌, ◌≤◌, ◌≡◌, ◌⊎◌, inl, inr, refl, ◌==◌, ltb, leb, ◌&&◌, if◌then◌else◌,
  Bool, true, false, Bool-cases, none, some, List, [], ◌∷◌, ◌++◌, arith, without,
}
use sharkix.Kvmo.{VmoEntry}
use sharkix.Kvmo.Sets.{meets, containing}

abbrev pub Apart : VmoEntry → VmoEntry → Type 0
Apart e f =
    (e.virtual_address + e.length ≤ f.virtual_address)
    ⊎ (f.virtual_address + f.length ≤ e.virtual_address)

abbrev pub AllApart : VmoEntry → List (ℕ × VmoEntry) → Type 0
AllApart e [] = Unit {0}
AllApart e ((k, f) ∷ l) = Apart e f × AllApart e l

-- A mapping that is not empty and ends within the address space.
abbrev pub Proper : VmoEntry → Type 0
Proper e = (0 < e.length) × (e.virtual_address + e.length < 2 ^ 64)

-- Each mapping stands under its own address, is proper, and overlaps no other.
abbrev pub Mapped : List (ℕ × VmoEntry) → Type 0
Mapped [] = Unit {0}
Mapped ((k, e) ∷ l) = (k ≡ e.virtual_address) × Proper e × AllApart e l × Mapped l

-- The address lies in the mapping.
abbrev pub covers : VmoEntry → ℕ → Bool
covers e a = leb e.virtual_address a && ltb a (e.virtual_address + e.length)

-- The loop of kvmoset_find without its guard against overflow.
pub containing-cons :
    (a k : ℕ) (e : VmoEntry) (l : List (ℕ × VmoEntry))
    → Proper e
    → containing a ((k, e) ∷ l) ≡ (if covers e a then some e else containing a l)
unfolding containing
containing-cons a k e l p =
    let same : (e.virtual_address + e.length) % 2 ^ 64 ≡ e.virtual_address + e.length =
      omega (arith, p) in
    let fits : ltb (2 ^ 64 - 1 - e.virtual_address) e.length ≡ false = ground (arith, p) in
    simp (same, fits)

-- An address of a mapping that is apart from all of the list is in none of the list.
pub apart-containing :
    (a : ℕ) (e : VmoEntry) (l : List (ℕ × VmoEntry))
    → Mapped l
    → AllApart e l
    → covers e a ≡ true
    → containing a l ≡ none
unfolding containing
apart-containing a e [] m h c = refl
apart-containing a e ((k, f) ∷ l) m h c =
    ground (arith, containing-cons a k f l m.1, apart-containing a e l m.3 h.1 c)

-- The loop of kvmoset_add finds an overlap exactly when some address is taken.
pub meets-cases :
    (new : VmoEntry) (l : List (ℕ × VmoEntry))
    → Mapped l
    → Proper new
    → (AllApart new l × (meets new.virtual_address (new.virtual_address + new.length) l ≡ false))
      ⊎ ((a : ℕ) × (e : VmoEntry) × (covers new a ≡ true)
          × (containing a l ≡ some e)
          × (meets new.virtual_address (new.virtual_address + new.length) l ≡ true))
unfolding meets containing
meets-cases new [] m p = inl (tt, refl)
meets-cases new ((k, e) ∷ l) m p =
    let start = new.virtual_address in
    let same : (e.virtual_address + e.length) % 2 ^ 64 ≡ e.virtual_address + e.length =
      omega (arith, m.1) in
    let fits : ltb (2 ^ 64 - 1 - e.virtual_address) e.length ≡ false = ground (arith, m.1) in
    elim (Bool-cases
      (ltb start (e.virtual_address + e.length) && ltb e.virtual_address (start + new.length))) [
        | inl overlap ↦
            let a = if ltb start e.virtual_address then e.virtual_address else start in
            let here : covers e a ≡ true = ground (arith, overlap, m.1, p) in
            inr (
              a,
              e,
              ground (arith, overlap, p),
              rw (containing-cons a k e l m.1, here) refl,
              simp (same, fits, overlap),
            )
        | inr clear ↦ elim (meets-cases new l m.3 p) [
          | inl (apart, miss) ↦ inl ((ground (arith, clear), apart), simp (same, fits, clear, miss))
          | inr (a, f, inside, taken, met) ↦ elim (Bool-cases (covers e a)) [
            | inl here ↦ inr (
              a,
              e,
              inside,
              rw (containing-cons a k e l m.1, here) refl,
              simp (same, fits, clear, met),
            )
            | inr there ↦ inr (
              a,
              f,
              inside,
              rw (containing-cons a k e l m.1, there) taken,
              simp (same, fits, clear, met),
            )
          ]
        ]
      ]

AllApart-append :
    (e : VmoEntry) (l : List (ℕ × VmoEntry)) (k : ℕ) (f : VmoEntry)
    → AllApart e l
    → Apart e f
    → AllApart e (l ++ (k, f) ∷ [])
AllApart-append e [] k f h a = (a, tt)
AllApart-append e ((j, g) ∷ l) k f h a = (h.0, AllApart-append e l k f h.1 a)

-- HASH_ADD of a mapping that overlaps none.
pub append-Mapped :
    (new : VmoEntry) (l : List (ℕ × VmoEntry))
    → Mapped l
    → Proper new
    → AllApart new l
    → Mapped (l ++ (new.virtual_address, new) ∷ [])
append-Mapped new [] m p h = (refl, p, tt, tt)
append-Mapped new ((k, e) ∷ l) m p h = (
  m.0,
  m.1,
  AllApart-append e l new.virtual_address new m.2 (ground (arith, h.0)),
  append-Mapped new l m.3 p h.1,
)

pub containing-append :
    (a : ℕ) (new : VmoEntry) (l : List (ℕ × VmoEntry))
    → Mapped l
    → Proper new
    → AllApart new l
    → containing a (l ++ (new.virtual_address, new) ∷ [])
      ≡ (if covers new a then some new else containing a l)
unfolding containing
containing-append a new [] m p h = containing-cons a new.virtual_address new [] p
containing-append a new ((k, e) ∷ l) m p h = ground (
  arith,
  containing-cons a k e l m.1,
  containing-cons a k e (l ++ (new.virtual_address, new) ∷ []) m.1,
  containing-append a new l m.3 p h.1,
)

-- A mapping that is apart from all keeps so when some are taken out.
pub AllApart-without :
    (e : VmoEntry) (k : ℕ) (l : List (ℕ × VmoEntry)) → AllApart e l → AllApart e (without k l)
AllApart-without e k [] h = tt
AllApart-without e k ((j, f) ∷ l) h = elim (Bool-cases (j == k)) [
  | inl same ↦ rw same (AllApart-without e k l h.1)
  | inr other ↦ rw other (h.0, AllApart-without e k l h.1)
]
