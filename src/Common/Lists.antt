-- ===== src/Common/Lists.antt =====
-- Keyed lists: what a hash table holds, in the order in which it is walked.
use Prim.Native.Nat.{ℕ, zero, suc, ◌+◌, ◌≤◌, ◌<◌}
use mathlib.Core.Path.{◌≡◌, refl, ap}
use mathlib.Core.Logic.{◌≢◌, ◌⊎◌, inl, inr}
use mathlib.Core.List.{List, [], ◌∷◌, ◌++◌}
use mathlib.Core.Option
use mathlib.Core.Option.{Option, none, some}
use native.Mathlib.Omega.{arith}
use sharkix.Common.Tests.{◌==◌, if◌then◌else◌}

module _ {ℓ} {A : Type ℓ} where
  abbrev pub length : List A → ℕ
  length [] = 0
  length (x ∷ xs) = suc (length xs)

  pub length-append : (xs ys : List A) → length (xs ++ ys) ≡ length xs + length ys
  length-append [] ys = omega arith
  length-append (x ∷ xs) ys = omega (arith, length-append xs ys)

pub List-cases {ℓ} :
    {A : Type ℓ} (xs : List A) → (xs ≡ []) ⊎ ((x : A) × (ys : List A) × (xs ≡ x ∷ ys))
List-cases [] = inl refl
List-cases (x ∷ xs) = inr (x, xs, refl)

module _ {ℓ} {V : Type ℓ} where
  abbrev pub assoc : ℕ → List (ℕ × V) → Option V
  assoc k [] = none
  assoc k ((j, v) ∷ l) = if j == k then some v else assoc k l

  abbrev pub without : ℕ → List (ℕ × V) → List (ℕ × V)
  without k [] = []
  without k ((j, v) ∷ l) = if j == k then without k l else (j, v) ∷ without k l

  abbrev pub adjust : ℕ → (V → V) → List (ℕ × V) → List (ℕ × V)
  adjust k f [] = []
  adjust k f ((j, v) ∷ l) = (j, (if j == k then f v else v)) ∷ adjust k f l

  pub length-without : (k : ℕ) (l : List (ℕ × V)) → length (without k l) ≤ length l
  length-without k [] = omega arith
  length-without k ((j, v) ∷ l) = ground (arith, length-without k l)

  pub assoc-append :
      (j k : ℕ) (v : V) (l : List (ℕ × V))
      → assoc k l ≡ none
      → assoc j (l ++ (k, v) ∷ []) ≡ (if k == j then some v else assoc j l)
  assoc-append j k v [] h = refl
  assoc-append j k v ((i, w) ∷ l) h = ground (arith, assoc-append j k v l)

  pub assoc-without :
      (j k : ℕ) (l : List (ℕ × V)) → assoc j (without k l) ≡ (if k == j then none else assoc j l)
  assoc-without j k [] = ground arith
  assoc-without j k ((i, w) ∷ l) = ground (arith, assoc-without j k l)

  pub assoc-adjust :
      (j k : ℕ) (f : V → V) (l : List (ℕ × V))
      → assoc j (adjust k f l) ≡ (if k == j then Option.map f (assoc j l) else assoc j l)
  assoc-adjust j k f [] = ground arith
  assoc-adjust j k f ((i, w) ∷ l) = ground (arith, assoc-adjust j k f l)

module _ {ℓ} {A : Type ℓ} where
  abbrev pub take : ℕ → List A → List A
  take zero xs = []
  take (suc n) [] = []
  take (suc n) (x ∷ xs) = x ∷ take n xs

  abbrev pub replicate : ℕ → A → List A
  replicate zero a = []
  replicate (suc n) a = a ∷ replicate n a

  -- Taking again what was taken whole drops any padding.
  pub take-take-append :
      (n : ℕ) (xs ys : List A) → n ≤ length xs → take n (take n xs ++ ys) ≡ take n xs
  take-take-append zero xs ys h = refl
  take-take-append (suc n) [] ys h = absurd (omega arith)
  take-take-append (suc n) (x ∷ xs) ys h = ap (λ l. x ∷ l) (take-take-append n xs ys (omega arith))

module _ {V : Type 0} where
  -- The pair stands somewhere in the list.
  abbrev pub Listed : ℕ → V → List (ℕ × V) → Type 0
  Listed k v [] = ⊥
  Listed k v ((j, w) ∷ l) = ((j ≡ k) × (w ≡ v)) ⊎ Listed k v l

  pub assoc-Listed : (k : ℕ) (v : V) (l : List (ℕ × V)) → assoc k l ≡ some v → Listed k v l
  assoc-Listed k v [] h = absurd (cc)
  assoc-Listed k v ((j, w) ∷ l) h = ground (arith, assoc-Listed k v l)

module _ {ℓ} {A : Type ℓ} where
  abbrev pub get_or : List A → ℕ → A → A
  get_or [] i d = d
  get_or (x ∷ xs) zero d = x
  get_or (x ∷ xs) (suc i) d = get_or xs i d

  -- A write out of range changes nothing.
  abbrev pub set : List A → ℕ → A → List A
  set [] i v = []
  set (x ∷ xs) zero v = v ∷ xs
  set (x ∷ xs) (suc i) v = x ∷ set xs i v

  pub length-set : (xs : List A) (i : ℕ) (v : A) → length (set xs i v) ≡ length xs
  length-set [] i v = refl
  length-set (x ∷ xs) zero v = refl
  length-set (x ∷ xs) (suc i) v = ap suc (length-set xs i v)

  pub get_or-set_self :
      (xs : List A) (i : ℕ) (v d : A) → i < length xs → get_or (set xs i v) i d ≡ v
  get_or-set_self [] i v d h = absurd (omega arith)
  get_or-set_self (x ∷ xs) zero v d h = refl
  get_or-set_self (x ∷ xs) (suc i) v d h = get_or-set_self xs i v d (omega arith)

  pub get_or-set_ne :
      (xs : List A) {i j : ℕ} (v d : A) → i ≢ j → get_or (set xs i v) j d ≡ get_or xs j d
  get_or-set_ne [] v d h = refl
  get_or-set_ne (x ∷ xs) {i = zero} {j = zero} v d h = absurd (h refl)
  get_or-set_ne (x ∷ xs) {i = zero} {j = suc j} v d h = refl
  get_or-set_ne (x ∷ xs) {i = suc i} {j = zero} v d h = refl
  get_or-set_ne (x ∷ xs) {i = suc i} {j = suc j} v d h = get_or-set_ne xs v d (λ e. h (ap suc e))

-- How often a number stands in a list.
abbrev pub count : ℕ → List ℕ → ℕ
count p [] = 0
count p (q ∷ qs) = (if q == p then 1 else 0) + count p qs

pub count-append : (p : ℕ) (xs ys : List ℕ) → count p (xs ++ ys) ≡ count p xs + count p ys
count-append p [] ys = omega arith
count-append p (x ∷ xs) ys = omega (arith, count-append p xs ys)
