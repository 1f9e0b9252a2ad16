-- ===== src/Prelude/Lists.antt =====
-- Arrays as lists with native indices, under the library's names.
use Prim.Native.Nat.{ℕ, zero, suc, ◌+◌, ◌<◌}
use mathlib.Core.Path.{◌≡◌, refl, ap}
use mathlib.Core.Logic.{◌≢◌}
use mathlib.Core.List.{List, [], ◌∷◌, ◌++◌}
use mathlib.Core.Option.{Option, none, some}
use native.Mathlib.Omega.{arith}

module _ {ℓ} {A : Type ℓ} where
  abbrev pub length : List A → ℕ
  length [] = 0
  length (x ∷ xs) = suc (length xs)

  abbrev pub get_elem? : List A → ℕ → Option A
  get_elem? [] i = none
  get_elem? (x ∷ xs) zero = some x
  get_elem? (x ∷ xs) (suc i) = get_elem? xs i

  -- A write out of bounds changes nothing.
  abbrev pub set : List A → ℕ → A → List A
  set [] i v = []
  set (x ∷ xs) zero v = v ∷ xs
  set (x ∷ xs) (suc i) v = x ∷ set xs i v

  abbrev pub get_or : List A → ℕ → A → A
  get_or [] i d = d
  get_or (x ∷ xs) zero d = x
  get_or (x ∷ xs) (suc i) d = get_or xs i d

  abbrev pub take : ℕ → List A → List A
  take zero xs = []
  take (suc n) [] = []
  take (suc n) (x ∷ xs) = x ∷ take n xs

  abbrev pub drop : ℕ → List A → List A
  drop zero xs = xs
  drop (suc n) [] = []
  drop (suc n) (x ∷ xs) = drop n xs

  abbrev pub replicate : ℕ → A → List A
  replicate zero a = []
  replicate (suc n) a = a ∷ replicate n a

module _ {ℓ} {A : Type ℓ} where
  pub length-append : (xs ys : List A) → length (xs ++ ys) ≡ length xs + length ys
  length-append [] ys = omega arith
  length-append (x ∷ xs) ys = omega (arith, length-append xs ys)

  pub length-set : (xs : List A) (i : ℕ) (v : A) → length (set xs i v) ≡ length xs
  length-set [] i v = refl
  length-set (x ∷ xs) zero v = refl
  length-set (x ∷ xs) (suc i) v = ap suc (length-set xs i v)

  pub length-replicate : (n : ℕ) (a : A) → length (replicate n a) ≡ n
  length-replicate zero a = refl
  length-replicate (suc n) a = ap suc (length-replicate n a)

  pub get_elem?-set_self :
      (xs : List A) (i : ℕ) (v : A) → i < length xs → get_elem? (set xs i v) i ≡ some v
  get_elem?-set_self [] i v h = elim h [ ]
  get_elem?-set_self (x ∷ xs) zero v h = refl
  get_elem?-set_self (x ∷ xs) (suc i) v h = get_elem?-set_self xs i v (omega arith)

  pub get_elem?-set_ne :
      (xs : List A) (i j : ℕ) (v : A) → i ≢ j → get_elem? (set xs i v) j ≡ get_elem? xs j
  get_elem?-set_ne [] i j v h = refl
  get_elem?-set_ne (x ∷ xs) zero zero v h = absurd (h refl)
  get_elem?-set_ne (x ∷ xs) zero (suc j) v h = refl
  get_elem?-set_ne (x ∷ xs) (suc i) zero v h = refl
  get_elem?-set_ne (x ∷ xs) (suc i) (suc j) v h = get_elem?-set_ne xs i j v (λ e. h (ap suc e))

  pub get_elem?-some_lt : (xs : List A) (i : ℕ) {a : A} → get_elem? xs i ≡ some a → i < length xs
  get_elem?-some_lt [] i h = cc
  get_elem?-some_lt (x ∷ xs) zero h = omega arith
  get_elem?-some_lt (x ∷ xs) (suc i) h = omega (arith, get_elem?-some_lt xs i h)

  pub get_elem?-lt_some :
      (xs : List A) (i : ℕ) → i < length xs → (a : A) × (get_elem? xs i ≡ some a)
  get_elem?-lt_some [] i h = elim h [ ]
  get_elem?-lt_some (x ∷ xs) zero h = (x, refl)
  get_elem?-lt_some (x ∷ xs) (suc i) h = get_elem?-lt_some xs i (omega arith)

  pub get_elem?-append_last :
      (xs : List A) (v : A) → get_elem? (xs ++ (v ∷ [])) (length xs) ≡ some v
  get_elem?-append_last [] v = refl
  get_elem?-append_last (x ∷ xs) v = get_elem?-append_last xs v

  pub set_same : (xs : List A) (i : ℕ) {v : A} → get_elem? xs i ≡ some v → set xs i v ≡ xs
  set_same [] i h = refl
  set_same (x ∷ xs) zero h = ground arith
  set_same (x ∷ xs) (suc i) h = ap (◌∷◌ x) (set_same xs i h)

-- The slot of an array of `Option`: a read out of range gives `none`, where the code guards the index.
abbrev pub slot_at {ℓ} : {A : Type ℓ} → List (Option A) → ℕ → Option A
slot_at xs i = get_or xs i none

module _ {ℓ} {A : Type ℓ} where
  -- The first empty slot, which the loops `for slot in slots { if slot.is_none() … }` look for.
  abbrev pub first_free : List (Option A) → Option ℕ
  first_free [] = none
  first_free (none ∷ xs) = some 0
  first_free (some a ∷ xs) = elim (first_free xs) [ none ↦ none | some i ↦ some (suc i) ]

  pub first_free_lt : (xs : List (Option A)) (i : ℕ) → first_free xs ≡ some i → i < length xs
  first_free_lt [] i h = cc
  first_free_lt (none ∷ xs) i h = ground arith
  first_free_lt (some a ∷ xs) zero h = omega arith
  first_free_lt (some a ∷ xs) (suc i) h = ground (arith, first_free_lt xs i)

  pub first_free_empty :
      (xs : List (Option A)) (i : ℕ) → first_free xs ≡ some i → get_elem? xs i ≡ some none
  first_free_empty [] i h = cc
  first_free_empty (none ∷ xs) i h = ground arith
  first_free_empty (some a ∷ xs) zero h = ground arith
  first_free_empty (some a ∷ xs) (suc i) h = ground (arith, first_free_empty xs i)

  -- Every slot before the first free one is taken.
  pub first_free_before :
      (xs : List (Option A)) (i j : ℕ)
      → first_free xs ≡ some i
      → j < i
      → (a : A) × (get_elem? xs j ≡ some (some a))
  first_free_before [] i j h lt = cc
  first_free_before (none ∷ xs) i j h lt = absurd (ground arith)
  first_free_before (some a ∷ xs) zero j h lt = elim lt [ ]
  first_free_before (some a ∷ xs) (suc i) zero h lt = (a, refl)
  first_free_before (some a ∷ xs) (suc i) (suc j) h lt =
      first_free_before xs i j (ground arith) (omega arith)

  pub first_free_full :
      (xs : List (Option A)) (j : ℕ)
      → first_free xs ≡ none
      → j < length xs
      → (a : A) × (get_elem? xs j ≡ some (some a))
  first_free_full [] j h lt = elim lt [ ]
  first_free_full (none ∷ xs) j h lt = cc
  first_free_full (some a ∷ xs) zero h lt = (a, refl)
  first_free_full (some a ∷ xs) (suc j) h lt = first_free_full xs j (ground arith) (omega arith)
