-- ===== src/Prelude/Search.antt =====
-- The first element of an array that passes a test, as the linear searches find it, and what a write to
-- one cell does to the search.
use Prim.Native.Nat.{ℕ, zero, suc, ◌<◌}
use mathlib.Core.Path.{◌≡◌, refl}
use mathlib.Core.Logic.{◌≢◌, inl, inr}
use mathlib.Core.Bool.{Bool, true, false}
use mathlib.Core.Option.{Option, none, some}
use mathlib.Core.List.{List, [], ◌∷◌}
use native.Mathlib.Omega.{arith}
use runix_os.Prelude.Tests.{if◌then◌else◌, Bool-cases}
use runix_os.Prelude.Lists.{length, get_or, set}

-- The index of the first element that passes the test.
abbrev pub find_index {ℓ} : {A : Type ℓ} → (A → Bool) → List A → Option ℕ
find_index test [] = none
find_index test (x ∷ xs) =
    if test x then some 0 else elim (find_index test xs) [ none ↦ none | some i ↦ some (suc i) ]

module _ {ℓ} {A : Type ℓ} (test : A → Bool) (d : A) where
  -- The element found passes the test, and none before it does.
  pub find_index-some :
      (xs : List A) (i : ℕ)
      → find_index test xs ≡ some i
      → (i < length xs) × (test (get_or xs i d) ≡ true)
  find_index-some [] i h = absurd (cc h)
  find_index-some (x ∷ xs) zero h = elim (Bool-cases (test x)) [
    | inl e ↦ (omega arith, e)
    | inr e ↦ absurd (ground (arith, e, h))
  ]
  find_index-some (x ∷ xs) (suc i) h = elim (Bool-cases (test x)) [
    | inl e ↦ absurd (ground (arith, e, h))
    | inr e ↦ let (lt, t) = find_index-some xs i (ground (arith, e, h)) in (omega (arith, lt), t)
  ]

  pub find_index-none :
      (xs : List A) (i : ℕ)
      → find_index test xs ≡ none
      → i < length xs
      → test (get_or xs i d) ≡ false
  find_index-none [] i h lt = elim lt [ ]
  find_index-none (x ∷ xs) zero h lt = ground arith
  find_index-none (x ∷ xs) (suc i) h lt = find_index-none xs i (ground arith) (omega arith)

  pub find_index_absent :
      (xs : List A) → ((i : ℕ) → test (get_or xs i d) ≡ false) → find_index test xs ≡ none
  find_index_absent [] h = refl
  find_index_absent (x ∷ xs) h =
      let rest : find_index test xs ≡ none = find_index_absent xs (λ i. h (suc i)) in
      let e : test x ≡ false = h zero in simp (e, rest)

  -- A cell that does not pass, before or after the write, does not matter.
  pub find_index-set_ne :
      (xs : List A) (i : ℕ) (v : A)
      → test v ≡ false
      → test (get_or xs i d) ≡ false
      → find_index test (set xs i v) ≡ find_index test xs
  find_index-set_ne [] i v h k = refl
  find_index-set_ne (x ∷ xs) zero v h k = simp (h, k)
  find_index-set_ne (x ∷ xs) (suc i) v h k =
      let rest : find_index test (set xs i v) ≡ find_index test xs = find_index-set_ne xs i v h k in
      simp rest

  -- The written cell is found when it is the only one that passes.
  pub find_index-set_self :
      (xs : List A) (i : ℕ) (v : A)
      → i < length xs
      → test v ≡ true
      → ((j : ℕ) → j ≢ i → test (get_or xs j d) ≡ false)
      → find_index test (set xs i v) ≡ some i
  find_index-set_self [] i v lt h k = elim lt [ ]
  find_index-set_self (x ∷ xs) zero v lt h k = simp h
  find_index-set_self (x ∷ xs) (suc i) v lt h k =
      let rest : find_index test (set xs i v) ≡ some i =
        find_index-set_self xs i v (omega arith) h
          (λ j ne. k (suc j) (λ e. ne (omega (arith, e)))) in
      let e : test x ≡ false = k zero (λ q. absurd (omega (arith, q))) in simp (e, rest)

  -- Where the default does not pass either, nothing does.
  pub find_index-none_all :
      (xs : List A)
      → test d ≡ false
      → find_index test xs ≡ none
      → (i : ℕ) → test (get_or xs i d) ≡ false
  find_index-none_all [] t h i = t
  find_index-none_all (x ∷ xs) t h zero = ground arith
  find_index-none_all (x ∷ xs) t h (suc i) = find_index-none_all xs t (ground arith) i
