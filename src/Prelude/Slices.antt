-- ===== src/Prelude/Slices.antt =====
-- A message's payload is filled by writes of bytes and copies into its middle; what is read back.
use Prim.Native.Nat.{ℕ, zero, suc, ◌+◌, ◌≤◌, ◌<◌}
use mathlib.Core.Path.{◌≡◌, refl, ap}
use mathlib.Core.List.{List, [], ◌∷◌}
use native.Mathlib.Omega.{arith}
use runix_os.Prelude.Lists.{length, set, drop, length-append}
use runix_os.Prelude.Bytes.{byte_at, slice_of, copy_over, length-drop, take-append}

-- `xs[from..from + ys.len()].copy_from_slice(ys)`
abbrev pub copy_at : List ℕ → ℕ → List ℕ → List ℕ
copy_at xs zero ys = copy_over xs ys
copy_at [] (suc from) ys = []
copy_at (x ∷ xs) (suc from) ys = x ∷ copy_at xs from ys

pub length-copy_at :
    (xs : List ℕ) (from : ℕ) (ys : List ℕ)
    → from + length ys ≤ length xs
    → length (copy_at xs from ys) ≡ length xs
length-copy_at xs zero ys h =
    omega (arith, length-append ys (drop (length ys) xs), length-drop (length ys) xs)
length-copy_at [] (suc from) ys h = refl
length-copy_at (x ∷ xs) (suc from) ys h = ap suc (length-copy_at xs from ys (omega arith))

-- A byte before the copy is not touched.
pub byte_at-copy_at :
    (xs : List ℕ) (from : ℕ) (ys : List ℕ) (i : ℕ)
    → i < from
    → byte_at (copy_at xs from ys) i ≡ byte_at xs i
byte_at-copy_at xs zero ys i h = elim h [ ]
byte_at-copy_at [] (suc from) ys i h = refl
byte_at-copy_at (x ∷ xs) (suc from) ys zero h = refl
byte_at-copy_at (x ∷ xs) (suc from) ys (suc i) h = byte_at-copy_at xs from ys i (omega arith)

-- A slice is read back where it was copied to.
pub slice_of-copy_at :
    (xs : List ℕ) (from : ℕ) (ys : List ℕ)
    → from ≤ length xs
    → slice_of (copy_at xs from ys) from (length ys) ≡ ys
slice_of-copy_at xs zero ys h = take-append ys (drop (length ys) xs)
slice_of-copy_at [] (suc from) ys h = elim h [ ]
slice_of-copy_at (x ∷ xs) (suc from) ys h = slice_of-copy_at xs from ys (omega arith)

-- A slice that ends before the copy is not touched.
pub slice_of-copy_at_before :
    (xs : List ℕ) (from : ℕ) (ys : List ℕ) (a n : ℕ)
    → a + n ≤ from
    → from ≤ length xs
    → slice_of (copy_at xs from ys) a n ≡ slice_of xs a n
slice_of-copy_at_before xs from ys a zero h l = refl
slice_of-copy_at_before xs zero ys a (suc n) h l = absurd (omega arith)
slice_of-copy_at_before [] (suc from) ys a (suc n) h l = elim l [ ]
slice_of-copy_at_before (x ∷ xs) (suc from) ys zero (suc n) h l =
    ap (◌∷◌ x) (slice_of-copy_at_before xs from ys zero n (omega arith) (omega arith))
slice_of-copy_at_before (x ∷ xs) (suc from) ys (suc a) (suc n) h l =
    slice_of-copy_at_before xs from ys a (suc n) (omega arith) (omega arith)

-- A slice that ends before a written byte is not touched.
pub slice_of-set :
    (xs : List ℕ) (i v a n : ℕ) → a + n ≤ i → slice_of (set xs i v) a n ≡ slice_of xs a n
slice_of-set xs i v a zero h = refl
slice_of-set [] i v a (suc n) h = refl
slice_of-set (x ∷ xs) zero v a (suc n) h = absurd (omega arith)
slice_of-set (x ∷ xs) (suc i) v zero (suc n) h =
    ap (◌∷◌ x) (slice_of-set xs i v zero n (omega arith))
slice_of-set (x ∷ xs) (suc i) v (suc a) (suc n) h = slice_of-set xs i v a (suc n) (omega arith)
