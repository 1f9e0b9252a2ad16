-- ===== src/Prelude/Ring.antt =====
-- Arrays used as rings: the kernel's message queues, its keyboard buffer and its logs keep a
-- sequence in consecutive cells, the index going round at the size.
use Prim.Native.Nat.{ℕ, zero, suc, ◌+◌, ◌-◌, ◌%◌, ◌<◌, ◌≤◌}
use mathlib.Core.Path.{◌≡◌, ap, ◌∙◌}
use mathlib.Core.Logic.{◌≢◌}
use mathlib.Core.List.{List, [], ◌∷◌, ◌++◌}
use mathlib.Core.Option.{some}
use native.Mathlib.Nat.{mod-add-mod, mod-eq_of_lt, mod-eq-sub-mod, mod-lt, add-zero}
use native.Mathlib.Decide.{dec_lt}
use native.Mathlib.Omega.{arith}
use runix_os.Prelude.Lists.{length, get_elem?, set, get_elem?-set_self, get_elem?-set_ne}

-- `d` steps on from `h`, and one step more.
pub step-mod : (size h d : ℕ) → ((h + 1) % size + d) % size ≡ (h + suc d) % size
step-mod size h d = rw mod-add-mod (ap (λ k. k % size) (omega arith))

-- Fewer than `size` steps do not come back to the start.
mod-ne : (size h d : ℕ) → h < size → suc d < size → (h + suc d) % size ≢ h
mod-ne size h d hh hd = elim (dec_lt (h + suc d) size) [
  | yes p ↦ omega (arith, mod-eq_of_lt p)
  | no p ↦ omega (
    arith,
    mod-eq-sub-mod {n = h + suc d} {m = size} (omega arith),
    mod-eq_of_lt {n = h + suc d - size} {m = size} (omega arith),
  )
]

-- The whole way round is no way.
pub mod_round : (size h : ℕ) → h < size → ((h + 1) % size + (size - 1)) % size ≡ h
mod_round size h hh =
    let e : h + suc (size - 1) ≡ h + size = omega arith in
    step-mod size h (size - 1)
    ∙ rw e (
        omega (
          arith,
          mod-eq-sub-mod {n = h + size} {m = size} (omega arith),
          mod-eq_of_lt {n = h + size - size} {m = size} (omega arith),
        ))

module _ {ℓ} {A : Type ℓ} where
  -- The cells from index `h` on hold the items `xs`, in order.
  abbrev pub Holds : List A → ℕ → ℕ → List A → Type ℓ
  Holds buf size h [] = Unit
  Holds buf size h (x ∷ xs) = (get_elem? buf h ≡ some x) × Holds buf size ((h + 1) % size) xs

  -- A write past the items, and before the round is full, leaves them.
  pub Holds-set :
      (buf : List A) (size : ℕ) (v : A) (xs : List A) (h d i : ℕ)
      → h < size
      → length xs ≤ d
      → d < size
      → i ≡ (h + d) % size
      → Holds buf size h xs
      → Holds (set buf i v) size h xs
  Holds-set buf size v [] h d i hh hl hd e w = tt
  Holds-set buf size v (x ∷ xs) h zero i hh hl hd e w = absurd (omega arith)
  Holds-set buf size v (x ∷ xs) h (suc d) i hh hl hd e w = (
    get_elem?-set_ne buf i h v (λ q. mod-ne size h d hh hd (rw (← e) q)) ∙ w.0,
    Holds-set buf size v xs ((h + 1) % size) d i (mod-lt (h + 1) (omega arith)) (omega arith)
        (omega arith) (rw step-mod e) w.1,
  )

  -- A write just past the items extends them.
  pub Holds-snoc :
      (buf : List A) (size : ℕ) (v : A) (xs : List A) (h i : ℕ)
      → h < size
      → length xs < size
      → size ≤ length buf
      → i ≡ (h + length xs) % size
      → Holds buf size h xs
      → Holds (set buf i v) size h (xs ++ (v ∷ []))
  Holds-snoc buf size v [] h i hh hl hb e w =
      let e' : i ≡ h = rw (e, add-zero) (mod-eq_of_lt hh) in
      (rw e' (get_elem?-set_self buf h v (omega arith)), tt)
  Holds-snoc buf size v (x ∷ xs) h i hh hl hb e w = (
    get_elem?-set_ne buf i h v (λ q. mod-ne size h (length xs) hh hl (rw (← e) q)) ∙ w.0,
    Holds-snoc buf size v xs ((h + 1) % size) i (mod-lt (h + 1) (omega arith)) (omega arith) hb
        (rw step-mod e) w.1,
  )
