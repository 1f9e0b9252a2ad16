-- ===== src/Prelude/Buffer.antt =====
-- A ring buffer with head, tail and length, as the keyboard, the synchronisation objects and their
-- like keep it: `push` at the tail, `pop` at the head, the popped cell left as it is.
use Prim.Native.Nat.{ℕ, suc, ◌+◌, ◌-◌, ◌%◌, ◌<◌, ◌≤◌}
use mathlib.Core.Path.{◌≡◌, sym, ap, ◌∙◌}
use mathlib.Core.List.{List, [], ◌∷◌, ◌++◌}
use mathlib.Core.Option.{some}
use native.Mathlib.Nat.{mod-add-mod, mod-lt}
use native.Mathlib.Omega.{arith}
use runix_os.Prelude.Lists.{length, get_elem?, set, length-set, length-append}
use runix_os.Prelude.Ring.{Holds, Holds-snoc, step-mod}

-- The ring holds `xs`, the oldest first.
pub record Buffers {ℓ} {A : Type ℓ} (cells : List A) (size head tail len : ℕ) (xs : List A)
    : Type ℓ where
  pub whole : length cells ≡ size
  pub head_in : head < size
  pub len_is : len ≡ length xs
  pub bounded : length xs ≤ size
  pub tail_is : tail ≡ (head + len) % size
  pub held : Holds cells size head xs

pub Buffers-push {ℓ} :
    {A : Type ℓ} (cells : List A) (size head tail len : ℕ) (xs : List A) (a : A)
    → Buffers cells size head tail len xs
    → length xs < size
    → Buffers (set cells tail a) size head ((tail + 1) % size) (len + 1) (xs ++ (a ∷ []))
Buffers-push cells size head tail len xs a b lt = record {
  whole = length-set cells tail a ∙ b.whole;
  head_in = b.head_in;
  len_is = omega (arith, b.len_is, length-append xs (a ∷ []));
  bounded = omega (arith, length-append xs (a ∷ []));
  tail_is = rw b.tail_is (rw mod-add-mod (ap (λ k. k % size) (omega arith)));
  held =
      Holds-snoc cells size a xs head tail b.head_in lt (omega (arith, b.whole))
        (b.tail_is ∙ ap (λ k. (head + k) % size) b.len_is) b.held;
}

pub Buffers-pop {ℓ} :
    {A : Type ℓ} (cells : List A) (size head tail len : ℕ) (a : A) (xs : List A)
    → Buffers cells size head tail len (a ∷ xs)
    → (get_elem? cells head ≡ some a) × Buffers cells size ((head + 1) % size) tail (len - 1) xs
Buffers-pop cells size head tail len a xs b =
    let n : len - 1 ≡ length xs = omega (arith, b.len_is) in
    let m : len ≡ suc (len - 1) = omega (arith, b.len_is) in
    (
      b.held.0,
      record {
        whole = b.whole;
        head_in = mod-lt (head + 1) (omega (arith, b.head_in));
        len_is = n;
        bounded = omega (arith, b.bounded);
        tail_is = b.tail_is ∙ (ap (λ k. (head + k) % size) m ∙ sym (step-mod size head (len - 1)));
        held = b.held.1;
      },
    )
