-- ===== src/Prelude/Words.antt =====
-- Machine integers: `usize` and `u64` are 64 bits wide, and their additions wrap.
use Prim.Native.Nat.{ℕ, ◌+◌, ◌-◌, ◌%◌, ◌^◌}

abbrev pub word_mod : ℕ
word_mod = 2 ^ 64

-- `usize::MAX` and `u64::MAX`
abbrev pub word_max : ℕ
word_max = 2 ^ 64 - 1

abbrev pub add_word : ℕ → ℕ → ℕ
add_word a b = (a + b) % word_mod

abbrev pub sub_word : ℕ → ℕ → ℕ
sub_word a b = (a + word_mod - b) % word_mod
