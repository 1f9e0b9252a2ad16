-- ===== src/Shell/Number.antt =====
-- kernel/shell/mod.rs, `parse_usize`: a decimal number of 64 bits. What it prints is left out.
use runix_os.Prelude.{
  ℕ, ◌+◌, ◌-◌, ◌*◌, ◌^◌, ◌<◌, ◌≤◌, ◌≡◌, inl, inr, refl, arith, Bool, true, false, ◌&&◌, not,
  Bool-cases, Option, none, some, List, [], ◌∷◌, if◌then◌else◌, ltb, leb, word_mod, length,
}

abbrev pub is_digit : ℕ → Bool
is_digit b = leb 48 b && leb b 57

-- `none` is an overflow of `checked_mul` or `checked_add`, or a byte that is no digit.
-- The loop over the bytes.
unfoldable pub parse_from : ℕ → List ℕ → Option ℕ
parse_from val [] = some val
parse_from val (b ∷ tok) =
    let next = val * 10 + (b - 48) in
    let rest = parse_from next tok in
    if is_digit b
    then (if ltb (val * 10) word_mod && ltb next word_mod then rest else none)
    else none

-- `none` is `Err(())`.
unfoldable pub parse_usize : List ℕ → Option ℕ
parse_usize [] = none
parse_usize (b ∷ tok) = parse_from 0 (b ∷ tok)

-- All bytes are digits.
unfoldable pub are_digits : List ℕ → Bool
are_digits [] = true
are_digits (b ∷ tok) = is_digit b && are_digits tok

-- The number that the digits write, after those of `val`.
unfoldable pub value_from : ℕ → List ℕ → ℕ
value_from val [] = val
value_from val (b ∷ tok) = value_from (val * 10 + (b - 48)) tok

value_from-grows : (val : ℕ) (tok : List ℕ) → val ≤ value_from val tok
unfolding value_from
value_from-grows val [] = omega arith
value_from-grows val (b ∷ tok) = omega (arith, value_from-grows (val * 10 + (b - 48)) tok)

parse_from-value :
    (val : ℕ) (tok : List ℕ)
    → val < word_mod
    → parse_from val tok ≡ (
        if are_digits tok && ltb (value_from val tok) word_mod
        then some (value_from val tok)
        else none)
unfolding parse_from are_digits value_from
parse_from-value val [] h = ground (arith, h)
parse_from-value val (b ∷ tok) h =
    let next = val * 10 + (b - 48) in
    elim (Bool-cases (is_digit b)) [
      | inr e ↦ simp e
      | inl e ↦ elim (Bool-cases (ltb (val * 10) word_mod && ltb next word_mod)) [
        | inl f ↦ simp (e, f) (parse_from-value next tok (ground (arith, f)))
        | inr f ↦
            let big : ltb (value_from next tok) word_mod ≡ false =
              ground (arith, f, value_from-grows next tok) in
            elim (Bool-cases (are_digits tok)) [
              | inl g ↦ simp (e, f, g, big)
              | inr g ↦ simp (e, f, g)
            ]
      ]
    ]

-- The parser accepts exactly the sequences of one or more digits whose number is below 2 ^ 64, and gives
-- that number.
pub parse_usize-value :
    (tok : List ℕ)
    → parse_usize tok ≡ (
        if not (leb (length tok) 0) && (are_digits tok && ltb (value_from 0 tok) (2 ^ 64))
        then some (value_from 0 tok)
        else none)
unfolding parse_usize
parse_usize-value [] = refl
parse_usize-value (b ∷ tok) =
    let e : leb (length (b ∷ tok)) 0 ≡ false = ground arith in
    simp e (parse_from-value 0 (b ∷ tok) (omega arith))
