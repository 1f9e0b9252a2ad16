-- ===== src/Shell/Tokens.antt =====
-- kernel/shell/mod.rs, `tokenize`: up to three words of a line and what is left of it. The entries of
-- `tokens` that are filled are the list that is returned, and `count` is its length.
use runix_os.Prelude.{
  ℕ, zero, suc, ◌≤◌, ◌≡◌, refl, ap, arith, Bool, true, false, not, ◌&&◌, List, [], ◌∷◌, ◌++◌, ◌==◌,
  if◌then◌else◌, length, contains,
}

-- `while idx < line.len() && line[idx] == b' '`
unfoldable pub skip_spaces : List ℕ → List ℕ
skip_spaces [] = []
skip_spaces (b ∷ line) = let rest = skip_spaces line in if b == 32 then rest else b ∷ line

-- `while idx < line.len() && line[idx] != b' '`: the word, and what follows it.
unfoldable pub word : List ℕ → List ℕ
word [] = []
word (b ∷ line) = let rest = word line in if b == 32 then [] else b ∷ rest

unfoldable pub after_word : List ℕ → List ℕ
after_word [] = []
after_word (b ∷ line) = let rest = after_word line in if b == 32 then b ∷ line else rest

-- `while end > idx && line[end - 1] == b' '`
unfoldable pub trim_end : List ℕ → List ℕ
trim_end [] = []
trim_end (b ∷ line) = elim (trim_end line) [
  | [] ↦ if b == 32 then [] else b ∷ []
  | c ∷ rest ↦ b ∷ c ∷ rest
]

-- `if idx < end`
unfoldable pub remainder : List ℕ → List (List ℕ)
remainder line = elim (trim_end line) [ [] ↦ [] | b ∷ rest ↦ (b ∷ rest) ∷ [] ]

-- The loop over the words, `n` of which may follow, from a position that is no space.
unfoldable pub tokens : ℕ → List ℕ → List (List ℕ)
tokens zero line = remainder line
tokens (suc n) [] = []
tokens (suc n) (b ∷ line) = word (b ∷ line) ∷ tokens n (skip_spaces (after_word (b ∷ line)))

unfoldable pub tokenize : List ℕ → List (List ℕ)
tokenize line = tokens 3 (skip_spaces line)

-- Words that are not empty and have no space.
unfoldable pub are_words : List (List ℕ) → Bool
are_words [] = true
are_words ([] ∷ words) = false
are_words ((b ∷ w) ∷ words) = not (contains (b ∷ w) 32) && are_words words

-- The words, each with a space behind it.
unfoldable pub join : List (List ℕ) → List ℕ
join [] = []
join (w ∷ words) = w ++ (32 ∷ join words)

word-append : (w rest : List ℕ) → contains w 32 ≡ false → word (w ++ (32 ∷ rest)) ≡ w
unfolding word
word-append [] rest h = refl
word-append (b ∷ w) rest h =
    let e : (b == 32) ≡ false = ground (arith, h) in
    let t : contains w 32 ≡ false = ground (arith, h) in simp e (ap (◌∷◌ b) (word-append w rest t))

after_word-append :
    (w rest : List ℕ) → contains w 32 ≡ false → after_word (w ++ (32 ∷ rest)) ≡ 32 ∷ rest
unfolding after_word
after_word-append [] rest h = refl
after_word-append (b ∷ w) rest h =
    let e : (b == 32) ≡ false = ground (arith, h) in
    let t : contains w 32 ≡ false = ground (arith, h) in simp e (after_word-append w rest t)

tokens-join :
    (n : ℕ) (words : List (List ℕ))
    → are_words words ≡ true
    → length words ≤ n
    → tokens n (skip_spaces (join words)) ≡ words
unfolding tokens skip_spaces join are_words remainder trim_end
tokens-join zero [] h l = refl
tokens-join (suc n) [] h l = refl
tokens-join zero (w ∷ words) h l = absurd (omega (arith, l))
tokens-join (suc n) ([] ∷ words) h l = absurd (cc h)
tokens-join (suc n) ((b ∷ w) ∷ words) h l =
    let none_in : contains (b ∷ w) 32 ≡ false = ground (arith, h) in
    let e : (b == 32) ≡ false = ground (arith, none_in) in
    let t : are_words words ≡ true = ground (arith, h) in
    let a = word-append (b ∷ w) (join words) none_in in
    let c = after_word-append (b ∷ w) (join words) none_in in
    simp (e, a, c) (ap (◌∷◌ (b ∷ w)) (tokens-join n words t (omega (arith, l))))

-- A line that is made of at most three words, with spaces between, is split into exactly these words.
pub tokenize-join :
    (words : List (List ℕ))
    → are_words words ≡ true
    → length words ≤ 3
    → tokenize (join words) ≡ words
unfolding tokenize
tokenize-join words h l = tokens-join 3 words h l
