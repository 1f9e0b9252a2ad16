-- ===== src/Shell/Line/Recall.antt =====
-- What the line editor returns: the characters typed, and the commands recalled.
use runix_os.Prelude.{
  ℕ, ◌+◌, ◌<◌, ◌≤◌, ◌≡◌, refl, sym, ap, ◌∙◌, arith, Bool, true, false, ◌&&◌, ◌||◌, some, List, [],
  ◌∷◌, ◌++◌, ◌==◌, ltb, length, length-append, get_or,
}
use runix_os.Shell.History.{History, get}
use runix_os.Shell.History.Recent.{Shows, get-Shows}
use runix_os.Shell.Line.{
  Editor, plain, bracketed, start, go_back, is_printable, line_capacity, key, escape_key, read_line,
  read_line_with_history,
}

-- All are printable characters.
unfoldable pub are_printable : List ℕ → Bool
are_printable [] = true
are_printable (b ∷ bytes) = is_printable b && are_printable bytes

append_one : (xs : List ℕ) (y : ℕ) (ys : List ℕ) → (xs ++ (y ∷ [])) ++ ys ≡ xs ++ (y ∷ ys)
append_one [] y ys = refl
append_one (x ∷ xs) y ys = ap (◌∷◌ x) (append_one xs y ys)

append_nil : (xs : List ℕ) → xs ++ [] ≡ xs
append_nil [] = refl
append_nil (x ∷ xs) = ap (◌∷◌ x) (append_nil xs)

typed_lem :
    (hist : History) (idx : ℕ) (line draft bytes rest : List ℕ)
    → are_printable bytes ≡ true
    → length line + length bytes ≤ line_capacity
    → read_line hist
        (record { line = line; history_temp_idx = idx; draft = draft; escape = plain })
        (bytes ++ (13 ∷ rest))
      ≡ some (line ++ bytes, rest)
unfolding read_line are_printable key
typed_lem hist idx line draft [] rest p l = ap (λ x. some (x, rest)) (sym (append_nil line))
typed_lem hist idx line draft (b ∷ bytes) rest p l =
    let q : is_printable b ≡ true = ground (arith, p) in
    let r : are_printable bytes ≡ true = ground (arith, p) in
    let not_end : (b == 10 || b == 13) ≡ false = ground (arith, q) in
    let not_back : (b == 8 || b == 127) ≡ false = ground (arith, q) in
    let not_escape : (b == 27) ≡ false = ground (arith, q) in
    let room : ltb (length line) line_capacity ≡ true = ground (arith, l) in
    let n = length-append line (b ∷ []) in
    simp (not_end, not_back, not_escape, q, room)
      (typed_lem hist 0 (line ++ (b ∷ [])) draft bytes rest r (omega (arith, l, n))
        ∙ ap (λ x. some (x, rest)) (append_one line b bytes))

-- A line of printable characters that fits, ended by a return, is read as it was typed, and no byte after
-- it is taken.
pub read_line-typed :
    (hist : History) (bytes rest : List ℕ)
    → are_printable bytes ≡ true
    → length bytes ≤ line_capacity
    → read_line_with_history hist (bytes ++ (13 ∷ rest)) ≡ some (bytes, rest)
unfolding read_line_with_history start
read_line-typed hist bytes rest p l = typed_lem hist 0 [] [] bytes rest p (omega (arith, l))

-- The editor after an escape sequence has begun.
abbrev in_sequence : Editor
in_sequence = record { line = []; history_temp_idx = 0; draft = []; escape = bracketed }

read_line_up :
    (hist : History) (bytes : List ℕ)
    → read_line_with_history hist (27 ∷ 91 ∷ 65 ∷ bytes)
      ≡ read_line hist (go_back hist in_sequence) bytes
unfolding read_line_with_history read_line start key escape_key
read_line_up hist bytes = refl

go_back-latest :
    (hist : History) (recent : List (List ℕ))
    → Shows hist recent
    → 0 < length recent
    → go_back hist in_sequence
      ≡ record { line = get_or recent 0 []; history_temp_idx = 1; draft = []; escape = plain }
unfolding go_back
go_back-latest hist recent s some_command =
    let g : get hist (0 + 1) ≡ some (get_or recent 0 []) =
      (get-Shows hist recent 0 s).1 some_command in
    let c : ltb 0 hist.count ≡ true = ground (arith, s.count_is, some_command) in
    simp (go_back, c, g)

-- An upward arrow and a return read the latest command again.
pub read_line-recalled :
    (hist : History) (recent : List (List ℕ)) (rest : List ℕ)
    → Shows hist recent
    → 0 < length recent
    → read_line_with_history hist (27 ∷ 91 ∷ 65 ∷ 13 ∷ rest) ≡ some (get_or recent 0 [], rest)
unfolding read_line
read_line-recalled hist recent rest s some_command =
    read_line_up hist (13 ∷ rest)
    ∙ ap (λ e. read_line hist e (13 ∷ rest)) (go_back-latest hist recent s some_command)
