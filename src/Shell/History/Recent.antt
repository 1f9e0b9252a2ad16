-- ===== src/Shell/History/Recent.antt =====
-- The history as the list of the recent commands, the latest first.
use runix_os.Prelude.{
  ℕ, zero, suc, ◌+◌, ◌-◌, ◌%◌, ◌<◌, ◌≤◌, ◌≡◌, ◌≢◌, inl, inr, refl, sym, ap, ◌∙◌, subst, arith, min,
  Bool, true, false, ◌&&◌, ◌||◌, Bool-cases, none, some, List, [], ◌∷◌, ◌==◌, if◌then◌else◌, ltb,
  length, get_or, set, take, drop, replicate, byte_at, copy_over, eq_bytes, eq_bytes→≡, take-append,
  length-take, length-set, get_or-set_self, get_or-set_ne, get_or-replicate,
}
use runix_os.Shell.History.{History, empty_row, new, command_at, store_command, push, get}

-- The rows hold `recent`, from the one before `head` backwards.
pub record Shows (h : History) (recent : List (List ℕ)) : Type 0 where
  pub rows : length h.buffer ≡ 16
  pub row_lens : length h.lens ≡ 16
  pub head_in : h.head < 16
  pub count_is : h.count ≡ length recent
  pub bounded : length recent ≤ 16
  pub lens_are : (i : ℕ) → length (command_at h i) ≡ byte_at h.lens i
  pub shown :
      (k : ℕ) → k < length recent → command_at h ((h.head + 15 - k) % 16) ≡ get_or recent k []

new_lens : (i : ℕ) → length (command_at new i) ≡ byte_at new.lens i
unfolding new
new_lens i = let z : byte_at (replicate 16 0) i ≡ 0 = get_or-replicate 16 i 0 in simp z

pub new-Shows : Shows new []
unfolding new
new-Shows = record {
  rows = refl;
  row_lens = refl;
  head_in = omega arith;
  count_is = refl;
  bounded = omega arith;
  lens_are = λ i. new_lens i;
  shown = λ k h. elim h [ ];
}

-- The command as it is kept.
abbrev pub cut : List ℕ → List ℕ
cut cmd = take (min (length cmd) 128) cmd

-- The list after a command: an empty one, and one like the latest, is not kept; else it comes first, and
-- the seventeenth is lost.
abbrev pub after_command : List (List ℕ) → List ℕ → List (List ℕ)
after_command recent cmd =
    if length cmd == 0
    then recent
    else if ltb 0 (length recent) && eq_bytes (get_or recent 0 []) cmd
    then recent
    else take 16 (cut cmd ∷ recent)

length-cut : (cmd : List ℕ) → length (cut cmd) ≡ min (length cmd) 128
length-cut cmd = length-take (min (length cmd) 128) cmd (omega arith)

stored_self :
    (h : History) (cmd : List ℕ) (recent : List (List ℕ))
    → Shows h recent
    → command_at (store_command h cmd) h.head ≡ cut cmd
unfolding store_command
stored_self h cmd recent s =
    let row = get_or h.buffer h.head empty_row in
    let l : byte_at (set h.lens h.head (min (length cmd) 128)) h.head ≡ length (cut cmd) =
      get_or-set_self h.lens h.head (min (length cmd) 128) 0 (omega (arith, s.row_lens, s.head_in))
      ∙ sym (length-cut cmd) in
    let b : get_or (set h.buffer h.head (copy_over row (cut cmd))) h.head empty_row
        ≡ copy_over row (cut cmd) =
      get_or-set_self h.buffer h.head (copy_over row (cut cmd)) empty_row
        (omega (arith, s.rows, s.head_in)) in
    rw (l, b) (take-append (cut cmd) (drop (length (cut cmd)) row))

stored_ne :
    (h : History) (cmd : List ℕ) (i : ℕ)
    → h.head ≢ i
    → command_at (store_command h cmd) i ≡ command_at h i
unfolding store_command
stored_ne h cmd i ne =
    let row = get_or h.buffer h.head empty_row in
    rw
      (
        get_or-set_ne h.lens h.head i (min (length cmd) 128) 0 ne,
        get_or-set_ne h.buffer h.head i (copy_over row (cut cmd)) empty_row ne,
      )
      refl

stored_lens :
    (h : History) (cmd : List ℕ) (recent : List (List ℕ))
    → Shows h recent
    → (i : ℕ) → length (command_at (store_command h cmd) i) ≡ byte_at (store_command h cmd).lens i
unfolding store_command
stored_lens h cmd recent s i = elim (Bool-cases (h.head == i)) [
  | inl e ↦
      let q : h.head ≡ i = ground (arith, e) in
      subst
        (λ j. length (command_at (store_command h cmd) j) ≡ byte_at (store_command h cmd).lens j) q
        (ap length (stored_self h cmd recent s)
          ∙ (length-cut cmd
              ∙ sym (
                  get_or-set_self h.lens h.head (min (length cmd) 128) 0
                    (omega (arith, s.row_lens, s.head_in)))))
  | inr e ↦
      let ne : h.head ≢ i = ground (arith, e) in
      ap length (stored_ne h cmd i ne)
      ∙ (s.lens_are i ∙ sym (get_or-set_ne h.lens h.head i (min (length cmd) 128) 0 ne))
]

get_or-take : (n k : ℕ) (xs : List (List ℕ)) → k < n → get_or (take n xs) k [] ≡ get_or xs k []
get_or-take zero k xs h = elim h [ ]
get_or-take (suc n) k [] h = refl
get_or-take (suc n) zero (x ∷ xs) h = refl
get_or-take (suc n) (suc k) (x ∷ xs) h = get_or-take n k xs (omega arith)

length-take-min : (n : ℕ) (xs : List (List ℕ)) → length (take n xs) ≡ min n (length xs)
length-take-min zero xs = omega arith
length-take-min (suc n) [] = omega arith
length-take-min (suc n) (x ∷ xs) = omega (arith, length-take-min n xs)

store_command-Shows :
    (h : History) (cmd : List ℕ) (recent : List (List ℕ))
    → Shows h recent
    → Shows (store_command h cmd) (take 16 (cut cmd ∷ recent))
unfolding store_command
store_command-Shows h cmd recent s =
    let l = length-take-min 16 (cut cmd ∷ recent) in
    let row = get_or h.buffer h.head empty_row in
    record {
      rows = length-set h.buffer h.head (copy_over row (cut cmd)) ∙ s.rows;
      row_lens = length-set h.lens h.head (min (length cmd) 128) ∙ s.row_lens;
      head_in = omega (arith, s.head_in);
      count_is = ground (arith, l, s.count_is, s.bounded);
      bounded = omega (arith, l);
      lens_are = λ i. stored_lens h cmd recent s i;
      shown = λ k lt.
          shown_after h cmd recent s k (omega (arith, lt, l)) (omega (arith, lt, l))
          ∙ sym (get_or-take 16 k (cut cmd ∷ recent) (omega (arith, lt, l)));
    }
  where
    shown_after :
        (h : History) (cmd : List ℕ) (recent : List (List ℕ))
        → Shows h recent
        → (k : ℕ) → k < 16
        → k < suc (length recent)
        → command_at (store_command h cmd) (((h.head + 1) % 16 + 15 - k) % 16)
          ≡ get_or (cut cmd ∷ recent) k []
    shown_after h cmd recent s zero a b =
        let i : ((h.head + 1) % 16 + 15 - 0) % 16 ≡ h.head = omega (arith, s.head_in) in
        ap (command_at (store_command h cmd)) i ∙ stored_self h cmd recent s
    shown_after h cmd recent s (suc k) a b =
        let i : ((h.head + 1) % 16 + 15 - suc k) % 16 ≡ (h.head + 15 - k) % 16 =
          omega (arith, s.head_in, a) in
        let ne : h.head ≢ (h.head + 15 - k) % 16 = λ e. absurd (omega (arith, s.head_in, a, e)) in
        ap (command_at (store_command h cmd)) i
        ∙ (stored_ne h cmd ((h.head + 15 - k) % 16) ne ∙ s.shown k (omega (arith, b)))

-- Equal slices have equal lengths, so the test of the length adds nothing.
eq_bytes-length :
    (xs ys : List ℕ) (l : ℕ) → length xs ≡ l → (l == length ys && eq_bytes xs ys) ≡ eq_bytes xs ys
eq_bytes-length xs ys l h = elim (Bool-cases (eq_bytes xs ys)) [
  | inl e ↦
      let q = eq_bytes→≡ xs ys e in
      let n : (l == length ys) ≡ true = ground (arith, h, ap length q) in simp (e, n)
  | inr e ↦ simp e (and_false (l == length ys))
]
  where
    and_false : (b : Bool) → (b && false) ≡ false
    and_false true = refl
    and_false false = refl

-- Whether a command is like the latest one.
repeats :
    (h : History) (cmd : List ℕ) (recent : List (List ℕ))
    → Shows h recent
    → (ltb 0 h.count
        && (byte_at h.lens ((h.head + 15) % 16) == length cmd
            && eq_bytes (command_at h ((h.head + 15) % 16)) cmd))
      ≡ (ltb 0 (length recent) && eq_bytes (get_or recent 0 []) cmd)
repeats h cmd recent s =
    let last_idx = (h.head + 15) % 16 in
    let same =
      eq_bytes-length (command_at h last_idx) cmd (byte_at h.lens last_idx) (s.lens_are last_idx) in
    elim (Bool-cases (ltb 0 (length recent))) [
      | inr e ↦ let f : ltb 0 h.count ≡ false = ground (arith, e, s.count_is) in simp (e, f)
      | inl e ↦
          let f : ltb 0 h.count ≡ true = ground (arith, e, s.count_is) in
          let last : command_at h last_idx ≡ get_or recent 0 [] =
            ap (λ x. command_at h (x % 16)) (omega arith) ∙ s.shown 0 (ground (arith, e)) in
          simp (e, f) (same ∙ ap (λ x. eq_bytes x cmd) last)
    ]

-- After a command the history shows the commands before and the new one first, unless it is empty or like
-- the latest, and keeps the last sixteen; a command is cut to 128 bytes.
pub push-Shows :
    (h : History) (cmd : List ℕ) (recent : List (List ℕ))
    → Shows h recent
    → Shows (push h cmd) (after_command recent cmd)
unfolding push
push-Shows h cmd recent s = elim (Bool-cases (length cmd == 0)) [
  | inl e ↦ simp (push, e) s
  | inr e ↦
      let r = repeats h cmd recent s in
      elim (Bool-cases (ltb 0 (length recent) && eq_bytes (get_or recent 0 []) cmd)) [
        | inl f ↦ simp (push, e, r, f) s
        | inr f ↦ simp (push, e, r, f) (store_command-Shows h cmd recent s)
      ]
]

-- Going back `n` steps gives the `n`-th of the recent commands, and nothing where there are not so many.
pub get-Shows :
    (h : History) (recent : List (List ℕ)) (n : ℕ)
    → Shows h recent
    → (get h 0 ≡ none)
      × (n < length recent → get h (suc n) ≡ some (get_or recent n []))
      × (length recent ≤ n → get h (suc n) ≡ none)
unfolding get
get-Shows h recent n s = (
  refl,
  λ lt.
      let a : (suc n == 0 || ltb h.count (suc n)) ≡ false = ground (arith, s.count_is, lt) in
      let i : (h.head + 16 - suc n) % 16 ≡ (h.head + 15 - n) % 16 = omega (arith, s.bounded, lt) in
      simp (get, a) (ap some (ap (command_at h) i ∙ s.shown n lt)),
  λ ge.
      let a : (suc n == 0 || ltb h.count (suc n)) ≡ true = ground (arith, s.count_is, ge) in
      simp (get, a),
)
