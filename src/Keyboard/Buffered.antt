-- ===== src/Keyboard/Buffered.antt =====
-- The keyboard's ring as a queue of characters.
use runix_os.Prelude.{
  ℕ, ◌≤◌, ◌≡◌, inl, inr, refl, sym, ap, ◌∙◌, subst, arith, true, false, Bool-cases, none, some,
  List, [], ◌∷◌, ◌++◌, ◌==◌, if◌then◌else◌, ltb, length, byte_at, Buffers, Buffers-push,
  Buffers-pop, take, take-append, take_all,
}
use runix_os.Service.Sync.Waiters.{byte_at-get_elem?}
use runix_os.Keyboard.{KbdBuffer, kbd_capacity, new, push, pop, keyboard_isr, scancode_map}

-- The buffer holds `typed`, the oldest character first.
abbrev pub Holds : KbdBuffer → List ℕ → Type 0
Holds b typed = Buffers b.keys kbd_capacity b.head b.tail b.count typed

pub new-Holds : Holds new []
unfolding new
new-Holds = record {
  whole = refl;
  head_in = omega arith;
  len_is = refl;
  bounded = omega arith;
  tail_is = refl;
  held = tt;
}

-- What is typed when there is room is appended; what is typed when there is none is lost.
abbrev pub after_push : List ℕ → ℕ → List ℕ
after_push typed val = if ltb (length typed) kbd_capacity then typed ++ (val ∷ []) else typed

pub push-Holds :
    (b : KbdBuffer) (typed : List ℕ) (val : ℕ)
    → Holds b typed
    → Holds (push b val) (after_push typed val)
unfolding push
push-Holds b typed val h = elim (Bool-cases (ltb (length typed) kbd_capacity)) [
  | inl e ↦
      let f : ltb b.count kbd_capacity ≡ true = ground (arith, h.len_is, e) in
      simp (push, e, f)
        (Buffers-push b.keys kbd_capacity b.head b.tail b.count typed val h (ground (arith, e)))
  | inr e ↦
      let f : ltb b.count kbd_capacity ≡ false = ground (arith, h.len_is, e) in simp (push, e, f) h
]

pub pop-Holds_empty : (b : KbdBuffer) → Holds b [] → pop b ≡ (none, b)
unfolding pop
pop-Holds_empty b h = let e : ltb 0 b.count ≡ false = ground (arith, h.len_is) in simp (pop, e)

pub pop-Holds :
    (b : KbdBuffer) (val : ℕ) (typed : List ℕ)
    → Holds b (val ∷ typed)
    → ((pop b).0 ≡ some val) × Holds (pop b).1 typed
unfolding pop
pop-Holds b val typed h =
    let e : ltb 0 b.count ≡ true = ground (arith, h.len_is) in
    let (found, rest) = Buffers-pop b.keys kbd_capacity b.head b.tail b.count val typed h in
    let v : byte_at b.keys b.head ≡ val = byte_at-get_elem? b.keys b.head val found in
    simp (pop, e) (ap some v, rest)

-- The characters of a sequence of scancodes: those below 128 that have one.
unfoldable pub characters : List ℕ → List ℕ
characters [] = []
characters (s ∷ scancodes) =
    let rest = characters scancodes in
    if ltb s 128
    then (if byte_at scancode_map s == 0 then rest else byte_at scancode_map s ∷ rest)
    else rest

-- The handler, once for each scancode.
unfoldable pub type_all : KbdBuffer → List ℕ → KbdBuffer
type_all b [] = b
type_all b (s ∷ scancodes) = type_all (keyboard_isr b s) scancodes

append_nil : (xs : List ℕ) → xs ++ [] ≡ xs
append_nil [] = refl
append_nil (x ∷ xs) = ap (◌∷◌ x) (append_nil xs)

append_one : (xs : List ℕ) (y : ℕ) (ys : List ℕ) → (xs ++ (y ∷ [])) ++ ys ≡ xs ++ (y ∷ ys)
append_one [] y ys = refl
append_one (x ∷ xs) y ys = ap (◌∷◌ x) (append_one xs y ys)

-- What does not fit is lost, and only that.
fill :
    (typed : List ℕ) (c : ℕ) (rest : List ℕ)
    → length typed ≤ kbd_capacity
    → take kbd_capacity (after_push typed c ++ rest) ≡ take kbd_capacity (typed ++ (c ∷ rest))
fill typed c rest h = elim (Bool-cases (ltb (length typed) kbd_capacity)) [
  | inl e ↦ simp e (ap (take kbd_capacity) (append_one typed c rest))
  | inr e ↦
      let full : length typed ≡ kbd_capacity = ground (arith, e, h) in
      let cut : (ys : List ℕ) → take kbd_capacity (typed ++ ys) ≡ typed =
        λ ys. subst (λ n. take n (typed ++ ys) ≡ typed) full (take-append typed ys) in
      simp e (cut rest ∙ sym (cut (c ∷ rest)))
]

-- Whatever keys are hit, in whatever state the buffer is: it holds what it held and then the characters in
-- the order typed, as far as 64 characters go.
pub type_all-Holds :
    (b : KbdBuffer) (typed scancodes : List ℕ)
    → Holds b typed
    → Holds (type_all b scancodes) (take kbd_capacity (typed ++ characters scancodes))
unfolding type_all characters keyboard_isr
type_all-Holds b typed [] h =
    subst (Holds b)
      (sym (ap (take kbd_capacity) (append_nil typed) ∙ take_all kbd_capacity typed h.bounded)) h
type_all-Holds b typed (s ∷ scancodes) h = elim (Bool-cases (ltb s 128)) [
  | inr e ↦ simp (keyboard_isr, e) (type_all-Holds b typed scancodes h)
  | inl e ↦ elim (Bool-cases (byte_at scancode_map s == 0)) [
    | inl f ↦ simp (keyboard_isr, e, f) (type_all-Holds b typed scancodes h)
    | inr f ↦
        let c = byte_at scancode_map s in
        simp (keyboard_isr, e, f)
          (subst (Holds (type_all (push b c) scancodes))
            (fill typed c (characters scancodes) h.bounded)
            (type_all-Holds (push b c) (after_push typed c) scancodes (push-Holds b typed c h)))
  ]
]
