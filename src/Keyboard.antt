-- ===== src/Keyboard.antt =====
-- kernel/drivers/keyboard.rs: the map from scancodes to characters, and the ring of 64 characters between
-- the interrupt handler and the readers. The port's value is an argument of the handler.
pub mod Buffered
use runix_os.Prelude.{
  ℕ, ◌+◌, ◌-◌, ◌%◌, Bool, Option, none, some, List, [], ◌∷◌, ◌==◌, if◌then◌else◌, ltb, set,
  replicate, byte_at,
}

abbrev pub scancode_map : List ℕ
scancode_map =
    0 ∷ 27 ∷ 49 ∷ 50 ∷ 51 ∷ 52 ∷ 53 ∷ 54 ∷ 55 ∷ 56 ∷ 57 ∷ 48 ∷ 45 ∷ 61 ∷ 8 ∷ 9 ∷ 113 ∷ 119 ∷ 101
    ∷ 114 ∷ 116 ∷ 121 ∷ 117 ∷ 105 ∷ 111 ∷ 112 ∷ 91 ∷ 93 ∷ 10 ∷ 0 ∷ 97 ∷ 115 ∷ 100 ∷ 102 ∷ 103 ∷ 104
    ∷ 106 ∷ 107 ∷ 108 ∷ 59 ∷ 39 ∷ 96 ∷ 0 ∷ 92 ∷ 122 ∷ 120 ∷ 99 ∷ 118 ∷ 98 ∷ 110 ∷ 109 ∷ 44 ∷ 46 ∷ 47
    ∷ 0 ∷ 42 ∷ 0 ∷ 32 ∷ 0 ∷ 0 ∷ 0 ∷ 0 ∷ 0 ∷ 0 ∷ 0 ∷ 0 ∷ 0 ∷ 0 ∷ 0 ∷ 0 ∷ 0 ∷ 0 ∷ 0 ∷ 0 ∷ 45 ∷ 0 ∷ 0
    ∷ 0 ∷ 43 ∷ 0 ∷ 0 ∷ 0 ∷ 0 ∷ 0 ∷ 0 ∷ 0 ∷ 0 ∷ 0 ∷ 0 ∷ 0 ∷ 0 ∷ 0 ∷ 0 ∷ 0 ∷ 0 ∷ 0 ∷ 0 ∷ 0 ∷ 0 ∷ 0 ∷ 0
    ∷ 0 ∷ 0 ∷ 0 ∷ 0 ∷ 0 ∷ 0 ∷ 0 ∷ 0 ∷ 0 ∷ 0 ∷ 0 ∷ 0 ∷ 0 ∷ 0 ∷ 0 ∷ 0 ∷ 0 ∷ 0 ∷ 0 ∷ 0 ∷ 0 ∷ 0 ∷ 0 ∷ 0
    ∷ 0 ∷ 0 ∷ 0 ∷ []

abbrev pub kbd_capacity : ℕ
kbd_capacity = 64

pub record KbdBuffer : Type 0 where
  pub keys : List ℕ
  pub head : ℕ
  pub tail : ℕ
  pub count : ℕ

unfoldable pub new : KbdBuffer
new = record { keys = replicate kbd_capacity 0; head = 0; tail = 0; count = 0 }

unfoldable pub push : KbdBuffer → ℕ → KbdBuffer
push buffer val =
    if ltb buffer.count kbd_capacity
    then (record buffer {
      keys = set buffer.keys buffer.tail val;
      tail = (buffer.tail + 1) % kbd_capacity;
      count = buffer.count + 1;
    })
    else buffer

-- `try_read` too
unfoldable pub pop : KbdBuffer → Option ℕ × KbdBuffer
pop buffer =
    if ltb 0 buffer.count
    then (
      some (byte_at buffer.keys buffer.head),
      record buffer { head = (buffer.head + 1) % kbd_capacity; count = buffer.count - 1 },
    )
    else (none, buffer)

-- The handler's effect on the buffer, for the scancode that the port gives.
unfoldable pub keyboard_isr : KbdBuffer → ℕ → KbdBuffer
unfolding push
keyboard_isr buffer scancode =
    let ascii = byte_at scancode_map scancode in
    if ltb scancode 128 then (if ascii == 0 then buffer else push buffer ascii) else buffer
