-- ===== src/Shell/History.antt =====
-- kernel/shell/mod.rs, `History`: the last sixteen commands, each cut to 128 bytes.
pub mod Recent
pub mod Entered
use runix_os.Prelude.{
  ℕ, ◌+◌, ◌-◌, ◌%◌, min, Bool, ◌&&◌, ◌||◌, Option, none, some, List, [], ◌∷◌, ◌==◌, if◌then◌else◌,
  ltb, length, get_or, set, take, replicate, byte_at, copy_over, eq_bytes,
}

abbrev pub history_capacity : ℕ
history_capacity = 16

pub record History : Type 0 where
  pub buffer : List (List ℕ)
  pub lens : List ℕ
  pub head : ℕ
  pub count : ℕ

abbrev pub empty_row : List ℕ
empty_row = replicate 128 0

unfoldable pub new : History
new = record { buffer = replicate 16 empty_row; lens = replicate 16 0; head = 0; count = 0 }

-- `&self.buffer[idx][..self.lens[idx]]`
abbrev pub command_at : History → ℕ → List ℕ
command_at h idx = take (byte_at h.lens idx) (get_or h.buffer idx empty_row)

-- The command is written over the oldest one.
unfoldable pub store_command : History → List ℕ → History
store_command h cmd =
    let to_copy = min (length cmd) 128 in
    record {
      buffer =
          set h.buffer h.head (copy_over (get_or h.buffer h.head empty_row) (take to_copy cmd));
      lens = set h.lens h.head to_copy;
      head = (h.head + 1) % 16;
      count = if ltb h.count 16 then h.count + 1 else h.count;
    }

unfoldable pub push : History → List ℕ → History
push h cmd =
    let last_idx = (h.head + 15) % 16 in
    if length cmd == 0
    then h
    else if ltb 0 h.count
        && (byte_at h.lens last_idx == length cmd && eq_bytes (command_at h last_idx) cmd)
    then h
    else store_command h cmd

unfoldable pub get : History → ℕ → Option (List ℕ)
get h steps_back =
    if steps_back == 0 || ltb h.count steps_back
    then none
    else some (command_at h ((h.head + 16 - steps_back) % 16))
