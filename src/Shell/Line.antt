-- ===== src/Shell/Line.antt =====
-- kernel/shell/mod.rs, `read_line_with_history`: the line editor. The bytes that the serial port gives are
-- an argument, and the echo is left out. `buf[..n]` is the list `line`, and `draft_buf[..draft_len]` is
-- `draft`. The caller's buffer has 128 bytes, as the history's commands have at most.
pub mod Recall
use runix_os.Prelude.{
  ℕ, zero, suc, ◌+◌, ◌-◌, Bool, true, false, ◌&&◌, ◌||◌, Option, none, some, List, [], ◌∷◌, ◌++◌,
  ◌==◌, if◌then◌else◌, ltb, leb, length, take,
}
use runix_os.Shell.History.{History, get}

abbrev pub line_capacity : ℕ
line_capacity = 128

-- How much of an escape sequence was read: nothing, the escape, or the bracket too.
pub data Escape : Type 0 where
  plain escaped bracketed : Escape

pub record Editor : Type 0 where
  pub line : List ℕ
  pub history_temp_idx : ℕ
  pub draft : List ℕ
  pub escape : Escape

unfoldable pub start : Editor
start = record { line = []; history_temp_idx = 0; draft = []; escape = plain }

-- `n -= 1`
abbrev pub drop_last : List ℕ → List ℕ
drop_last line = take (length line - 1) line

-- `buf[..cmd.len()].copy_from_slice(cmd)`, if there is a command
abbrev pub recalled : Option (List ℕ) → List ℕ → List ℕ
recalled none line = line
recalled (some cmd) line = cmd

-- The upward arrow.
unfoldable pub go_back : History → Editor → Editor
go_back hist e =
    if ltb 0 hist.count && ltb e.history_temp_idx hist.count
    then (record {
      line = recalled (get hist (e.history_temp_idx + 1)) e.line;
      history_temp_idx = e.history_temp_idx + 1;
      draft = if e.history_temp_idx == 0 then e.line else e.draft;
      escape = plain;
    })
    else (record e { escape = plain })

-- The downward arrow.
unfoldable pub go_forward : History → Editor → Editor
go_forward hist e =
    if ltb 0 e.history_temp_idx
    then (record e {
      line =
          if e.history_temp_idx == 1
          then e.draft
          else recalled (get hist (e.history_temp_idx - 1)) e.line;
      history_temp_idx = e.history_temp_idx - 1;
      escape = plain;
    })
    else (record e { escape = plain })

abbrev pub is_end : ℕ → Bool
is_end b = b == 10 || b == 13

abbrev pub is_printable : ℕ → Bool
is_printable b = leb 32 b && leb b 126

-- The effect of a byte that does not end the line.
unfoldable pub key : Editor → ℕ → Editor
key e b =
    if b == 8 || b == 127
    then (record e { line = drop_last e.line })
    else if b == 27
    then (record e { escape = escaped })
    else if is_printable b
    then (if ltb (length e.line) line_capacity
        then (record e { line = e.line ++ (b ∷ []); history_temp_idx = 0 })
        else e)
    else e

-- The effect of a byte within an escape sequence.
unfoldable pub escape_key : History → Editor → Escape → ℕ → Editor
escape_key hist e bracketed b =
    if b == 65
    then go_back hist e
    else if b == 66
    then go_forward hist e
    else record e { escape = plain }
escape_key hist e _ b =
    if b == 91 then (record e { escape = bracketed }) else (record e { escape = plain })

-- The loop: the line and the bytes left; `none` is a loop that waits for the next byte.
unfoldable pub read_line : History → Editor → List ℕ → Option (List ℕ × List ℕ)
read_line hist e [] = none
read_line hist e (b ∷ bytes) =
    let typed = read_line hist (key e b) bytes in
    let moved = read_line hist (escape_key hist e e.escape b) bytes in
    elim e.escape [ plain ↦ if is_end b then some (e.line, bytes) else typed | _ ↦ moved ]

unfoldable pub read_line_with_history : History → List ℕ → Option (List ℕ × List ℕ)
read_line_with_history hist bytes = read_line hist start bytes
