-- ===== src/Service/Log.antt =====
-- kernel/shell/mod.rs, the log service: a ring of the last 128 entries, and for each task a cursor, the
-- position of the next entry it has not read. Only the first `reply_len` bytes of a reply are sent, and
-- these are what `handle` gives. The number of ticks comes from kernel/preempt/mod.rs.
pub mod History
pub mod Read
pub mod Access
pub mod Layout
use runix_os.Prelude.{
  ℕ, zero, suc, ◌+◌, ◌-◌, ◌/◌, ◌%◌, ◌^◌, min, Bool, true, false, ◌&&◌, Option, none, some, List, [],
  ◌∷◌, ◌++◌, ◌==◌, if◌then◌else◌, ltb, leb, get_or, set, replicate, byte_at, slice_of, copy_over,
  add_word,
}
use runix_os.Capability.{TaskId, Capability, log_channel}
use runix_os.Message.{Message, log_publish, log_read, log_ack}
use runix_os.Task.{Scheduler, max_tasks}
use runix_os.Kernel.{Kernel}
use runix_os.Ipc.{Result}
use runix_os.Service.{sender_holds, grants, reply_typed}

pub record LogEntry : Type 0 where
  pub tick : ℕ
  pub producer : TaskId
  pub kind : ℕ
  pub msg : List ℕ
  pub len : ℕ

abbrev pub empty_entry : LogEntry
empty_entry = record { tick = 0; producer = 0; kind = 0; msg = replicate 64 0; len = 0 }

abbrev pub log_capacity : ℕ
log_capacity = 128

pub record LogRingBuffer : Type 0 where
  pub buffer : List LogEntry
  pub write_pos : ℕ

unfoldable pub new : LogRingBuffer
new = record { buffer = replicate log_capacity empty_entry; write_pos = 0 }

unfoldable pub push : LogRingBuffer → LogEntry → LogRingBuffer
push log entry = record {
  buffer = set log.buffer (log.write_pos % log_capacity) entry;
  write_pos = add_word log.write_pos 1;
}

unfoldable pub new_cursors : List ℕ
new_cursors = replicate max_tasks 0

-- The test of one capability in `check_log_sender_cap`.
unfoldable pub log_grants : ℕ → Bool → Capability → Bool
log_grants kind require_write cap = elim cap.resource [
  | log_channel k readable writable ↦ k == kind && grants cap readable writable require_write
  | _ ↦ false
]

unfoldable pub check_log_sender_cap : Scheduler → TaskId → ℕ → Bool → Bool
check_log_sender_cap sched sender kind require_write =
    sender_holds sched sender (log_grants kind require_write)

-- The entry that a request to publish makes.
abbrev pub entry_of : ℕ → Message → LogEntry
entry_of tick msg =
    let msg_bytes_len = min (msg.len - 1) 64 in
    record {
      tick = tick;
      producer = msg.sender;
      kind = byte_at msg.payload 0;
      msg = copy_over (replicate 64 0) (slice_of msg.payload 1 msg_bytes_len);
      len = msg_bytes_len;
    }

unfoldable pub publish : LogRingBuffer → Scheduler → ℕ → Message → LogRingBuffer × List ℕ
publish log sched tick msg =
    let kind = byte_at msg.payload 0 in
    if ltb msg.len 1
    then (log, 2 ∷ [])
    else if leb 16 kind
    then (log, 3 ∷ [])
    else if check_log_sender_cap sched msg.sender kind true
    then (push log (entry_of tick msg), 0 ∷ [])
    else (log, 1 ∷ [])

-- `x.to_ne_bytes()` of a 64-bit `x`, whose first byte is the lowest on this machine; `n` bytes are left.
unfoldable pub ne_bytes : ℕ → ℕ → List ℕ
ne_bytes zero x = []
ne_bytes (suc n) x = x % 256 ∷ ne_bytes n (x / 256)

-- Bytes 1 to 89 of a reply that shows an entry.
abbrev pub entry_bytes : LogEntry → List ℕ
entry_bytes entry =
    ne_bytes 8 entry.tick
    ++ (ne_bytes 8 entry.producer ++ (entry.kind ∷ (ne_bytes 8 entry.len ++ entry.msg)))

abbrev pub entry_at : LogRingBuffer → ℕ → LogEntry
entry_at log idx = get_or log.buffer (idx % log_capacity) empty_entry

-- The loop over the positions from `idx` on, `n` of which are left.
unfoldable pub find_kind : LogRingBuffer → ℕ → ℕ → ℕ → Option ℕ
find_kind log kind idx zero = none
find_kind log kind idx (suc n) =
    let rest = find_kind log kind (idx + 1) n in
    if (entry_at log idx).kind == kind then some idx else rest

abbrev pub oldest_valid : LogRingBuffer → ℕ
oldest_valid log = if ltb log_capacity log.write_pos then log.write_pos - log_capacity else 0

-- Where the search for a reader with this cursor begins.
abbrev pub first_unread : LogRingBuffer → ℕ → ℕ
first_unread log cursor = if ltb cursor (oldest_valid log) then oldest_valid log else cursor

-- The reader's cursor and the reply. The position found is below `write_pos`, so the sum is a word.
unfoldable pub read_from : LogRingBuffer → ℕ → ℕ → ℕ × List ℕ
read_from log cursor kind =
    let from = first_unread log cursor in
    elim (find_kind log kind from (log.write_pos - from)) [
      | some idx ↦ (idx + 1, 0 ∷ entry_bytes (entry_at log idx))
      | none ↦ (log.write_pos, 2 ∷ [])
    ]

unfoldable pub read : LogRingBuffer → List ℕ → Scheduler → Message → List ℕ × List ℕ
read log cursors sched msg =
    let kind = byte_at msg.payload 0 in
    let (cursor, reply) = read_from log (get_or cursors msg.sender 0) kind in
    if ltb msg.len 1
    then (cursors, 3 ∷ [])
    else if leb 16 kind
    then (cursors, 3 ∷ [])
    else if check_log_sender_cap sched msg.sender kind false
    then (set cursors msg.sender cursor, reply)
    else (cursors, 1 ∷ [])

-- One request: the log, the cursors and the reply.
unfoldable pub handle :
    LogRingBuffer → List ℕ → Scheduler → ℕ → Message → LogRingBuffer × List ℕ × List ℕ
handle log cursors sched tick msg = elim msg.tag [
  | log_publish ↦ let (log', reply) = publish log sched tick msg in (log', cursors, reply)
  | log_read ↦ let (cursors', reply) = read log cursors sched msg in (log, cursors', reply)
  | _ ↦ (log, cursors, 3 ∷ [])
]

abbrev pub log_task : TaskId
log_task = 83

-- A round of the loop, from a received message on, and the end of the reply's send.
unfoldable pub serve :
    List (Kernel → Kernel)
    → LogRingBuffer
    → List ℕ
    → Kernel
    → Message
    → LogRingBuffer × List ℕ × Option (Result (Unit {0}) × Kernel)
serve envs log cursors k msg =
    let (log', cursors', reply) = handle log cursors k.sched k.preempt.ticks msg in
    (log', cursors', reply_typed envs k log_task 8300 msg.sender log_ack reply)
