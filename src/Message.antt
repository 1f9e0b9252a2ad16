-- ===== src/Message.antt =====
-- kernel/process/ipc.rs, the data: tags, the message envelope, the errors, and the fixed message
-- queue of a task.
pub mod Tag
pub mod Queue
mod Tests
use runix_os.Prelude.{
  ℕ, zero, suc, ◌+◌, ◌%◌, Bool, Option, none, some, List, if◌then◌else◌, ◌==◌, set, slot_at,
  replicate, add_word, sub_word,
}
use runix_os.Capability.{TaskId}

pub data IpcTag : Type 0 where
  raw log sensor ping kv_get kv_set log_publish log_read log_ack : IpcTag
  fs_op fs_reply dev_op dev_reply sync_op sync_reply : IpcTag

-- The discriminants of `#[repr(u16)]`: what `tag as u16` gives.
unfoldable pub as_u16 : IpcTag → ℕ
as_u16 raw = 0
as_u16 log = 1
as_u16 sensor = 2
as_u16 ping = 3
as_u16 kv_get = 4
as_u16 kv_set = 5
as_u16 log_publish = 6
as_u16 log_read = 7
as_u16 log_ack = 8
as_u16 fs_op = 9
as_u16 fs_reply = 10
as_u16 dev_op = 11
as_u16 dev_reply = 12
as_u16 sync_op = 13
as_u16 sync_reply = 14

unfoldable pub from_u16 : ℕ → Option IpcTag
from_u16 v =
    if v == 0
    then some raw
    else if v == 1
    then some log
    else if v == 2
    then some sensor
    else if v == 3
    then some ping
    else if v == 4
    then some kv_get
    else if v == 5
    then some kv_set
    else if v == 6
    then some log_publish
    else if v == 7
    then some log_read
    else if v == 8
    then some log_ack
    else if v == 9
    then some fs_op
    else if v == 10
    then some fs_reply
    else if v == 11
    then some dev_op
    else if v == 12
    then some dev_reply
    else if v == 13
    then some sync_op
    else if v == 14
    then some sync_reply
    else none

-- `payload` is `[u8; 128]`.
pub record Message : Type 0 where
  pub sender : TaskId
  pub tag : IpcTag
  pub version : ℕ
  pub payload : List ℕ
  pub len : ℕ

pub data IpcError : Type 0 where
  no_capability target_gone payload_too_large invalid_tag : IpcError
  bad_version no_context queue_full no_message : IpcError

abbrev pub msg_queue_capacity : ℕ
msg_queue_capacity = 8

pub record MessageQueue : Type 0 where
  pub buffer : List (Option Message)
  pub head : ℕ
  pub tail : ℕ
  pub count : ℕ

unfoldable pub new : MessageQueue
new = record { buffer = replicate msg_queue_capacity none; head = 0; tail = 0; count = 0 }

abbrev pub is_empty : MessageQueue → Bool
is_empty q = q.count == 0

abbrev pub is_full : MessageQueue → Bool
is_full q = q.count == msg_queue_capacity

-- `true` is `Ok(())`, `false` is `Err(())`.
unfoldable pub enqueue : MessageQueue → Message → Bool × MessageQueue
enqueue q msg = if is_full q then (Bool.false, q) else (
  Bool.true,
  record q {
    buffer = set q.buffer q.tail (some msg);
    tail = add_word q.tail 1 % msg_queue_capacity;
    count = add_word q.count 1;
  },
)

unfoldable pub dequeue : MessageQueue → Option Message × MessageQueue
dequeue q = if is_empty q then (none, q) else (
  slot_at q.buffer q.head,
  record q {
    buffer = set q.buffer q.head none;
    head = add_word q.head 1 % msg_queue_capacity;
    count = sub_word q.count 1;
  },
)
