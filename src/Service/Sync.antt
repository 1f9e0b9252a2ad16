-- ===== src/Service/Sync.antt =====
-- kernel/shell/mod.rs, the synchronisation service: eight semaphores and mutexes, each with a ring of
-- up to 16 waiting tasks. `count` is the bit pattern of an `i32`. The console's counters are left out.
pub mod Waiters
pub mod Permits
pub mod Sound
use runix_os.Prelude.{
  ℕ, ◌+◌, ◌-◌, ◌%◌, ◌^◌, Bool, true, false, ◌&&◌, not, Option, none, some, List, [], ◌∷◌, ◌==◌,
  if◌then◌else◌, ltb, leb, get_or, set, replicate, byte_at, length,
}
use runix_os.Capability.{TaskId, Capability, sync_obj}
use runix_os.Message.{Message, IpcTag, sync_op, sync_reply}
use runix_os.Task.{Scheduler}
use runix_os.Kernel.{Kernel}
use runix_os.Service.{sender_holds, reply_async}

abbrev pub sync_max_wait : ℕ
sync_max_wait = 16

pub record SyncObject : Type 0 where
  pub used : Bool
  pub is_mutex : Bool
  pub count : ℕ
  pub waiters : List ℕ
  pub wait_head : ℕ
  pub wait_tail : ℕ
  pub wait_len : ℕ

abbrev pub fresh_object : SyncObject
fresh_object = record {
  used = false;
  is_mutex = false;
  count = 0;
  waiters = replicate sync_max_wait 0;
  wait_head = 0;
  wait_tail = 0;
  wait_len = 0;
}

unfoldable pub new : List SyncObject
new = replicate 8 fresh_object

-- `none` is `Err(())`.
unfoldable pub enqueue_waiter : SyncObject → TaskId → Option SyncObject
enqueue_waiter obj task =
    if ltb obj.wait_len sync_max_wait
    then (some (record obj {
      waiters = set obj.waiters obj.wait_tail task;
      wait_tail = (obj.wait_tail + 1) % sync_max_wait;
      wait_len = obj.wait_len + 1;
    }))
    else none

unfoldable pub dequeue_waiter : SyncObject → Option (TaskId × SyncObject)
dequeue_waiter obj =
    if ltb 0 obj.wait_len
    then (some (
      byte_at obj.waiters obj.wait_head,
      record obj { wait_head = (obj.wait_head + 1) % sync_max_wait; wait_len = obj.wait_len - 1 },
    ))
    else none

unfoldable pub sync_grants : ℕ → Capability → Bool
sync_grants id cap = elim cap.resource [ sync_obj i ↦ i == id | _ ↦ false ]

unfoldable pub sync_check_cap : Scheduler → TaskId → ℕ → Bool
sync_check_cap sched sender id = sender_holds sched sender (sync_grants id)

-- `count > 0`, `count - 1` and `count + 1` of an `i32`
abbrev pub is_positive : ℕ → Bool
is_positive count = ltb 0 count && ltb count (2 ^ 31)

abbrev pub decrement : ℕ → ℕ
decrement count = (count + 2 ^ 32 - 1) % 2 ^ 32

abbrev pub increment : ℕ → ℕ
increment count = (count + 1) % 2 ^ 32

-- What a request does to its object: the code for the sender, if it is answered now, and the task
-- that is woken.
pub record Effect : Type 0 where
  pub object : SyncObject
  pub code : Option ℕ
  pub woken : Option TaskId

abbrev pub rejected : SyncObject → ℕ → Effect
rejected obj code = record { object = obj; code = some code; woken = none }

unfoldable pub create : SyncObject → Bool → ℕ → Effect
create obj mutex initial = if obj.used then rejected obj 2 else (record {
  object = record obj {
    used = true;
    is_mutex = mutex;
    count = initial;
    wait_head = 0;
    wait_tail = 0;
    wait_len = 0;
  };
  code = some 0;
  woken = none;
})

unfoldable pub acquire : SyncObject → TaskId → Effect
acquire obj sender =
    if obj.used
    then (if is_positive obj.count
        then (record {
          object = record obj { count = decrement obj.count };
          code = some 0;
          woken = none;
        })
        else (elim (enqueue_waiter obj sender) [
          | some obj' ↦ record { object = obj'; code = none; woken = none }
          | none ↦ rejected obj 4
        ]))
    else rejected obj 2

unfoldable pub release : SyncObject → Effect
release obj =
    if obj.used
    then (elim (dequeue_waiter obj) [
      | some (task, obj') ↦ record { object = obj'; code = some 0; woken = some task }
      | none ↦ record {
        object = record obj { count = if obj.is_mutex then 1 else increment obj.count };
        code = some 0;
        woken = none;
      }
    ])
    else rejected obj 2

-- The request's object after a well-formed request, by its operation.
unfoldable pub operate : SyncObject → Scheduler → Message → Effect
operate obj sched msg =
    let op = byte_at msg.payload 0 in
    let id = byte_at msg.payload 1 in
    if op == 0
    then create obj (not (byte_at msg.payload 2 == 0)) (byte_at msg.payload 3)
    else if op == 1
    then (if sync_check_cap sched msg.sender id then acquire obj msg.sender else rejected obj 1)
    else if op == 2
    then (if sync_check_cap sched msg.sender id then release obj else rejected obj 1)
    else rejected obj 2

abbrev pub is_sync_op : IpcTag → Bool
is_sync_op sync_op = true
is_sync_op _ = false

-- One request: the objects, the sender's code and the woken task.
unfoldable pub handle :
    List SyncObject → Scheduler → Message → List SyncObject × Option ℕ × Option TaskId
handle objects sched msg =
    let id = byte_at msg.payload 1 in
    let e = operate (get_or objects id fresh_object) sched msg in
    if is_sync_op msg.tag
    then (if ltb msg.len 2
        then (objects, some 2, none)
        else (if leb 8 id
            then (objects, some 2, none)
            else (set objects id e.object, e.code, e.woken)))
    else (objects, some 2, none)

abbrev pub sync_task : TaskId
sync_task = 86

-- A reply's kernel; a failed reply is only reported on the console.
abbrev pub answer_to : Kernel → Option (TaskId × ℕ) → Kernel
answer_to k none = k
answer_to k (some (client, code)) = (reply_async k sync_task 86000 client sync_reply (code ∷ [])).1

-- A round of the loop, from a received message on: first the woken task is answered, then the sender.
unfoldable pub serve : List SyncObject → Kernel → Message → List SyncObject × Kernel
serve objects k msg =
    let (objects', code, woken) = handle objects k.sched msg in
    let first : Option (TaskId × ℕ) = elim woken [ none ↦ none | some task ↦ some (task, 0) ] in
    let second : Option (TaskId × ℕ) = elim code [ none ↦ none | some c ↦ some (msg.sender, c) ] in
    (objects', answer_to (answer_to k first) second)
