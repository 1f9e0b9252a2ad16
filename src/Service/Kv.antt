-- ===== src/Service/Kv.antt =====
-- kernel/shell/mod.rs, the key-value service: 32 slots of a 16-byte key and a 64-byte value. Only the
-- first `reply_len` bytes of the reply are sent, and these are what `handle` gives.
pub mod Access
use runix_os.Prelude.{
  ℕ, Bool, true, false, ◌&&◌, Option, none, some, List, [], ◌∷◌, ◌++◌, ◌==◌, if◌then◌else◌, ltb,
  leb, get_or, set, replicate, byte_at, slice_of,
}
use runix_os.Capability.{TaskId, Capability, kv_entry}
use runix_os.Message.{Message, IpcTag, kv_get, kv_set, raw}
use runix_os.Task.{Scheduler}
use runix_os.Kernel.{Kernel}
use runix_os.Ipc.{Result}
use runix_os.Service.{sender_holds, grants, reply_typed}

pub record KvSlot : Type 0 where
  pub key : List ℕ
  pub value : List ℕ

abbrev pub empty_slot : KvSlot
empty_slot = record { key = replicate 16 0; value = replicate 64 0 }

unfoldable pub new : List KvSlot
new = replicate 32 empty_slot

-- The test of one capability in `check_sender_cap`.
unfoldable pub kv_grants : ℕ → Bool → Capability → Bool
kv_grants slot require_write cap = elim cap.resource [
  | kv_entry s readable writable ↦ s == slot && grants cap readable writable require_write
  | _ ↦ false
]

unfoldable pub check_sender_cap : Scheduler → TaskId → ℕ → Bool → Bool
check_sender_cap sched sender slot require_write =
    sender_holds sched sender (kv_grants slot require_write)

unfoldable pub kv_read : List KvSlot → Scheduler → Message → List ℕ
kv_read store sched msg =
    let slot = byte_at msg.payload 0 in
    let entry = get_or store slot empty_slot in
    if ltb msg.len 1
    then 2 ∷ []
    else if leb 32 slot
    then 2 ∷ []
    else if check_sender_cap sched msg.sender slot false
    then 0 ∷ entry.key ++ entry.value
    else 1 ∷ []

unfoldable pub kv_write : List KvSlot → Scheduler → Message → List KvSlot × List ℕ
kv_write store sched msg =
    let slot = byte_at msg.payload 0 in
    let entry : KvSlot = record {
      key = slice_of msg.payload 1 16;
      value = slice_of msg.payload 17 64;
    } in
    if ltb msg.len 81
    then (store, 2 ∷ [])
    else if leb 32 slot
    then (store, 2 ∷ [])
    else if check_sender_cap sched msg.sender slot true
    then (set store slot entry, 0 ∷ [])
    else (store, 1 ∷ [])

-- One request: the store and the reply.
unfoldable pub handle : List KvSlot → Scheduler → Message → List KvSlot × List ℕ
unfolding kv_read kv_write
handle store sched msg = elim msg.tag [
  | kv_get ↦ (store, kv_read store sched msg)
  | kv_set ↦ kv_write store sched msg
  | _ ↦ (store, 2 ∷ [])
]

-- The service's task.
abbrev pub kv_task : TaskId
kv_task = 82

-- A round of the loop, from a received message on: the store, and the end of the reply's send.
unfoldable pub serve :
    List (Kernel → Kernel)
    → List KvSlot
    → Kernel
    → Message
    → List KvSlot × Option (Result (Unit {0}) × Kernel)
unfolding handle
serve envs store k msg =
    let (store', reply) = handle store k.sched msg in
    (store', reply_typed envs k kv_task 8200 msg.sender raw reply)
