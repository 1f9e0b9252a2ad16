-- ===== src/Snapshot.antt =====
-- kernel/process/snapshot.rs: the checkpoint of every task's capabilities and messages, its integrity
-- tag, and the restore. The snapshot slot is an argument and a result.
pub mod Restore
mod Tests
use runix_os.Prelude.{
  ℕ, zero, suc, ◌+◌, ◌*◌, ◌%◌, bit_xor, bit_or, Bool, true, false, Option, none, some, List, [],
  ◌∷◌, map, ◌==◌, if◌then◌else◌, add_word, word_mod, replicate,
}
use runix_os.Capability.{
  TaskId, Resource, serial, ipc_channel, memory_mapping, service, kv_entry, log_channel, fs_node,
  device, sync_obj, Capability, CapTable, get, max_caps,
}
use runix_os.Message.{Message, MessageQueue}
use runix_os.Task.{
  Task, TaskState, Scheduler, ready, running, blocked_on_receive, blocked_on_send, terminated,
  max_tasks, get_task, update_task,
}

pub record TaskCheckpoint : Type 0 where
  pub id : TaskId
  pub state : TaskState
  pub cap_table : CapTable
  pub ipc_buffer : Option Message
  pub msg_queue : MessageQueue

pub record SystemSnapshot : Type 0 where
  pub tasks : List (Option TaskCheckpoint)
  pub current : Option TaskId
  pub checksum_is : ℕ
  pub valid : Bool

unfoldable pub new : SystemSnapshot
new = record { tasks = replicate max_tasks none; current = none; checksum_is = 0; valid = false }

-- `b as u64`
abbrev pub bit : Bool → ℕ
bit true = 1
bit false = 0

-- `base ^ n ^ (readable << 8) ^ (writable << 9)`
abbrev pub rights_code : ℕ → ℕ → Bool → Bool → ℕ
rights_code base n readable writable =
    bit_xor (bit_xor (bit_xor base n) (bit readable * 256)) (bit writable * 512)

unfoldable pub resource_code : Resource → ℕ
resource_code serial = 1
resource_code (ipc_channel target) = bit_xor 0x1000 target
resource_code (memory_mapping start size writeable) =
    bit_xor (bit_xor (bit_xor 0x2000 start) (size * 2 % word_mod)) (bit writeable)
resource_code (service id) = bit_xor 0x3000 id
resource_code (kv_entry slot readable writable) = rights_code 0x4000 slot readable writable
resource_code (log_channel kind readable writable) = rights_code 0x5000 kind readable writable
resource_code (fs_node mount readable writable) = rights_code 0x6000 mount readable writable
resource_code (device id readable writable) = rights_code 0x7000 id readable writable
resource_code (sync_obj id) = bit_xor 0x8000 id

unfoldable pub state_code : TaskState → ℕ
state_code ready = 1
state_code running = 2
state_code blocked_on_receive = 3
state_code (blocked_on_send t) = bit_xor 0x100 t
state_code terminated = 5

-- One step of FNV-1a.
unfoldable pub mix : ℕ → ℕ → ℕ
mix v h = bit_xor h v * 0x100000001b3 % word_mod

abbrev pub plus_one : Option ℕ → ℕ
plus_one none = 0
plus_one (some n) = add_word n 1

unfoldable pub mix_slot : Option Capability → ℕ → ℕ
unfolding mix
mix_slot none h = mix 0 h
mix_slot (some cap) h =
    let rights =
      bit_or (bit_or (bit_or (bit cap.read) (bit cap.write * 2)) (bit cap.grant * 4))
        (bit cap.sealed * 8) in
    mix (plus_one cap.origin) (mix cap.id (mix rights (mix (resource_code cap.resource) h)))

-- The slots `cs..cs + n`.
unfoldable pub mix_table : CapTable → ℕ → ℕ → ℕ → ℕ
unfolding mix_slot
mix_table table cs zero h = h
mix_table table cs (suc n) h = mix_table table (cs + 1) n (mix_slot (get table cs) h)

abbrev pub buffered : Option Message → ℕ
buffered none = 0
buffered (some m) = add_word m.len 1

unfoldable pub mix_task : Option TaskCheckpoint → ℕ → ℕ
unfolding mix_table
mix_task none h = mix 0 h
mix_task (some cp) h =
    let h1 = mix (state_code cp.state) (mix cp.id (mix 0xF00D h)) in
    let h2 = mix_table cp.cap_table 0 max_caps h1 in
    mix cp.msg_queue.count (mix (buffered cp.ipc_buffer) h2)

unfoldable pub mix_tasks : List (Option TaskCheckpoint) → ℕ → ℕ
mix_tasks [] h = h
mix_tasks (slot ∷ slots) h = mix_tasks slots (mix_task slot h)

unfoldable pub checksum : SystemSnapshot → ℕ
unfolding mix_tasks
checksum snap = mix_tasks snap.tasks (mix (plus_one snap.current) 0xcbf29ce484222325)

unfoldable pub checkpoint : Option Task → Option TaskCheckpoint
checkpoint none = none
checkpoint (some t) = some (record {
  id = t.id;
  state = t.state;
  cap_table = t.cap_table;
  ipc_buffer = t.ipc_buffer;
  msg_queue = t.msg_queue;
})

-- The state that is captured, before it is stamped.
abbrev pub captured : Scheduler → SystemSnapshot → SystemSnapshot
captured sched snap = record snap {
  tasks = map checkpoint sched.tasks;
  current = sched.current_task_id;
}

unfoldable pub capture : Scheduler → SystemSnapshot → SystemSnapshot
unfolding checksum
capture sched snap =
    let taken = captured sched snap in record taken { checksum_is = checksum taken; valid = true }

-- The live execution context is kept.
abbrev pub roll_back : TaskCheckpoint → Task → Task
roll_back cp t = record t {
  state = cp.state;
  cap_table = cp.cap_table;
  ipc_buffer = cp.ipc_buffer;
  msg_queue = cp.msg_queue;
}

-- The loop of `restore`: the count and the scheduler.
unfoldable pub restore_tasks : List (Option TaskCheckpoint) → ℕ → Scheduler → ℕ × Scheduler
restore_tasks [] restored sched = (restored, sched)
restore_tasks (none ∷ cps) restored sched = restore_tasks cps restored sched
restore_tasks (some cp ∷ cps) restored sched =
    restore_tasks cps
      (elim (get_task sched cp.id) [ none ↦ restored | some _ ↦ add_word restored 1 ])
      (update_task sched cp.id (roll_back cp))

-- `none` is `Err(())`.
unfoldable pub restore : SystemSnapshot → Scheduler → Option ℕ × Scheduler
unfolding restore_tasks
restore snap sched =
    if snap.valid
    then (if checksum snap == snap.checksum_is
        then (let (n, sched') = restore_tasks snap.tasks 0 sched in (some n, sched'))
        else (none, sched))
    else (none, sched)

unfoldable pub info : SystemSnapshot → Option ℕ
info snap = if snap.valid then some snap.checksum_is else none
