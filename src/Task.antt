-- ===== src/Task.antt =====
-- kernel/process/mod.rs, the task, and the lookups of kernel/scheduler/mod.rs.
pub mod Frame
pub mod Lookup
mod Tests
use runix_os.Prelude.{
  ℕ, Bool, true, false, Option, none, some, List, ◌==◌, if◌then◌else◌, ltb, length, set, slot_at,
}
use runix_os.Capability.{TaskId, CapTable}
use runix_os.Message.{Message, MessageQueue}

pub data TaskState : Type 0 where
  ready running blocked_on_receive : TaskState
  blocked_on_send : TaskId → TaskState
  terminated : TaskState

-- The comparisons `state == TaskState::…` of the source.
abbrev pub is_ready : TaskState → Bool
is_ready ready = true
is_ready _ = false

abbrev pub is_running : TaskState → Bool
is_running running = true
is_running _ = false

abbrev pub is_blocked_on_receive : TaskState → Bool
is_blocked_on_receive blocked_on_receive = true
is_blocked_on_receive _ = false

abbrev pub is_terminated : TaskState → Bool
is_terminated terminated = true
is_terminated _ = false

abbrev pub is_blocked_on_send : TaskId → TaskState → Bool
is_blocked_on_send target (blocked_on_send t) = t == target
is_blocked_on_send target _ = false

-- `fault_registers` holds the words of an `ExceptionFrame`, in order.
pub record Task : Type 0 where
  pub id : TaskId
  pub state : TaskState
  pub rsp : ℕ
  pub kstack_top : ℕ
  pub cr3 : ℕ
  pub cap_table : CapTable
  pub ipc_buffer : Option Message
  pub msg_queue : MessageQueue
  pub fault_registers : Option (List ℕ)

abbrev pub max_tasks : ℕ
max_tasks = 132

pub record Scheduler : Type 0 where
  pub tasks : List (Option Task)
  pub current_task_id : Option TaskId

unfoldable pub get_task : Scheduler → TaskId → Option Task
get_task s id =
    if ltb id (length s.tasks)
    then (elim (slot_at s.tasks id) [ none ↦ none | some t ↦ if t.id == id then some t else none ])
    else none

-- A write through `get_task_mut`: the task, if it is found, is replaced by its image.
unfoldable pub update_task : Scheduler → TaskId → (Task → Task) → Scheduler
unfolding get_task
update_task s id f = elim (get_task s id) [
  | none ↦ s
  | some t ↦ record s { tasks = set s.tasks id (some (f t)) }
]
