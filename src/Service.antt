-- ===== src/Service.antt =====
-- kernel/shell/mod.rs, the user services: what the five service loops share. A service is a store and
-- a function of one request; the reply goes back through a channel that the service installs in its
-- own slot 1. The tasks' authority over a service's objects is read from their capability tables.
pub mod Authority
pub mod Reply
pub mod Kv
pub mod Log
pub mod Sync
pub mod Fs
pub mod Device
pub mod Client
mod Tests
use runix_os.Prelude.{
  ℕ, ◌+◌, Bool, true, false, ◌&&◌, ◌||◌, Option, none, some, List, [], ◌∷◌, ◌==◌, if◌then◌else◌,
  set,
}
use runix_os.Capability.{TaskId, Resource, ipc_channel, Capability, CapTable}
use runix_os.Message.{IpcTag, as_u16}
use runix_os.Task.{Task, Scheduler, get_task, update_task}
use runix_os.Kernel.{Kernel}
use runix_os.Ipc.{Result, sys_send_typed, sys_send_async}

-- The loop over `cap_table.slots`: whether some capability in it passes `test`.
unfoldable pub some_cap : (Capability → Bool) → CapTable → Bool
some_cap test [] = false
some_cap test (none ∷ slots) = some_cap test slots
some_cap test (some cap ∷ slots) = test cap || some_cap test slots

-- The shape of the services' checks: whether the sender holds such a capability.
unfoldable pub sender_holds : Scheduler → TaskId → (Capability → Bool) → Bool
unfolding some_cap
sender_holds sched sender test = elim (get_task sched sender) [
  | none ↦ false
  | some t ↦ some_cap test t.cap_table
]

-- `if require_write { writable && cap.write } else { readable && cap.read }`
abbrev pub grants : Capability → Bool → Bool → Bool → Bool
grants cap readable writable require_write =
    if require_write then writable && cap.write else readable && cap.read

-- The channel to a client that a service writes over its slot 1, with an identity made from `base`.
abbrev pub reply_channel : ℕ → TaskId → Capability
reply_channel base client = record {
  resource = ipc_channel client;
  read = true;
  write = true;
  grant = false;
  sealed = false;
  id = base + client;
  origin = none;
}

-- `my_task.cap_table.slots[1] = Some(…)`; the service is running, so `unwrap` finds it.
unfoldable pub install_channel : Scheduler → TaskId → ℕ → TaskId → Scheduler
install_channel sched service base client =
    update_task sched service
      (λ t. record t { cap_table = set t.cap_table 1 (some (reply_channel base client)) })

-- The reply of the key-value, log, file and device services, which wait until it is taken.
unfoldable pub reply_typed :
    List (Kernel → Kernel)
    → Kernel
    → TaskId
    → ℕ
    → TaskId
    → IpcTag
    → List ℕ
    → Option (Result (Unit {0}) × Kernel)
unfolding install_channel
reply_typed envs k service base client tag reply =
    sys_send_typed envs (record k { sched = install_channel k.sched service base client }) 1
      (as_u16 tag) 1 reply

-- The synchronisation service's reply, which is queued.
unfoldable pub reply_async :
    Kernel → TaskId → ℕ → TaskId → IpcTag → List ℕ → Result (Unit {0}) × Kernel
unfolding install_channel
reply_async k service base client tag reply =
    sys_send_async (record k { sched = install_channel k.sched service base client }) 1 (as_u16 tag)
      1 reply
