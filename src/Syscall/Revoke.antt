-- ===== src/Syscall/Revoke.antt =====
-- `dispatch_cap_revoke`: who may revoke, and all that goes with a revoked capability.
mod Holder
use runix_os.Prelude.{ℕ, ◌≡◌, true, none, some, slot_at}
use runix_os.Capability.{
  TaskId, Resource, ipc_channel, serial, memory_mapping, service, kv_entry, log_channel, fs_node,
  device, sync_obj, Capability, get, kernel_revoke,
}
use runix_os.Audit.{revoke as revoked}
use runix_os.Task.{Task, Scheduler, get_task, update_task}
use runix_os.Kernel.{Kernel}
use runix_os.Revocation.Complete.{Purged}
use runix_os.Syscall.{is_grant_to, has_grant_to}
use runix_os.Syscall.Revoke.Holder.{Authority}

-- The scheduler once the slot is emptied, before the propagation.
abbrev pub emptied : Scheduler → TaskId → ℕ → Scheduler
emptied sched target cap_idx =
    update_task sched target (λ t. record t { cap_table = (kernel_revoke t.cap_table cap_idx).1 })

-- The effect of a revocation.
pub record Revoked (k : Kernel) (target : TaskId) (cap_idx : ℕ) (k' : Kernel) : Type 0 where
  pub by : Authority k.sched target
  pub holder : Task
  pub cap : Capability
  pub holder_is : get_task k.sched target ≡ some holder
  pub held : get holder.cap_table cap_idx ≡ some cap
  pub gone :
      (u : Task) × (slot_at k'.sched.tasks target ≡ some u) × (get u.cap_table cap_idx ≡ none)
  pub purged : Purged (emptied k.sched target cap_idx).tasks cap.id k'.sched.tasks
  pub current : k'.sched.current_task_id ≡ k.sched.current_task_id
