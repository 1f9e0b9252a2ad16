-- ===== src/Kernel.antt =====
-- The kernel's shared state: what the statics behind spinlocks and atomics hold. Each component's
-- functions take and return it, or the part that they touch.
use runix_os.Prelude.{ℕ, Bool}
use runix_os.Capability.{TaskId}
use runix_os.Audit.{AuditLog}
use runix_os.Task.{Scheduler}

-- The atomics of kernel/preempt/mod.rs, in its order.
pub record Preempt : Type 0 where
  pub ticks : ℕ
  pub preemptions : ℕ
  pub deferred : ℕ
  pub preempt_count : ℕ
  pub armed : Bool
  pub in_ipc_window : Bool
  pub window_ticks : ℕ
  pub pending_revoke : ℕ
  pub pending_revoke_task : TaskId
  pub revoke_fired_in_window : Bool

-- `SCHEDULER`, `NEXT_CAP_ID`, `AUDIT_LOG`, the preemption state and the counters
-- `IPC_DELIVERIES`, `TASKS_SPAWNED` and `TASKS_TERMINATED`.
pub record Kernel : Type 0 where
  pub sched : Scheduler
  pub next_id : ℕ
  pub audit : AuditLog
  pub preempt : Preempt
  pub ipc_deliveries : ℕ
  pub tasks_spawned : ℕ
  pub tasks_terminated : ℕ
