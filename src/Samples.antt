-- ===== src/Samples.antt =====
-- Small concrete states that the tests run the kernel's operations on.
use runix_os.Prelude.{
  ℕ, zero, suc, ◌≡◌, refl, arith, true, false, Option, none, some, ◌∷◌, length, replicate, slot_at,
}
use runix_os.Capability.{Resource, serial, ipc_channel, Capability, CapTable, max_caps}
use runix_os.Capability.Table.{slot_at-replicate}
use runix_os.Message.{Message, log, new as no_messages}
use runix_os.Audit.{AuditEvent, grant, new as no_events}
use runix_os.Task.{
  Task, TaskState, Scheduler, get_task, ready, running, blocked_on_receive, is_running,
}
use runix_os.Task.Lookup.{IsIndexed, get_task_found}
use runix_os.Sched.Invariant.{IsSound}
use runix_os.Preempt.{new as quiet}
use runix_os.Kernel.{Preempt, Kernel}

abbrev pub cap_of : ℕ → Option ℕ → Resource → Capability
cap_of id origin resource = record {
  resource = resource;
  read = true;
  write = true;
  grant = true;
  sealed = false;
  id = id;
  origin = origin;
}

-- A channel to task 1 that may be granted, and the console capability.
abbrev pub channel : Capability
channel = cap_of 1 none (ipc_channel 1)

abbrev pub console : Capability
console = cap_of 2 none serial

-- What task 1 was granted from the console capability.
abbrev pub derived_console : Capability
derived_console = cap_of 3 (some 2) serial

abbrev pub table_of : Capability → CapTable
table_of cap = some cap ∷ replicate 31 none

abbrev pub task_of : ℕ → TaskState → CapTable → Option Message → Task
task_of id state table buffer = record {
  id = id;
  state = state;
  rsp = 4096;
  kstack_top = 8192;
  cr3 = 0;
  cap_table = table;
  ipc_buffer = buffer;
  msg_queue = no_messages;
  fault_registers = none;
}

abbrev pub hello : Message
hello = record { sender = 1; tag = log; version = 1; payload = 104 ∷ replicate 127 0; len = 1 }

-- Two tasks in slots 0 and 1, of which task 0 is the current one.
abbrev pub pair_of : Task → Task → Scheduler
pair_of a b = record { tasks = some a ∷ some b ∷ replicate 130 none; current_task_id = some 0 }

abbrev pub sender : Task
sender = task_of 0 running (table_of channel) none

abbrev pub receiver : Task
receiver = task_of 1 blocked_on_receive (table_of derived_console) none

abbrev pub kernel_of : Scheduler → Preempt → Kernel
kernel_of sched preempt = record {
  sched = sched;
  next_id = 4;
  audit = no_events;
  preempt = preempt;
  ipc_deliveries = 0;
  tasks_spawned = 2;
  tasks_terminated = 0;
}

-- Task 0 may send to task 1, which waits.
abbrev pub waiting : Kernel
waiting = kernel_of (pair_of sender receiver) quiet

-- Task 1 is ready.
abbrev pub contended : Scheduler
contended = pair_of sender (task_of 1 ready (table_of derived_console) none)

abbrev pub event : AuditEvent
event = record { kind = grant; actor = 0; target = 1; resource = serial; slot = 0 }

pub pair_of-IsIndexed : (a b : Task) → a.id ≡ 0 → b.id ≡ 1 → IsIndexed (pair_of a b)
pair_of-IsIndexed a b p q = record { slots = refl; id_is = id_is }
  where
    id_is : (i : ℕ) (t : Task) → slot_at (pair_of a b).tasks i ≡ some t → t.id ≡ i
    id_is zero t e = let s : a ≡ t = ground arith in rw (← s) p
    id_is (suc zero) t e = let s : b ≡ t = ground arith in rw (← s) q
    id_is (suc (suc i)) t e = absurd (ground (arith, slot_at-replicate {A = Task} 130 i))

pub pair_of-IsSound :
    (a b : Task) → a.id ≡ 0 → b.id ≡ 1 → is_running b.state ≡ false → IsSound (pair_of a b)
pair_of-IsSound a b p q off = record { indexed = pair_of-IsIndexed a b p q; single = single }
  where
    single :
        (i : ℕ) (t : Task)
        → slot_at (pair_of a b).tasks i ≡ some t
        → is_running t.state ≡ true
        → some 0 ≡ some i
    single zero t e r = refl
    single (suc zero) t e r = let s : b ≡ t = ground arith in absurd (ground arith)
    single (suc (suc i)) t e r = absurd (ground (arith, slot_at-replicate {A = Task} 130 i))

pub pair_of_tables :
    (a b : Task)
    → length a.cap_table ≡ max_caps
    → length b.cap_table ≡ max_caps
    → (i : ℕ) (t : Task) → slot_at (pair_of a b).tasks i ≡ some t
    → length t.cap_table ≡ max_caps
pair_of_tables a b p q zero t e = let s : a ≡ t = ground arith in rw (← s) p
pair_of_tables a b p q (suc zero) t e = let s : b ≡ t = ground arith in rw (← s) q
pair_of_tables a b p q (suc (suc i)) t e =
    absurd (ground (arith, slot_at-replicate {A = Task} 130 i))

pub pair_of_found :
    (a b : Task)
    → length a.cap_table ≡ max_caps
    → length b.cap_table ≡ max_caps
    → (i : ℕ) (t : Task) → get_task (pair_of a b) i ≡ some t
    → length t.cap_table ≡ max_caps
pair_of_found a b p q i t e = pair_of_tables a b p q i t (get_task_found (pair_of a b) i e).0
