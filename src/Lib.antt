-- ===== src/Lib.antt =====
-- RunixOS: a capability kernel for x86_64. Tasks hold tables of capabilities, send each other
-- messages through channels named by a capability, and enter the kernel by `int 0x80`. A round-robin
-- scheduler switches between them, by a voluntary yield or by the timer. This library models the
-- kernel's core in kernel/ as functions on explicit state, and relates them to what they are to do.
--
-- The parts, by the file that models each (a folder of the same name has the proofs):
--
--   Prelude     Boolean tests, arrays as lists, 64-bit words, ring buffers.
--   Capability  kernel/process/capability.rs: `attenuate` and the operations of `CapTable`. The
--               counter NEXT_CAP_ID goes in and comes out of `insert`.
--   Message     kernel/process/ipc.rs, the data: `IpcTag`, `Message`, and the `MessageQueue` ring.
--   Audit       kernel/process/audit.rs: the ring of events; `push` is also `record`, and `dump`
--               gives the numbered events that the source prints.
--   Task        kernel/process/mod.rs, and `Scheduler::get_task` and `get_task_mut`: a write through
--               the latter is `update_task`. Task/Frame: the stack words of `Task::new` and
--               `Task::new_user`, and what `switch_context` and `iretq` load from them.
--   Kernel      The statics behind locks and atomics, as one record.
--   Sched       kernel/scheduler/mod.rs: `yield_cpu`, `preempt_reschedule`,
--               `terminate_current_task`. The result says what `switch_context` is given.
--   Preempt     kernel/preempt/mod.rs, and `timer_isr` and `exception_dispatch` of
--               kernel/interrupts/mod.rs. Whether the lock can be taken by `try_lock` is an argument.
--   Ipc         kernel/process/ipc.rs, the operations: `sys_send_typed`, `sys_send`,
--               `sys_send_async`, `sys_receive_typed`, `sys_receive_async`. `attempt` is the body of
--               the non-preemptible region, `send_attempt` the region with its guard.
--   Revocation  `propagate_revocation` of kernel/syscall/mod.rs. Revocation/Derived says what descends
--               from what; Pass, Sound, Fixpoint and Complete lead to the main theorem.
--   Memory      `validate_user_range` of kernel/memory/mod.rs, over any memory, and in Memory/Mapped
--               what its checks mean; Memory/Frames: `FrameAllocator`, over any memory map.
--   Syscall     kernel/syscall/mod.rs: `dispatch_cap_grant`, `dispatch_cap_revoke`,
--               `dispatch_spawn_task` and the serial write; Syscall/Dispatch: `parse_request` and
--               `syscall_dispatch`.
--   Snapshot    kernel/process/snapshot.rs: `capture`, `checksum`, `restore`, on the snapshot slot.
--   Keyboard    kernel/drivers/keyboard.rs: the scancodes and the ring of characters.
--   Service     The five service loops of kernel/shell/mod.rs. Service/Kv, Log, Fs, Device and Sync each
--               have `handle`, one request, and `serve`, a round of the loop with its reply;
--               Service/Client has the payloads that the shell's `send_fs_msg` and its like make.
--   Shell       kernel/shell/mod.rs: `parse_usize` (Number), `tokenize` (Tokens),
--               `History`, and `read_line_with_history` (Line).
--   Dist        kernel/process/dist.rs: `route_send`, `migrate`, `failover`, `pump_remote`; `set` of the
--               registry is `set_location`.
--   Arch        kernel/arch_sim/mod.rs: `simulate_pipeline` and `simulate_cache`, and in
--               Arch/Events the trace and what is made of its events.
--   Samples     Concrete states for the tests.
--
-- The parts meet in `Kernel`: `syscall_dispatch` calls the operations of Ipc, Sched and Syscall on
-- it; Ipc enters and leaves the regions of Preempt and writes tasks through `update_task`; the timer's
-- handler runs the scheduler's step unless a region is open; a revocation empties slots by
-- `kernel_revoke`, records events in the audit log, and propagates. The services look up their
-- client's capabilities in the scheduler's tables, and answer with `sys_send_typed` or
-- `sys_send_async` of Ipc; the device service empties the keyboard's ring; Dist moves a task's
-- capabilities and messages.
--
-- Bounds and fuel. Numbers are natural; where the source adds to a 64-bit word that may wrap, the
-- model wraps too (`add_word`, `sub_word`). The tables have 32 slots, the scheduler 132, the message
-- queue 8, the audit ring 64, as in the source; theorems that need these sizes assume them of the
-- state. `propagate_revocation` runs on 132 * 32 + 1 passes, enough since every pass but the last
-- removes a capability; `validate_user_range` on one step for each page that the range can touch, which
-- its theorem shows to be enough; the pipeline simulation on five rounds for each instruction, and
-- the node's inbox on nine, one more than it holds, which their theorems show too. A blocking call waits
-- once for each element of a list of functions, each of which stands for all that the rest of the
-- system does during that wait; the call has no result if it would wait again.
--
-- Locks are taken and released within one step, so the model has one step where the source holds a
-- lock; what can come between is a timer interrupt, and Preempt/Window treats it. A grant takes the
-- scheduler's lock twice; its model is one step, in which nothing comes between. Not modelled: console
-- output other than what a user asks to print, the calls of `log_trace`, and hardware (ports,
-- descriptor tables, the APIC, registers).
--
-- Not modelled either: of kernel/memory/mod.rs the mapping of pages; of kernel/shell/mod.rs the start of
-- the services and the commands, which mostly print; the scripted demonstrations of
-- kernel/boot/main.rs and of kernel/process/dist.rs; and the user programs, which are assembly. The
-- loader of user programs is an argument of the spawn, and so is the validity of UTF-8 text of the
-- dispatcher and of the device service.
pub mod Prelude
pub mod Capability
pub mod Message
pub mod Audit
pub mod Task
pub mod Kernel
pub mod Sched
pub mod Preempt
pub mod Ipc
pub mod Revocation
pub mod Memory
pub mod Syscall
pub mod Snapshot
pub mod Keyboard
pub mod Service
pub mod Shell
pub mod Dist
pub mod Arch
pub mod Samples
