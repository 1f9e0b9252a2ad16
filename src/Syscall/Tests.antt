-- ===== src/Syscall/Tests.antt =====
-- System calls of task 0, which holds a channel to task 1, and of init.
use runix_os.Prelude.{ℕ, ◌≡◌, ◌⊎◌, ◌≤◌, ◌<◌, refl, true, some, [], ◌∷◌}
use runix_os.Capability.{RightsMask, new as no_capabilities}
use runix_os.Message.{dequeue, new as no_messages}
use runix_os.Task.{Task, ready, max_tasks, get_task}
use runix_os.Task.Frame.{Place}
use runix_os.Kernel.{Kernel}
use runix_os.Memory.{validate_user_range, page_ok}
use runix_os.Preempt.{new as quiet}
use runix_os.Ipc.{sys_receive_async}
use runix_os.Syscall.{failure, dispatch_spawn_task}
use runix_os.Syscall.Grant.{Refused}
use runix_os.Syscall.Spawn
use runix_os.Syscall.Spawn.{SameTasks, Spawned, dispatch_spawn_task_lem}
use runix_os.Syscall.Dispatch.{World, SyscallFrame, Reply, syscall_dispatch}
use runix_os.Syscall.Dispatch.Safety.{IsSafe, syscall_dispatch-IsSafe}
use runix_os.Samples.{
  hello, kernel_of, pair_of, waiting, sender, receiver, pair_of-IsIndexed, pair_of_tables,
}

abbrev all_rights : RightsMask
all_rights = record { read = true; write = true; grant = true }

abbrev place : Place
place = record {
  task_stacks = 0x100000;
  kernel_task_trampoline = 0x1000;
  iret_to_user = 0x2000;
  boot_pml4 = 0x3000;
}

abbrev load : ℕ → ℕ
load blob = 0x9000

dispatch_spawn_task_lem_example :
    let (rax, k') = dispatch_spawn_task place load waiting 1 in
    ((id : ℕ) × (task : Task) × (rax ≡ id)
      × (2 ≤ id)
      × (id < max_tasks)
      × (task.id ≡ id)
      × (task.state ≡ ready)
      × (task.cap_table ≡ no_capabilities)
      × Spawned waiting id task k')
    ⊎ ((rax ≡ failure) × Spawn.Refused waiting.sched 1 × SameTasks waiting.sched k'.sched)
dispatch_spawn_task_lem_example =
    dispatch_spawn_task_lem place load waiting 1 (pair_of-IsIndexed sender receiver refl refl)
      (pair_of_tables sender receiver refl refl)

abbrev world : World
world = record {
  space = record { pml4_paddr = 0x1000; hhdm = 0; word = λ a. 0x1007 };
  byte = λ a. 65;
  place = place;
  load = load;
  is_utf8 = λ bytes. true;
  envs = [];
}

-- Task 0 has a message of one byte, and asks for it with `SYS_RECEIVE_ASYNC`.
abbrev given : Kernel
given = kernel_of (pair_of (record sender { ipc_buffer = some hello }) receiver) quiet

abbrev frame : SyscallFrame
frame = record { rax = 9; rdx = 64; rsi = 0x400000; rdi = 0; r8 = 0 }

abbrev reply : Reply
reply = record {
  rax = 1;
  kernel = (sys_receive_async given).1;
  printed = [];
  copied = some (0x400000, 104 ∷ []);
}

replied : syscall_dispatch world given frame ≡ some reply
unfolding syscall_dispatch validate_user_range page_ok sys_receive_async get_task dequeue
    no_messages
replied = refl

syscall_dispatch-IsSafe_example : IsSafe world given reply
syscall_dispatch-IsSafe_example = syscall_dispatch-IsSafe world given frame reply replied
