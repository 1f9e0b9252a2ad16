-- ===== src/Task/Tests.antt =====
-- The first switch into a task, and the first return to a user program.
use runix_os.Prelude.{◌≡◌, ◌%◌, refl, some, arith}
use runix_os.Task.{Task}
use runix_os.Task.Frame.{
  Place, Stack, Context, UserContext, new_task, new_user, switch_context, iretq, pointer,
  new_task-switch_context, new_user-iretq,
}
use runix_os.Samples.{table_of, console}

abbrev place : Place
place = record {
  task_stacks = 0x100000;
  kernel_task_trampoline = 0x1000;
  iret_to_user = 0x2000;
  boot_pml4 = 0x3000;
}

new_task-switch_context_example :
    (t : Task) × (s : Stack) × (c : Context) × (s' : Stack) × (new_task place 3 0x5000
        (table_of console)
      ≡ some (t, s))
    × (t.rsp ≡ pointer s)
    × (switch_context s ≡ some (c, s'))
    × (c.rip ≡ 0x1000)
    × (c.r15 ≡ 0x5000)
    × (pointer s' % 16 ≡ 8)
new_task-switch_context_example =
    new_task-switch_context place 3 0x5000 (table_of console) (omega arith) refl

new_user-iretq_example :
    (t : Task) × (s : Stack) × (c : Context) × (s' : Stack) × (u : UserContext) × (s'' : Stack)
    × (new_user place 3 0x400000 0x800000 0x9000 (table_of console) ≡ some (t, s))
    × (t.rsp ≡ pointer s)
    × (switch_context s ≡ some (c, s'))
    × (c.rip ≡ 0x2000)
    × (iretq s' ≡ some (u, s''))
    × (u ≡ record { rip = 0x400000; cs = 0x1b; rflags = 0x202; rsp = 0x800000; ss = 0x23 })
    × (pointer s'' ≡ t.kstack_top)
new_user-iretq_example =
    new_user-iretq place 3 0x400000 0x800000 0x9000 (table_of console) (omega arith)
