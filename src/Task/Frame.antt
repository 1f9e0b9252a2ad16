-- ===== src/Task/Frame.antt =====
-- kernel/process/mod.rs, `Task::new` and `Task::new_user`: the words a fresh task's kernel stack
-- is primed with, and what `switch_context` and `iret_to_user` make of them. `place` holds the
-- addresses that the linker and the boot code settle. `TASKS_SPAWNED` is counted by the callers.
use runix_os.Prelude.{
  ℕ, zero, suc, ◌+◌, ◌-◌, ◌*◌, ◌%◌, ◌<◌, ◌≡◌, refl, arith, Option, none, some, List, [], ◌∷◌,
  if◌then◌else◌, ltb, length, lt→ltb,
}
use runix_os.Capability.{TaskId, CapTable}
use runix_os.Message.{new as no_messages}
use runix_os.Task.{Task, ready, max_tasks}

-- `STACK_SIZE`
abbrev pub stack_size : ℕ
stack_size = 32768

-- The addresses of `TASK_STACKS`, of the two trampolines, and the boot address space.
pub record Place : Type 0 where
  pub task_stacks : ℕ
  pub kernel_task_trampoline : ℕ
  pub iret_to_user : ℕ
  pub boot_pml4 : ℕ

-- `USER_CODE` and `USER_DATA` of arch/x86_64/gdt.rs
abbrev pub user_code : ℕ
user_code = 0x1b

abbrev pub user_data : ℕ
user_data = 0x23

-- A stack that grows down from `top`: the words on it, the last pushed first.
pub record Stack : Type 0 where
  pub top : ℕ
  pub words : List ℕ

abbrev pub push : ℕ → Stack → Stack
push word stack = record stack { words = word ∷ stack.words }

-- The stack pointer.
abbrev pub pointer : Stack → ℕ
pointer stack = stack.top - 8 * length stack.words

abbrev pub push_zeros : ℕ → Stack → Stack
push_zeros zero stack = stack
push_zeros (suc n) stack = push_zeros n (push 0 stack)

abbrev pub stack_top : Place → TaskId → ℕ
stack_top place id = place.task_stacks + id * stack_size + stack_size

abbrev fresh : TaskId → Stack → ℕ → CapTable → Task
fresh id stack cr3 cap_table = record {
  id = id;
  state = ready;
  rsp = pointer stack;
  kstack_top = stack.top;
  cr3 = cr3;
  cap_table = cap_table;
  ipc_buffer = none;
  msg_queue = no_messages;
  fault_registers = none;
}

abbrev bare : Place → TaskId → Stack
bare place id = record { top = stack_top place id; words = [] }

-- The stack that `Task::new` primes.
abbrev kernel_frame : Place → TaskId → ℕ → Stack
kernel_frame place id entry =
    push entry
      (push_zeros 5 (push 0x202 (push place.kernel_task_trampoline (push 0 (bare place id)))))

-- `Task::new`; `none` is the failed assertion.
unfoldable pub new_task : Place → TaskId → ℕ → CapTable → Option (Task × Stack)
new_task place id entry cap_table =
    let s = kernel_frame place id entry in
    if ltb id max_tasks then some (fresh id s place.boot_pml4 cap_table, s) else none

-- The stack that `Task::new_user` primes.
abbrev user_frame : Place → TaskId → ℕ → ℕ → Stack
user_frame place id entry_vaddr user_stack_top =
    let s1 = push 0x202 (push user_stack_top (push user_data (bare place id))) in
    let s2 = push entry_vaddr (push user_code s1) in
    push_zeros 6 (push 0x202 (push place.iret_to_user s2))

-- `Task::new_user`
unfoldable pub new_user : Place → TaskId → ℕ → ℕ → ℕ → CapTable → Option (Task × Stack)
new_user place id entry_vaddr user_stack_top cr3 cap_table =
    let s = user_frame place id entry_vaddr user_stack_top in
    if ltb id max_tasks then some (fresh id s cr3 cap_table, s) else none

-- What `switch_context` loads from the new stack, in the order of its pops, and its `ret`.
pub record Context : Type 0 where
  pub r15 : ℕ
  pub r14 : ℕ
  pub r13 : ℕ
  pub r12 : ℕ
  pub rbx : ℕ
  pub rbp : ℕ
  pub rflags : ℕ
  pub rip : ℕ

unfoldable pub switch_context : Stack → Option (Context × Stack)
switch_context stack = elim stack.words [
  | r15 ∷ r14 ∷ r13 ∷ r12 ∷ rbx ∷ rbp ∷ rflags ∷ rip ∷ rest ↦ some (
    record {
      r15 = r15;
      r14 = r14;
      r13 = r13;
      r12 = r12;
      rbx = rbx;
      rbp = rbp;
      rflags = rflags;
      rip = rip;
    },
    record stack { words = rest },
  )
  | _ ↦ none
]

-- The processor's state after `iretq`.
pub record UserContext : Type 0 where
  pub rip : ℕ
  pub cs : ℕ
  pub rflags : ℕ
  pub rsp : ℕ
  pub ss : ℕ

unfoldable pub iretq : Stack → Option (UserContext × Stack)
iretq stack = elim stack.words [
  | rip ∷ cs ∷ rflags ∷ rsp ∷ ss ∷ rest ↦ some (
    record { rip = rip; cs = cs; rflags = rflags; rsp = rsp; ss = ss },
    record stack { words = rest },
  )
  | _ ↦ none
]

-- The first switch into a kernel task lands in the trampoline with its entry point in `r15`, and the
-- stack pointer at the entry is 8 off a multiple of 16, as after a call, where the stack is aligned.
pub new_task-switch_context :
    (place : Place) (id : TaskId) (entry : ℕ) (cap_table : CapTable)
    → id < max_tasks
    → place.task_stacks % 16 ≡ 0
    → (t : Task) × (s : Stack) × (c : Context) × (s' : Stack) × (new_task place id entry cap_table
        ≡ some (t, s))
      × (t.rsp ≡ pointer s)
      × (switch_context s ≡ some (c, s'))
      × (c.rip ≡ place.kernel_task_trampoline)
      × (c.r15 ≡ entry)
      × (pointer s' % 16 ≡ 8)
unfolding new_task switch_context
new_task-switch_context place id entry cap_table lt al =
    let s = kernel_frame place id entry in
    (
      fresh id s place.boot_pml4 cap_table,
      s,
      _,
      _,
      simp (lt→ltb id max_tasks lt, new_task),
      refl,
      refl,
      refl,
      refl,
      omega arith,
    )

-- The first switch into a user task lands in `iret_to_user`, whose `iretq` enters ring 3 at the entry
-- address on the user's stack with interrupts enabled, and leaves the kernel stack empty.
pub new_user-iretq :
    (place : Place) (id : TaskId) (entry_vaddr user_stack_top cr3 : ℕ) (cap_table : CapTable)
    → id < max_tasks
    → (t : Task) × (s : Stack) × (c : Context) × (s' : Stack) × (u : UserContext) × (s'' : Stack)
      × (new_user place id entry_vaddr user_stack_top cr3 cap_table ≡ some (t, s))
      × (t.rsp ≡ pointer s)
      × (switch_context s ≡ some (c, s'))
      × (c.rip ≡ place.iret_to_user)
      × (iretq s' ≡ some (u, s''))
      × (u ≡ record {
        rip = entry_vaddr;
        cs = user_code;
        rflags = 0x202;
        rsp = user_stack_top;
        ss = user_data;
      })
      × (pointer s'' ≡ t.kstack_top)
unfolding new_user switch_context iretq
new_user-iretq place id entry_vaddr user_stack_top cr3 cap_table lt =
    let s = user_frame place id entry_vaddr user_stack_top in
    (
      fresh id s cr3 cap_table,
      s,
      _,
      _,
      _,
      _,
      simp (lt→ltb id max_tasks lt, new_user),
      refl,
      refl,
      refl,
      refl,
      refl,
      omega arith,
    )

-- The task that `new_user` builds is ready, with the identity and the table it was given.
pub new_user_fresh :
    (place : Place) (id : TaskId) (entry_vaddr user_stack_top cr3 : ℕ) (cap_table : CapTable)
    → id < max_tasks
    → (t : Task) × (s : Stack) × (new_user place id entry_vaddr user_stack_top cr3 cap_table
        ≡ some (t, s))
      × (t.id ≡ id)
      × (t.state ≡ ready)
      × (t.cap_table ≡ cap_table)
unfolding new_user
new_user_fresh place id entry_vaddr user_stack_top cr3 cap_table lt =
    let s = user_frame place id entry_vaddr user_stack_top in
    (fresh id s cr3 cap_table, s, simp (lt→ltb id max_tasks lt, new_user), refl, refl, refl)
