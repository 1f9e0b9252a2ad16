-- ===== src/Syscall.antt =====
-- kernel/syscall/mod.rs: the capability system calls, grant, revoke, the gated serial write and
-- the spawn of a task. The calls return what goes into `rax`; printing is a value returned.
pub mod Dispatch
pub mod Grant
pub mod Revoke
pub mod Spawn
mod Tests
use runix_os.Prelude.{
  ℕ, zero, suc, ◌+◌, ◌-◌, Bool, true, false, ◌&&◌, ◌||◌, Option, none, some, List, [], ◌∷◌, ◌==◌,
  if◌then◌else◌, ltb, word_max, set, slot_at, add_word, is_some, length,
}
use runix_os.Capability.{
  TaskId, Resource, serial, ipc_channel, Capability, RightsMask, CapTable, attenuate, get, insert,
  kernel_revoke, new as no_capabilities,
}
use runix_os.Audit.{AuditEvent, grant as granted, revoke as revoked, push}
use runix_os.Task.{Task, Scheduler, get_task, update_task, max_tasks}
use runix_os.Task.Frame.{Place, new_user}
use runix_os.Kernel.{Kernel}
use runix_os.Revocation.{propagate_revocation}

infixl 5 ◌>>=◌
abbrev pub ◌>>=◌ : {A B : Type 0} → Option A → (A → Option B) → Option B
none >>= f = none
some a >>= f = f a

-- `u64::MAX`, the generic error
abbrev pub failure : ℕ
failure = word_max

-- Step 1 of the grant: the capability derived from the caller's, with its lineage.
unfoldable pub derive : Scheduler → TaskId → ℕ → RightsMask → Option Capability
derive sched caller src_cap_idx rights = do
  task ← get_task sched caller
  cap ← get task.cap_table src_cap_idx
  derived ← attenuate cap rights
  some (record derived { origin = some cap.id })

-- Step 2: the insertion into the target's table, and the audit record.
unfoldable pub install : Kernel → TaskId → TaskId → Capability → ℕ × Kernel
install k caller target derived = elim (get_task k.sched target) [
  | none ↦ (failure, k)
  | some t ↦
      let (slot, table, counter) = insert k.next_id t.cap_table derived in
      let k' = record k {
        sched = update_task k.sched target (λ t. record t { cap_table = table });
        next_id = counter;
      } in
      elim slot [
        | none ↦ (failure, k')
        | some s ↦ (
          0,
          record k' {
            audit = push k.audit (record {
              kind = granted;
              actor = caller;
              target = target;
              resource = derived.resource;
              slot = s;
            });
          },
        )
      ]
]

-- Both steps at once: nothing is taken to run where the source lets go of the scheduler's lock between
-- them.
unfoldable pub dispatch_cap_grant : Kernel → TaskId → ℕ → TaskId → RightsMask → ℕ × Kernel
unfolding derive install
dispatch_cap_grant k caller src_cap_idx target rights =
    elim (derive k.sched caller src_cap_idx rights) [
      | none ↦ (failure, k)
      | some derived ↦ install k caller target derived
    ]

-- A capability that lets its holder grant on a channel to `target`.
abbrev pub is_grant_to : TaskId → Option Capability → Bool
is_grant_to target none = false
is_grant_to target (some cap) = elim cap.resource [
  | ipc_channel id ↦ cap.grant && id == target
  | _ ↦ false
]

-- The loop over `cap_table.slots`.
unfoldable pub has_grant_to : TaskId → CapTable → Bool
has_grant_to target [] = false
has_grant_to target (slot ∷ slots) = is_grant_to target slot || has_grant_to target slots

unfoldable pub current_has_grant_cap_to : Scheduler → TaskId → Bool
current_has_grant_cap_to sched target = elim sched.current_task_id [
  | none ↦ false
  | some id ↦ elim (get_task sched id) [ none ↦ false | some t ↦ has_grant_to target t.cap_table ]
]

-- The forced revocation, with the audit record and the propagation, which ends or gives `none`.
unfoldable pub withdraw : Kernel → TaskId → TaskId → Task → ℕ → Option (ℕ × Kernel)
withdraw k caller target t cap_idx =
    let s =
      update_task k.sched target
        (λ t. record t { cap_table = (kernel_revoke t.cap_table cap_idx).1 }) in
    elim (kernel_revoke t.cap_table cap_idx).0 [
      | none ↦ some (failure, record k { sched = s })
      | some cap ↦
          let ev : AuditEvent = record {
            kind = revoked;
            actor = caller;
            target = target;
            resource = cap.resource;
            slot = cap_idx;
          } in
          elim (propagate_revocation s.tasks (push k.audit ev) cap.id) [
            | none ↦ none
            | some (tasks', _, audit') ↦
                some (0, record k { sched = record s { tasks = tasks' }; audit = audit' })
          ]
    ]

unfoldable pub dispatch_cap_revoke : Kernel → TaskId → TaskId → ℕ → Option (ℕ × Kernel)
unfolding withdraw current_has_grant_cap_to
dispatch_cap_revoke k caller target cap_idx =
    if current_has_grant_cap_to k.sched target
    then (elim (get_task k.sched target) [
      | none ↦ some (failure, k)
      | some t ↦ withdraw k caller target t cap_idx
    ])
    else some (failure, k)

-- The kernel tasks' call: whether it succeeded.
unfoldable pub sys_cap_revoke : Kernel → TaskId → ℕ → Option (Bool × Kernel)
sys_cap_revoke k target cap_idx = elim k.sched.current_task_id [
  | none ↦ some (false, k)
  | some caller ↦ elim (dispatch_cap_revoke k caller target cap_idx) [
    | none ↦ none
    | some (rax, k') ↦ some (rax == 0, k')
  ]
]

-- `cap.resource == Resource::Serial`
abbrev pub is_serial : Resource → Bool
is_serial serial = true
is_serial _ = false

unfoldable pub current_has_serial_cap : Scheduler → ℕ → Bool
current_has_serial_cap sched cap_idx = elim sched.current_task_id [
  | none ↦ false
  | some id ↦ elim (get_task sched id) [
    | none ↦ false
    | some t ↦ elim (get t.cap_table cap_idx) [ none ↦ false | some cap ↦ is_serial cap.resource ]
  ]
]

-- What is printed, or `none` for `Err(())`.
unfoldable pub sys_serial_write : Scheduler → ℕ → List ℕ → Option (List ℕ)
unfolding current_has_serial_cap
sys_serial_write sched cap_idx message =
    if current_has_serial_cap sched cap_idx then some message else none

-- The first free slot in `i..i + n`.
unfoldable pub free_from : List (Option Task) → ℕ → ℕ → Option ℕ
free_from tasks i zero = none
free_from tasks i (suc n) =
    let rest = free_from tasks (i + 1) n in if is_some (slot_at tasks i) then rest else some i

-- The addresses every user program is loaded at.
abbrev pub user_code_vaddr : ℕ
user_code_vaddr = 0x400000

abbrev pub user_stack_top : ℕ
user_stack_top = 0x800000

-- Init's channel to the new task.
abbrev pub init_channel : TaskId → Capability
init_channel id = record {
  resource = ipc_channel id;
  read = true;
  write = true;
  grant = true;
  sealed = false;
  id = 0;
  origin = none;
}

-- Puts the built task in its slot, and gives init the channel, or takes the task out again.
unfoldable pub admit : Kernel → TaskId → Task → ℕ × Kernel
admit k id task =
    let added = record k {
      sched = record k.sched { tasks = set k.sched.tasks id (some task) };
      tasks_spawned = add_word k.tasks_spawned 1;
    } in
    elim (get_task added.sched 1) [
      | none ↦ (
        failure,
        record added { sched = record k.sched { tasks = set added.sched.tasks id none } },
      )
      | some init ↦
          let (slot, table, counter) = insert k.next_id init.cap_table (init_channel id) in
          let s = update_task added.sched 1 (λ t. record t { cap_table = table }) in
          elim slot [
            | some _ ↦ (id, record added { sched = s; next_id = counter })
            | none ↦ (
              failure,
              record added { sched = record s { tasks = set s.tasks id none }; next_id = counter },
            )
          ]
    ]

-- `load` gives the address space into which the loader has copied a program. The source's match on
-- the program's number names the three that it can spawn.
unfoldable pub dispatch_spawn_task : Place → (ℕ → ℕ) → Kernel → ℕ → ℕ × Kernel
unfolding admit free_from
dispatch_spawn_task place load k blob_type = elim (free_from k.sched.tasks 2 (max_tasks - 2)) [
  | none ↦ (failure, k)
  | some id ↦
      if blob_type == 1 || blob_type == 2 || blob_type == 3
      then (elim (new_user place id user_code_vaddr user_stack_top (load blob_type)
          no_capabilities) [ none ↦ (failure, k) | some (task, _) ↦ admit k id task ])
      else (failure, k)
]
