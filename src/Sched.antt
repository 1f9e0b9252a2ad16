-- ===== src/Sched.antt =====
-- kernel/scheduler/mod.rs: round-robin selection, the voluntary and the timer-driven switch, and
-- the end of a task. A switch is described by what `switch_context` is given: the machine's
-- registers and the interrupt flag are not modelled.
pub mod Select
pub mod Invariant
pub mod Progress
pub mod Burial
pub mod Ending
mod Tests
use runix_os.Prelude.{
  ℕ, zero, suc, ◌+◌, ◌%◌, Bool, true, false, Option, none, some, List, [], ◌∷◌, map, ◌==◌,
  if◌then◌else◌, ltb, length, set, slot_at, is_some,
}
use runix_os.Capability.{TaskId}
use runix_os.Task.{
  Task, TaskState, Scheduler, max_tasks, ready, running, terminated, is_ready, is_running,
  is_blocked_on_send,
}

-- What a context switch loads, and the task whose stack pointer it saves: `none` for the boot
-- context and for a task that has ended.
pub record Switch : Type 0 where
  pub save : Option TaskId
  pub rsp : ℕ
  pub kstack_top : ℕ
  pub cr3 : ℕ

abbrev pub ready_at : List (Option Task) → ℕ → Bool
ready_at tasks idx = elim (slot_at tasks idx) [ none ↦ false | some t ↦ is_ready t.state ]

-- `for offset in offset..offset + n { let idx = (start + offset) % max_tasks; … }`
unfoldable pub find_ready : List (Option Task) → ℕ → ℕ → ℕ → Option ℕ
find_ready tasks start offset zero = none
find_ready tasks start offset (suc n) =
    let idx = (start + offset) % max_tasks in
    let rest = find_ready tasks start (offset + 1) n in
    if ready_at tasks idx then some idx else rest

-- The index of the current task, if its slot is in range and taken.
unfoldable pub current_index : Scheduler → Option ℕ
current_index s = elim s.current_task_id [
  | none ↦ none
  | some id ↦
      if ltb id max_tasks then (if is_some (slot_at s.tasks id) then some id else none) else none
]

-- "it was `Running` and is merely being time-sliced out": other states are kept.
abbrev pub demote : Task → Task
demote t = record t { state = if is_running t.state then ready else t.state }

abbrev pub update_slot : List (Option Task) → ℕ → (Task → Task) → List (Option Task)
update_slot tasks i f = elim (slot_at tasks i) [ none ↦ tasks | some t ↦ set tasks i (some (f t)) ]

-- The chosen task runs. `unwrap` cannot fail here: `find_ready` chose a taken slot. The switch
-- itself happens only for a saved stack pointer that is not 0.
unfoldable pub run_task : Scheduler → Option TaskId → ℕ → Scheduler × Option Switch
run_task s save next = elim (slot_at s.tasks next) [
  | none ↦ (s, none)
  | some t ↦ (
    record {
      tasks = set s.tasks next (some (record t { state = running }));
      current_task_id = some t.id;
    },
    if t.rsp == 0
        then none
        else (some (record { save = save; rsp = t.rsp; kstack_top = t.kstack_top; cr3 = t.cr3 })),
  )
]

-- The switch away from task `curr` that `yield_cpu` and `preempt_reschedule` share.
unfoldable pub switch_from : Scheduler → ℕ → Scheduler × Option Switch
unfolding find_ready run_task
switch_from s curr = elim (find_ready s.tasks ((curr + 1) % max_tasks) 0 max_tasks) [
  | none ↦ (s, none)
  | some next ↦
      if next == curr
      then (s, none)
      else (run_task (record s { tasks = update_slot s.tasks curr demote }) (some curr) next)
]

unfoldable pub yield_cpu : Scheduler → Scheduler × Option Switch
unfolding switch_from current_index find_ready run_task
yield_cpu s = elim (current_index s) [
  | some curr ↦ switch_from s curr
  | none ↦ elim (find_ready s.tasks 0 0 max_tasks) [
    | none ↦ (s, none)
    | some next ↦ run_task s none next
  ]
]

-- `none` is a deferral: the interrupted code holds the scheduler's lock.
unfoldable pub preempt_reschedule : Bool → Scheduler → Option (Scheduler × Option Switch)
unfolding switch_from current_index
preempt_reschedule lock_free s =
    if lock_free
    then (elim (current_index s) [ none ↦ some (s, none) | some curr ↦ some (switch_from s curr) ])
    else none

abbrev pub wake_sender : TaskId → Option Task → Option Task
wake_sender dead none = none
wake_sender dead (some t) =
    some (if is_blocked_on_send dead t.state then (record t { state = ready }) else t)

abbrev pub wake_senders : TaskId → List (Option Task) → List (Option Task)
wake_senders dead = map (wake_sender dead)

-- The scheduler that the first half of `terminate_current_task` leaves: the current task is
-- terminated, and the tasks that were sending to it are ready.
unfoldable pub bury_current : Scheduler → Scheduler
bury_current s = elim s.current_task_id [
  | none ↦ s
  | some dead ↦
      let tasks' =
        if ltb dead max_tasks
        then (update_slot s.tasks dead (λ t. record t { state = terminated }))
        else s.tasks in
      record s { tasks = wake_senders dead tasks' }
]

abbrev pub start_after : Option TaskId → ℕ
start_after none = 0
start_after (some i) = (i + 1) % max_tasks

-- No switch in the result stands for the final `hlt` loop. The counter is `TASKS_TERMINATED`'s
-- step, 0 or 1.
unfoldable pub terminate_current_task : Scheduler → Scheduler × Option Switch × ℕ
unfolding bury_current current_index find_ready run_task
terminate_current_task s =
    let count : ℕ = if is_some (current_index s) then 1 else 0 in
    let s' = bury_current s in
    elim (find_ready s'.tasks (start_after s.current_task_id) 0 max_tasks) [
      | none ↦ (s', none, count)
      | some next ↦ let (s'', switch) = run_task s' none next in (s'', switch, count)
    ]
