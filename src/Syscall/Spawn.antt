-- ===== src/Syscall/Spawn.antt =====
-- `dispatch_spawn_task`: a new task with init's channel to it, or nothing.
use runix_os.Prelude.{
  ℕ, zero, suc, ◌+◌, ◌-◌, ◌≤◌, ◌<◌, ◌≡◌, ◌≢◌, ◌⊎◌, ◌∙◌, ◌||◌, inl, inr, refl, ap, sym, arith,
  Option, true, false, none, some, List, Option-cases, Bool-cases, ◌==◌, ℕ_discrete, length,
  length-set, slot_at, set,
}
use runix_os.Capability.{
  TaskId, Capability, ipc_channel, CapTable, get, max_caps, insert, new as no_capabilities,
}
use runix_os.Capability.Table.{Inserted, insert_lem, slot_at-set_self, slot_at-set_ne}
use runix_os.Task.{Task, Scheduler, ready, get_task, max_tasks}
use runix_os.Task.Lookup.{IsIndexed, get_task_found, update_task_found}
use runix_os.Task.Frame.{Place, new_user_fresh}
use runix_os.Kernel.{Kernel}
use runix_os.Revocation.Lookup.{FullTables}
use runix_os.Syscall.{
  failure, free_from, init_channel, admit, dispatch_spawn_task, user_code_vaddr, user_stack_top,
}

-- No empty slot from `i` on is missed.
free_from-none :
    (tasks : List (Option Task)) (i n : ℕ)
    → free_from tasks i n ≡ none
    → (j : ℕ) → i ≤ j
    → j < i + n
    → slot_at tasks j ≢ none
unfolding free_from
free_from-none tasks i zero e j le lt q = absurd (omega arith)
free_from-none tasks i (suc n) e j le lt q = elim (Option-cases (slot_at tasks i)) [
  | inl h ↦ absurd (ground arith)
  | inr (t, h) ↦ elim (ℕ_discrete i j) [
    | yes p ↦ absurd (ground arith)
    | no ne ↦ free_from-none tasks (i + 1) n (ground arith) j (omega arith) (omega arith) q
  ]
]

free_from-some :
    (tasks : List (Option Task)) (i n id : ℕ)
    → free_from tasks i n ≡ some id
    → (i ≤ id) × (id < i + n) × (slot_at tasks id ≡ none)
unfolding free_from
free_from-some tasks i zero id e = cc
free_from-some tasks i (suc n) id e = elim (Option-cases (slot_at tasks i)) [
  | inl q ↦ let same : i ≡ id = ground arith in (omega arith, omega arith, rw (← same) q)
  | inr (t, q) ↦
      let (a, b, c) = free_from-some tasks (i + 1) n id (ground arith) in
      (omega arith, omega arith, c)
]

-- Two schedulers with the same tasks in the same slots.
pub record SameTasks (s s' : Scheduler) : Type 0 where
  pub slots : (j : ℕ) → slot_at s'.tasks j ≡ slot_at s.tasks j
  pub current : s'.current_task_id ≡ s.current_task_id

-- Why a spawn fails: every slot from 2 on is taken, the program is not known, there is no init, or every
-- slot of init's table is taken.
pub data Refused (sched : Scheduler) (blob_type : ℕ) : Type 0 where
  no_slot :
      ((j : ℕ) → 2 ≤ j → j < max_tasks → slot_at sched.tasks j ≢ none) → Refused sched blob_type
  unknown : blob_type ≢ 1 → blob_type ≢ 2 → blob_type ≢ 3 → Refused sched blob_type
  no_init : get_task sched 1 ≡ none → Refused sched blob_type
  no_room :
      (init : Task)
      → get_task sched 1 ≡ some init
      → ((i : ℕ) → i < max_caps → get init.cap_table i ≢ none)
      → Refused sched blob_type

-- A task more, in the slot `id`, and a channel to it in init's table.
pub record Spawned (k : Kernel) (id : TaskId) (task : Task) (k' : Kernel) : Type 0 where
  pub init : Task
  pub slot : ℕ
  pub table : CapTable
  pub was_free : slot_at k.sched.tasks id ≡ none
  pub present : slot_at k'.sched.tasks id ≡ some task
  pub init_was : get_task k.sched 1 ≡ some init
  pub init_is : slot_at k'.sched.tasks 1 ≡ some (record init { cap_table = table })
  pub channel : Capability
  pub channel_is : channel ≡ record {
    resource = ipc_channel id;
    read = true;
    write = true;
    grant = true;
    sealed = false;
    id = 0;
    origin = none;
  }
  pub inserted : Inserted k.next_id init.cap_table channel slot table
  pub others : (j : ℕ) → id ≢ j → 1 ≢ j → slot_at k'.sched.tasks j ≡ slot_at k.sched.tasks j
  pub current : k'.sched.current_task_id ≡ k.sched.current_task_id

some-not_none : {c : Capability} → some c ≢ none
some-not_none e = cc

-- Setting a slot and clearing it again, where it was empty.
set_clear :
    (tasks : List (Option Task)) (id j : ℕ) (t : Task)
    → slot_at tasks id ≡ none
    → id < length tasks
    → slot_at (set (set tasks id (some t)) id none) j ≡ slot_at tasks j
set_clear tasks id j t e lt = elim (ℕ_discrete id j) [
  | yes p ↦
      ground (arith, slot_at-set_self (set tasks id (some t)) id none, length-set tasks id (some t))
  | no ne ↦
      slot_at-set_ne (set tasks id (some t)) id j none ne ∙ slot_at-set_ne tasks id j (some t) ne
]

-- The same with a write in between that changes nothing.
set_clear_around :
    (tasks : List (Option Task)) (id i j : ℕ) (t u : Task)
    → slot_at tasks id ≡ none
    → id < length tasks
    → i < length tasks
    → slot_at tasks i ≡ some u
    → slot_at (set (set (set tasks id (some t)) i (some u)) id none) j ≡ slot_at tasks j
set_clear_around tasks id i j t u e lt lt' at =
    let size = length-set tasks id (some t) in
    let size' = length-set (set tasks id (some t)) i (some u) in
    elim (ℕ_discrete id j) [
      | yes p ↦ ground (arith, slot_at-set_self (set (set tasks id (some t)) i (some u)) id none)
      | no ne ↦
          slot_at-set_ne (set (set tasks id (some t)) i (some u)) id j none ne
          ∙ (elim (ℕ_discrete i j) [
            | yes q ↦ ground (arith, slot_at-set_self (set tasks id (some t)) i (some u))
            | no nq ↦
                slot_at-set_ne (set tasks id (some t)) i j (some u) nq
                ∙ slot_at-set_ne tasks id j (some t) ne
          ])
    ]

-- The lookup of init after the new task is put in its slot.
get_init :
    (s : Scheduler) (id : ℕ) (t : Task)
    → 2 ≤ id
    → get_task (record s { tasks = set s.tasks id (some t) }) 1 ≡ get_task s 1
unfolding get_task
get_init s id t ge =
    ground (arith, slot_at-set_ne s.tasks id 1 (some t), length-set s.tasks id (some t))

admit_lem :
    (k : Kernel) (id : TaskId) (task : Task) (blob_type : ℕ)
    → IsIndexed k.sched
    → FullTables k.sched.tasks
    → 2 ≤ id
    → id < max_tasks
    → slot_at k.sched.tasks id ≡ none
    → let (rax, k') = admit k id task in
      ((rax ≡ id) × Spawned k id task k')
      ⊎ ((rax ≡ failure) × Refused k.sched blob_type × SameTasks k.sched k'.sched)
unfolding admit
admit_lem k id task blob_type v full ge lt free =
    let inside : id < length k.sched.tasks = omega (arith, v.slots) in
    let added : Scheduler = record k.sched { tasks = set k.sched.tasks id (some task) } in
    let same = get_init k.sched id task ge in
    elim (Option-cases (get_task k.sched 1)) [
      | inl e ↦
          simp (admit, same ∙ e)
            (inr (
              refl,
              no_init e,
              record { slots = λ j. set_clear k.sched.tasks id j task free inside; current = refl },
            ))
      | inr (init, e) ↦
          let table : CapTable = (insert k.next_id init.cap_table (init_channel id)).1 in
          let f : Task → Task = λ t. record t { cap_table = table } in
          let (at, is_one, in1) = get_task_found k.sched 1 e in
          let upd = update_task_found added 1 f (same ∙ e) in
          let ok = full 1 init at in
          let (counted, how) = insert_lem k.next_id init.cap_table (init_channel id) ok in
          let size = length-set k.sched.tasks id (some task) in
          elim how [
            | inl (slot, stored, ins) ↦
                simp (admit, same ∙ e, stored, upd)
                  (inl (
                    refl,
                    record {
                      init = init;
                      slot = slot;
                      table = table;
                      was_free = free;
                      present =
                          slot_at-set_ne (set k.sched.tasks id (some task)) 1 id (some (f init))
                            (ground arith)
                          ∙ slot_at-set_self k.sched.tasks id (some task) inside;
                      init_was = e;
                      init_is =
                          slot_at-set_self (set k.sched.tasks id (some task)) 1 (some (f init))
                            (omega arith);
                      channel = init_channel id;
                      channel_is = refl;
                      inserted = ins;
                      others = λ j ne nq.
                          slot_at-set_ne (set k.sched.tasks id (some task)) 1 j (some (f init)) nq
                          ∙ slot_at-set_ne k.sched.tasks id j (some task) ne;
                      current = refl;
                    },
                  ))
            | inr (failed, ref) ↦
                let kept : f init ≡ init =
                  ap (λ (x : CapTable). record init { cap_table = x }) ref.unchanged in
                simp (admit, same ∙ e, failed, upd)
                  (inr (
                    refl,
                    no_room init e
                        (λ i l h. let (c, at) = ref.full i l in some-not_none (sym at ∙ h)),
                    record {
                      slots = λ j.
                          ap (λ (u : Task). slot_at (set (set added.tasks 1 (some u)) id none) j)
                            kept
                          ∙ set_clear_around k.sched.tasks id 1 j task init free inside in1 at;
                      current = refl;
                    },
                  ))
          ]
    ]

-- A spawn, on a sound state, either returns the number of a slot from 2 on that was free, which
-- then holds a ready task with no capabilities, while init has a new channel to it, with all
-- rights, in its lowest free slot and no other task changed; or it fails, and then every task is as
-- it was, and either every slot from 2 on is taken, or the program is not one of the three, or
-- there is no init, or every slot of init's table is taken.
pub dispatch_spawn_task_lem :
    (place : Place) (load : ℕ → ℕ) (k : Kernel) (blob_type : ℕ)
    → IsIndexed k.sched
    → FullTables k.sched.tasks
    → let (rax, k') = dispatch_spawn_task place load k blob_type in
      ((id : TaskId) × (task : Task) × (rax ≡ id)
        × (2 ≤ id)
        × (id < max_tasks)
        × (task.id ≡ id)
        × (task.state ≡ ready)
        × (task.cap_table ≡ no_capabilities)
        × Spawned k id task k')
      ⊎ ((rax ≡ failure) × Refused k.sched blob_type × SameTasks k.sched k'.sched)
unfolding dispatch_spawn_task
dispatch_spawn_task_lem place load k blob_type v full =
    elim (Option-cases (free_from k.sched.tasks 2 (max_tasks - 2))) [
      | inl e ↦
          simp (dispatch_spawn_task, e)
            (inr (
              refl,
              no_slot (λ j ge lt.
                  free_from-none k.sched.tasks 2 (max_tasks - 2) e j ge (omega (arith, lt))),
              unchanged,
            ))
      | inr (id, e) ↦
          let (ge, lt, free) = free_from-some k.sched.tasks 2 (max_tasks - 2) id e in
          elim (Bool-cases (blob_type == 1 || blob_type == 2 || blob_type == 3)) [
            | inr b ↦
                simp (dispatch_spawn_task, e, b)
                  (inr (
                    refl,
                    unknown (ground (arith, b)) (ground (arith, b)) (ground (arith, b)),
                    unchanged,
                  ))
            | inl b ↦
                let known : id < max_tasks = omega arith in
                let (task, st, made, a, b', c) =
                  new_user_fresh place id user_code_vaddr user_stack_top (load blob_type)
                    no_capabilities known in
                simp (dispatch_spawn_task, e, b, made)
                  (elim (admit_lem k id task blob_type v full ge known free) [
                    | inl (r, sp) ↦ inl (id, task, r, ge, known, a, b', c, sp)
                    | inr (r, why, same) ↦ inr (r, why, same)
                  ])
          ]
    ]
  where
    unchanged : SameTasks k.sched k.sched
    unchanged = record { slots = λ j. refl; current = refl }
