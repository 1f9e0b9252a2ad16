-- ===== src/Syscall/Grant.antt =====
-- `dispatch_cap_grant`: who gets what, and what a refusal leaves.
use runix_os.Prelude.{
  ℕ, ◌≡◌, ◌≢◌, inl, inr, refl, ap, arith, true, none, some, Option-cases, ℕ_discrete, add_word,
}
use runix_os.Capability.{TaskId, Capability, RightsMask, CapTable, get}
use runix_os.Capability.Rights.{Attenuates}
use runix_os.Capability.Table.{IsTable, Inserted}
use runix_os.Audit.{grant as granted, push}
use runix_os.Task.{Task, Scheduler, get_task, update_task}
use runix_os.Task.Lookup.{get_task-update_task}
use runix_os.Kernel.{Kernel}
use runix_os.Ipc.Authority.{others_kept}

-- The donor's capability, and what is derived from it.
pub record Derivable (sched : Scheduler) (caller : TaskId) (src : ℕ) (rights : RightsMask)
    (derived : Capability) : Type 0 where
  pub donor_task : Task
  pub donor : Capability
  pub caller_is : get_task sched caller ≡ some donor_task
  pub held : get donor_task.cap_table src ≡ some donor
  pub may_grant : donor.grant ≡ true
  pub attenuated : Attenuates donor rights (record derived { origin = none })
  pub lineage : derived.origin ≡ some donor.id

-- Every task has a table with all its slots.
abbrev pub FullTables : Scheduler → Type 0
FullTables sched = (i : TaskId) (t : Task) → get_task sched i ≡ some t → IsTable t.cap_table

-- The effect of a grant: one capability more, in the target's lowest free slot, on record.
pub record Granted (k : Kernel) (caller : TaskId) (src : ℕ) (target : TaskId) (rights : RightsMask)
    (k' : Kernel) : Type 0 where
  pub derived : Capability
  pub derivable : Derivable k.sched caller src rights derived
  pub before : Task
  pub slot : ℕ
  pub table : CapTable
  pub target_was : get_task k.sched target ≡ some before
  pub target_is : get_task k'.sched target ≡ some (record before { cap_table = table })
  pub inserted : Inserted k.next_id before.cap_table derived slot table
  pub others : (j : TaskId) → target ≢ j → get_task k'.sched j ≡ get_task k.sched j
  pub next_is : k'.next_id ≡ add_word k.next_id 1
  pub recorded :
      k'.audit
      ≡ push k.audit (record {
        kind = granted;
        actor = caller;
        target = target;
        resource = derived.resource;
        slot = slot;
      })

-- A call that was refused: no task and no record changed.
pub record Refused (k k' : Kernel) : Type 0 where
  pub tasks : (j : TaskId) → get_task k'.sched j ≡ get_task k.sched j
  pub current : k'.sched.current_task_id ≡ k.sched.current_task_id
  pub audit : k'.audit ≡ k.audit

pub Refused-refl : (k : Kernel) → Refused k k
Refused-refl k = record { tasks = λ j. refl; current = refl; audit = refl }

pub same_table :
    (s : Scheduler) (target j : TaskId) (t : Task) (table : CapTable)
    → get_task s target ≡ some t
    → table ≡ t.cap_table
    → get_task (update_task s target (λ t. record t { cap_table = table })) j ≡ get_task s j
same_table s target j t table e same = elim (ℕ_discrete target j) [
  | yes p ↦
      let id : record t { cap_table = table } ≡ t =
        ap (λ (x : CapTable). record t { cap_table = x }) same in
      ground (arith, get_task-update_task s target j (λ t. record t { cap_table = table }) t e refl)
  | no ne ↦ others_kept s target j (λ t. record t { cap_table = table }) (λ t. refl) ne
]

pub update_current :
    (s : Scheduler) (i : TaskId) (f : Task → Task)
    → (update_task s i f).current_task_id ≡ s.current_task_id
unfolding update_task
update_current s i f = elim (Option-cases (get_task s i)) [
  | inl e ↦ rw (e, update_task) refl
  | inr (t, e) ↦ rw (e, update_task) refl
]
