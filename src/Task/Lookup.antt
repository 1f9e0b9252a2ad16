-- ===== src/Task/Lookup.antt =====
-- What `get_task` finds after a write through `get_task_mut`.
use runix_os.Prelude.{
  none, ℕ, ◌<◌, ◌≡◌, inl, inr, ◌∙◌, some, arith, length, ℕ_discrete, dec_lt, length-set, slot_at,
  set, Option-cases, ◌==◌, if◌then◌else◌,
}
use runix_os.Capability.{TaskId}
use runix_os.Capability.Table.{slot_at-set_self, slot_at-set_ne, slot_at-some_lt}
use runix_os.Task.{Task, Scheduler, max_tasks, get_task, update_task}

-- The scheduler's table has a slot for every task, and a task stands in the slot of its id.
pub record IsIndexed (s : Scheduler) : Type 0 where
  pub slots : length s.tasks ≡ max_tasks
  pub id_is : (i : ℕ) (t : Task) → slot_at s.tasks i ≡ some t → t.id ≡ i

pub get_task-eq-slot_at : (s : Scheduler) (i : ℕ) → IsIndexed s → get_task s i ≡ slot_at s.tasks i
unfolding get_task
get_task-eq-slot_at s i v = elim (Option-cases (slot_at s.tasks i)) [
  | inl e ↦ ground (arith, e)
  | inr (t, e) ↦ ground (arith, e, v.id_is i t e, slot_at-some_lt s.tasks i e)
]

-- A found task stands in the slot of the id that was asked for, and has that id.
pub get_task_found :
    (s : Scheduler) (i : TaskId) {t : Task}
    → get_task s i ≡ some t
    → (slot_at s.tasks i ≡ some t) × (t.id ≡ i) × (i < length s.tasks)
unfolding get_task
get_task_found s i e = ground arith

-- A write that keeps the task's id is what a later lookup of that id finds, and no other lookup
-- sees it.
pub get_task-update_task :
    (s : Scheduler) (i j : TaskId) (f : Task → Task) (t : Task)
    → get_task s i ≡ some t
    → (f t).id ≡ t.id
    → get_task (update_task s i f) j ≡ (if i == j then some (f t) else get_task s j)
unfolding get_task update_task
get_task-update_task s i j f t e keep =
    let (at, id, lt) = get_task_found s i e in
    ground (
      arith,
      length-set s.tasks i (some (f t)),
      slot_at-set_self s.tasks i (some (f t)) lt,
      slot_at-set_ne s.tasks i j (some (f t)),
    )

pub update_task_found :
    (s : Scheduler) (i : TaskId) (f : Task → Task) {t : Task}
    → get_task s i ≡ some t
    → update_task s i f ≡ record s { tasks = set s.tasks i (some (f t)) }
unfolding update_task
update_task_found s i f e = rw (e, update_task)

pub update_task_missing :
    (s : Scheduler) (i : TaskId) (f : Task → Task) → get_task s i ≡ none → update_task s i f ≡ s
unfolding update_task
update_task_missing s i f e = rw (e, update_task)

pub set-IsIndexed :
    (s : Scheduler) (i : ℕ) (t : Task)
    → IsIndexed s
    → t.id ≡ i
    → IsIndexed (record s { tasks = set s.tasks i (some t) })
set-IsIndexed s i t v e = record {
  slots = length-set s.tasks i (some t) ∙ v.slots;
  id_is = λ j u q. go j u q (ℕ_discrete i j);
}
  where
    go : (j : ℕ) (u : Task) → slot_at (set s.tasks i (some t)) j ≡ some u → Dec (i ≡ j) → u.id ≡ j
    go j u q (yes p) = elim (dec_lt i (length s.tasks)) [
      | yes lt ↦ ground (arith, slot_at-set_self s.tasks i (some t) lt)
      | no out ↦ absurd (omega (arith, slot_at-some_lt _ j q, length-set s.tasks i (some t)))
    ]
    go j u q (no ne) = ground (arith, slot_at-set_ne s.tasks i j (some t) ne, v.id_is j u)

pub update_task-IsIndexed :
    (s : Scheduler) (i : TaskId) (f : Task → Task)
    → ((t : Task) → (f t).id ≡ t.id)
    → IsIndexed s
    → IsIndexed (update_task s i f)
unfolding update_task
update_task-IsIndexed s i f keep v = elim (Option-cases (get_task s i)) [
  | inl e ↦ rw (e, update_task) v
  | inr (t, e) ↦ rw (e, update_task) (set-IsIndexed s i (f t) v (keep t ∙ (get_task_found s i e).1))
]
