-- ===== src/Preempt/Fault.antt =====
-- Failure containment: what a processor exception in one task leaves of the others.
use runix_os.Prelude.{
  ℕ, ◌≡◌, ◌≢◌, ◌∙◌, ◌⊎◌, inl, inr, sym, ap, refl, true, false, Option, some, List, add_word,
  slot_at, Bool-cases,
}
use runix_os.Capability.{TaskId}
use runix_os.Capability.Table.{slot_at-set_self, slot_at-set_ne}
use runix_os.Task.{
  Task, Scheduler, ready, running, is_ready, is_terminated, is_blocked_on_send, get_task,
  update_task,
}
use runix_os.Task.Lookup.{get_task-eq-slot_at, get_task_found, update_task_found}
use runix_os.Sched.{Switch, terminate_current_task}
use runix_os.Sched.Burial.{ended}
use runix_os.Sched.Ending.{terminate_current_task_lem}
use runix_os.Sched.Invariant.{IsSound, update_task-IsSound}
use runix_os.Kernel.{Kernel}
use runix_os.Preempt.{exception_dispatch}

-- The faulting task with its registers saved.
abbrev pub faulted : List ℕ → Task → Task
faulted frame t = record t { fault_registers = some frame }

-- A task that goes on: the same but for its state, and not terminated.
abbrev pub GoesOn : Scheduler → ℕ → Task → Type 0
GoesOn s i u =
    (v : Task) × (slot_at s.tasks i ≡ some v)
    × (v ≡ record u { state = v.state })
    × (is_terminated v.state ≡ false)

goes_on :
    (s : Scheduler) (i : ℕ) (dead : TaskId) (u : Task)
    → is_terminated u.state ≡ false
    → (is_blocked_on_send dead u.state ≡ true
        → (slot_at s.tasks i ≡ some (record u { state = ready }))
          ⊎ (slot_at s.tasks i ≡ some (record u { state = running })))
    → (is_blocked_on_send dead u.state ≡ false
        → (slot_at s.tasks i ≡ some u)
          ⊎ ((is_ready u.state ≡ true) × (slot_at s.tasks i ≡ some (record u { state = running }))))
    → GoesOn s i u
goes_on s i dead u alive sends others = elim (Bool-cases (is_blocked_on_send dead u.state)) [
  | inl b ↦ elim (sends b) [
    | inl e ↦ (record u { state = ready }, e, refl, refl)
    | inr e ↦ (record u { state = running }, e, refl, refl)
  ]
  | inr b ↦ elim (others b) [
    | inl e ↦ (u, e, refl, alive)
    | inr (r, e) ↦ (record u { state = running }, e, refl, refl)
  ]
]

-- An exception in the current task of a sound state is contained: it is counted, the task ends with
-- its registers saved, every other task that had not ended goes on with all but its state kept, and
-- at most the current task runs.
pub exception_dispatch_lem :
    (faults : ℕ) (frame : List ℕ) (k : Kernel) (dead : TaskId) (t : Task)
    → IsSound k.sched
    → k.sched.current_task_id ≡ some dead
    → slot_at k.sched.tasks dead ≡ some t
    → (k' : Kernel) × (switch : Option Switch) × (exception_dispatch faults frame k
        ≡ (some (k', switch), add_word faults 1))
      × IsSound k'.sched
      × (slot_at k'.sched.tasks dead ≡ some (ended (faulted frame t)))
      × ((i : ℕ) (u : Task)
          → i ≢ dead
          → slot_at k.sched.tasks i ≡ some u
          → is_terminated u.state ≡ false
          → GoesOn k'.sched i u)
      × (k'.tasks_terminated ≡ add_word k.tasks_terminated 1)
unfolding exception_dispatch
exception_dispatch_lem faults frame k dead t v cur at =
    let found : get_task k.sched dead ≡ some t = get_task-eq-slot_at k.sched dead v.indexed ∙ at in
    let (_, is_id, inside) = get_task_found k.sched dead found in
    let s = update_task k.sched dead (faulted frame) in
    let upd = update_task_found k.sched dead (faulted frame) found in
    let vs : IsSound s =
      update_task-IsSound k.sched dead (faulted frame) (λ t. refl) (λ t r. r) v in
    let cur' : s.current_task_id ≡ some dead =
      ap (λ (x : Scheduler). x.current_task_id) upd ∙ cur in
    let at' : slot_at s.tasks dead ≡ some (faulted frame t) =
      ap (λ (x : Scheduler). slot_at x.tasks dead) upd
      ∙ slot_at-set_self k.sched.tasks dead (some (faulted frame t)) inside in
    let (sound, gone, sends, others, count) =
      terminate_current_task_lem s dead (faulted frame t) vs cur' at' in
    let s' = (terminate_current_task s).0 in
    (
      record k {
        sched = s';
        tasks_terminated = add_word k.tasks_terminated (terminate_current_task s).2;
      },
      (terminate_current_task s).1,
      simp (exception_dispatch, cur),
      sound,
      gone,
      λ i u ne here alive.
          let there : slot_at s.tasks i ≡ some u =
            ap (λ (x : Scheduler). slot_at x.tasks i) upd
            ∙ (slot_at-set_ne k.sched.tasks dead i (some (faulted frame t)) (λ e. ne (sym e))
                ∙ here) in
          goes_on s' i dead u alive (sends i u ne there) (others i u ne there),
      ap (add_word k.tasks_terminated) count,
    )
