-- ===== src/Sched/Ending.antt =====
-- `terminate_current_task`: the dead task never runs again, its senders are woken, and the
-- scheduler stays sound.
use runix_os.Prelude.{
  ℕ, ◌<◌, ◌≡◌, ◌≢◌, ◌⊎◌, inl, inr, true, false, none, some, arith, slot_at, Option-cases, is_some,
}
use runix_os.Capability.{TaskId}
use runix_os.Capability.Table.{slot_at-some_lt, slot_at-set_self, slot_at-set_ne}
use runix_os.Task.{Task, Scheduler, max_tasks, ready, running, is_ready, is_blocked_on_send}
use runix_os.Sched.{
  ready_at, find_ready, run_task, bury_current, start_after, terminate_current_task, current_index,
}
use runix_os.Sched.Select.{find_ready-some}
use runix_os.Sched.Invariant.{IsSound, IsIdle, run_task-IsSound, ready_at_task}
use runix_os.Sched.Burial.{ended, buried_slot, slot_at-bury_current, bury_current-IsIdle}

-- What the selection that follows the burial may change: the picked task, which was ready, runs.
record Picked (s s' : Scheduler) : Type 0 where
  sound : IsSound s'
  kept :
      (i : ℕ) (t : Task)
      → slot_at s.tasks i ≡ some t
      → (slot_at s'.tasks i ≡ some t)
        ⊎ ((is_ready t.state ≡ true) × (slot_at s'.tasks i ≡ some (record t { state = running })))

IsIdle-IsSound : (s : Scheduler) → IsIdle s → IsSound s
IsIdle-IsSound s v = record {
  indexed = v.indexed;
  single = λ i t q r. let off = v.idle i t q in absurd (ground arith);
}

run_task-Picked :
    (s : Scheduler) (next : ℕ)
    → IsIdle s
    → ready_at s.tasks next ≡ true
    → Picked s (run_task s none next).0
unfolding run_task
run_task-Picked s next v r =
    let (u, at, rd) = ready_at_task s.tasks next r in
    let lt = slot_at-some_lt s.tasks next at in
    record {
      sound = (run_task-IsSound s none next u v at).0;
      kept = λ i t q.
          rw (at, run_task)
            (ground (
              arith,
              slot_at-set_self s.tasks next (some (record u { state = running })) lt,
              slot_at-set_ne s.tasks next i (some (record u { state = running })),
            ));
    }

terminate-Picked :
    (s : Scheduler) → IsSound s → Picked (bury_current s) (terminate_current_task s).0
unfolding terminate_current_task
terminate-Picked s v =
    elim (Option-cases
      (find_ready (bury_current s).tasks (start_after s.current_task_id) 0 max_tasks)) [
        | inl e ↦
            rw (e, terminate_current_task)
              (record {
                sound = IsIdle-IsSound (bury_current s) (bury_current-IsIdle s v);
                kept = λ i t q. inl q;
              })
        | inr (next, e) ↦
            let (_, r, _) =
              find_ready-some (bury_current s).tasks (start_after s.current_task_id) next in_range
                e in
            rw (e, terminate_current_task)
              (run_task-Picked (bury_current s) next (bury_current-IsIdle s v) r)
      ]
  where
    in_range : start_after s.current_task_id < max_tasks
    in_range = ground arith

counted_once :
    (s : Scheduler) (dead : TaskId) (t : Task)
    → s.current_task_id ≡ some dead
    → dead < max_tasks
    → slot_at s.tasks dead ≡ some t
    → (terminate_current_task s).2 ≡ 1
unfolding terminate_current_task
counted_once s dead t c lt e =
    let here : is_some (current_index s) ≡ true = ground arith in
    elim (Option-cases
      (find_ready (bury_current s).tasks (start_after s.current_task_id) 0 max_tasks)) [
        | inl q ↦ rw (q, terminate_current_task, here)
        | inr (next, q) ↦ rw (q, terminate_current_task, here)
      ]

-- When a task ends, by a fault or by itself, it is terminated and counted, every task that was
-- blocked sending to it becomes ready (or already runs), no other task is ended, and still at most
-- the current task runs.
pub terminate_current_task_lem :
    (s : Scheduler) (dead : TaskId) (t : Task)
    → IsSound s
    → s.current_task_id ≡ some dead
    → slot_at s.tasks dead ≡ some t
    → let (s', switch, count) = terminate_current_task s in
      IsSound s'
      × (slot_at s'.tasks dead ≡ some (ended t))
      × ((i : ℕ) (u : Task)
          → i ≢ dead
          → slot_at s.tasks i ≡ some u
          → is_blocked_on_send dead u.state ≡ true
          → (slot_at s'.tasks i ≡ some (record u { state = ready }))
            ⊎ (slot_at s'.tasks i ≡ some (record u { state = running })))
      × ((i : ℕ) (u : Task)
          → i ≢ dead
          → slot_at s.tasks i ≡ some u
          → is_blocked_on_send dead u.state ≡ false
          → (slot_at s'.tasks i ≡ some u)
            ⊎ ((is_ready u.state ≡ true)
                × (slot_at s'.tasks i ≡ some (record u { state = running }))))
      × (count ≡ 1)
terminate_current_task_lem s dead t v c e = (
  after.sound,
  ground (arith, after.kept dead (ended t), slot dead, e),
  λ i u ne at b. ground (arith, after.kept i (record u { state = ready }), slot i, at),
  λ i u ne at b. ground (arith, after.kept i u, slot i, at),
  counted,
)
  where
    after : Picked (bury_current s) (terminate_current_task s).0
    after = terminate-Picked s v

    slot : (i : ℕ) → slot_at (bury_current s).tasks i ≡ buried_slot dead i (slot_at s.tasks i)
    slot i = slot_at-bury_current s dead i v.indexed c

    counted : (terminate_current_task s).2 ≡ 1
    counted =
        counted_once s dead t c (omega (arith, v.indexed.slots, slot_at-some_lt s.tasks dead e)) e
