-- ===== src/Sched/Tests.antt =====
-- Two tasks, of which the current one gives up the processor or ends.
use runix_os.Prelude.{ℕ, ◌≡◌, ◌≢◌, ◌⊎◌, ◌<◌, refl, arith, true, false, some, none, slot_at}
use runix_os.Task.{Task, is_blocked_on_send, is_ready, ready, running}
use runix_os.Sched.{current_index, yield_cpu, terminate_current_task}
use runix_os.Sched.Invariant.{IsSound, yield_cpu-IsSound}
use runix_os.Sched.Progress.{distance, yield_cpu_progress}
use runix_os.Sched.Ending.{terminate_current_task_lem}
use runix_os.Sched.Burial.{ended}
use runix_os.Samples.{sender, table_of, derived_console, task_of, contended, pair_of-IsSound}

abbrev rival : Task
rival = task_of 1 ready (table_of derived_console) none

contended-IsSound : IsSound contended
contended-IsSound = pair_of-IsSound sender rival refl refl refl

yield_cpu-IsSound_example : IsSound (yield_cpu contended).0
yield_cpu-IsSound_example = yield_cpu-IsSound contended contended-IsSound

current_is : current_index contended ≡ some 0
unfolding current_index
current_is = refl

yield_cpu_progress_example :
    let s' = (yield_cpu contended).0 in
    (s'.current_task_id ≡ some 1)
    ⊎ ((n : ℕ) × (s'.current_task_id ≡ some n) × (distance n 1 < distance 0 1))
yield_cpu_progress_example =
    yield_cpu_progress contended 0 1 rival contended-IsSound current_is refl refl (omega arith)

terminate_current_task_lem_example :
    let (s', switch, count) = terminate_current_task contended in
    IsSound s'
    × (slot_at s'.tasks 0 ≡ some (ended sender))
    × ((i : ℕ) (u : Task)
        → i ≢ 0
        → slot_at contended.tasks i ≡ some u
        → is_blocked_on_send 0 u.state ≡ true
        → (slot_at s'.tasks i ≡ some (record u { state = ready }))
          ⊎ (slot_at s'.tasks i ≡ some (record u { state = running })))
    × ((i : ℕ) (u : Task)
        → i ≢ 0
        → slot_at contended.tasks i ≡ some u
        → is_blocked_on_send 0 u.state ≡ false
        → (slot_at s'.tasks i ≡ some u)
          ⊎ ((is_ready u.state ≡ true)
              × (slot_at s'.tasks i ≡ some (record u { state = running }))))
    × (count ≡ 1)
terminate_current_task_lem_example =
    terminate_current_task_lem contended 0 sender contended-IsSound refl refl
