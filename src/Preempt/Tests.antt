-- ===== src/Preempt/Tests.antt =====
-- Ticks inside and outside of a non-preemptible region.
use runix_os.Prelude.{
  Option, add_word, slot_at, ℕ, ◌≡◌, ◌≢◌, refl, arith, true, false, some, none, [], ◌∷◌,
}
use runix_os.Task.{is_terminated, Task, ready}
use runix_os.Sched.{Switch}
use runix_os.Sched.Burial.{ended}
use runix_os.Sched.Invariant.{IsSound}
use runix_os.Preempt.Fault.{GoesOn, faulted, exception_dispatch_lem}
use runix_os.Kernel.{Preempt, Kernel}
use runix_os.Preempt.{exception_dispatch, enter_window, enter_ipc_window, timer_isr}
use runix_os.Preempt.Window.{Undisturbed, ticks_of, ticks_of-Undisturbed, timer_isr-IsSound}
use runix_os.Samples.{
  kernel_of, contended, sender, task_of, table_of, derived_console, pair_of-IsSound,
}

-- Preemption is armed, and the adversary is to take slot 0 of task 0.
abbrev hostile : Preempt
hostile = record {
  ticks = 0;
  preemptions = 0;
  deferred = 0;
  preempt_count = 0;
  armed = true;
  in_ipc_window = false;
  window_ticks = 0;
  pending_revoke = 0;
  pending_revoke_task = 0;
  revoke_fired_in_window = false;
}

abbrev guarded : Kernel
guarded = kernel_of contended (enter_window hostile)

abbrev exposed : Kernel
exposed = kernel_of contended (enter_ipc_window hostile)

ticks_of-Undisturbed_example : Undisturbed guarded (ticks_of (true ∷ false ∷ true ∷ []) guarded)
ticks_of-Undisturbed_example = ticks_of-Undisturbed (true ∷ false ∷ true ∷ []) guarded (omega arith)

timer_isr-IsSound_example : IsSound (timer_isr true guarded).0.sched
timer_isr-IsSound_example =
    timer_isr-IsSound true guarded
      (pair_of-IsSound sender (task_of 1 ready (table_of derived_console) none) refl refl refl)

exception_dispatch_lem_example :
    (k' : Kernel) × (switch : Option Switch) × (exception_dispatch 0 (14 ∷ []) exposed
      ≡ (some (k', switch), add_word 0 1))
    × IsSound k'.sched
    × (slot_at k'.sched.tasks 0 ≡ some (ended (faulted (14 ∷ []) sender)))
    × ((i : ℕ) (u : Task)
        → i ≢ 0
        → slot_at exposed.sched.tasks i ≡ some u
        → is_terminated u.state ≡ false
        → GoesOn k'.sched i u)
    × (k'.tasks_terminated ≡ add_word 0 1)
exception_dispatch_lem_example =
    exception_dispatch_lem 0 (14 ∷ []) exposed 0 sender
      (pair_of-IsSound sender (task_of 1 ready (table_of derived_console) none) refl refl refl) refl
      refl
