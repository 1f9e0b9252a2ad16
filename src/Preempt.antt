-- ===== src/Preempt.antt =====
-- kernel/preempt/mod.rs: the non-preemptible regions, the tick policy and the demo's adversary;
-- and the handlers of kernel/interrupts/mod.rs that act on them. Whether the interrupted code
-- holds the scheduler's lock is an argument, `lock_free`.
pub mod Window
pub mod Fault
mod Tests
use runix_os.Prelude.{
  ℕ, Bool, true, false, Option, none, some, List, ◌==◌, if◌then◌else◌, add_word, sub_word, word_max,
  is_some,
}
use runix_os.Capability.{TaskId, kernel_revoke}
use runix_os.Task.{Task, get_task, update_task}
use runix_os.Sched.{Switch, preempt_reschedule, terminate_current_task}
use runix_os.Kernel.{Preempt, Kernel}

abbrev pub no_revoke : ℕ
no_revoke = word_max

unfoldable pub new : Preempt
new = record {
  ticks = 0;
  preemptions = 0;
  deferred = 0;
  preempt_count = 0;
  armed = false;
  in_ipc_window = false;
  window_ticks = 0;
  pending_revoke = no_revoke;
  pending_revoke_task = 0;
  revoke_fired_in_window = false;
}

unfoldable pub set_armed : Bool → Preempt → Preempt
set_armed on p = record p { armed = on }

abbrev pub enter_critical : Preempt → Preempt
enter_critical p = record p { preempt_count = add_word p.preempt_count 1 }

abbrev pub exit_critical : Preempt → Preempt
exit_critical p = record p { preempt_count = sub_word p.preempt_count 1 }

abbrev pub enter_ipc_window : Preempt → Preempt
enter_ipc_window p = record p { in_ipc_window = true }

abbrev pub exit_ipc_window : Preempt → Preempt
exit_ipc_window p = record p { in_ipc_window = false }

-- `CriticalWindow::enter`, and its `drop`
abbrev pub enter_window : Preempt → Preempt
enter_window p = enter_ipc_window (enter_critical p)

abbrev pub drop_window : Preempt → Preempt
drop_window p = exit_critical (exit_ipc_window p)

unfoldable pub arm_adversary : TaskId → ℕ → Preempt → Preempt
arm_adversary task slot p = record p {
  revoke_fired_in_window = false;
  pending_revoke_task = task;
  pending_revoke = slot;
}

unfoldable pub disarm_adversary : Preempt → Preempt
disarm_adversary p = record p { pending_revoke = no_revoke }

unfoldable pub maybe_fire_adversary : Bool → Kernel → Kernel
maybe_fire_adversary lock_free k =
    let slot = k.preempt.pending_revoke in
    let task = k.preempt.pending_revoke_task in
    if slot == no_revoke
    then k
    else if lock_free
    then (if is_some (get_task k.sched task)
        then (record k {
          sched =
              update_task k.sched task
                (λ t. record t { cap_table = (kernel_revoke t.cap_table slot).1 });
          preempt = record k.preempt { revoke_fired_in_window = true; pending_revoke = no_revoke };
        })
        else k)
    else k

-- The tick policy: whether the timer may switch, and the state after the tick's bookkeeping.
unfoldable pub on_tick_should_switch : Bool → Kernel → Bool × Kernel
unfolding maybe_fire_adversary
on_tick_should_switch lock_free k =
    let p = k.preempt in
    let p' = record p {
      ticks = add_word p.ticks 1;
      window_ticks = if p.in_ipc_window then add_word p.window_ticks 1 else p.window_ticks;
    } in
    let k' = record k { preempt = p' } in
    if p.armed
    then (if p.preempt_count == 0
        then (true, if p.in_ipc_window then maybe_fire_adversary lock_free k' else k')
        else (false, record k' { preempt = record p' { deferred = add_word p.deferred 1 } }))
    else (false, k')

-- `timer_isr`: a permitted tick reschedules, which counts a preemption for a switch and a deferral
-- where the lock is held.
unfoldable pub timer_isr : Bool → Kernel → Kernel × Option Switch
unfolding on_tick_should_switch
timer_isr lock_free k =
    let (permitted, k') = on_tick_should_switch lock_free k in
    let p' = k'.preempt in
    if permitted
    then (elim (preempt_reschedule lock_free k'.sched) [
      | none ↦ (record k' { preempt = record p' { deferred = add_word p'.deferred 1 } }, none)
      | some (s, switch) ↦ (
        record k' {
          sched = s;
          preempt =
              if is_some switch
              then (record p' { preemptions = add_word p'.preemptions 1 })
              else p';
        },
        switch,
      )
    ])
    else (k', none)

-- `exception_dispatch`, given the words of the saved frame: the current task records them and
-- ends. Without a current task the machine halts (`none`). `FAULTS_CAUGHT` is the last part.
unfoldable pub exception_dispatch : ℕ → List ℕ → Kernel → Option (Kernel × Option Switch) × ℕ
exception_dispatch faults frame k =
    let faults' = add_word faults 1 in
    elim k.sched.current_task_id [
      | none ↦ (none, faults')
      | some id ↦
          let s = update_task k.sched id (λ t. record t { fault_registers = some frame }) in
          let (s', switch, count) = terminate_current_task s in
          (
            some (
              record k { sched = s'; tasks_terminated = add_word k.tasks_terminated count },
              switch,
            ),
            faults',
          )
    ]
