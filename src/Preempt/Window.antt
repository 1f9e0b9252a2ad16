-- ===== src/Preempt/Window.antt =====
-- Timer ticks against the validate-and-use region of a send.
use runix_os.Prelude.{
  ℕ, ◌<◌, ◌≡◌, ◌≢◌, ◌∙◌, ◌⊎◌, sym, refl, Bool, true, false, Option, none, some, List, [], ◌∷◌,
  arith, word_max, Option-cases, inl, inr, Bool-cases, ◌==◌,
}
use runix_os.Capability.{TaskId, get, kernel_revoke}
use runix_os.Capability.Table.{IsTable, kernel_revoke_lem}
use runix_os.Task.{Task, Scheduler, get_task, update_task}
use runix_os.Task.Lookup.{get_task-update_task}
use runix_os.Sched.{Switch, preempt_reschedule}
use runix_os.Sched.Invariant.{IsSound, update_task-IsSound, preempt_reschedule-IsSound}
use runix_os.Kernel.{Preempt, Kernel}
use runix_os.Preempt.{no_revoke, enter_window, drop_window, on_tick_should_switch, timer_isr}

-- Any number of timer interrupts; each list entry tells whether the scheduler's lock was free.
abbrev pub ticks_of : List Bool → Kernel → Kernel
ticks_of [] k = k
ticks_of (lock_free ∷ rest) k = ticks_of rest (timer_isr lock_free k).0

-- What interrupts must leave alone for the region to be indivisible.
pub record Undisturbed (k k' : Kernel) : Type 0 where
  pub sched_kept : k'.sched ≡ k.sched
  pub audit_kept : k'.audit ≡ k.audit
  pub ids_kept : k'.next_id ≡ k.next_id
  pub count_kept : k'.preempt.preempt_count ≡ k.preempt.preempt_count
  pub fired_kept : k'.preempt.revoke_fired_in_window ≡ k.preempt.revoke_fired_in_window

tick-Undisturbed :
    (lock_free : Bool) (k : Kernel)
    → k.preempt.preempt_count ≢ 0
    → Undisturbed k (timer_isr lock_free k).0
unfolding timer_isr
tick-Undisturbed lock_free k h =
    let busy : (k.preempt.preempt_count == 0) ≡ false = ground arith in
    elim (Bool-cases k.preempt.armed) [
      | inl e ↦
          simp (timer_isr, on_tick_should_switch, e, busy)
            (record {
              sched_kept = refl;
              audit_kept = refl;
              ids_kept = refl;
              count_kept = refl;
              fired_kept = refl;
            })
      | inr e ↦
          simp (timer_isr, on_tick_should_switch, e)
            (record {
              sched_kept = refl;
              audit_kept = refl;
              ids_kept = refl;
              count_kept = refl;
              fired_kept = refl;
            })
    ]

-- While a non-preemptible region is open, no sequence of timer interrupts changes a task, a
-- capability table, the audit trail or the identity counter, or lets the armed adversary act.
pub ticks_of-Undisturbed :
    (locks : List Bool) (k : Kernel)
    → k.preempt.preempt_count ≢ 0
    → Undisturbed k (ticks_of locks k)
ticks_of-Undisturbed [] k h = record {
  sched_kept = refl;
  audit_kept = refl;
  ids_kept = refl;
  count_kept = refl;
  fired_kept = refl;
}
ticks_of-Undisturbed (lock_free ∷ rest) k h =
    let one = tick-Undisturbed lock_free k h in
    let more =
      ticks_of-Undisturbed rest (timer_isr lock_free k).0 (λ e. h (sym one.count_kept ∙ e)) in
    record {
      sched_kept = more.sched_kept ∙ one.sched_kept;
      audit_kept = more.audit_kept ∙ one.audit_kept;
      ids_kept = more.ids_kept ∙ one.ids_kept;
      count_kept = more.count_kept ∙ one.count_kept;
      fired_kept = more.fired_kept ∙ one.fired_kept;
    }

-- Leaving the window undoes entering it, if the count does not overflow and no window was open.
pub drop-enter_window :
    (p : Preempt)
    → p.preempt_count < word_max
    → p.in_ipc_window ≡ false
    → (drop_window (enter_window p) ≡ p) × ((enter_window p).preempt_count ≢ 0)
drop-enter_window p h w = (ground arith, ground arith)

-- Outside a region the hazard is real: with preemption armed, a window open, a pending revocation
-- and the lock free, the very next tick empties the named slot and leaves the other tasks alone.
pub unguarded_tick :
    (k : Kernel) (task : TaskId) (slot : ℕ) (t : Task)
    → k.preempt.armed ≡ true
    → k.preempt.in_ipc_window ≡ true
    → k.preempt.preempt_count ≡ 0
    → k.preempt.pending_revoke ≡ slot
    → slot ≢ no_revoke
    → k.preempt.pending_revoke_task ≡ task
    → get_task k.sched task ≡ some t
    → IsTable t.cap_table
    → let (permitted, k') = on_tick_should_switch true k in
      (permitted ≡ true)
      × (k'.preempt.revoke_fired_in_window ≡ true)
      × ((t' : Task) × (get_task k'.sched task ≡ some t') × (get t'.cap_table slot ≡ none))
      × ((j : TaskId) → task ≢ j → get_task k'.sched j ≡ get_task k.sched j)
unfolding on_tick_should_switch
unguarded_tick k task slot t a w c p ne q e v =
    let b : (k.preempt.pending_revoke == no_revoke) ≡ false = ground arith in
    let f : Task → Task = λ t. record t { cap_table = (kernel_revoke t.cap_table slot).1 } in
    let found = λ (j : TaskId). get_task-update_task k.sched task j f t e refl in
    let (_, gone, _, _) = kernel_revoke_lem t.cap_table slot v in
    rw (a, c, w, on_tick_should_switch, b, q, e, p)
      (refl, refl, (f t, ground (arith, found task), gone), λ j nj. ground (arith, found j))

-- The only write of the tick policy to the tasks is the adversary's.
abbrev revoked_by : Preempt → Scheduler → Scheduler
revoked_by p s =
    update_task s p.pending_revoke_task
      (λ t. record t { cap_table = (kernel_revoke t.cap_table p.pending_revoke).1 })

on_tick_sched :
    (lock_free : Bool) (k : Kernel)
    → ((on_tick_should_switch lock_free k).1.sched ≡ k.sched)
      ⊎ ((on_tick_should_switch lock_free k).1.sched ≡ revoked_by k.preempt k.sched)
unfolding on_tick_should_switch
on_tick_sched lock_free k = ground arith

on_tick-IsSound :
    (lock_free : Bool) (k : Kernel)
    → IsSound k.sched
    → IsSound (on_tick_should_switch lock_free k).1.sched
on_tick-IsSound lock_free k v = elim (on_tick_sched lock_free k) [
  | inl e ↦ rw e v
  | inr e ↦
      rw e (update_task-IsSound k.sched k.preempt.pending_revoke_task _ (λ t. refl) (λ t r. r) v)
]

-- The scheduler that a timer interrupt leaves.
timer_isr_sched :
    (lock_free : Bool) (k : Kernel)
    → let s = (on_tick_should_switch lock_free k).1.sched in
      ((timer_isr lock_free k).0.sched ≡ s)
      ⊎ ((after : Scheduler × Option Switch) × (preempt_reschedule lock_free s ≡ some after)
          × ((timer_isr lock_free k).0.sched ≡ after.0))
unfolding timer_isr
timer_isr_sched lock_free k = elim (Bool-cases (on_tick_should_switch lock_free k).0) [
  | inr e ↦ inl (rw (e, timer_isr))
  | inl e ↦
      elim (Option-cases
        (preempt_reschedule lock_free (on_tick_should_switch lock_free k).1.sched)) [
          | inl q ↦ inl (rw (e, q, timer_isr))
          | inr (after, q) ↦ inr (after, q, rw (e, q, timer_isr))
        ]
]

-- A timer interrupt at any moment keeps at most the current task running.
pub timer_isr-IsSound :
    (lock_free : Bool) (k : Kernel) → IsSound k.sched → IsSound (timer_isr lock_free k).0.sched
timer_isr-IsSound lock_free k v =
    let w = on_tick-IsSound lock_free k v in
    elim (timer_isr_sched lock_free k) [
      | inl e ↦ rw e w
      | inr (after, q, e) ↦ rw e (preempt_reschedule-IsSound lock_free _ w q)
    ]
