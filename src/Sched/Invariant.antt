-- ===== src/Sched/Invariant.antt =====
-- At most one task runs, and it is the current one: every scheduling step keeps that.
use runix_os.Prelude.{
  ℕ, ◌+◌, ◌%◌, ◌<◌, ◌≡◌, ◌≢◌, ◌∙◌, ◌⊎◌, inl, inr, sym, true, false, Bool, Option, none, some, List,
  arith, length, slot_at, set, Option-cases, Bool-cases, dec_lt, ℕ_discrete, length-set, ◌==◌, ap,
}
use runix_os.Capability.Table.{slot_at-set_self, slot_at-set_ne, slot_at-some_lt}
use runix_os.Capability.{TaskId}
use runix_os.Task.{Task, Scheduler, max_tasks, running, is_ready, is_running}
use runix_os.Task.{get_task, update_task}
use runix_os.Task.Lookup.{
  get_task_found, update_task_found, update_task_missing, IsIndexed, set-IsIndexed,
}
use runix_os.Sched.{
  ready_at, find_ready, current_index, demote, update_slot, run_task, switch_from, yield_cpu,
  preempt_reschedule, Switch,
}
use runix_os.Sched.Select.{find_ready-some}

pub record IsSound (s : Scheduler) : Type 0 where
  pub indexed : IsIndexed s
  pub single :
      (i : ℕ) (t : Task)
      → slot_at s.tasks i ≡ some t
      → is_running t.state ≡ true
      → s.current_task_id ≡ some i

-- No task runs.
pub record IsIdle (s : Scheduler) : Type 0 where
  pub indexed : IsIndexed s
  pub idle : (i : ℕ) (t : Task) → slot_at s.tasks i ≡ some t → is_running t.state ≡ false

pub ready_at_task :
    (tasks : List (Option Task)) (i : ℕ)
    → ready_at tasks i ≡ true
    → (t : Task) × (slot_at tasks i ≡ some t) × (is_ready t.state ≡ true)
ready_at_task tasks i e = elim (Option-cases (slot_at tasks i)) [
  | inl q ↦ absurd (ground arith)
  | inr (t, q) ↦ (t, q, ground arith)
]

-- The slot `i` after a write to slot `j`, seen from a task that is found there.
slot_after :
    (tasks : List (Option Task)) (j i : ℕ) (u t : Task)
    → slot_at (set tasks j (some u)) i ≡ some t
    → ((i ≡ j) × (t ≡ u)) ⊎ ((i ≢ j) × (slot_at tasks i ≡ some t))
slot_after tasks j i u t e = elim (ℕ_discrete j i) [
  | yes p ↦ elim (dec_lt j (length tasks)) [
    | yes lt ↦ inl (sym p, ground (arith, slot_at-set_self tasks j (some u) lt))
    | no out ↦ absurd (omega (arith, slot_at-some_lt _ i e, length-set tasks j (some u)))
  ]
  | no ne ↦ inr (λ q. ne (sym q), sym (slot_at-set_ne tasks j i (some u) ne) ∙ e)
]

pub run_task-IsSound :
    (s : Scheduler) (save : Option TaskId) (next : ℕ) (t : Task)
    → IsIdle s
    → slot_at s.tasks next ≡ some t
    → IsSound (run_task s save next).0 × ((run_task s save next).0.current_task_id ≡ some next)
unfolding run_task
run_task-IsSound s save next t v e =
    let id : t.id ≡ next = v.indexed.id_is next t e in
    rw (e, run_task)
      (
        record {
          indexed =
              let w : IsIndexed
                  (record s { tasks = set s.tasks next (some (record t { state = running })) }) =
                set-IsIndexed s next (record t { state = running }) v.indexed id in
              record { slots = w.slots; id_is = w.id_is };
          single = λ i u q r. elim (slot_after s.tasks next i (record t { state = running }) u q) [
            | inl (p, _) ↦ ap some (id ∙ sym p)
            | inr (_, p) ↦ let off = v.idle i u p in cc
          ];
        },
        ap some id,
      )

update_slot-set :
    (tasks : List (Option Task)) (i : ℕ) (f : Task → Task) (t : Task)
    → slot_at tasks i ≡ some t
    → update_slot tasks i f ≡ set tasks i (some (f t))
update_slot-set tasks i f t e = rw (e, update_slot)

-- With the current task demoted, no task runs.
demote-IsIdle :
    (s : Scheduler) (curr : ℕ) (t : Task)
    → IsSound s
    → s.current_task_id ≡ some curr
    → slot_at s.tasks curr ≡ some t
    → IsIdle (record s { tasks = set s.tasks curr (some (demote t)) })
demote-IsIdle s curr t v c e = record {
  indexed = set-IsIndexed s curr (demote t) v.indexed (v.indexed.id_is curr t e);
  idle = λ i u q. elim (slot_after s.tasks curr i (demote t) u q) [
    | inl (_, p) ↦ ground arith
    | inr (ne, p) ↦ elim (Bool-cases (is_running u.state)) [
      | inl r ↦ let here = v.single i u p r in absurd (ne (ground arith))
      | inr r ↦ r
    ]
  ];
}

pub current_index-some :
    (s : Scheduler) (i : ℕ)
    → current_index s ≡ some i
    → (s.current_task_id ≡ some i) × (i < max_tasks) × ((t : Task) × (slot_at s.tasks i ≡ some t))
unfolding current_index
current_index-some s i e = elim (Option-cases (slot_at s.tasks i)) [
  | inl q ↦ absurd (ground arith)
  | inr (t, q) ↦ (ground arith, ground arith, (t, q))
]

-- If the current task has no slot, no task runs.
current_index-none : (s : Scheduler) → IsSound s → current_index s ≡ none → IsIdle s
unfolding current_index
current_index-none s v e = record {
  indexed = v.indexed;
  idle = λ i t q. elim (Bool-cases (is_running t.state)) [
    | inl r ↦
        let here = v.single i t q r in
        let lt = slot_at-some_lt s.tasks i q in let n = v.indexed.slots in absurd (ground arith)
    | inr r ↦ r
  ];
}

-- The outcome of a search that picked `next`, a ready task other than the current one.
pub switch_from_pick :
    (s : Scheduler) (curr next : ℕ) (t : Task)
    → IsSound s
    → s.current_task_id ≡ some curr
    → slot_at s.tasks curr ≡ some t
    → ready_at s.tasks next ≡ true
    → next ≢ curr
    → let s' =
        (run_task (record s { tasks = update_slot s.tasks curr demote }) (some curr) next).0 in
      IsSound s' × (s'.current_task_id ≡ some next)
switch_from_pick s curr next t v c e r ne =
    let (u, q, _) = ready_at_task s.tasks next r in
    rw (update_slot-set s.tasks curr demote t e) (
      run_task-IsSound (record s { tasks = set s.tasks curr (some (demote t)) }) (some curr) next u
        (demote-IsIdle s curr t v c e)
        (slot_at-set_ne s.tasks curr next (some (demote t)) (λ p. ne (sym p)) ∙ q))

pub switch_from-IsSound :
    (s : Scheduler) (curr : ℕ)
    → IsSound s
    → current_index s ≡ some curr
    → IsSound (switch_from s curr).0
unfolding switch_from
switch_from-IsSound s curr v e =
    let (c, lt, (t, at)) = current_index-some s curr e in
    elim (Option-cases (find_ready s.tasks ((curr + 1) % max_tasks) 0 max_tasks)) [
      | inl q ↦ rw (q, switch_from) v
      | inr (next, q) ↦
          let (_, r, _) = find_ready-some s.tasks ((curr + 1) % max_tasks) next (omega arith) q in
          elim (ℕ_discrete next curr) [
            | yes p ↦ let b : (next == curr) ≡ true = ground arith in rw (q, b, switch_from) v
            | no ne ↦
                let b : (next == curr) ≡ false = ground arith in
                rw (q, b, switch_from) (switch_from_pick s curr next t v c at r ne).0
          ]
    ]

-- A voluntary yield keeps the invariant: at most the current task runs, whether the yielding task
-- was running, blocked or gone, and whether or not another task is ready.
pub yield_cpu-IsSound : (s : Scheduler) → IsSound s → IsSound (yield_cpu s).0
unfolding yield_cpu
yield_cpu-IsSound s v = elim (Option-cases (current_index s)) [
  | inr (curr, e) ↦ rw (e, yield_cpu) (switch_from-IsSound s curr v e)
  | inl e ↦ elim (Option-cases (find_ready s.tasks 0 0 max_tasks)) [
    | inl q ↦ rw (e, q, yield_cpu) v
    | inr (next, q) ↦
        let (_, r, _) = find_ready-some s.tasks 0 next (omega arith) q in
        let (t, at, _) = ready_at_task s.tasks next r in
        rw (e, q, yield_cpu) (run_task-IsSound s none next t (current_index-none s v e) at).0
  ]
]

-- A preemption by the timer that is not deferred keeps the invariant: at most the current task runs.
pub preempt_reschedule-IsSound :
    (lock_free : Bool) (s : Scheduler) {after : Scheduler × Option Switch}
    → IsSound s
    → preempt_reschedule lock_free s ≡ some after
    → IsSound after.0
unfolding preempt_reschedule
preempt_reschedule-IsSound false s v e = cc
preempt_reschedule-IsSound true s {after} v e = elim (Option-cases (current_index s)) [
  | inl q ↦ let p : after ≡ (s, none) = ground arith in rw p v
  | inr (curr, q) ↦
      let p : after ≡ switch_from s curr = ground arith in rw p (switch_from-IsSound s curr v q)
]

-- A write to a task that keeps its id, and makes it run only if it ran, keeps the invariant.
pub update_task-IsSound :
    (s : Scheduler) (i : TaskId) (f : Task → Task)
    → ((t : Task) → (f t).id ≡ t.id)
    → ((t : Task) → is_running (f t).state ≡ true → is_running t.state ≡ true)
    → IsSound s
    → IsSound (update_task s i f)
update_task-IsSound s i f keep runs v = elim (Option-cases (get_task s i)) [
  | inl e ↦ rw (update_task_missing s i f e) v
  | inr (t, e) ↦
      let (at, _, _) = get_task_found s i e in
      rw (update_task_found s i f e) (record {
        indexed = set-IsIndexed s i (f t) v.indexed (keep t ∙ v.indexed.id_is i t at);
        single = λ j u q r. elim (slot_after s.tasks i j (f t) u q) [
          | inl (p, w) ↦ v.single j t (rw p at) (runs t (rw (← w) r))
          | inr (_, w) ↦ v.single j u w r
        ];
      })
]
