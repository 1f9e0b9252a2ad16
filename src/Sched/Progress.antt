-- ===== src/Sched/Progress.antt =====
-- Round-robin fairness: a ready task is reached before the round is over.
use runix_os.Prelude.{
  ℕ, ◌+◌, ◌-◌, ◌%◌, ◌≤◌, ◌<◌, ◌≡◌, ◌≢◌, ◌∙◌, ◌⊎◌, inl, inr, true, Bool, ap, some, arith, slot_at,
  Option-cases, ℕ_discrete, ◌==◌,
}
use runix_os.Capability.Table.{slot_at-some_lt}
use runix_os.Task.{Task, Scheduler, max_tasks, is_ready}
use runix_os.Sched.{ready_at, find_ready, current_index, switch_from, yield_cpu}
use runix_os.Sched.Select.{find_ready-none, find_ready-some, offset_of}
use runix_os.Sched.Invariant.{IsSound, current_index-some, switch_from_pick}

-- The slots strictly between task `c` and task `j`, going up and round.
abbrev pub distance : ℕ → ℕ → ℕ
distance c j = (j + max_tasks - c - 1) % max_tasks

closer :
    (c n j : ℕ)
    → c < max_tasks
    → n < max_tasks
    → j < max_tasks
    → n ≢ c
    → n ≢ j
    → offset_of ((c + 1) % max_tasks) n ≤ offset_of ((c + 1) % max_tasks) j
    → distance n j < distance c j
closer c n j hc hn hj nc nj le = omega arith

-- Only the whole way round leads back to `c`.
wrapped :
    (c n j : ℕ)
    → c < max_tasks
    → j < max_tasks
    → n ≡ c
    → offset_of ((c + 1) % max_tasks) n ≤ offset_of ((c + 1) % max_tasks) j
    → j ≡ c
wrapped c n j hc hj e le = omega arith

-- When the current task yields while another task `j` is ready, either `j` is the next to run, or
-- the next one stands strictly closer to `j` in the round: no ready task is passed over.
pub yield_cpu_progress :
    (s : Scheduler) (c j : ℕ) (t : Task)
    → IsSound s
    → current_index s ≡ some c
    → slot_at s.tasks j ≡ some t
    → is_ready t.state ≡ true
    → j ≢ c
    → let s' = (yield_cpu s).0 in
      (s'.current_task_id ≡ some j)
      ⊎ ((n : ℕ) × (s'.current_task_id ≡ some n) × (distance n j < distance c j))
unfolding yield_cpu
yield_cpu_progress s c j t v e at r ne =
    let (cur, lt, (u, here)) = current_index-some s c e in
    let hj : j < max_tasks = omega (arith, v.indexed.slots, slot_at-some_lt s.tasks j at) in
    let rj : ready_at s.tasks j ≡ true = ground arith in
    elim (Option-cases (find_ready s.tasks ((c + 1) % max_tasks) 0 max_tasks)) [
      | inl q ↦
          let off = find_ready-none s.tasks ((c + 1) % max_tasks) (omega arith) q j hj in
          absurd (ground arith)
      | inr (next, q) ↦
          let (ln, rn, first) =
            find_ready-some s.tasks ((c + 1) % max_tasks) next (omega arith) q in
          elim (ℕ_discrete next c) [
            | yes p ↦ let last = first j hj rj in absurd (ne (wrapped c next j lt hj p last))
            | no nc ↦
                let b : (next == c) ≡ Bool.false = ground arith in
                let (_, cur') = switch_from_pick s c next u v cur here rn nc in
                elim (ℕ_discrete next j) [
                  | yes p ↦ rw (e, yield_cpu, q, switch_from, b) (inl (cur' ∙ ap some p))
                  | no nj ↦
                      rw (e, yield_cpu, q, switch_from, b)
                        (inr (next, cur', closer c next j lt ln hj nc nj (first j hj rj)))
                ]
          ]
    ]
