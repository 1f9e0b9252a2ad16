-- ===== src/Ipc/Authority.antt =====
-- The validate-and-use region of the blocking send: what each attempt does, and with what
-- authority.
use runix_os.Prelude.{
  ℕ, ◌<◌, ◌≡◌, ◌≢◌, ◌⊎◌, inl, inr, refl, sym, ◌∙◌, true, false, none, some, List, [], ◌∷◌, arith,
  add_word, word_max, Option-cases, Bool-cases,
}
use runix_os.Capability.{TaskId, get}
use runix_os.Message.{Message, IpcError, no_capability}
use runix_os.Task.{
  Task, TaskState, Scheduler, get_task, update_task, is_blocked_on_receive, blocked_on_receive,
  is_terminated, terminated, ready, blocked_on_send,
}
use runix_os.Task.Lookup.{get_task-update_task, update_task_missing}
use runix_os.Kernel.{Preempt, Kernel}
use runix_os.Preempt.{enter_window, drop_window}
use runix_os.Preempt.Window.{drop-enter_window}
use runix_os.Ipc.{
  Result, ok, err, Attempt, failed, delivered, gone, blocked, deposit, park, clear_buffer,
  resolve_target_locked, attempt, send_attempt, wait, send_loop,
}

-- Lookups of the tasks that a write does not name.
pub others_kept :
    (s : Scheduler) (i j : TaskId) (f : Task → Task)
    → ((t : Task) → (f t).id ≡ t.id)
    → i ≢ j
    → get_task (update_task s i f) j ≡ get_task s j
others_kept s i j f keep ne = elim (Option-cases (get_task s i)) [
  | inl e ↦ rw (update_task_missing s i f e)
  | inr (t, e) ↦ ground (arith, get_task-update_task s i j f t e (keep t))
]

-- What an attempt did, by its outcome.
abbrev pub Outcome : Kernel → TaskId → ℕ → Message → Kernel → Attempt → Type 0
Outcome k current cap_idx msg k' (failed e) =
    (resolve_target_locked k.sched current cap_idx ≡ err e)
    × ((s : Task)
        → get_task k.sched current ≡ some s
        → get_task k'.sched current ≡ some (record s { ipc_buffer = none }))
    × ((j : TaskId) → current ≢ j → get_task k'.sched j ≡ get_task k.sched j)
    × (k'.ipc_deliveries ≡ k.ipc_deliveries)
Outcome k current cap_idx msg k' delivered =
    (target : TaskId) × (t : Task) × (resolve_target_locked k.sched current cap_idx ≡ ok target)
    × (get_task k.sched target ≡ some t)
    × (t.state ≡ blocked_on_receive)
    × (get_task k'.sched target ≡ some (record t { state = ready; ipc_buffer = some msg }))
    × ((j : TaskId) → target ≢ j → get_task k'.sched j ≡ get_task k.sched j)
    × (k'.ipc_deliveries ≡ add_word k.ipc_deliveries 1)
Outcome k current cap_idx msg k' gone =
    (target : TaskId) × (resolve_target_locked k.sched current cap_idx ≡ ok target)
    × ((t : Task) → get_task k.sched target ≡ some t → t.state ≡ terminated)
    × (k'.sched ≡ k.sched)
    × (k'.ipc_deliveries ≡ k.ipc_deliveries)
Outcome k current cap_idx msg k' blocked =
    (target : TaskId) × (t : Task) × (resolve_target_locked k.sched current cap_idx ≡ ok target)
    × (get_task k.sched target ≡ some t)
    × (t.state ≢ terminated)
    × (t.state ≢ blocked_on_receive)
    × ((s : Task)
        → get_task k.sched current ≡ some s
        → get_task k'.sched current
          ≡ some (record s { state = blocked_on_send target; ipc_buffer = some msg }))
    × ((j : TaskId) → current ≢ j → get_task k'.sched j ≡ get_task k.sched j)
    × (k'.ipc_deliveries ≡ k.ipc_deliveries)

pub Result-cases :
    {A : Type 0} (r : Result A) → ((a : A) × (r ≡ ok a)) ⊎ ((e : IpcError) × (r ≡ err e))
Result-cases (ok a) = inl (a, refl)
Result-cases (err e) = inr (e, refl)

waiting_state : (s : TaskState) → is_blocked_on_receive s ≡ true → s ≡ blocked_on_receive
waiting_state s e = ground arith

dead_state : (s : TaskState) → is_terminated s ≡ true → s ≡ terminated
dead_state s e = ground arith

same_state : (t u : Task) → t.state ≡ terminated → some t ≡ some u → u.state ≡ terminated
same_state t u e h = ground arith

alive_state : (s : TaskState) → is_terminated s ≡ false → s ≢ terminated
alive_state s e h = ground arith

idle_state : (s : TaskState) → is_blocked_on_receive s ≡ false → s ≢ blocked_on_receive
idle_state s e h = ground arith

-- The attempt under a valid capability, by the target's state.
attempt_valid :
    (k : Kernel) (current : TaskId) (cap_idx : ℕ) (msg : Message) (target : TaskId)
    → resolve_target_locked k.sched current cap_idx ≡ ok target
    → Outcome k current cap_idx msg
        (attempt k current cap_idx msg).0
        (attempt k current cap_idx msg).1
unfolding attempt
attempt_valid k current cap_idx msg target e = elim (Option-cases (get_task k.sched target)) [
  | inl q ↦ rw (e, q, attempt) (target, e, λ t h. cc, refl, refl)
  | inr (t, q) ↦ elim (Bool-cases (is_terminated t.state)) [
    | inl d ↦
        let ended = dead_state t.state d in
        rw (e, q, attempt, d) (target, e, λ u h. same_state t u ended (sym q ∙ h), refl, refl)
    | inr d ↦ elim (Bool-cases (is_blocked_on_receive t.state)) [
      | inl w ↦
          rw (e, q, attempt, d, w)
            (
              target,
              t,
              e,
              q,
              waiting_state t.state w,
              ground (arith, get_task-update_task k.sched target target (deposit msg) t q refl),
              λ j ne. others_kept k.sched target j (deposit msg) (λ t. refl) ne,
              refl,
            )
      | inr w ↦
          rw (e, q, attempt, d, w)
            (
              target,
              t,
              e,
              q,
              alive_state t.state d,
              idle_state t.state w,
              λ s h.
                  ground (
                    arith,
                    get_task-update_task k.sched current current (park target msg) s h refl,
                  ),
              λ j ne. others_kept k.sched current j (park target msg) (λ t. refl) ne,
              refl,
            )
    ]
  ]
]

attempt-Outcome :
    (k : Kernel) (current : TaskId) (cap_idx : ℕ) (msg : Message)
    → Outcome k current cap_idx msg
        (attempt k current cap_idx msg).0
        (attempt k current cap_idx msg).1
unfolding attempt
attempt-Outcome k current cap_idx msg =
    elim (Result-cases (resolve_target_locked k.sched current cap_idx)) [
      | inl (target, e) ↦ attempt_valid k current cap_idx msg target e
      | inr (bad, e) ↦
          rw (e, attempt)
            (
              e,
              λ s h.
                  ground
                    (arith, get_task-update_task k.sched current current clear_buffer s h refl),
              λ j ne. others_kept k.sched current j clear_buffer (λ t. refl) ne,
              refl,
            )
    ]

-- The preemption state plays no part in an outcome.
Outcome-drop :
    (k k' : Kernel) (p q : Preempt) (current : TaskId) (cap_idx : ℕ) (msg : Message) (out : Attempt)
    → Outcome (record k { preempt = p }) current cap_idx msg k' out
    → Outcome k current cap_idx msg (record k' { preempt = q }) out
Outcome-drop k k' p q current cap_idx msg (failed e) h = h
Outcome-drop k k' p q current cap_idx msg delivered h = h
Outcome-drop k k' p q current cap_idx msg gone h = h
Outcome-drop k k' p q current cap_idx msg blocked h = h

-- Every attempt of a blocking send, in one step: it fails exactly by the error of its capability,
-- and then discards what it had parked and touches no other task; it delivers only under a
-- capability that names the target at that instant, to a target that waits, which gets the message
-- and is made ready together, no other task being touched; it gives up only on a target that is
-- missing or terminated, and changes no task; and it parks the message only for a target that is
-- there, not terminated and not waiting: the sender holds the message, blocked on that target, and
-- no other task is touched.
pub send_attempt-Outcome :
    (k : Kernel) (current : TaskId) (cap_idx : ℕ) (msg : Message)
    → let (k', out) = send_attempt k current cap_idx msg in Outcome k current cap_idx msg k' out
unfolding send_attempt
send_attempt-Outcome k current cap_idx msg =
    let k1 : Kernel = record k { preempt = enter_window k.preempt } in
    Outcome-drop k (attempt k1 current cap_idx msg).0 k1.preempt
      (drop_window (attempt k1 current cap_idx msg).0.preempt) current cap_idx msg
      (attempt k1 current cap_idx msg).1 (attempt-Outcome k1 current cap_idx msg)

attempt-preempt :
    (k : Kernel) (current : TaskId) (cap_idx : ℕ) (msg : Message)
    → (attempt k current cap_idx msg).0.preempt ≡ k.preempt
unfolding attempt
attempt-preempt k current cap_idx msg = ground arith

-- The region is closed again on every path, the early return of a failed validation included: if
-- no window was open and the count has room, the preemption state after the attempt is the one
-- before it.
pub send_attempt-preempt :
    (k : Kernel) (current : TaskId) (cap_idx : ℕ) (msg : Message)
    → k.preempt.preempt_count < word_max
    → k.preempt.in_ipc_window ≡ false
    → (send_attempt k current cap_idx msg).0.preempt ≡ k.preempt
unfolding send_attempt
send_attempt-preempt k current cap_idx msg lt w =
    rw (attempt-preempt (record k { preempt = enter_window k.preempt }) current cap_idx msg)
      (drop-enter_window k.preempt lt w).0

-- An attempt with an invalid capability.
send_attempt_invalid :
    (k : Kernel) (current : TaskId) (cap_idx : ℕ) (msg : Message) (e : IpcError)
    → resolve_target_locked k.sched current cap_idx ≡ err e
    → ((send_attempt k current cap_idx msg).1 ≡ failed e)
      × ((send_attempt k current cap_idx msg).0.sched ≡ update_task k.sched current clear_buffer)
      × ((send_attempt k current cap_idx msg).0.ipc_deliveries ≡ k.ipc_deliveries)
unfolding send_attempt
send_attempt_invalid k current cap_idx msg e q = rw (q, send_attempt, attempt) (refl, refl, refl)

send_loop_failed :
    (envs : List (Kernel → Kernel)) (k : Kernel) (current : TaskId) (cap_idx : ℕ) (msg : Message)
    (e : IpcError)
    → (send_attempt k current cap_idx msg).1 ≡ failed e
    → send_loop envs k current cap_idx msg ≡ some (err e, (send_attempt k current cap_idx msg).0)
unfolding send_loop
send_loop_failed [] k current cap_idx msg e q = rw (q, send_loop)
send_loop_failed (env ∷ envs) k current cap_idx msg e q = rw (q, send_loop)

-- A capability revoked while its sender was blocked is caught: if the sender wakes with its message
-- still parked and its slot empty, the send ends with `NoCapability`, the parked message is
-- discarded, no other task is touched and nothing counts as delivered.
pub send_loop_revoked :
    (env : Kernel → Kernel) (envs : List (Kernel → Kernel)) (k : Kernel) (current : TaskId)
    (cap_idx : ℕ) (msg m : Message) (t : Task)
    → (send_attempt k current cap_idx msg).1 ≡ blocked
    → let k'' = wait env (send_attempt k current cap_idx msg).0 in
      get_task k''.sched current ≡ some t
      → t.ipc_buffer ≡ some m
      → get t.cap_table cap_idx ≡ none
      → (k' : Kernel) × (send_loop (env ∷ envs) k current cap_idx msg
          ≡ some (err no_capability, k'))
        × (get_task k'.sched current ≡ some (record t { ipc_buffer = none }))
        × ((j : TaskId) → current ≢ j → get_task k'.sched j ≡ get_task k''.sched j)
        × (k'.ipc_deliveries ≡ k''.ipc_deliveries)
unfolding send_loop
send_loop_revoked env envs k current cap_idx msg m t b e p r =
    let k1 = wait env (send_attempt k current cap_idx msg).0 in
    let bad : resolve_target_locked k1.sched current cap_idx ≡ err no_capability =
      unfold resolve_target_locked in (rw (e, r, resolve_target_locked)) in
    let out = send_attempt_invalid k1 current cap_idx msg no_capability bad in
    (
      (send_attempt k1 current cap_idx msg).0,
      rw (b, send_loop, e, p) (send_loop_failed envs k1 current cap_idx msg no_capability out.0),
      rw (out.1)
          (ground (arith, get_task-update_task k1.sched current current clear_buffer t e refl)),
      λ j ne. rw (out.1) (others_kept k1.sched current j clear_buffer (λ t. refl) ne),
      out.2,
    )
