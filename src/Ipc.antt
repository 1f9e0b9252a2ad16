-- ===== src/Ipc.antt =====
-- kernel/process/ipc.rs, the operations: blocking and asynchronous send and receive over the
-- scheduler's tasks. A blocking call gives up the processor: what the rest of the system does until
-- it is resumed is an argument, one function for each wait, and a call that still waits when these
-- are used up has no result. The statics' locks are taken and released within a step.
pub mod Authority
pub mod Delivery
pub mod Receive
mod Tests
use runix_os.Prelude.{
  ℕ, zero, suc, ◌-◌, ◌+◌, Bool, true, false, Option, none, some, List, [], ◌∷◌, ◌++◌, ◌==◌,
  if◌then◌else◌, ltb, length, replicate, add_word,
}
use runix_os.Capability.{TaskId, Resource, serial, ipc_channel, Capability, get}
use runix_os.Message.{
  IpcTag, Message, MessageQueue, IpcError, no_capability, target_gone, payload_too_large,
  invalid_tag, bad_version, no_context, queue_full, no_message, from_u16, enqueue, dequeue, as_u16,
  raw,
}
use runix_os.Task.{
  Task, TaskState, Scheduler, ready, running, blocked_on_receive, blocked_on_send, is_terminated,
  is_blocked_on_receive, is_blocked_on_send, get_task, update_task,
}
use runix_os.Sched.{yield_cpu}
use runix_os.Kernel.{Preempt, Kernel}
use runix_os.Preempt.{enter_critical, exit_critical, enter_window, drop_window}

pub data Result (A : Type 0) : Type 0 where
  ok : A → Result A
  err : IpcError → Result A

infixl 5 ◌>>=◌
abbrev pub ◌>>=◌ : {A B : Type 0} → Result A → (A → Result B) → Result B
ok a >>= f = f a
err e >>= f = err e

-- `Option::ok_or`
abbrev pub ok_or : {A : Type 0} → Option A → IpcError → Result A
ok_or none e = err e
ok_or (some a) e = ok a

-- `match cap.resource { IpcChannel { target_task } => Ok(target_task), _ => Err(NoCapability) }`
abbrev pub channel_target : Resource → Result TaskId
channel_target (ipc_channel target) = ok target
channel_target _ = err no_capability

unfoldable pub resolve_target_locked : Scheduler → TaskId → ℕ → Result TaskId
resolve_target_locked sched current cap_idx = do
  task ← ok_or (get_task sched current) no_context
  cap ← ok_or (get task.cap_table cap_idx) no_capability
  channel_target cap.resource

-- The checks that both sends make before they touch shared state.
unfoldable pub validate : List ℕ → ℕ → ℕ → Result IpcTag
validate payload tag version = if ltb 128 (length payload) then err payload_too_large else (do
  t ← ok_or (from_u16 tag) invalid_tag
  if version == 0xFFFF then err bad_version else ok t)

-- The envelope: the kernel names the sender and pads the payload to 128 bytes.
abbrev pub message : TaskId → IpcTag → ℕ → List ℕ → Message
message current tag version payload = record {
  sender = current;
  tag = tag;
  version = version;
  payload = payload ++ replicate (128 - length payload) 0;
  len = length payload;
}

-- How one validate-and-use attempt ends: `SendStep`, or the early return of an error.
pub data Attempt : Type 0 where
  failed : IpcError → Attempt
  delivered gone blocked : Attempt

abbrev pub deposit : Message → Task → Task
deposit msg t = record t { state = ready; ipc_buffer = some msg }

abbrev pub park : TaskId → Message → Task → Task
park target msg t = record t { state = blocked_on_send target; ipc_buffer = some msg }

abbrev pub clear_buffer : Task → Task
clear_buffer t = record t { ipc_buffer = none }

-- The body of the region, with the window open.
unfoldable pub attempt : Kernel → TaskId → ℕ → Message → Kernel × Attempt
attempt k current cap_idx msg = elim (resolve_target_locked k.sched current cap_idx) [
  | err e ↦ (record k { sched = update_task k.sched current clear_buffer }, failed e)
  | ok target ↦ elim (get_task k.sched target) [
    | none ↦ (k, gone)
    | some t ↦
        if is_terminated t.state
        then (k, gone)
        else if is_blocked_on_receive t.state
        then (
          record k {
            sched = update_task k.sched target (deposit msg);
            ipc_deliveries = add_word k.ipc_deliveries 1;
          },
          delivered,
        )
        else (record k { sched = update_task k.sched current (park target msg) }, blocked)
  ]
]

-- The region: `CriticalWindow::enter()`, the body, and the guard's drop on every path.
unfoldable pub send_attempt : Kernel → TaskId → ℕ → Message → Kernel × Attempt
unfolding attempt
send_attempt k current cap_idx msg =
    let (k', out) = attempt (record k { preempt = enter_window k.preempt }) current cap_idx msg in
    (record k' { preempt = drop_window k'.preempt }, out)

-- The kernel at the return of `yield_cpu`: the switch, then what `env` stands for.
abbrev pub wait : (Kernel → Kernel) → Kernel → Kernel
wait env k = env (record k { sched = (yield_cpu k.sched).0 })

-- The outcome of an attempt that does not wait.
abbrev pub finish : TaskId → Kernel → Attempt → Option (Result (Unit {0}) × Kernel)
finish current k (failed e) = some (err e, k)
finish current k delivered = some (ok tt, k)
finish current k gone =
    some (err target_gone, record k { sched = update_task k.sched current clear_buffer })
finish current k blocked = none

-- A resumed sender: gone itself, served (its parked message is taken), or to try again.
abbrev pub resume {ℓ} : {A : Type ℓ} → Option Task → A → A → A → A
resume none lost served again = lost
resume (some t) lost served again = elim t.ipc_buffer [ none ↦ served | some _ ↦ again ]

unfoldable pub send_loop :
    List (Kernel → Kernel) → Kernel → TaskId → ℕ → Message → Option (Result (Unit {0}) × Kernel)
send_loop [] k current cap_idx msg =
    let (k', out) = send_attempt k current cap_idx msg in finish current k' out
send_loop (env ∷ envs) k current cap_idx msg =
    let (k', out) = send_attempt k current cap_idx msg in
    let k'' = wait env k' in
    let again = send_loop envs k'' current cap_idx msg in
    elim out [
      | blocked ↦
          resume (get_task k''.sched current) (some (err target_gone, k'')) (some (ok tt, k''))
            again
      | failed e ↦ finish current k' (failed e)
      | delivered ↦ finish current k' delivered
      | gone ↦ finish current k' gone
    ]

unfoldable pub sys_send_typed :
    List (Kernel → Kernel) → Kernel → ℕ → ℕ → ℕ → List ℕ → Option (Result (Unit {0}) × Kernel)
sys_send_typed envs k cap_idx tag version payload = elim (validate payload tag version) [
  | err e ↦ some (err e, k)
  | ok t ↦ elim k.sched.current_task_id [
    | none ↦ some (err no_context, k)
    | some current ↦ send_loop envs k current cap_idx (message current t version payload)
  ]
]

-- The legacy send: tag `Raw`, version 0, and any error is `Err(())`.
unfoldable pub sys_send : List (Kernel → Kernel) → Kernel → ℕ → List ℕ → Option (Bool × Kernel)
sys_send envs k cap_idx payload = elim (sys_send_typed envs k cap_idx (as_u16 raw) 0 payload) [
  | none ↦ none
  | some (ok _, k') ↦ some (true, k')
  | some (err _, k') ↦ some (false, k')
]

-- The enqueue of the asynchronous send, under the held lock.
unfoldable pub post : Kernel → TaskId → ℕ → Message → Result (Unit {0}) × Kernel
post k current cap_idx msg = elim (resolve_target_locked k.sched current cap_idx) [
  | err e ↦ (err e, k)
  | ok target ↦ elim (get_task k.sched target) [
    | none ↦ (err target_gone, k)
    | some t ↦
        if is_terminated t.state then (err target_gone, k) else (elim (enqueue t.msg_queue msg).0 [
          | false ↦ (err queue_full, k)
          | true ↦ (
            ok tt,
            record k {
              sched = update_task k.sched target (λ t. record t {
                msg_queue = (enqueue t.msg_queue msg).1;
                state = if is_blocked_on_receive t.state then ready else t.state;
              });
              ipc_deliveries = add_word k.ipc_deliveries 1;
            },
          )
        ])
  ]
]

unfoldable pub sys_send_async : Kernel → ℕ → ℕ → ℕ → List ℕ → Result (Unit {0}) × Kernel
sys_send_async k cap_idx tag version payload = elim (validate payload tag version) [
  | err e ↦ (err e, k)
  | ok t ↦ elim k.sched.current_task_id [
    | none ↦ (err no_context, k)
    | some current ↦
        let (r, k') =
          post (record k { preempt = enter_critical k.preempt }) current cap_idx
            (message current t version payload) in
        (r, record k' { preempt = exit_critical k'.preempt })
  ]
]

-- The lowest slot with a task that is blocked sending to `current`: its id.
unfoldable pub find_sender : List (Option Task) → TaskId → Option TaskId
find_sender [] current = none
find_sender (none ∷ tasks) current = find_sender tasks current
find_sender (some t ∷ tasks) current =
    if is_blocked_on_send current t.state then some t.id else find_sender tasks current

-- Step 3 of both receives: a rendezvous with a blocked sender.
unfoldable pub rendezvous : Kernel → TaskId → Option (Result Message × Kernel)
unfolding find_sender
rendezvous k current = elim (find_sender k.sched.tasks current) [
  | none ↦ none
  | some sender_id ↦
      let msg : Option Message = elim (get_task k.sched sender_id) [
        | none ↦ none
        | some t ↦ t.ipc_buffer
      ] in
      let s = update_task k.sched sender_id (λ t. record t { ipc_buffer = none; state = ready }) in
      let s' = update_task s current (λ t. record t { state = running }) in
      let deliveries : ℕ = elim msg [
        | none ↦ k.ipc_deliveries
        | some _ ↦ add_word k.ipc_deliveries 1
      ] in
      some (ok_or msg target_gone, record k { sched = s'; ipc_deliveries = deliveries })
]

-- Steps 1 to 3 of both receives: the queue, the buffer, then a blocked sender.
unfoldable pub poll : Kernel → TaskId → Option (Result Message × Kernel)
unfolding rendezvous
poll k current = elim (get_task k.sched current) [
  | none ↦ rendezvous k current
  | some r ↦
      let k' = record k {
        sched = update_task k.sched current (λ t. record t { msg_queue = (dequeue t.msg_queue).1 });
      } in
      elim (dequeue r.msg_queue).0 [
        | some msg ↦ some (ok msg, k')
        | none ↦ elim r.ipc_buffer [
          | some msg ↦
              some (ok msg, record k' { sched = update_task k'.sched current clear_buffer })
          | none ↦ rendezvous k' current
        ]
      ]
]

-- A poll that finds nothing has still run `dequeue`: the kernel that it leaves.
abbrev pub after_poll : Kernel → TaskId → Kernel
after_poll k current = record k {
  sched = update_task k.sched current (λ t. record t { msg_queue = (dequeue t.msg_queue).1 });
}

unfoldable pub sys_receive_async : Kernel → Result Message × Kernel
unfolding poll
sys_receive_async k = elim k.sched.current_task_id [
  | none ↦ (err no_context, k)
  | some current ↦ elim (poll k current) [
    | some r ↦ r
    | none ↦ (err no_message, after_poll k current)
  ]
]

abbrev pub block_on_receive : Task → Task
block_on_receive t = record t { state = blocked_on_receive }

unfoldable pub receive_loop :
    List (Kernel → Kernel) → Kernel → TaskId → Option (Result Message × Kernel)
unfolding poll
receive_loop [] k current = poll k current
receive_loop (env ∷ envs) k current =
    let k' = after_poll k current in
    let k'' = record k' { sched = update_task k'.sched current block_on_receive } in
    let again = receive_loop envs (wait env k'') current in
    elim (poll k current) [ some r ↦ some r | none ↦ again ]

unfoldable pub sys_receive_typed :
    List (Kernel → Kernel) → Kernel → Option (Result Message × Kernel)
unfolding receive_loop
sys_receive_typed envs k = elim k.sched.current_task_id [
  | none ↦ some (err no_context, k)
  | some current ↦ receive_loop envs k current
]
