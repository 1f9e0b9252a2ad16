-- ===== src/Ipc/Delivery.antt =====
-- The asynchronous send: what it enqueues, and under what authority.
use runix_os.Prelude.{
  ℕ, ◌≤◌, ◌<◌, ◌≡◌, ◌≢◌, ◌↔◌, inl, inr, true, false, some, List, arith, add_word, word_max, length,
  Option-cases, if◌then◌else◌,
}
use runix_os.Capability.{TaskId, Capability, ipc_channel, get}
use runix_os.Message.{IpcTag, Message, IpcError, enqueue, from_u16}
use runix_os.Task.{Task, Scheduler, get_task, is_blocked_on_receive, ready, is_terminated}
use runix_os.Kernel.{Preempt, Kernel}
use runix_os.Preempt.{enter_critical, exit_critical}
use runix_os.Ipc.{ok, err, message, resolve_target_locked, validate, post, sys_send_async}
use runix_os.Ipc.Authority.{Result-cases}

-- A send is authorised when the sender's slot holds a channel to the target.
pub record Authorised (s : Scheduler) (sender : TaskId) (cap_idx : ℕ) (target : TaskId)
    : Type 0 where
  pub task : Task
  pub cap : Capability
  pub found : get_task s sender ≡ some task
  pub held : get task.cap_table cap_idx ≡ some cap
  pub channel : cap.resource ≡ ipc_channel target

pub resolve_ok :
    (s : Scheduler) (current : TaskId) (cap_idx : ℕ) (target : TaskId)
    → resolve_target_locked s current cap_idx ≡ ok target
    → Authorised s current cap_idx target
unfolding resolve_target_locked
resolve_ok s current cap_idx target e = elim (Option-cases (get_task s current)) [
  | inl q ↦ absurd (ground arith)
  | inr (t, q) ↦ elim (Option-cases (get t.cap_table cap_idx)) [
    | inl h ↦ absurd (ground arith)
    | inr (c, h) ↦ record { task = t; cap = c; found = q; held = h; channel = ground arith }
  ]
]

pub resolve_Authorised :
    (s : Scheduler) (current : TaskId) (cap_idx : ℕ) (target : TaskId)
    → Authorised s current cap_idx target
    → resolve_target_locked s current cap_idx ≡ ok target
unfolding resolve_target_locked
resolve_Authorised s current cap_idx target a =
    rw (a.found, resolve_target_locked, a.held, a.channel)

-- A target after a message was enqueued for it.
abbrev pub enqueued : Message → Task → Task
enqueued msg t = record t {
  msg_queue = (enqueue t.msg_queue msg).1;
  state = if is_blocked_on_receive t.state then ready else t.state;
}

pub record Posted (k : Kernel) (sender : TaskId) (cap_idx : ℕ) (msg : Message) (k' : Kernel)
    : Type 0 where
  pub target : TaskId
  pub task : Task
  pub authority : Authorised k.sched sender cap_idx target
  pub found : get_task k.sched target ≡ some task
  pub alive : is_terminated task.state ≡ false
  pub accepted : (enqueue task.msg_queue msg).0 ≡ true
  pub stored : get_task k'.sched target ≡ some (enqueued msg task)
  pub others : (j : TaskId) → target ≢ j → get_task k'.sched j ≡ get_task k.sched j
  pub counted : k'.ipc_deliveries ≡ add_word k.ipc_deliveries 1

post_err :
    (k : Kernel) (current : TaskId) (cap_idx : ℕ) (msg : Message) (bad : IpcError)
    → (post k current cap_idx msg).0 ≡ err bad
    → (post k current cap_idx msg).1 ≡ k
unfolding post
post_err k current cap_idx msg bad e = ground arith

-- What the checks before a send accept.
pub validate_ok :
    (payload : List ℕ) (tag version : ℕ) (t : IpcTag)
    → (validate payload tag version ≡ ok t)
      ↔ ((length payload ≤ 128) × (from_u16 tag ≡ some t) × (version ≢ 0xFFFF))
unfolding validate
validate_ok payload tag version t =
    (λ e. (ground arith, ground arith, λ q. ground arith), λ h. ground arith)

-- The call past its checks.
sys_send_async_posts :
    (k : Kernel) (cap_idx tag version : ℕ) (payload : List ℕ) (t : IpcTag) (current : TaskId)
    → validate payload tag version ≡ ok t
    → k.sched.current_task_id ≡ some current
    → sys_send_async k cap_idx tag version payload ≡ (
        let (r, k') =
          post
            (record k { preempt = enter_critical k.preempt })
            current
            cap_idx
            (message current t version payload) in
        (r, record k' { preempt = exit_critical k'.preempt }))
unfolding sys_send_async
sys_send_async_posts k cap_idx tag version payload t current q c = simp (q, c, sys_send_async)

-- A refused asynchronous send changes nothing: the region around it is undone, if the count has
-- room.
pub sys_send_async_err :
    (k : Kernel) (cap_idx tag version : ℕ) (payload : List ℕ) (bad : IpcError)
    → k.preempt.preempt_count < word_max
    → (sys_send_async k cap_idx tag version payload).0 ≡ err bad
    → (sys_send_async k cap_idx tag version payload).1 ≡ k
unfolding sys_send_async
sys_send_async_err k cap_idx tag version payload bad lt e =
    elim (Result-cases (validate payload tag version)) [
      | inr (b, q) ↦ rw (q, sys_send_async)
      | inl (t, q) ↦ elim (Option-cases k.sched.current_task_id) [
        | inl c ↦ simp (q, c, sys_send_async)
        | inr (current, c) ↦
            let k1 : Kernel = record k { preempt = enter_critical k.preempt } in
            let fail : (post k1 current cap_idx (message current t version payload)).0 ≡ err bad =
              ground arith in
            rw
              (
                sys_send_async_posts k cap_idx tag version payload t current q c,
                post_err k1 current cap_idx (message current t version payload) bad fail,
              )
              (ground arith)
      ]
    ]
