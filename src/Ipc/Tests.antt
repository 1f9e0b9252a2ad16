-- ===== src/Ipc/Tests.antt =====
-- A message from task 0 to task 1.
use runix_os.Prelude.{ℕ, ◌≡◌, ◌≢◌, ◌<◌, refl, arith, some, none, List, [], ◌∷◌, replicate}
use runix_os.Capability.{kernel_revoke, get}
use runix_os.Message.{
  Message, log, enqueue, from_u16, no_capability, new as no_messages, msg_queue_capacity,
}
use runix_os.Message.Queue.{Stores, new-Stores}
use runix_os.Task.{Task, get_task, update_task, blocked_on_send}
use runix_os.Kernel.{Kernel}
use runix_os.Preempt.{new as quiet}
use runix_os.Ipc.{
  ok, err, blocked, message, send_attempt, send_loop, wait, sys_send_async, poll,
  resolve_target_locked, validate, post,
}
use runix_os.Ipc.Authority.{others_kept, Outcome, send_attempt-Outcome, send_loop_revoked}
use runix_os.Ipc.Delivery.{Posted, enqueued, sys_send_async_err}
use runix_os.Ipc.Receive.{dequeued, poll-Posted}
use runix_os.Samples.{waiting, contended, kernel_of, sender, receiver, channel}

abbrev greeting : Message
greeting = message 0 log 1 (104 ∷ [])

send_attempt-Outcome_example :
    Outcome waiting 0 0 greeting
      (send_attempt waiting 0 0 greeting).0
      (send_attempt waiting 0 0 greeting).1
send_attempt-Outcome_example = send_attempt-Outcome waiting 0 0 greeting

abbrev busy : Kernel
busy = kernel_of contended quiet

-- While task 0 waits, its capability is revoked.
abbrev revoking : Kernel → Kernel
revoking k = record k {
  sched = update_task k.sched 0 (λ t. record t { cap_table = (kernel_revoke t.cap_table 0).1 });
}

abbrev revoked_sender : Task
revoked_sender = record sender {
  state = blocked_on_send 1;
  cap_table = replicate 32 none;
  ipc_buffer = some greeting;
}

first_blocks : (send_attempt busy 0 0 greeting).1 ≡ blocked
unfolding send_attempt get_task get resolve_target_locked
first_blocks = refl

woken : get_task (wait revoking (send_attempt busy 0 0 greeting).0).sched 0 ≡ some revoked_sender
unfolding send_attempt get_task get resolve_target_locked update_task kernel_revoke
    runix_os.Sched.yield_cpu
woken = refl

slot_empty : get revoked_sender.cap_table 0 ≡ none
unfolding get
slot_empty = refl

send_loop_revoked_example :
    let k'' = wait revoking (send_attempt busy 0 0 greeting).0 in
    (k' : Kernel) × (send_loop (revoking ∷ []) busy 0 0 greeting ≡ some (err no_capability, k'))
    × (get_task k'.sched 0 ≡ some (record revoked_sender { ipc_buffer = none }))
    × ((j : ℕ) → 0 ≢ j → get_task k'.sched j ≡ get_task k''.sched j)
    × (k'.ipc_deliveries ≡ k''.ipc_deliveries)
send_loop_revoked_example =
    send_loop_revoked revoking [] busy 0 0 greeting greeting revoked_sender first_blocks woken refl
      slot_empty

refused : (sys_send_async waiting 5 1 1 (104 ∷ [])).0 ≡ err no_capability
unfolding sys_send_async get_task get resolve_target_locked from_u16 validate post
refused = refl

sys_send_async_err_example : (sys_send_async waiting 5 1 1 (104 ∷ [])).1 ≡ waiting
unfolding runix_os.Preempt.new
sys_send_async_err_example =
    sys_send_async_err waiting 5 1 1 (104 ∷ []) no_capability (omega arith) refused

abbrev after_send : Kernel
after_send = record waiting {
  sched = update_task waiting.sched 1 (enqueued greeting);
  ipc_deliveries = 1;
}

posted : Posted waiting 0 0 greeting after_send
unfolding get_task get enqueue no_messages update_task
posted = record {
  target = 1;
  task = receiver;
  authority = record { task = sender; cap = channel; found = refl; held = refl; channel = refl };
  found = refl;
  alive = refl;
  accepted = refl;
  stored = refl;
  others = λ j ne. others_kept waiting.sched 1 j (enqueued greeting) (λ t. refl) ne;
  counted = refl;
}

poll-Posted_example :
    (0 < msg_queue_capacity)
    × (Stores (enqueued greeting receiver).msg_queue (greeting ∷ []))
    × (◌≡◌ {A = List Message} [] []
        → (k'' : Kernel) × (poll after_send 1 ≡ some (ok greeting, k''))
          × (get_task k''.sched 1 ≡ some (dequeued (enqueued greeting receiver)))
          × (Stores (dequeued (enqueued greeting receiver)).msg_queue []))
unfolding posted no_messages
poll-Posted_example = poll-Posted waiting after_send 0 0 greeting [] posted new-Stores
