-- ===== src/Ipc/Receive.antt =====
-- Receiving: the order of the sources, the round trip with an asynchronous send, and what the
-- rendezvous does not check.
use runix_os.Prelude.{
  ℕ, ◌<◌, ◌≡◌, ◌≢◌, inl, inr, refl, true, Option, none, some, List, [], ◌∷◌, ◌++◌, arith,
  Bool-cases, length, slot_at, dec_lt, suc,
}
use runix_os.Capability.{TaskId}
use runix_os.Message.{Message, msg_queue_capacity, dequeue}
use runix_os.Message.Queue.{Stores, enqueue-Stores, dequeue-Stores}
use runix_os.Task.{Task, get_task, update_task, is_blocked_on_send}
use runix_os.Task.Lookup.{get_task-update_task}
use runix_os.Kernel.{Kernel}
use runix_os.Ipc.{ok, poll, find_sender, clear_buffer, after_poll}
use runix_os.Ipc.Authority.{others_kept}
use runix_os.Ipc.Delivery.{Posted, enqueued}

-- The receiver with the rest of its queue.
abbrev pub dequeued : Task → Task
dequeued t = record t { msg_queue = (dequeue t.msg_queue).1 }

-- A queued message is received before anything else: the oldest one, and the rest stays in order.
pub poll_queue :
    (k : Kernel) (current : TaskId) (r : Task) (m : Message) (rest : List Message)
    → get_task k.sched current ≡ some r
    → Stores r.msg_queue (m ∷ rest)
    → (k' : Kernel) × (poll k current ≡ some (ok m, k'))
      × (get_task k'.sched current ≡ some (dequeued r))
      × (Stores (dequeued r).msg_queue rest)
      × ((j : TaskId) → current ≢ j → get_task k'.sched j ≡ get_task k.sched j)
unfolding poll
poll_queue k current r m rest e v =
    let (got, left) = (dequeue-Stores r.msg_queue (m ∷ rest) v).1 m rest refl in
    (
      after_poll k current,
      rw (e, poll, got),
      ground (arith, get_task-update_task k.sched current current dequeued r e refl),
      left,
      λ j ne. others_kept k.sched current j dequeued (λ t. refl) ne,
    )

-- With an empty queue the message that a sender deposited directly is received, and the buffer is
-- free again.
pub poll_buffer :
    (k : Kernel) (current : TaskId) (r : Task) (m : Message)
    → get_task k.sched current ≡ some r
    → Stores r.msg_queue []
    → r.ipc_buffer ≡ some m
    → (k' : Kernel) × (poll k current ≡ some (ok m, k'))
      × (get_task k'.sched current ≡ some (record r { ipc_buffer = none }))
unfolding poll
poll_buffer k current r m e v b =
    let got : dequeue r.msg_queue ≡ (none, r.msg_queue) =
      (dequeue-Stores r.msg_queue [] v).0 refl in
    let step = get_task-update_task k.sched current current dequeued r e refl in
    let k' = after_poll k current in
    let found : get_task k'.sched current ≡ some (dequeued r) = ground (arith, step) in
    (
      record k' { sched = update_task k'.sched current clear_buffer },
      rw (e, poll, got, b),
      ground (
        arith,
        got,
        get_task-update_task k'.sched current current clear_buffer (dequeued r) found refl,
      ),
    )

-- A message that was sent asynchronously to a task with an empty queue is the one that the task
-- receives next, and the queue is empty again; with other messages waiting it is stored after
-- them, in order.
pub poll-Posted :
    (k k' : Kernel) (sender : TaskId) (cap_idx : ℕ) (msg : Message) (ms : List Message)
    → (p : Posted k sender cap_idx msg k') → Stores p.task.msg_queue ms
    → (length ms < msg_queue_capacity)
      × (Stores (enqueued msg p.task).msg_queue (ms ++ (msg ∷ [])))
      × (ms ≡ []
          → (k'' : Kernel) × (poll k' p.target ≡ some (ok msg, k''))
            × (get_task k''.sched p.target ≡ some (dequeued (enqueued msg p.task)))
            × (Stores (dequeued (enqueued msg p.task)).msg_queue []))
poll-Posted k k' sender cap_idx msg ms p v = elim (dec_lt (length ms) msg_queue_capacity) [
  | no full ↦
      let stuck = (enqueue-Stores p.task.msg_queue ms msg v).1 (omega arith) in
      let yes' = p.accepted in absurd (ground arith)
  | yes room ↦
      let (_, w) = (enqueue-Stores p.task.msg_queue ms msg v).0 room in
      (
        room,
        w,
        λ e.
            let w' : Stores (enqueued msg p.task).msg_queue (msg ∷ []) = rw e at w in
            let (k'', got, left, store, _) =
              poll_queue k' p.target (enqueued msg p.task) msg [] p.stored w' in
            (k'', got, left, store),
      )
]

-- The lowest blocked sender.
pub find_sender-some :
    (tasks : List (Option Task)) (current : TaskId) (id : TaskId)
    → find_sender tasks current ≡ some id
    → (i : ℕ) × (t : Task) × (slot_at tasks i ≡ some t)
      × (t.id ≡ id)
      × (is_blocked_on_send current t.state ≡ true)
unfolding find_sender
find_sender-some [] current id e = cc
find_sender-some (none ∷ tasks) current id e =
    let (i, t, at, q, b) = find_sender-some tasks current id e in (suc i, t, at, q, b)
find_sender-some (some t ∷ tasks) current id e =
    elim (Bool-cases (is_blocked_on_send current t.state)) [
      | inl b ↦ (0, t, refl, ground arith, b)
      | inr b ↦
          let e' : find_sender tasks current ≡ some id = ground arith in
          let (i, u, at, q, c) = find_sender-some tasks current id e' in (suc i, u, at, q, c)
    ]
