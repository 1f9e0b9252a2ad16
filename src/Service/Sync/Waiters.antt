-- ===== src/Service/Sync/Waiters.antt =====
-- The ring of waiting tasks in a synchronisation object, as a queue.
use runix_os.Prelude.{
  ℕ, zero, suc, ◌+◌, ◌-◌, ◌%◌, ◌≡◌, refl, arith, Bool-cases, true, none, some, List, [], ◌∷◌, ◌++◌,
  ltb, length, set, get_elem?, byte_at, Buffers, Buffers-push, Buffers-pop, inl, inr, ◌⊎◌,
}
use runix_os.Capability.{TaskId}
use runix_os.Service.Sync.{SyncObject, sync_max_wait, enqueue_waiter, dequeue_waiter}

-- The object's ring holds `queue`, the task that waits longest first.
abbrev pub Waits : SyncObject → List ℕ → Type 0
Waits obj queue = Buffers obj.waiters sync_max_wait obj.wait_head obj.wait_tail obj.wait_len queue

pub byte_at-get_elem? : (xs : List ℕ) (i v : ℕ) → get_elem? xs i ≡ some v → byte_at xs i ≡ v
byte_at-get_elem? [] i v h = absurd (cc h)
byte_at-get_elem? (x ∷ xs) zero v h = grind (arith, h)
byte_at-get_elem? (x ∷ xs) (suc i) v h = byte_at-get_elem? xs i v h

-- A task that is put into the ring waits behind the others, or the ring is full.
pub enqueue_waiter-Waits :
    (obj : SyncObject) (queue : List ℕ) (task : ℕ)
    → Waits obj queue
    → ((enqueue_waiter obj task ≡ none) × (length queue ≡ sync_max_wait))
      ⊎ ((obj' : SyncObject) × (enqueue_waiter obj task ≡ some obj')
          × Waits obj' (queue ++ (task ∷ []))
          × (obj'.count ≡ obj.count)
          × (obj'.used ≡ obj.used)
          × (obj'.is_mutex ≡ obj.is_mutex))
unfolding enqueue_waiter
enqueue_waiter-Waits obj queue task w = elim (Bool-cases (ltb obj.wait_len sync_max_wait)) [
  | inl e ↦
      let obj' : SyncObject = record obj {
        waiters = set obj.waiters obj.wait_tail task;
        wait_tail = (obj.wait_tail + 1) % sync_max_wait;
        wait_len = obj.wait_len + 1;
      } in
      inr (
        obj',
        simp e,
        Buffers-push obj.waiters sync_max_wait obj.wait_head obj.wait_tail obj.wait_len queue task w
            (ground (arith, w.len_is)),
        refl,
        refl,
        refl,
      )
  | inr e ↦ inl (simp e, ground (arith, w.len_is, w.bounded))
]

dequeue_waiter-none : (obj : SyncObject) → Waits obj [] → dequeue_waiter obj ≡ none
unfolding dequeue_waiter
dequeue_waiter-none obj w = ground (arith, w.len_is)

dequeue_waiter-some :
    (obj : SyncObject) (task : ℕ) (rest : List ℕ)
    → Waits obj (task ∷ rest)
    → (obj' : SyncObject) × (dequeue_waiter obj ≡ some (task, obj'))
      × Waits obj' rest
      × (obj'.count ≡ obj.count)
      × (obj'.used ≡ obj.used)
      × (obj'.is_mutex ≡ obj.is_mutex)
unfolding dequeue_waiter
dequeue_waiter-some obj task rest w =
    let (found, b) =
      Buffers-pop obj.waiters sync_max_wait obj.wait_head obj.wait_tail obj.wait_len task rest w in
    let e : ltb 0 obj.wait_len ≡ true = ground (arith, w.len_is) in
    let v : byte_at obj.waiters obj.wait_head ≡ task =
      byte_at-get_elem? obj.waiters obj.wait_head task found in
    (
      record obj { wait_head = (obj.wait_head + 1) % sync_max_wait; wait_len = obj.wait_len - 1 },
      simp (e, v),
      b,
      refl,
      refl,
      refl,
    )

-- The task that is taken out is the one that waits longest.
pub dequeue_waiter-Waits :
    (obj : SyncObject) (queue : List ℕ)
    → Waits obj queue
    → ((queue ≡ []) × (dequeue_waiter obj ≡ none))
      ⊎ ((task : TaskId) × (rest : List ℕ) × (obj' : SyncObject) × (queue ≡ task ∷ rest)
          × (dequeue_waiter obj ≡ some (task, obj'))
          × Waits obj' rest
          × (obj'.count ≡ obj.count)
          × (obj'.used ≡ obj.used)
          × (obj'.is_mutex ≡ obj.is_mutex))
dequeue_waiter-Waits obj [] w = inl (refl, dequeue_waiter-none obj w)
dequeue_waiter-Waits obj (task ∷ rest) w =
    let (obj', e, b, c, u, m) = dequeue_waiter-some obj task rest w in
    inr (task, rest, obj', refl, e, b, c, u, m)
