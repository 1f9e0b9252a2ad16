-- ===== src/Message/Tests.antt =====
-- Runs of the queue.
use runix_os.Prelude.{◌≡◌, ◌<◌, ◌≤◌, refl, true, false, arith, some, [], ◌∷◌}
use runix_os.Message.{new, enqueue, dequeue, msg_queue_capacity}
use runix_os.Message.Queue.{Stores, new-Stores, enqueue-Stores, dequeue-Stores}
use runix_os.Samples.{hello}

one_stored : ((enqueue new hello).0 ≡ true) × Stores (enqueue new hello).1 (hello ∷ [])
one_stored = (enqueue-Stores new [] hello new-Stores).0 (omega arith)

enqueue-Stores_example :
    (0 < msg_queue_capacity
      → ((enqueue new hello).0 ≡ true) × Stores (enqueue new hello).1 (hello ∷ []))
    × (msg_queue_capacity ≤ 0 → enqueue new hello ≡ (false, new))
enqueue-Stores_example = enqueue-Stores new [] hello new-Stores

dequeue-Stores_example :
    let q = (enqueue new hello).1 in ((dequeue q).0 ≡ some hello) × Stores (dequeue q).1 []
dequeue-Stores_example =
    (dequeue-Stores (enqueue new hello).1 (hello ∷ []) one_stored.1).1 hello [] refl
