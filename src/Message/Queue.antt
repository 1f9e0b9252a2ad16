-- ===== src/Message/Queue.antt =====
-- The ring of `MessageQueue` is a first-in first-out queue of at most eight messages.
use runix_os.Prelude.{
  subst, set, add_word, sub_word, sym, length-append, ℕ, ◌+◌, ◌%◌, ◌≤◌, ◌<◌, ◌≡◌, ◌∙◌, refl, ap,
  true, false, none, some, List, [], ◌∷◌, ◌++◌, map, arith, length, length-set, Holds, Holds-set,
  Holds-snoc, slot_at,
}
use runix_os.Capability.Table.{slot_at-get_elem?}
use runix_os.Message.{Message, MessageQueue, msg_queue_capacity, new, enqueue, dequeue}

length-some : (ms : List Message) → length (map some ms) ≡ length ms
length-some [] = refl
length-some (m ∷ ms) = ap ℕ.suc (length-some ms)

map-snoc :
    (ms : List Message) (m : Message) → map some (ms ++ (m ∷ [])) ≡ map some ms ++ (some m ∷ [])
map-snoc [] m = refl
map-snoc (x ∷ ms) m = ap (◌∷◌ (some x)) (map-snoc ms m)

-- `q` stores the messages `ms`, oldest first.
pub record Stores (q : MessageQueue) (ms : List Message) : Type 0 where
  pub cells : length q.buffer ≡ msg_queue_capacity
  pub head_in : q.head < msg_queue_capacity
  pub count_is : q.count ≡ length ms
  pub bounded : length ms ≤ msg_queue_capacity
  pub tail_is : q.tail ≡ (q.head + q.count) % msg_queue_capacity
  pub held : Holds q.buffer msg_queue_capacity q.head (map some ms)

pub new-Stores : Stores new []
unfolding new
new-Stores = record {
  cells = refl;
  head_in = omega arith;
  count_is = refl;
  bounded = omega arith;
  tail_is = refl;
  held = tt;
}

-- The queues that the two operations build.
abbrev pushed : MessageQueue → Message → MessageQueue
pushed q m = record q {
  buffer = set q.buffer q.tail (some m);
  tail = add_word q.tail 1 % msg_queue_capacity;
  count = add_word q.count 1;
}

abbrev popped : MessageQueue → MessageQueue
popped q = record q {
  buffer = set q.buffer q.head none;
  head = add_word q.head 1 % msg_queue_capacity;
  count = sub_word q.count 1;
}

pushed-Stores :
    (q : MessageQueue) (ms : List Message) (m : Message)
    → Stores q ms
    → length ms < msg_queue_capacity
    → Stores (pushed q m) (ms ++ (m ∷ []))
pushed-Stores q ms m v lt = record {
  cells = omega (arith, length-set q.buffer q.tail (some m));
  head_in = v.head_in;
  count_is = omega (arith, v, length-append ms (m ∷ []));
  bounded = omega (arith, length-append ms (m ∷ []));
  tail_is = omega (arith, v);
  held = rw (map-snoc ms m) (
      Holds-snoc q.buffer 8 (some m) (map some ms) q.head q.tail v.head_in
        (omega (arith, length-some ms)) (omega (arith, v))
        (v.tail_is ∙ ap (λ k. (q.head + k) % 8) (v.count_is ∙ sym (length-some ms))) v.held);
}

popped-Stores :
    (q : MessageQueue) (m : Message) (rest : List Message)
    → Stores q (m ∷ rest)
    → Stores (popped q) rest
popped-Stores q m rest v =
    let e : add_word q.head 1 % 8 ≡ (q.head + 1) % 8 = omega arith in
    record {
      cells = omega (arith, length-set q.buffer q.head none);
      head_in = omega arith;
      count_is = omega arith;
      bounded = omega arith;
      tail_is = omega arith;
      held = rw e (
          Holds-set q.buffer 8 none (map some rest) ((q.head + 1) % 8) 7 q.head (omega arith)
            (omega (arith, length-some rest)) (omega arith) (omega arith) v.held.1);
    }

enqueue-pushed : (q : MessageQueue) (m : Message) → q.count < 8 → enqueue q m ≡ (true, pushed q m)
unfolding enqueue
enqueue-pushed q m lt = ground arith

dequeue-popped : (q : MessageQueue) → 0 < q.count → dequeue q ≡ (slot_at q.buffer q.head, popped q)
unfolding dequeue
dequeue-popped q lt = ground arith

-- `enqueue` appends the message while fewer than eight are stored; on a full queue it fails and
-- changes nothing.
pub enqueue-Stores :
    (q : MessageQueue) (ms : List Message) (m : Message)
    → Stores q ms
    → (length ms < msg_queue_capacity
        → ((enqueue q m).0 ≡ true) × Stores (enqueue q m).1 (ms ++ (m ∷ [])))
      × (msg_queue_capacity ≤ length ms → enqueue q m ≡ (false, q))
unfolding enqueue
enqueue-Stores q ms m v = (
  λ lt. (ground arith, rw (enqueue-pushed q m (omega arith)) (pushed-Stores q ms m v lt)),
  λ full. ground arith,
)

-- `dequeue` answers nothing on an empty queue, and otherwise takes the oldest message and leaves
-- the others in order.
pub dequeue-Stores :
    (q : MessageQueue) (ms : List Message)
    → Stores q ms
    → (ms ≡ [] → dequeue q ≡ (none, q))
      × ((m : Message) (rest : List Message)
          → ms ≡ m ∷ rest
          → ((dequeue q).0 ≡ some m) × Stores (dequeue q).1 rest)
unfolding dequeue
dequeue-Stores q ms v = (λ e. ground arith, taken q ms v)
  where
    taken :
        (q : MessageQueue) (ms : List Message)
        → Stores q ms
        → (m : Message) (rest : List Message) → ms ≡ m ∷ rest
        → ((dequeue q).0 ≡ some m) × Stores (dequeue q).1 rest
    taken q ms v m rest e =
        let w : Stores q (m ∷ rest) = subst (Stores q) e v in
        let pos : 0 < q.count = omega (arith, w.count_is) in
        rw (dequeue-popped q pos)
          (slot_at-get_elem? q.buffer q.head w.held.0, popped-Stores q m rest w)
