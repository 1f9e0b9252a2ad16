-- ===== src/Service/Sync/Permits.antt =====
-- The objects of the synchronisation service as counters with a queue: who is admitted, who waits, who
-- is woken, and that nobody waits while the counter is positive.
use runix_os.Prelude.{
  ℕ, ◌+◌, ◌%◌, ◌^◌, ◌<◌, ◌≤◌, ◌≡◌, ◌⊎◌, ltb, refl, ap, ◌∙◌, subst, arith, Bool-cases, true, false,
  not, none, some, List, [], ◌∷◌, ◌++◌, ◌==◌, length, byte_at, inl, inr, if◌then◌else◌,
}
use runix_os.Capability.{TaskId}
use runix_os.Message.{Message}
use runix_os.Task.{Scheduler}
use runix_os.Service.Sync.{
  SyncObject, Effect, rejected, is_positive, decrement, create, acquire, release, sync_check_cap,
  sync_grants, operate,
}
use runix_os.Service.{sender_holds}
use runix_os.Service.Authority.{Holds, sender_holds-Holds}
use runix_os.Service.Sync.Waiters.{Waits, enqueue_waiter-Waits, dequeue_waiter-Waits}

-- The ring holds the queue, and tasks wait only while the counter is not positive.
pub record IsSync (obj : SyncObject) (queue : List ℕ) : Type 0 where
  pub waits : Waits obj queue
  pub blocked : 0 < length queue → is_positive obj.count ≡ false

-- An object in use stays in use and keeps its kind.
pub record SameObject (obj obj' : SyncObject) : Type 0 where
  pub used : obj.used ≡ true
  pub used_after : obj'.used ≡ true
  pub kind : obj'.is_mutex ≡ obj.is_mutex

-- What one request can do to an object whose queue is `queue`. The request's byte 0 is the operation,
-- byte 1 the object, byte 2 of a creation the kind and byte 3 the counter.
pub data Moves (obj : SyncObject) (queue : List ℕ) (sched : Scheduler) (msg : Message) (e : Effect)
    (queue' : List ℕ) : Type 0 where
  -- refused: nothing changes
  refused :
      (code : ℕ)
      → 0 < code
      → e.object ≡ obj
      → e.code ≡ some code
      → e.woken ≡ none
      → queue' ≡ queue
      → Moves obj queue sched msg e queue'
  -- a free object is taken into use, as the request says, and nobody waits
  created :
      byte_at msg.payload 0 ≡ 0
      → obj.used ≡ false
      → e.object.used ≡ true
      → e.object.is_mutex ≡ not (byte_at msg.payload 2 == 0)
      → e.object.count ≡ byte_at msg.payload 3
      → e.code ≡ some 0
      → e.woken ≡ none
      → queue' ≡ []
      → Moves obj queue sched msg e queue'
  -- the sender is admitted, and the counter goes down
  admitted :
      byte_at msg.payload 0 ≡ 1
      → Holds sched msg.sender (sync_grants (byte_at msg.payload 1))
      → SameObject obj e.object
      → 0 < obj.count
      → obj.count < 2 ^ 31
      → e.object.count + 1 ≡ obj.count
      → e.code ≡ some 0
      → e.woken ≡ none
      → queue' ≡ queue
      → Moves obj queue sched msg e queue'
  -- the sender waits, behind those who wait already, and gets no answer now
  queued :
      byte_at msg.payload 0 ≡ 1
      → Holds sched msg.sender (sync_grants (byte_at msg.payload 1))
      → SameObject obj e.object
      → (obj.count ≡ 0) ⊎ (2 ^ 31 ≤ obj.count)
      → e.object.count ≡ obj.count
      → e.code ≡ none
      → e.woken ≡ none
      → queue' ≡ queue ++ (msg.sender ∷ [])
      → Moves obj queue sched msg e queue'
  -- the permit goes to the task that waits longest, and the counter stays
  handed :
      (w : TaskId)
      → byte_at msg.payload 0 ≡ 2
      → Holds sched msg.sender (sync_grants (byte_at msg.payload 1))
      → SameObject obj e.object
      → queue ≡ w ∷ queue'
      → e.object.count ≡ obj.count
      → e.code ≡ some 0
      → e.woken ≡ some w
      → Moves obj queue sched msg e queue'
  -- nobody waits, and the permit goes back to the counter
  returned :
      byte_at msg.payload 0 ≡ 2
      → Holds sched msg.sender (sync_grants (byte_at msg.payload 1))
      → SameObject obj e.object
      → queue ≡ []
      → queue' ≡ []
      → e.object.count ≡ (if obj.is_mutex then 1 else (obj.count + 1) % 2 ^ 32)
      → e.code ≡ some 0
      → e.woken ≡ none
      → Moves obj queue sched msg e queue'

-- The outcome of a request: a move, and a sound object after it.
abbrev pub Outcome : SyncObject → List ℕ → Scheduler → Message → Effect → Type 0
Outcome obj queue sched msg e =
    (queue' : List ℕ) × Moves obj queue sched msg e queue' × IsSync e.object queue'

rejected-Outcome :
    (obj : SyncObject) (queue : List ℕ) (sched : Scheduler) (msg : Message) (code : ℕ)
    → 0 < code
    → IsSync obj queue
    → Outcome obj queue sched msg (rejected obj code)
rejected-Outcome obj queue sched msg code c s = (queue, refused code c refl refl refl refl, s)

create-Outcome :
    (obj : SyncObject) (queue : List ℕ) (sched : Scheduler) (msg : Message)
    → byte_at msg.payload 0 ≡ 0
    → IsSync obj queue
    → Outcome obj queue sched msg
        (create obj (not (byte_at msg.payload 2 == 0)) (byte_at msg.payload 3))
unfolding create
create-Outcome obj queue sched msg op s = elim (Bool-cases obj.used) [
  | inl e ↦ simp e (rejected-Outcome obj queue sched msg 2 (omega arith) s)
  | inr e ↦ simp e (
    [],
    created op e refl refl refl refl refl refl,
    record {
      waits = record {
        whole = s.waits.whole;
        head_in = omega arith;
        len_is = refl;
        bounded = omega arith;
        tail_is = refl;
        held = tt;
      };
      blocked = λ h. elim h [ ];
    },
  )
]

positive_count : (c : ℕ) → is_positive c ≡ true → (0 < c) × (c < 2 ^ 31) × (decrement c + 1 ≡ c)
positive_count c p =
    let some_count : 0 < c = ground (arith, p) in
    let small : c < 2 ^ 31 = ground (arith, p) in
    (some_count, small, omega (arith, some_count, small))

other_count : (c : ℕ) → is_positive c ≡ false → (c ≡ 0) ⊎ (2 ^ 31 ≤ c)
other_count c p = elim (Bool-cases (ltb 0 c)) [
  | inl e ↦ inr (ground (arith, e, p))
  | inr e ↦ inl (ground (arith, e))
]

acquire-Outcome :
    (obj : SyncObject) (queue : List ℕ) (sched : Scheduler) (msg : Message)
    → byte_at msg.payload 0 ≡ 1
    → Holds sched msg.sender (sync_grants (byte_at msg.payload 1))
    → IsSync obj queue
    → Outcome obj queue sched msg (acquire obj msg.sender)
unfolding acquire
acquire-Outcome obj queue sched msg op may s = elim (Bool-cases obj.used) [
  | inr e ↦ simp e (rejected-Outcome obj queue sched msg 2 (omega arith) s)
  | inl e ↦ elim (Bool-cases (is_positive obj.count)) [
    | inl p ↦
        let counted = positive_count obj.count p in
        simp (e, p)
          (
            queue,
            admitted op may (record { used = e; used_after = refl; kind = refl }) counted.0
                counted.1 counted.2 refl refl refl,
            record { waits = s.waits; blocked = λ h. absurd (cc (s.blocked h, p)) },
          )
    | inr p ↦ elim (enqueue_waiter-Waits obj queue msg.sender s.waits) [
      | inl (n, l) ↦ simp (e, p, n) (rejected-Outcome obj queue sched msg 4 (omega arith) s)
      | inr (obj', f, w, c, u, m) ↦
          simp (e, p, f)
            (
              queue ++ (msg.sender ∷ []),
              queued op may (record { used = e; used_after = u ∙ e; kind = m })
                  (other_count obj.count p) c refl refl refl,
              record { waits = w; blocked = λ h. cc (c, p) },
            )
    ]
  ]
]

release-Outcome :
    (obj : SyncObject) (queue : List ℕ) (sched : Scheduler) (msg : Message)
    → byte_at msg.payload 0 ≡ 2
    → Holds sched msg.sender (sync_grants (byte_at msg.payload 1))
    → IsSync obj queue
    → Outcome obj queue sched msg (release obj)
unfolding release
release-Outcome obj queue sched msg op may s = elim (Bool-cases obj.used) [
  | inr e ↦ simp e (rejected-Outcome obj queue sched msg 2 (omega arith) s)
  | inl e ↦ elim (dequeue_waiter-Waits obj queue s.waits) [
    | inl (q, n) ↦
        simp (e, n)
          (
            [],
            returned op may (record { used = e; used_after = refl; kind = refl }) q refl refl refl
                refl,
            record { waits = subst (Waits obj) q s.waits; blocked = λ h. elim h [ ] },
          )
    | inr (task, rest, obj', q, f, w, c, u, m) ↦
        simp (e, f)
          (
            rest,
            handed task op may (record { used = e; used_after = u ∙ e; kind = m }) q c refl refl,
            record { waits = w; blocked = λ h. cc (c, s.blocked (omega (arith, ap length q))) },
          )
  ]
]

-- A request to a sound object, whose queue is known, makes one of six moves, and leaves the object sound:
-- it is refused and changes nothing; operation 0 takes a free object into use, with the kind and the
-- counter of the request; operation 1 admits the sender, because the counter is positive, or puts it
-- behind those who wait, because it is not; operation 2 gives the permit to the task that waits longest,
-- or back to the counter when nobody waits. Operations 1 and 2 are made under a capability for the
-- object, which is in use and keeps its kind. So nobody waits while the counter is positive, and those
-- who wait are woken first in, first out.
pub operate-IsSync :
    (obj : SyncObject) (queue : List ℕ) (sched : Scheduler) (msg : Message)
    → IsSync obj queue
    → let e = operate obj sched msg in
      (queue' : List ℕ) × Moves obj queue sched msg e queue' × IsSync e.object queue'
unfolding operate sync_check_cap
operate-IsSync obj queue sched msg s =
    let op = byte_at msg.payload 0 in
    let id = byte_at msg.payload 1 in
    let reject1 = rejected-Outcome obj queue sched msg 1 (omega arith) s in
    let reject2 = rejected-Outcome obj queue sched msg 2 (omega arith) s in
    elim (Bool-cases (op == 0)) [
      | inl e ↦ simp e (create-Outcome obj queue sched msg (ground (arith, e)) s)
      | inr e ↦ elim (Bool-cases (op == 1)) [
        | inl f ↦ elim (Bool-cases (sender_holds sched msg.sender (sync_grants id))) [
          | inl g ↦
              simp (operate, sync_check_cap, e, f, g)
                (acquire-Outcome obj queue sched msg (ground (arith, f))
                  (sender_holds-Holds sched msg.sender (sync_grants id) g) s)
          | inr g ↦ simp (operate, sync_check_cap, e, f, g) reject1
        ]
        | inr f ↦ elim (Bool-cases (op == 2)) [
          | inr g ↦ simp (operate, sync_check_cap, e, f, g) reject2
          | inl g ↦ elim (Bool-cases (sender_holds sched msg.sender (sync_grants id))) [
            | inl h ↦
                simp (operate, sync_check_cap, e, f, g, h)
                  (release-Outcome obj queue sched msg (ground (arith, g))
                    (sender_holds-Holds sched msg.sender (sync_grants id) h) s)
            | inr h ↦ simp (operate, sync_check_cap, e, f, g, h) reject1
          ]
        ]
      ]
    ]
