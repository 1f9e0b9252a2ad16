-- ===== src/Service/Log/Access.antt =====
-- Every request of the log service: who may publish and read, and what happens to the log's history.
use runix_os.Prelude.{
  ℕ, ◌+◌, ◌^◌, ◌<◌, ◌≤◌, ◌≡◌, inl, inr, refl, ap, ◌∙◌, arith, true, false, Bool-cases, List, [],
  ◌∷◌, ◌++◌, ◌==◌, length, get_or, set, byte_at, ltb, leb, length-set, get_or-set_self,
  get_or-set_ne, length-append,
}
use runix_os.Message.{Message, IpcTag, raw, log_publish, log_read}
use runix_os.Task.{Scheduler, max_tasks}
use runix_os.Service.{sender_holds}
use runix_os.Service.Authority.{Holds, sender_holds-Holds}
use runix_os.Service.Log.{
  LogEntry, empty_entry, LogRingBuffer, entry_of, log_grants, check_log_sender_cap, publish, read,
  handle,
}
use runix_os.Service.Log.Layout.{Shows, IsEntry, entry_bytes-Shows, entry_of-IsEntry}
use runix_os.Service.Log.History.{Keeps, push-Keeps}
use runix_os.Service.Log.Read.{NoneIn, IsFirst, Start, read_from-Keeps}

-- The log stands for the history, and no cursor is past its end.
pub record IsLog (log : LogRingBuffer) (cursors : List ℕ) (history : List LogEntry) : Type 0 where
  pub keeps : Keeps log history
  pub whole : length cursors ≡ max_tasks
  pub behind : (task : ℕ) → get_or cursors task 0 ≤ length history

-- What a request does: to the history, and to the sender's cursor.
pub data Outcome (sched : Scheduler) (tick : ℕ) (msg : Message) (history : List LogEntry)
    (cursors : List ℕ) (history' : List LogEntry) (cursors' : List ℕ) (reply : List ℕ)
    : Type 0 where
  -- refused, with a code alone
  denied :
      (code : ℕ)
      → 0 < code
      → reply ≡ code ∷ []
      → history' ≡ history
      → cursors' ≡ cursors
      → Outcome sched tick msg history cursors history' cursors' reply
  -- one more entry, for the message
  published :
      (entry : LogEntry)
      → msg.tag ≡ log_publish
      → Holds sched msg.sender (log_grants (byte_at msg.payload 0) true)
      → IsEntry tick msg entry
      → history' ≡ history ++ (entry ∷ [])
      → cursors' ≡ cursors
      → reply ≡ 0 ∷ []
      → Outcome sched tick msg history cursors history' cursors' reply
  -- the first entry of the kind that the sender's cursor has not passed
  shown :
      (from i : ℕ)
      → msg.tag ≡ log_read
      → Holds sched msg.sender (log_grants (byte_at msg.payload 0) false)
      → Start history (get_or cursors msg.sender 0) from
      → IsFirst (λ j. get_or history j empty_entry) (byte_at msg.payload 0) from (length history) i
      → history' ≡ history
      → cursors' ≡ set cursors msg.sender (i + 1)
      → Shows (get_or history i empty_entry) reply
      → Outcome sched tick msg history cursors history' cursors' reply
  -- no such entry: the cursor goes to the end, past the entries of every kind
  exhausted :
      (from : ℕ)
      → msg.tag ≡ log_read
      → Holds sched msg.sender (log_grants (byte_at msg.payload 0) false)
      → Start history (get_or cursors msg.sender 0) from
      → NoneIn (λ j. get_or history j empty_entry) (byte_at msg.payload 0) from (length history)
      → history' ≡ history
      → cursors' ≡ set cursors msg.sender (length history)
      → reply ≡ 2 ∷ []
      → Outcome sched tick msg history cursors history' cursors' reply

-- An outcome, after which the log is sound again.
abbrev pub Ends :
    Scheduler → ℕ → Message → List LogEntry → List ℕ → LogRingBuffer × List ℕ × List ℕ → Type 0
Ends sched tick msg history cursors (log', cursors', reply) =
    (history' : List LogEntry) × Outcome sched tick msg history cursors history' cursors' reply
    × IsLog log' cursors' history'

module _ (log : LogRingBuffer) (cursors : List ℕ) (sched : Scheduler) (tick : ℕ) (msg : Message)
    (history : List LogEntry) (s : IsLog log cursors history) where
  refuse : (code : ℕ) → 0 < code → Ends sched tick msg history cursors (log, cursors, code ∷ [])
  refuse code c = (history, denied code c refl refl refl, s)

  publish-Ends :
      msg.tag ≡ log_publish
      → length history + 1 < 2 ^ 64
      → let (log', reply) = publish log sched tick msg in
        Ends sched tick msg history cursors (log', cursors, reply)
  unfolding publish check_log_sender_cap
  publish-Ends t bound =
      let kind = byte_at msg.payload 0 in
      elim (Bool-cases (ltb msg.len 1)) [
        | inl e ↦ simp (publish, e) (refuse 2 (omega arith))
        | inr e ↦ elim (Bool-cases (leb 16 kind)) [
          | inl f ↦ simp (publish, e, f) (refuse 3 (omega arith))
          | inr f ↦ elim (Bool-cases (sender_holds sched msg.sender (log_grants kind true))) [
            | inr g ↦ simp (publish, check_log_sender_cap, e, f, g) (refuse 1 (omega arith))
            | inl g ↦
                simp (publish, check_log_sender_cap, e, f, g)
                  (
                    history ++ (entry_of tick msg ∷ []),
                    published (entry_of tick msg) t
                        (sender_holds-Holds sched msg.sender (log_grants kind true) g)
                        (entry_of-IsEntry tick msg) refl refl refl,
                    record {
                      keeps = push-Keeps log history (entry_of tick msg) bound s.keeps;
                      whole = s.whole;
                      behind = λ t.
                          omega (arith, s.behind t, length-append history (entry_of tick msg ∷ []));
                    },
                  )
          ]
        ]
      ]

  -- A cursor that is moved to a position in the history leaves the log sound.
  moved :
      msg.sender < max_tasks
      → (c : ℕ) → c ≤ length history
      → IsLog log (set cursors msg.sender c) history
  moved small c h = record {
    keeps = s.keeps;
    whole = length-set cursors msg.sender c ∙ s.whole;
    behind = λ t. elim (Bool-cases (t == msg.sender)) [
      | inr e ↦ rw (get_or-set_ne cursors msg.sender t c 0 (ground (arith, e))) (s.behind t)
      | inl e ↦
          let q : t ≡ msg.sender = ground (arith, e) in
          let v : get_or (set cursors msg.sender c) t 0 ≡ c =
            ap (λ x. get_or (set cursors msg.sender c) x 0) q
            ∙ get_or-set_self cursors msg.sender c 0 (omega (arith, s.whole, small)) in
          omega (arith, v, h)
    ];
  }

  read-Ends :
      msg.tag ≡ log_read
      → msg.sender < max_tasks
      → let (cursors', reply) = read log cursors sched msg in
        Ends sched tick msg history cursors (log, cursors', reply)
  unfolding read check_log_sender_cap
  read-Ends t small =
      let kind = byte_at msg.payload 0 in
      let cursor = get_or cursors msg.sender 0 in
      elim (Bool-cases (ltb msg.len 1)) [
        | inl e ↦ simp (read, e) (refuse 3 (omega arith))
        | inr e ↦ elim (Bool-cases (leb 16 kind)) [
          | inl f ↦ simp (read, e, f) (refuse 3 (omega arith))
          | inr f ↦ elim (Bool-cases (sender_holds sched msg.sender (log_grants kind false))) [
            | inr g ↦ simp (read, check_log_sender_cap, e, f, g) (refuse 1 (omega arith))
            | inl g ↦
                let may = sender_holds-Holds sched msg.sender (log_grants kind false) g in
                let (from, start, found) =
                  read_from-Keeps log history cursor kind s.keeps (s.behind msg.sender) in
                elim found [
                  | inl (r, nowhere) ↦
                      simp (read, check_log_sender_cap, e, f, g, r)
                        (
                          history,
                          exhausted from t may start nowhere refl refl refl,
                          moved small (length history) (omega arith),
                        )
                  | inr (i, first, r) ↦
                      simp (read, check_log_sender_cap, e, f, g, r)
                        (
                          history,
                          shown from i t may start first refl refl
                              (entry_bytes-Shows (get_or history i empty_entry)),
                          moved small (i + 1) (omega (arith, first.below)),
                        )
                ]
          ]
        ]
      ]

handle_tag-Ends :
    (log : LogRingBuffer) (cursors : List ℕ) (sched : Scheduler) (tick : ℕ) (msg : Message)
    (history : List LogEntry) (tag : IpcTag)
    → msg.tag ≡ tag
    → IsLog log cursors history
    → length history + 1 < 2 ^ 64
    → msg.sender < max_tasks
    → Ends sched tick msg history cursors (handle log cursors sched tick msg)
unfolding handle
handle_tag-Ends log cursors sched tick msg history log_publish e s b small =
    simp (handle, e) (publish-Ends log cursors sched tick msg history s e b)
handle_tag-Ends log cursors sched tick msg history log_read e s b small =
    simp (handle, e) (read-Ends log cursors sched tick msg history s e small)
handle_tag-Ends log cursors sched tick msg history raw e s b small =
    simp (handle, e) (refuse log cursors sched tick msg history s 3 (omega arith))
handle_tag-Ends log cursors sched tick msg history _ e s b small =
    simp (handle, e) (refuse log cursors sched tick msg history s 3 (omega arith))

-- The log is the list of all entries ever published, and every request ends in one of four ways,
-- after which the log is sound again: it is refused with a code alone; a sender with a writable
-- capability for the kind adds one entry, which carries the service's tick, the sender's true
-- identity, and the kind and the text (64 bytes at most) of the message; a sender with a readable
-- one gets the fields, in eight-byte words, of the first entry of the kind, in the whole history,
-- from its cursor on or from the oldest of the last 128, and its cursor moves just past it; or
-- there is none, and its cursor moves to the end. The sender is a task, and fewer than 2 ^ 64
-- entries have been published.
pub handle-Ends :
    (log : LogRingBuffer) (cursors : List ℕ) (sched : Scheduler) (tick : ℕ) (msg : Message)
    (history : List LogEntry)
    → IsLog log cursors history
    → length history + 1 < 2 ^ 64
    → msg.sender < max_tasks
    → Ends sched tick msg history cursors (handle log cursors sched tick msg)
handle-Ends log cursors sched tick msg history s b small =
    handle_tag-Ends log cursors sched tick msg history msg.tag refl s b small
