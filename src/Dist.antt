-- ===== src/Dist.antt =====
-- kernel/process/dist.rs: services that are found by a name, on this node or on another, and that move
-- from one to the other. The text that `pump_remote` prints is left out; `demo` is not modelled.
pub mod Registry
pub mod Migration
pub mod Routing
mod Tests
use runix_os.Prelude.{
  ℕ, zero, suc, ◌+◌, min, Bool, true, false, Option, none, some, List, [], ◌∷◌, ◌==◌, if◌then◌else◌,
  set, take, replicate, length, word_max, copy_over, add_word, first_free,
}
use runix_os.Capability.{TaskId, Resource, service, Capability, CapTable}
use runix_os.Message.{Message, MessageQueue, raw, enqueue, dequeue}
use runix_os.Task.{Task, Scheduler, get_task, update_task}
use runix_os.Snapshot.{TaskCheckpoint}

abbrev pub NodeId : Type 0
NodeId = ℕ

abbrev pub ServiceId : Type 0
ServiceId = ℕ

pub data Location : Type 0 where
  local : TaskId → Location
  remote : NodeId → Location

abbrev pub max_services : ℕ
max_services = 16

-- An array of named entries, as the registry and the node's checkpoints are.
abbrev pub Entries : Type 0 → Type 0
Entries A = List (Option (ServiceId × A))

unfoldable pub new_registry : Entries Location
new_registry = replicate max_services none

-- The first entry of the name, as `resolve`, `caps_of` and `failover` look for it.
unfoldable pub lookup : {A : Type 0} → Entries A → ServiceId → Option A
lookup [] svc = none
lookup (none ∷ entries) svc = lookup entries svc
lookup (some (s, a) ∷ entries) svc =
    let rest = lookup entries svc in if s == svc then some a else rest

abbrev pub resolve : Entries Location → ServiceId → Option Location
resolve entries svc = lookup entries svc

-- The first loop of `set`: the entry of the name is written over.
unfoldable pub replace_entry : Entries Location → ServiceId → Location → Option (Entries Location)
replace_entry [] svc loc = none
replace_entry (none ∷ entries) svc loc = elim (replace_entry entries svc loc) [
  | none ↦ none
  | some entries' ↦ some (none ∷ entries')
]
replace_entry (some (s, l) ∷ entries) svc loc =
    let rest : Option (Entries Location) = elim (replace_entry entries svc loc) [
      | none ↦ none
      | some entries' ↦ some (some (s, l) ∷ entries')
    ] in
    if s == svc then some (some (s, loc) ∷ entries) else rest

-- The second loop of `set`, and `host`: the first free entry is taken, or the pair is lost.
unfoldable pub take_free : {A : Type 0} → Entries A → ServiceId → A → Entries A
take_free [] svc a = []
take_free (none ∷ entries) svc a = some (svc, a) ∷ entries
take_free (some e ∷ entries) svc a = some e ∷ take_free entries svc a

unfoldable pub set_location : Entries Location → ServiceId → Location → Entries Location
set_location entries svc loc = elim (replace_entry entries svc loc) [
  | some entries' ↦ entries'
  | none ↦ take_free entries svc loc
]

pub record RemoteNode : Type 0 where
  pub id : NodeId
  pub inbox : MessageQueue
  pub services : Entries TaskCheckpoint
  pub delivered : ℕ

abbrev pub host : RemoteNode → ServiceId → TaskCheckpoint → RemoteNode
host node svc cp = record node { services = take_free node.services svc cp }

unfoldable pub count_caps : CapTable → ℕ
count_caps [] = 0
count_caps (none ∷ slots) = count_caps slots
count_caps (some cap ∷ slots) = suc (count_caps slots)

unfoldable pub caps_of : RemoteNode → ServiceId → Option ℕ
caps_of node svc = elim (lookup node.services svc) [
  | none ↦ none
  | some cp ↦ some (count_caps cp.cap_table)
]

-- `REGISTRY`, `REMOTE` and the scheduler.
pub record World : Type 0 where
  pub registry : Entries Location
  pub node : RemoteNode
  pub sched : Scheduler

pub data Routed : Type 0 where
  to_local : TaskId → Routed
  to_remote : NodeId → Routed
  unknown : Routed

unfoldable pub register : World → ServiceId → Location → World
register w svc loc = record w { registry = set_location w.registry svc loc }

unfoldable pub transport_send : RemoteNode → NodeId → Message → RemoteNode
transport_send node dest msg =
    if node.id == dest then (record node { inbox = (enqueue node.inbox msg).1 }) else node

-- The message that is sent, from the running task or from no task.
abbrev pub routed_message : Scheduler → List ℕ → Message
routed_message sched payload =
    let n = min (length payload) 128 in
    record {
      sender = elim sched.current_task_id [ none ↦ word_max | some task ↦ task ];
      tag = raw;
      version = 1;
      payload = copy_over (replicate 128 0) (take n payload);
      len = n;
    }

-- The delivery to a location.
unfoldable pub deliver : World → Location → Message → Routed × World
deliver w (local task) msg = (
  to_local task,
  record w {
    sched = update_task w.sched task (λ t. record t { msg_queue = (enqueue t.msg_queue msg).1 });
  },
)
deliver w (remote dest) msg = (to_remote dest, record w { node = transport_send w.node dest msg })

unfoldable pub route_send : World → Capability → List ℕ → Routed × World
route_send w cap payload = elim cap.resource [
  | service svc ↦ elim (resolve w.registry svc) [
    | none ↦ (unknown, w)
    | some loc ↦ deliver w loc (routed_message w.sched payload)
  ]
  | _ ↦ (unknown, w)
]

abbrev pub checkpoint_of : Task → TaskCheckpoint
checkpoint_of t = record {
  id = t.id;
  state = t.state;
  cap_table = t.cap_table;
  ipc_buffer = t.ipc_buffer;
  msg_queue = t.msg_queue;
}

-- `none` is `Err(())`.
unfoldable pub migrate : World → ServiceId → NodeId → Option ℕ × World
migrate w svc dest = elim (resolve w.registry svc) [
  | some (local task) ↦ elim (get_task w.sched task) [
    | none ↦ (none, w)
    | some t ↦ (
      some (count_caps t.cap_table),
      record w {
        registry = set_location w.registry svc (remote dest);
        node = host w.node svc (checkpoint_of t);
        sched = record w.sched { tasks = set w.sched.tasks task none };
      },
    )
  ]
  | _ ↦ (none, w)
]

-- The loop that empties the inbox; `none` is a loop that has not ended after `fuel` rounds.
unfoldable pub pump : ℕ → RemoteNode → ℕ → Option (ℕ × RemoteNode)
pump zero node count = none
pump (suc fuel) node count =
    let (msg, inbox) = dequeue node.inbox in
    let rest =
      pump fuel (record node { inbox = inbox; delivered = add_word node.delivered 1 })
        (count + 1) in
    elim msg [ none ↦ some (count, record node { inbox = inbox }) | some _ ↦ rest ]

-- The inbox has at most eight messages.
unfoldable pub pump_remote : RemoteNode → Option (ℕ × RemoteNode)
pump_remote node = pump 9 node 0

-- `none` is `Err(())`.
unfoldable pub failover : World → ServiceId → TaskId → Option ℕ × World
failover w svc replica = elim (lookup w.node.services svc) [
  | none ↦ (none, w)
  | some cp ↦ elim (get_task w.sched replica) [
    | none ↦ (none, w)
    | some _ ↦ (
      some (count_caps cp.cap_table),
      record w {
        registry = set_location w.registry svc (local replica);
        sched = update_task w.sched replica (λ t. record t {
          cap_table = cp.cap_table;
          ipc_buffer = cp.ipc_buffer;
          msg_queue = cp.msg_queue;
        });
      },
    )
  ]
]
