-- ===== src/Dist/Tests.antt =====
-- A service on task 0 that migrates to node 1 and comes back on task 1.
use runix_os.Prelude.{◌≡◌, ◌++◌, refl, arith, none, some, [], ◌∷◌, replicate, slot_at}
use runix_os.Capability.{Capability, service}
use runix_os.Message.{new as no_messages}
use runix_os.Message.Queue.{Stores, new-Stores}
use runix_os.Task.{get_task}
use runix_os.Snapshot.{TaskCheckpoint}
use runix_os.Samples.{cap_of, waiting, sender, receiver}
use runix_os.Dist.{
  World, RemoteNode, Entries, local, lookup, count_caps, resolve, migrate, failover, route_send,
  routed_message, to_remote,
}
use runix_os.Dist.Migration.{IsLocal, failover-migrate, failover-migrate_full}
use runix_os.Dist.Routing.{route_send-migrate}

abbrev node_with : Entries TaskCheckpoint → RemoteNode
node_with services = record { id = 1; inbox = no_messages; services = services; delivered = 0 }

abbrev world_with : Entries TaskCheckpoint → World
world_with services = record {
  registry = some (7, local 0) ∷ replicate 15 none;
  node = node_with services;
  sched = waiting.sched;
}

abbrev world : World
world = world_with (replicate 16 none)

seven-IsLocal : (services : Entries TaskCheckpoint) → IsLocal (world_with services) 7 0 sender
unfolding lookup get_task
seven-IsLocal services = record { route = refl; found = refl }

failover-migrate_example :
    let w' = (migrate world 7 1).1 in
    let (count, w'') = failover w' 7 1 in
    (count ≡ (migrate world 7 1).0)
    × (get_task w''.sched 1
        ≡ some (record receiver {
          cap_table = sender.cap_table;
          ipc_buffer = sender.ipc_buffer;
          msg_queue = sender.msg_queue;
        }))
    × (resolve w''.registry 7 ≡ some (local 1))
unfolding lookup get_task
failover-migrate_example =
    failover-migrate world 7 1 0 1 sender receiver 0 (seven-IsLocal (replicate 16 none))
      (λ e. absurd (omega (arith, e))) refl refl refl

abbrev client_cap : Capability
client_cap = cap_of 0 none (service 7)

route_send-migrate_example :
    let w' = (migrate world 7 1).1 in
    let (routed, w'') = route_send w' client_cap (97 ∷ []) in
    (routed ≡ to_remote 1)
    × (w''.sched ≡ w'.sched)
    × Stores w''.node.inbox ([] ++ (routed_message w'.sched (97 ∷ []) ∷ []))
route_send-migrate_example =
    route_send-migrate world 7 1 0 sender client_cap (97 ∷ []) []
      (seven-IsLocal (replicate 16 none)) refl refl new-Stores (omega arith)

-- Sixteen checkpoints of another service.
abbrev taken : Entries TaskCheckpoint
taken = replicate 16 (
    some (
      3,
      record {
        id = 5;
        state = sender.state;
        cap_table = [];
        ipc_buffer = none;
        msg_queue = no_messages;
      },
    ))

failover-migrate_full_example :
    let (count, w') = migrate (world_with taken) 7 1 in
    (count ≡ some (count_caps sender.cap_table))
    × (slot_at w'.sched.tasks 0 ≡ none)
    × (failover w' 7 1 ≡ (none, w'))
unfolding lookup
failover-migrate_full_example =
    failover-migrate_full (world_with taken) 7 1 0 1 sender (seven-IsLocal taken) refl refl
