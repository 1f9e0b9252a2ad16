-- ===== src/Dist/Routing.antt =====
-- What a client's send does, wherever the service is, and that the node's inbox is emptied.
use runix_os.Prelude.{
  ℕ, zero, suc, ◌+◌, ◌<◌, ◌≡◌, refl, sym, ap, ◌∙◌, subst, arith, true, some, List, [], ◌∷◌, ◌++◌,
  ◌==◌, length, add_word,
}
use runix_os.Capability.{TaskId, Capability, service}
use runix_os.Message.{Message, msg_queue_capacity, enqueue, dequeue}
use runix_os.Message.Queue.{Stores, enqueue-Stores, dequeue-Stores}
use runix_os.Task.{Task}
use runix_os.Dist.{
  NodeId, ServiceId, remote, RemoteNode, World, resolve, to_remote, routed_message, deliver,
  transport_send, route_send, migrate, pump, pump_remote,
}
use runix_os.Dist.Migration.{IsLocal, migrate_local, migrate-Migrated}

route_send_remote :
    (w : World) (cap : Capability) (svc : ServiceId) (dest : NodeId) (payload : List ℕ)
    → cap.resource ≡ service svc
    → resolve w.registry svc ≡ some (remote dest)
    → route_send w cap payload ≡ (
      to_remote dest,
      record w { node = transport_send w.node dest (routed_message w.sched payload) },
    )
unfolding route_send deliver
route_send_remote w cap svc dest payload c r = simp (route_send, c, r, deliver)

transport_send_inbox :
    (node : RemoteNode) (dest : NodeId) (msg : Message)
    → node.id ≡ dest
    → (transport_send node dest msg).inbox ≡ (enqueue node.inbox msg).1
unfolding transport_send
transport_send_inbox node dest msg h =
    let e : (node.id == dest) ≡ true = ground (arith, h) in simp (transport_send, e)

-- After a migration the very same capability's sends go to the other node: they are told to be remote, no
-- task of this node is touched, and the message waits in the node's inbox, behind the others, when the
-- destination is that node and its inbox has room.
pub route_send-migrate :
    (w : World) (svc : ServiceId) (dest : NodeId) (task : TaskId) (t : Task) (cap : Capability)
    (payload : List ℕ) (ms : List Message)
    → IsLocal w svc task t
    → cap.resource ≡ service svc
    → w.node.id ≡ dest
    → Stores w.node.inbox ms
    → length ms < msg_queue_capacity
    → let w' = (migrate w svc dest).1 in
      let (routed, w'') = route_send w' cap payload in
      (routed ≡ to_remote dest)
      × (w''.sched ≡ w'.sched)
      × Stores w''.node.inbox (ms ++ (routed_message w'.sched payload ∷ []))
route_send-migrate w svc dest task t cap payload ms h c here v room =
    let m = migrate-Migrated w svc dest task t h in
    let e = migrate_local w svc dest task t h in
    let w' = (migrate w svc dest).1 in
    let sent = routed_message w'.sched payload in
    let s = route_send_remote w' cap svc dest payload c m.route in
    let inbox : w'.node.inbox ≡ w.node.inbox = ap (λ x. x.1.node.inbox) e in
    let id : w'.node.id ≡ dest = ap (λ x. x.1.node.id) e ∙ here in
    let q =
      ((enqueue-Stores w'.node.inbox ms sent (subst (λ b. Stores b ms) (sym inbox) v)).0 room).1 in
    (
      ap (λ x. x.0) s,
      ap (λ x. x.1.sched) s,
      subst (λ b. Stores b (ms ++ (sent ∷ [])))
          (sym (ap (λ x. x.1.node.inbox) s ∙ transport_send_inbox w'.node dest sent id)) q,
    )

-- The node after all of its messages were taken.
pub record Emptied (node node' : RemoteNode) (n : ℕ) : Type 0 where
  pub empty : Stores node'.inbox []
  pub services : node'.services ≡ node.services

pump_lem :
    (ms : List Message) (fuel count : ℕ) (node : RemoteNode)
    → Stores node.inbox ms
    → length ms < fuel
    → (node' : RemoteNode) × (pump fuel node count ≡ some (count + length ms, node'))
      × Emptied node node' (length ms)
unfolding pump
pump_lem ms zero count node v lt = absurd (omega (arith, lt))
pump_lem [] (suc fuel) count node v lt =
    let e = (dequeue-Stores node.inbox [] v).0 refl in
    (
      record node { inbox = node.inbox },
      simp (pump, e) (ap (λ n. some (n, node)) (omega arith)),
      record { empty = v; services = refl },
    )
pump_lem (m ∷ ms) (suc fuel) count node v lt =
    let (e, q) = (dequeue-Stores node.inbox (m ∷ ms) v).1 m ms refl in
    let node1 : RemoteNode = record node {
      inbox = (dequeue node.inbox).1;
      delivered = add_word node.delivered 1;
    } in
    let (node', f, x) = pump_lem ms fuel (count + 1) node1 q (omega (arith, lt)) in
    (
      node',
      simp (pump, e) (f ∙ ap (λ n. some (n, node')) (omega arith)),
      record { empty = x.empty; services = x.services },
    )

-- The loop that empties the inbox ends within nine rounds, and it has taken every message that waited.
pub pump_remote-Emptied :
    (node : RemoteNode) (ms : List Message)
    → Stores node.inbox ms
    → (node' : RemoteNode) × (pump_remote node ≡ some (length ms, node'))
      × Emptied node node' (length ms)
unfolding pump_remote
pump_remote-Emptied node ms v =
    let (node', e, x) = pump_lem ms 9 0 node v (omega (arith, v.bounded)) in
    (node', e ∙ ap (λ n. some (n, node')) (omega arith), x)
