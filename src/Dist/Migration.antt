-- ===== src/Dist/Migration.antt =====
-- A service that moves to another node, and comes back on a replica.
use runix_os.Prelude.{
  ℕ, ◌≡◌, ◌≢◌, inl, refl, sym, ap, ◌∙◌, arith, true, none, some, ◌==◌, set, slot_at, first_free,
  length-set,
}
use runix_os.Capability.{TaskId}
use runix_os.Capability.Table.{slot_at-set_self, slot_at-set_ne}
use runix_os.Task.{Task, Scheduler, get_task, update_task}
use runix_os.Task.Lookup.{get_task_found, get_task-update_task}
use runix_os.Snapshot.{TaskCheckpoint}
use runix_os.Dist.{
  NodeId, ServiceId, local, remote, World, lookup, resolve, set_location, host, count_caps,
  checkpoint_of, migrate, failover,
}
use runix_os.Dist.Registry.{lookup-take_free, take_free_full, resolve-set_location}

-- A world in which the service is local, on a task that exists.
pub record IsLocal (w : World) (svc : ServiceId) (task : TaskId) (t : Task) : Type 0 where
  pub route : resolve w.registry svc ≡ some (local task)
  pub found : get_task w.sched task ≡ some t

-- What a migration did.
pub record Migrated (w : World) (svc : ServiceId) (dest : NodeId) (task : TaskId) (t : Task)
    : Type 0 where
  pub carried : (migrate w svc dest).0 ≡ some (count_caps t.cap_table)
  pub route : resolve (migrate w svc dest).1.registry svc ≡ some (remote dest)
  pub other_routes :
      (other : ServiceId)
      → other ≢ svc
      → resolve (migrate w svc dest).1.registry other ≡ resolve w.registry other
  pub gone : slot_at (migrate w svc dest).1.sched.tasks task ≡ none
  pub other_tasks :
      (i : TaskId) → i ≢ task → get_task (migrate w svc dest).1.sched i ≡ get_task w.sched i
  pub hosted :
      (i : ℕ)
      → lookup w.node.services svc ≡ none
      → first_free w.node.services ≡ some i
      → lookup (migrate w svc dest).1.node.services svc ≡ some (checkpoint_of t)

-- The world after it.
abbrev pub migrated : World → ServiceId → NodeId → TaskId → Task → World
migrated w svc dest task t = record w {
  registry = set_location w.registry svc (remote dest);
  node = host w.node svc (checkpoint_of t);
  sched = record w.sched { tasks = set w.sched.tasks task none };
}

pub migrate_local :
    (w : World) (svc : ServiceId) (dest : NodeId) (task : TaskId) (t : Task)
    → IsLocal w svc task t
    → migrate w svc dest ≡ (some (count_caps t.cap_table), migrated w svc dest task t)
unfolding migrate
migrate_local w svc dest task t h = simp (migrate, h.route, h.found)

get_task-set-none :
    (s : Scheduler) (task i : TaskId)
    → i ≢ task
    → get_task (record s { tasks = set s.tasks task none }) i ≡ get_task s i
unfolding get_task
get_task-set-none s task i ne =
    simp
      (get_task, length-set s.tasks task none, slot_at-set_ne s.tasks task i none (λ e. ne (sym e)))

-- A service on a local task that exists is migrated: its capabilities are counted, its route goes to the
-- destination and no other route changes, its task is gone and no other task changes; and where the
-- node has a free entry and no checkpoint of the service, it has the task's checkpoint now.
pub migrate-Migrated :
    (w : World) (svc : ServiceId) (dest : NodeId) (task : TaskId) (t : Task)
    → IsLocal w svc task t
    → Migrated w svc dest task t
migrate-Migrated w svc dest task t h =
    let e = migrate_local w svc dest task t h in
    let (here, others) =
      resolve-set_location w.registry svc (remote dest) (inl (local task, h.route)) in
    let (at, id, lt) = get_task_found w.sched task h.found in
    record {
      carried = ap (λ x. x.0) e;
      route = ap (λ x. resolve x.1.registry svc) e ∙ here;
      other_routes = λ other ne. ap (λ x. resolve x.1.registry other) e ∙ others other ne;
      gone = ap (λ x. slot_at x.1.sched.tasks task) e ∙ slot_at-set_self w.sched.tasks task none lt;
      other_tasks = λ i ne. ap (λ x. get_task x.1.sched i) e ∙ get_task-set-none w.sched task i ne;
      hosted = λ i absent room.
          ap (λ x. lookup x.1.node.services svc) e
          ∙ lookup-take_free w.node.services svc i (checkpoint_of t) absent room;
    }

-- The world after a failover.
abbrev restored : TaskCheckpoint → Task → Task
restored cp r = record r {
  cap_table = cp.cap_table;
  ipc_buffer = cp.ipc_buffer;
  msg_queue = cp.msg_queue;
}

failover_found :
    (w : World) (svc : ServiceId) (replica : TaskId) (cp : TaskCheckpoint) (r : Task)
    → lookup w.node.services svc ≡ some cp
    → get_task w.sched replica ≡ some r
    → failover w svc replica ≡ (
      some (count_caps cp.cap_table),
      record w {
        registry = set_location w.registry svc (local replica);
        sched = update_task w.sched replica (restored cp);
      },
    )
unfolding failover
failover_found w svc replica cp r e f = simp (failover, e, f)

-- A service that is migrated, to a node with room and without a checkpoint of it, and fails over to a
-- replica, another task that exists: the replica has exactly the capabilities, the buffered message and
-- the queue that the service had, the count is that of the migration, and the route leads to the replica.
pub failover-migrate :
    (w : World) (svc : ServiceId) (dest : NodeId) (task replica : TaskId) (t r : Task) (i : ℕ)
    → IsLocal w svc task t
    → replica ≢ task
    → get_task w.sched replica ≡ some r
    → lookup w.node.services svc ≡ none
    → first_free w.node.services ≡ some i
    → let w' = (migrate w svc dest).1 in
      let (count, w'') = failover w' svc replica in
      (count ≡ (migrate w svc dest).0)
      × (get_task w''.sched replica
          ≡ some (record r {
            cap_table = t.cap_table;
            ipc_buffer = t.ipc_buffer;
            msg_queue = t.msg_queue;
          }))
      × (resolve w''.registry svc ≡ some (local replica))
failover-migrate w svc dest task replica t r i h ne found absent room =
    let m = migrate-Migrated w svc dest task t h in
    let w' = (migrate w svc dest).1 in
    let cp = m.hosted i absent room in
    let there : get_task w'.sched replica ≡ some r = m.other_tasks replica ne ∙ found in
    let e = failover_found w' svc replica (checkpoint_of t) r cp there in
    let (here, _) =
      resolve-set_location w'.registry svc (local replica) (inl (remote dest, m.route)) in
    let self : (replica == replica) ≡ true = ground arith in
    (
      ap (λ x. x.0) e ∙ sym m.carried,
      ap (λ x. get_task x.1.sched replica) e
          ∙ (get_task-update_task w'.sched replica replica (restored (checkpoint_of t)) r there refl
              ∙ simp self),
      ap (λ x. resolve x.1.registry svc) e ∙ here,
    )

-- On a node whose sixteen entries are taken, by other services, a migration says that it worked, but the
-- service is lost: its task is gone and no failover finds it.
pub failover-migrate_full :
    (w : World) (svc : ServiceId) (dest : NodeId) (task replica : TaskId) (t : Task)
    → IsLocal w svc task t
    → lookup w.node.services svc ≡ none
    → first_free w.node.services ≡ none
    → let (count, w') = migrate w svc dest in
      (count ≡ some (count_caps t.cap_table))
      × (slot_at w'.sched.tasks task ≡ none)
      × (failover w' svc replica ≡ (none, w'))
unfolding failover
failover-migrate_full w svc dest task replica t h absent full =
    let m = migrate-Migrated w svc dest task t h in
    let e = migrate_local w svc dest task t h in
    let lost : lookup (migrate w svc dest).1.node.services svc ≡ none =
      ap (λ x. lookup x.1.node.services svc) e
      ∙ (ap (λ s. lookup s svc) (take_free_full w.node.services svc (checkpoint_of t) full)
          ∙ absent) in
    (m.carried, m.gone, simp (failover, lost))
