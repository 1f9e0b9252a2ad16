-- ===== src/Service/Reply.antt =====
-- Where a service's reply goes.
use runix_os.Prelude.{ℕ, ◌≡◌, refl, arith, some, set, length-set, ◌∙◌}
use runix_os.Capability.{TaskId, get}
use runix_os.Capability.Table.{IsTable, get_lem, slot_at-set_self}
use runix_os.Task.{Task, Scheduler, get_task}
use runix_os.Task.Lookup.{get_task-update_task}
use runix_os.Ipc.{ok, resolve_target_locked}
use runix_os.Service.{install_channel, reply_channel}

-- After the installation the service's slot 1 resolves to the client, and to no one else.
pub resolve-install_channel :
    (sched : Scheduler) (service client : TaskId) (base : ℕ) (t : Task)
    → get_task sched service ≡ some t
    → IsTable t.cap_table
    → resolve_target_locked (install_channel sched service base client) service 1 ≡ ok client
unfolding resolve_target_locked install_channel
resolve-install_channel sched service client base t e v =
    let table = set t.cap_table 1 (some (reply_channel base client)) in
    let v' : IsTable table = length-set t.cap_table 1 (some (reply_channel base client)) ∙ v in
    let found : get_task (install_channel sched service base client) service
        ≡ some (record t { cap_table = table }) =
      ground (
        arith,
        get_task-update_task sched service service
            (λ t. record t { cap_table = set t.cap_table 1 (some (reply_channel base client)) }) t e
            refl,
      ) in
    let held : get table 1 ≡ some (reply_channel base client) =
      get_lem table 1 v'
      ∙ slot_at-set_self t.cap_table 1 (some (reply_channel base client)) (omega arith) in
    simp (found, held)
