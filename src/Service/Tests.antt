-- ===== src/Service/Tests.antt =====
-- Runs of the services for a task that holds a capability for an object of each.
use runix_os.Prelude.{
  ℕ, ◌≡◌, refl, arith, true, false, none, some, List, [], ◌∷◌, replicate, get_or-replicate, set,
}
use runix_os.Capability.{CapTable, kv_entry, log_channel, fs_node, device, sync_obj}
use runix_os.Message.{Message, IpcTag, kv_set, log_publish, fs_op, dev_op, sync_op}
use runix_os.Task.{Task, Scheduler, running, get_task, max_tasks}
use runix_os.Samples.{cap_of, task_of, pair_of, receiver}
use runix_os.Keyboard.{new as no_keys, push}
use runix_os.Keyboard.Buffered
use runix_os.Service.{some_cap, sender_holds}
use runix_os.Service.Authority.{Holds}
use runix_os.Service.Kv.{new as empty_store, handle as kv_handle}
use runix_os.Service.Kv.Access.{Served, handle-Served}
use runix_os.Service.Log
use runix_os.Service.Log.History.{new-Keeps}
use runix_os.Service.Log.Access as LogAccess
use runix_os.Service.Client.{fs_payload}
use runix_os.Service.Fs
use runix_os.Service.Fs.Listing.{FsNode}
use runix_os.Service.Fs.Nodes.{new-IsFs}
use runix_os.Service.Fs.Requests as FsAccess
use runix_os.Service.Fs.RoundTrip.{fs_message, read-write}
use runix_os.Service.Sync
use runix_os.Service.Sync.Permits.{Moves, IsSync, operate-IsSync}
use runix_os.Service.Sync.Sound.{AreSync, run, run-AreSync, fresh_object-IsSync}
use runix_os.Service.Device as Dev
use runix_os.Service.Device.Access.{handle-keyboard}

abbrev rich_table : CapTable
rich_table =
    some (cap_of 1 none (kv_entry 3 true true))
    ∷ some (cap_of 2 none (log_channel 5 true true))
    ∷ some (cap_of 3 none (fs_node 0 true true))
    ∷ some (cap_of 4 none (device 1 true true))
    ∷ some (cap_of 5 none (sync_obj 2))
    ∷ replicate 27 none

abbrev client : Task
client = task_of 0 running rich_table none

abbrev tasks : Scheduler
tasks = pair_of client receiver

abbrev request : IpcTag → List ℕ → Message
request tag payload = record { sender = 0; tag = tag; version = 1; payload = payload; len = 128 }

abbrev set_three : Message
set_three = request kv_set (3 ∷ replicate 127 7)

handle-Served_example :
    let (store', reply) = kv_handle empty_store tasks set_three in
    Served empty_store tasks set_three store' reply
unfolding empty_store
handle-Served_example = handle-Served empty_store tasks set_three refl

abbrev publish_five : Message
publish_five = request log_publish (5 ∷ replicate 127 65)

empty-IsLog : LogAccess.IsLog Log.new Log.new_cursors []
unfolding Log.new_cursors
empty-IsLog = record {
  keeps = new-Keeps;
  whole = refl;
  behind = λ t. omega (arith, get_or-replicate {A = ℕ} max_tasks t 0);
}

handle-Ends_example :
    LogAccess.Ends tasks 9 publish_five [] Log.new_cursors
      (Log.handle Log.new Log.new_cursors tasks 9 publish_five)
handle-Ends_example =
    LogAccess.handle-Ends Log.new Log.new_cursors tasks 9 publish_five [] empty-IsLog (omega arith)
      (omega arith)

abbrev path : List ℕ
path = 47 ∷ 97 ∷ []

abbrev write_hi : Message
write_hi = fs_message 0 1 0 path (104 ∷ 105 ∷ [])

handle-FsEnds_example : FsAccess.Ends Fs.new tasks write_hi (Fs.handle Fs.new tasks write_hi)
unfolding fs_payload
handle-FsEnds_example = FsAccess.handle-FsEnds Fs.new tasks write_hi new-IsFs refl

may_read : Holds tasks 0 (Fs.fs_grants 0 false)
unfolding get_task Fs.fs_grants
may_read = record {
  task = client;
  slot = 2;
  cap = cap_of 3 none (fs_node 0 true true);
  found = refl;
  held = refl;
  passes = refl;
}

-- The store that the write leaves.
abbrev written : List FsNode
written = set Fs.new 0 (record {
  used = true;
  is_dir = false;
  name = 47 ∷ 97 ∷ replicate 28 0;
  name_len = 2;
  contents = 104 ∷ 105 ∷ replicate 92 0;
  data_len = 2;
  mount = 0;
})

read-write_example :
    Fs.handle written tasks (fs_message 0 2 0 path []) ≡ some (written, 0 ∷ 2 ∷ 104 ∷ 105 ∷ [])
unfolding Fs.handle Fs.operate Fs.write Fs.store_file Fs.find_node Fs.find_unused Fs.fs_check_cap
    Fs.fs_grants Fs.new sender_holds some_cap get_task fs_payload
read-write_example =
    read-write Fs.new written tasks tasks 0 0 0 path (104 ∷ 105 ∷ []) (omega arith) (omega arith)
      new-IsFs refl may_read

abbrev list_nothing : Message
list_nothing = request fs_op (3 ∷ replicate 127 0)

handle-ListsNothing_example : Fs.handle Fs.new tasks list_nothing ≡ none
handle-ListsNothing_example =
    FsAccess.handle-ListsNothing Fs.new tasks list_nothing refl (omega arith)
      (record { op = refl; name_len = refl; authority = may_read })

abbrev acquire_two : Message
acquire_two = request sync_op (1 ∷ 2 ∷ replicate 126 0)

operate-IsSync_example :
    let e = Sync.operate Sync.fresh_object tasks acquire_two in
    (queue' : List ℕ) × Moves Sync.fresh_object [] tasks acquire_two e queue'
    × IsSync e.object queue'
operate-IsSync_example = operate-IsSync Sync.fresh_object [] tasks acquire_two fresh_object-IsSync

run-AreSync_example : AreSync (run Sync.new ((tasks, acquire_two) ∷ []))
run-AreSync_example = run-AreSync ((tasks, acquire_two) ∷ [])

-- The keyboard's buffer after one key.
abbrev one_key : Dev.Devices
one_key = record { keyboard = push no_keys 97; serial_in = []; serial_out = [] }

abbrev read_keys : Message
read_keys = request dev_op (0 ∷ 1 ∷ replicate 126 0)

may_type : Holds tasks 0 (Dev.dev_grants 1 false)
unfolding get_task Dev.dev_grants
may_type = record {
  task = client;
  slot = 3;
  cap = cap_of 4 none (device 1 true true);
  found = refl;
  held = refl;
  passes = refl;
}

handle-keyboard_example :
    let (devices', reply) = Dev.handle some one_key tasks read_keys in
    (reply ≡ 0 ∷ 1 ∷ 97 ∷ [])
    × Buffered.Holds devices'.keyboard []
    × (devices'.serial_in ≡ [])
    × (devices'.serial_out ≡ [])
handle-keyboard_example =
    handle-keyboard some one_key tasks read_keys (97 ∷ [])
      (Buffered.push-Holds no_keys [] 97 Buffered.new-Holds) refl (omega arith) refl refl may_type
